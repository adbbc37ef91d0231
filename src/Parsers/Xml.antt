-- ===== src/Parsers/Xml.antt =====
-- Searches in an element tree: `find`, `findall`, `_text` and `_strip_namespaces`.
use dmarc_service.Base.{List, [], ◌∷◌, Option, none, some, if◌then◌else◌}
use dmarc_service.Base.Text.{Text, is_empty, text_eq, strip, after}
use dmarc_service.Parsers.Decoders.{Element, element, Elements, nil, cons}

abbrev pub tag_of : Element → Text
tag_of (element tag text children) = tag

abbrev pub text_of : Element → Text
text_of (element tag text children) = text

abbrev pub children_of : Element → Elements
children_of (element tag text children) = children

-- root.find(tag): the first child with the tag
unfoldable pub find_child : Text → Elements → Option Element
unfolding text_eq
find_child tag nil = none
find_child tag (cons e es) = if text_eq (tag_of e) tag then some e else find_child tag es

-- root.findall(tag)
unfoldable pub find_all : Text → Elements → List Element
unfolding text_eq
find_all tag nil = []
find_all tag (cons e es) =
    let rest = find_all tag es in if text_eq (tag_of e) tag then e ∷ rest else rest

-- root.find("a/b"): the first element on the path, in document order
unfoldable pub find_under : Text → Text → Elements → Option Element
unfolding text_eq find_child
find_under a b nil = none
find_under a b (cons e es) =
    let later = find_under a b es in
    if text_eq (tag_of e) a
    then elim (find_child b (children_of e)) [ some found ↦ some found | none ↦ later ]
    else later

-- root.find(".//tag"): the first descendant with the tag, in document order
unfoldable mutual
  pub find_descendant : Text → Element → Option Element
  find_descendant tag (element t text children) = find_in tag children

  pub find_in : Text → Elements → Option Element
  find_in tag nil = none
  find_in tag (cons e es) =
      let later = find_in tag es in
      let below = find_descendant tag e in
      if text_eq (tag_of e) tag
      then some e
      else elim below [ some found ↦ some found | none ↦ later ]

-- element.tag.split("}", 1)[1]
unfoldable pub plain_tag : Text → Text
unfolding after
plain_tag tag = elim (after b'}' tag) [ none ↦ tag | some rest ↦ rest ]

unfoldable mutual
  pub strip_namespaces : Element → Element
  strip_namespaces (element tag text children) =
      element (plain_tag tag) text (strip_children children)

  pub strip_children : Elements → Elements
  strip_children nil = nil
  strip_children (cons e es) = cons (strip_namespaces e) (strip_children es)

-- `_text` on what `find` found
unfoldable pub text_or_default : Option Element → Text → Text
unfolding strip
text_or_default none default = default
text_or_default (some e) default = if is_empty (text_of e) then default else strip (text_of e)
