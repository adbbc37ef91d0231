-- ===== src/Parsers/Aggregate.antt =====
-- `parse_aggregate_xml` of ingest/parsers.py.
use dmarc_service.Base.{List, [], ◌∷◌, ◌++◌, Option, none, some, take, if◌then◌else◌, String}
use dmarc_service.Base.Int.{ℤ, pos}
use dmarc_service.Base.Text.{Text, Bytes, codes, is_empty, text_eq, text_or, lower}
use dmarc_service.Base.Exec.{Result, ok, raised, value_error}
use dmarc_service.Base.Fallible.{◌>>=◌}
use dmarc_service.Parsers.Types.{ParsedAggregateRecord, ParsedAggregateReport}
use dmarc_service.Parsers.Decoders.{Element, Decoders}
use dmarc_service.Parsers.Xml.{
  tag_of, children_of, find_child, find_all, find_under, find_descendant, strip_namespaces,
  text_or_default,
}

abbrev pub child : String → Element → Option Element
child tag e = find_child (codes tag) (children_of e)

-- `_text(e, tag, default) if e is not None else default`
unfoldable pub field : Option Element → String → String → Text
unfolding text_or_default find_child
field none tag default = codes default
field (some e) tag default = text_or_default (child tag e) (codes default)

-- the same for a path of two steps
unfoldable pub field_under : Option Element → String → String → String → Text
unfolding text_or_default find_under
field_under none a b default = codes default
field_under (some e) a b default =
    text_or_default (find_under (codes a) (codes b) (children_of e)) (codes default)

-- the element `feedback`, also inside an outer element
unfoldable pub feedback_root : Element → Element
unfolding text_eq find_descendant
feedback_root root =
    if text_eq (tag_of root) (codes "feedback")
    then root
    else elim (find_descendant (codes "feedback") root) [ none ↦ root | some nested ↦ nested ]

unfoldable pub policy_domain_of : Element → Option Element → Text
unfolding field lower find_under
policy_domain_of root policy =
    let named = lower (field policy "domain" "") in
    if is_empty named
    then lower (
        field (find_under (codes "record") (codes "identifiers") (children_of root)) "header_from"
          "")
    else named

module _ (dec : Decoders) where
  -- `int(text or default)`
  unfoldable pub int_or : Text → ℤ → Result ℤ
  int_or text default = if is_empty text then ok default else dec.int_of text

  unfoldable pub parse_record : Element → Element → Result ParsedAggregateRecord
  unfolding field lower int_or
  parse_record row_parent row = do
    let identifiers = child "identifiers" row_parent
    let auth = child "auth_results" row_parent
    let evaluated = child "policy_evaluated" row
    let dkim : Option Element = elim auth [ none ↦ none | some a ↦ child "dkim" a ]
    let spf : Option Element = elim auth [ none ↦ none | some a ↦ child "spf" a ]
    count ← int_or (field (some row) "count" "0") (pos 0)
    ok (record {
      source_ip = field (some row) "source_ip" "";
      count = count;
      disposition = field evaluated "disposition" "none";
      dkim_result = field evaluated "dkim" "";
      spf_result = field evaluated "spf" "";
      header_from = lower (field identifiers "header_from" "");
      envelope_from = lower (field identifiers "envelope_from" "");
      auth_dkim_domain = lower (field dkim "domain" "");
      auth_dkim_result = field dkim "result" "";
      auth_spf_domain = lower (field spf "domain" "");
      auth_spf_result = field spf "result" "";
    })

  -- a record with no row is passed over
  unfoldable pub parse_records : List Element → Result (List ParsedAggregateRecord)
  unfolding parse_record
  parse_records [] = ok []
  parse_records (e ∷ es) =
      let rest = parse_records es in
      elim (child "row" e) [
        | none ↦ rest
        | some row ↦ parse_record e row >>= λ r. rest >>= λ rs. ok (r ∷ rs)
      ]

  unfoldable pub parse_feedback :
      Bytes → Element → Option Element → Option Element → Result ParsedAggregateReport
  unfolding field field_under policy_domain_of parse_records int_or find_all
  parse_feedback document root metadata policy = do
    let report_id = field metadata "report_id" ""
    begin ← dec.epoch (field_under metadata "date_range" "begin" "0")
    end ← dec.epoch (field_under metadata "date_range" "end" "0")
    pct ← int_or (field policy "pct" "100") (pos 100)
    records ← parse_records (find_all (codes "record") (children_of root))
    ok (record {
      org_name = text_or (field metadata "org_name" "") (codes "unknown");
      org_email = field metadata "email" "";
      report_id = text_or report_id (take 32 (dec.sha256 document));
      date_begin = begin;
      date_end = end;
      policy_domain = policy_domain_of root policy;
      policy_adkim = field policy "adkim" "r";
      policy_aspf = field policy "aspf" "r";
      policy_p = field policy "p" "none";
      policy_sp = field policy "sp" "";
      policy_pct = pct;
      records = records;
    })

  abbrev pub not_dmarc : Element → Text
  not_dmarc root =
      codes "not a DMARC aggregate report: <"
      ++ (tag_of root ++ codes "> has neither report_metadata nor policy_published")

  unfoldable pub parse_parts :
      Bytes → Element → Option Element → Option Element → Result ParsedAggregateReport
  unfolding parse_feedback
  parse_parts document root none none = raised (value_error (not_dmarc root))
  parse_parts document root metadata policy = parse_feedback document root metadata policy

  unfoldable pub parse_root : Bytes → Element → Result ParsedAggregateReport
  unfolding parse_parts find_child
  parse_root document root =
      parse_parts document root (child "report_metadata" root) (child "policy_published" root)

  unfoldable pub parse_aggregate_xml : Bytes → Result ParsedAggregateReport
  unfolding parse_root feedback_root strip_namespaces
  parse_aggregate_xml document = do
    tree ← dec.xml document
    parse_root document (feedback_root (strip_namespaces tree))
