-- ===== src/ControlPlane/Named.antt =====
-- `_names_expected_address` of control_plane/service.py on the requested record itself.
use dmarc_service.Base.{
  ℕ, ◌≡◌, refl, sym, ap, ◌∙◌, Bool, true, not, ◌&&◌, ◌||◌, List, [], ◌∷◌, any, map, select, ◌==◌,
  arith, if◌then◌else◌, Bool-cases, inl, inr,
}
use mathlib.Core.List.{map-map}
use mathlib.Core.Path.{subst}
use dmarc_service.Base.Text.{
  Text, codes, is_empty, is_space, text_eq, eq_of_text_eq, occurs, strip, strip_by, lstrip_by,
  rstrip_by, remove_prefix, replace, words, words_from,
}
use dmarc_service.Base.Text.Parts.{
  IsPart, IsPart-trans, IsPart-occurs, has, has-occurs, lstrip_by-IsPart, rstrip_by-IsPart,
  has-lstrip_by, has-rstrip_by, remove_prefix-IsPart, has-remove_prefix, has-not_empty,
}
use dmarc_service.Base.Text.Split.{word_from}
use dmarc_service.ControlPlane.Records.{DnsRecord}
use dmarc_service.ControlPlane.Check.{expected_addresses, names_expected_address}

-- a text that is among the texts and passes the tests
pub any-text_eq :
    (p : Text → Bool) (u : Text) (xs : List Text)
    → any (text_eq u) xs ≡ true
    → p u ≡ true
    → any p xs ≡ true
any-text_eq p u [] h k = cc
any-text_eq p u (x ∷ xs) h k = elim (Bool-cases (text_eq u x)) [
  | inl e ↦ rw (subst (λ y. p y ≡ true) (eq_of_text_eq u x e) k) refl
  | inr e ↦ ground (arith, any-text_eq p u xs, h, k)
]

any-map-select :
    (p : Text → Bool) (g : Text → Text) (q : Text → Bool) (u : Text) (xs : List Text)
    → any (text_eq u) xs ≡ true
    → q u ≡ true
    → p (g u) ≡ true
    → any p (map g (select q xs)) ≡ true
any-map-select p g q u [] h k l = cc
any-map-select p g q u (x ∷ xs) h k l = elim (Bool-cases (text_eq u x)) [
  | inl e ↦
      (let eq : u ≡ x = eq_of_text_eq u x e in
        rw (subst (λ y. q y ≡ true) eq k) (rw (subst (λ y. p (g y) ≡ true) eq l) refl))
  | inr e ↦
      (let rest = any-map-select p g q u xs (ground (arith, h)) k l in
        elim (Bool-cases (q x)) [ inl a ↦ rw a (ground (arith, rest)) | inr a ↦ rw a rest ])
]

abbrev put : ℕ → ℕ → ℕ → ℕ
put c d a = if a == c then d else a

replace-map : (c d : ℕ) (s : Text) → replace c d s ≡ map (put c d) s
unfolding replace
replace-map c d [] = refl
replace-map c d (a ∷ s) = ap (λ t. put c d a ∷ t) (replace-map c d s)

-- a part of the requested record as an address
abbrev trimmed : Text → Text
trimmed part =
    remove_prefix (rstrip_by (λ c. c == b',' || c == b';') (strip part)) (codes "mailto:")

trimmed-IsPart : (u : Text) → IsPart (trimmed u) u
unfolding strip strip_by
trimmed-IsPart u =
    let a = lstrip_by is_space u in
    let b = rstrip_by is_space a in
    let c = rstrip_by (λ c. c == b',' || c == b';') b in
    IsPart-trans (trimmed u) c u (remove_prefix-IsPart c (codes "mailto:")) (
      IsPart-trans c b u (rstrip_by-IsPart (λ c. c == b',' || c == b';') b)
        (IsPart-trans b a u (rstrip_by-IsPart is_space a) (lstrip_by-IsPart is_space u)))

trimmed-has : (u : Text) → has b'@' u ≡ true → has b'@' (trimmed u) ≡ true
unfolding strip strip_by is_space
trimmed-has u h =
    let a = lstrip_by is_space u in
    let b = rstrip_by is_space a in
    has-remove_prefix b'@' (rstrip_by (λ c. c == b',' || c == b';') b) (codes "mailto:") refl (
      has-rstrip_by (λ c. c == b',' || c == b';') b'@' refl b
        (has-rstrip_by is_space b'@' refl a (has-lstrip_by is_space b'@' refl u h)))

trimmed_ok :
    (u s : Text)
    → has b'@' u ≡ true
    → IsPart u s
    → (not (is_empty (trimmed u)) && occurs (trimmed u) s) ≡ true
trimmed_ok u s held part =
    rw
      (
        has-not_empty b'@' (trimmed u) (trimmed-has u held),
        IsPart-occurs (trimmed u) s (IsPart-trans (trimmed u) u s (trimmed-IsPart u) part),
      )
      refl

-- A record with a @ names one of the addresses that it asks for.
pub names_expected_address_lem :
    (r : DnsRecord) → has b'@' r.content ≡ true → names_expected_address r r.content ≡ true
unfolding names_expected_address expected_addresses words is_space
names_expected_address_lem r h =
    let f : ℕ → ℕ = λ c. put b',' b' ' (put b';' b' ' c) in
    let spaced : replace b',' b' ' (replace b';' b' ' r.content) ≡ map f r.content =
      ap (replace b',' b' ') (replace-map b';' b' ' r.content)
      ∙ (replace-map b',' b' ' (map (put b';' b' ') r.content)
          ∙ map-map (put b',' b' ') (put b';' b' ') r.content) in
    let (u, found, held, part) =
      word_from f b'@' (λ c e. ground arith) refl [] [] r.content (ground (arith, h)) in
    any-map-select (λ a. not (is_empty a) && occurs a r.content) trimmed (occurs (codes "@")) u
      (words_from [] (replace b',' b' ' (replace b';' b' ' r.content)))
      (subst (λ t. any (text_eq u) (words_from [] t) ≡ true) (sym spaced) found)
      (has-occurs b'@' u held) (trimmed_ok u r.content held part)
