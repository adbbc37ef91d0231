-- ===== src/ControlPlane/Agreed.antt =====
-- The requested records against the tests of the check that are made on them.
use dmarc_service.Base.{
  ◌≡◌, ◌≢◌, refl, Bool, true, List, [], ◌∷◌, ◌++◌, some, any, map, select, ◌⊎◌, arith,
  if◌then◌else◌, Bool-cases, inl, inr,
}
use mathlib.Core.Path.{subst}
use mathlib.Core.List.{append-nil, append_assoc}
use dmarc_service.Base.Rows.{All}
use dmarc_service.Base.Text.{
  Text, codes, is_empty, is_space, text_eq, eq_of_text_eq, occurs, strip, starts_with, last_part,
  join,
}
use dmarc_service.Base.Text.Parts.{
  IsPart, IsPart-refl, IsPart-trans, IsPart-occurs, has, has-IsPart,
}
use dmarc_service.Base.Text.Split.{strip-prefix, last_part-IsPart}
use dmarc_service.Config.{Settings}
use dmarc_service.Schema.{Domain, ReportAddress, Db}
use dmarc_service.ControlPlane.Provision.{active_addresses, delivery_address, org_domain}
use dmarc_service.ControlPlane.Records.{
  DnsRecord, at_host, mailtos, any_mailto, dmarc_record, tls_record, verification_record,
  required_dns_records,
}
use dmarc_service.ControlPlane.Check.{
  no_markers, names_expected_address, DnsStatus, status_of_ours, status_of,
}
use dmarc_service.ControlPlane.Named.{any-text_eq, names_expected_address_lem}

-- the record passes its own tests
abbrev pub Agrees : DnsRecord → Type 0
Agrees r =
    (occurs r.must_contain r.content ≡ true)
    × (starts_with (strip r.content) r.must_start_with ≡ true)
    × ((has b'@' r.content ≡ true) ⊎ (r.retired_markers ≡ []))

any-select :
    (u : Text) (q : Text → Bool) (xs : List Text)
    → any (text_eq u) xs ≡ true
    → q u ≡ true
    → any (text_eq u) (select q xs) ≡ true
any-select u q [] h k = cc
any-select u q (x ∷ xs) h k = elim (Bool-cases (text_eq u x)) [
  | inl e ↦ rw (subst (λ y. q y ≡ true) (eq_of_text_eq u x e) k) (rw e refl)
  | inr e ↦
      (let rest = any-select u q xs (ground (arith, h)) k in
        elim (Bool-cases (q x)) [ inl a ↦ rw a (ground (arith, rest)) | inr a ↦ rw a rest ])
]

named_or_new :
    (r : DnsRecord) (ours : List Text)
    → any (text_eq r.content) ours ≡ true
    → Agrees r
    → (no_markers r.retired_markers ≡ true) ⊎ (any (names_expected_address r) ours ≡ true)
named_or_new r ours h (a, b, inl held) =
    inr
      (any-text_eq (names_expected_address r) r.content ours h (names_expected_address_lem r held))
named_or_new r ours h (a, b, inr e) = inl (rw e refl)

status_of_ours_lem :
    (r : DnsRecord) (ours : List Text)
    → any (text_eq r.content) ours ≡ true
    → Agrees r
    → status_of_ours r ours ≡ DnsStatus.ok
unfolding status_of_ours
status_of_ours_lem r [] h agrees = cc
status_of_ours_lem r (a ∷ ours) h agrees =
    let starts : any (λ t. starts_with (strip t) r.must_start_with) (a ∷ ours) ≡ true =
      any-text_eq (λ t. starts_with (strip t) r.must_start_with) r.content (a ∷ ours) h agrees.1 in
    elim (named_or_new r (a ∷ ours) h agrees) [
      | inl e ↦ ground (arith, starts, e)
      | inr e ↦ ground (arith, starts, e)
    ]

-- a published record is reported ok, whatever else has the same name
pub status_of_lem :
    (r : DnsRecord) (answers : List Text)
    → any (text_eq r.content) answers ≡ true
    → Agrees r
    → status_of r (some answers) ≡ DnsStatus.ok
unfolding status_of
status_of_lem r [] h agrees = cc
status_of_lem r (a ∷ answers) h agrees =
    status_of_ours_lem r (select (occurs r.must_contain) (a ∷ answers))
      (any-select r.content (occurs r.must_contain) (a ∷ answers) h agrees.0) agrees

-- There is an address to ask for: an active one of the domain, or that of a shared mailbox, which has a
-- host.
abbrev pub IsDeliverable : Text → List ReportAddress → Type 0
IsDeliverable [] addresses = addresses ≢ []
IsDeliverable (c ∷ shared) addresses = has b'@' (c ∷ shared) ≡ true

module _ (host : Text) where
  abbrev listed : List ReportAddress → Text
  listed addresses = join (codes ",") (map (λ a. codes "mailto:" ++ at_host host a) addresses)

  listed-IsPart :
      (addresses : List ReportAddress)
      → addresses ≢ []
      → IsPart (codes "@" ++ host) (listed addresses)
  unfolding join
  listed-IsPart [] h = absurd (h refl)
  listed-IsPart (a ∷ []) h = (codes "mailto:" ++ a.local_part, [], simp (append-nil))
  listed-IsPart (a ∷ b ∷ addresses) h =
      (codes "mailto:" ++ a.local_part, codes "," ++ listed (b ∷ addresses), simp (append_assoc))

  requested-IsPart :
      (shared : Text) (addresses : List ReportAddress)
      → IsDeliverable shared addresses
      → IsPart
          (codes "@" ++ (if is_empty shared then host else last_part b'@' shared))
          (if is_empty shared then listed addresses else codes "mailto:" ++ shared)
  requested-IsPart [] addresses h = listed-IsPart addresses h
  requested-IsPart (c ∷ shared) addresses h =
      IsPart-trans (b'@' ∷ last_part b'@' (c ∷ shared)) (c ∷ shared) (codes "mailto:" ++ c ∷ shared)
        (last_part-IsPart b'@' (c ∷ shared) h) (codes "mailto:", [], simp (append-nil))

module _ (top_domain : Text → Text) (settings : Settings) (db : Db) (d : Domain)
    (h : IsDeliverable (delivery_address db) (active_addresses db d)) where
  -- what a record for the reports must contain is in it, if the addresses are
  asked-IsPart : (before : Text) → IsPart (any_mailto settings db) (before ++ mailtos settings db d)
  unfolding any_mailto mailtos
  asked-IsPart before =
      IsPart-trans (any_mailto settings db) (mailtos settings db d)
        (before ++ mailtos settings db d)
        (requested-IsPart settings.report_host (delivery_address db) (active_addresses db d) h)
        (before, [], simp (append-nil))

  has-asked : (content : Text) → IsPart (any_mailto settings db) content → has b'@' content ≡ true
  unfolding any_mailto
  has-asked content part = has-IsPart b'@' (any_mailto settings db) content refl part

  dmarc_record-Agrees : Agrees (dmarc_record settings db d)
  unfolding dmarc_record is_space
  dmarc_record-Agrees =
      let part = asked-IsPart (codes "v=DMARC1; p=none; rua=") in
      let content = codes "v=DMARC1; p=none; rua=" ++ mailtos settings db d in
      (
        IsPart-occurs (any_mailto settings db) content part,
        strip-prefix b'v' (codes "=DMARC1") (codes "; p=none; rua=" ++ mailtos settings db d) refl,
        inl (has-asked content part),
      )

  tls_record-Agrees : Agrees (tls_record settings db d)
  unfolding tls_record is_space
  tls_record-Agrees =
      let content =
        codes "v=TLSRPTv1; rua="
        ++ (settings.external_url ++ (codes "/tlsrpt," ++ mailtos settings db d)) in
      let part : IsPart (any_mailto settings db) content =
        subst (IsPart (any_mailto settings db)) (simp (append_assoc)) (
          asked-IsPart (codes "v=TLSRPTv1; rua=" ++ (settings.external_url ++ codes "/tlsrpt,"))) in
      (
        IsPart-occurs (any_mailto settings db) content part,
        strip-prefix b'v' (codes "=TLSRPTv1")
            (codes "; rua="
              ++ (settings.external_url ++ (codes "/tlsrpt," ++ mailtos settings db d)))
            refl,
        inl (has-asked content part),
      )

  verification_record-Agrees : Agrees (verification_record top_domain settings d)
  unfolding verification_record is_space
  verification_record-Agrees = (
    IsPart-occurs (codes "v=DMARC1") (codes "v=DMARC1") (IsPart-refl (codes "v=DMARC1")),
    strip-prefix b'v' (codes "=DMARC1") [] refl,
    inr refl,
  )

  pub required_dns_records-Agrees : All Agrees (required_dns_records top_domain settings db d)
  unfolding required_dns_records
  required_dns_records-Agrees =
      elim (Bool-cases
        (text_eq (org_domain top_domain d.name) (org_domain top_domain settings.report_host))) [
          | inl e ↦ rw e (dmarc_record-Agrees, (tls_record-Agrees, tt))
          | inr e ↦
              rw e (dmarc_record-Agrees, (tls_record-Agrees, (verification_record-Agrees, tt)))
        ]
