-- ===== src/Parsers/Normalised.antt =====
-- What a parsed aggregate report promises to the code that stores it.
use dmarc_service.Base.{
  suc, ◌≡◌, ◌≢◌, refl, Bool, List, [], ◌∷◌, Option, none, some, is_some, select, length, take,
  Option-cases, Bool-cases, inl, inr, ap,
}
use dmarc_service.Base.Rows.{All}
use dmarc_service.Base.Text.{Text, Bytes, codes, is_empty, text_or, lower, lower_idem}
use dmarc_service.Base.Exec.{ok}
use dmarc_service.Base.Int.{pos}
use dmarc_service.Base.Fallible.{>>=-returned, ok-subst}
use dmarc_service.Parsers.Types.{ParsedAggregateRecord, ParsedAggregateReport}
use dmarc_service.Parsers.Decoders.{Element, Decoders}
use dmarc_service.Parsers.Xml.{find_all, children_of, strip_namespaces}
use dmarc_service.Parsers.Aggregate.{
  child, field, field_under, feedback_root, policy_domain_of, int_or, parse_record, parse_records,
  parse_feedback, parse_root, parse_parts, parse_aggregate_xml,
}

policy_domain_of-lower :
    (root : Element) (policy : Option Element)
    → lower (policy_domain_of root policy) ≡ policy_domain_of root policy
unfolding policy_domain_of
policy_domain_of-lower root policy =
    elim (Bool-cases (is_empty (lower (field policy "domain" "")))) [
      | inl unnamed ↦ rw unnamed (lower_idem _)
      | inr named ↦ rw named (lower_idem _)
    ]

abbrev pub IsLowerCase : ParsedAggregateRecord → Type 0
IsLowerCase r =
    (lower r.header_from ≡ r.header_from)
    × (lower r.envelope_from ≡ r.envelope_from)
    × (lower r.auth_dkim_domain ≡ r.auth_dkim_domain)
    × (lower r.auth_spf_domain ≡ r.auth_spf_domain)

-- the records that have a row
abbrev pub has_row : Element → Bool
has_row e = is_some (child "row" e)

module _ (dec : Decoders) where
  parse_record-IsLowerCase :
      (parent row : Element) {r : ParsedAggregateRecord}
      → parse_record dec parent row ≡ ok r
      → IsLowerCase r
  unfolding parse_record
  parse_record-IsLowerCase parent row {r} h =
      let (count, read, done) =
        >>=-returned (int_or dec (field (some row) "count" "0") (pos 0)) _ h in
      ok-subst IsLowerCase done (lower_idem _, lower_idem _, lower_idem _, lower_idem _)

  abbrev Faithful : List Element → List ParsedAggregateRecord → Type 0
  Faithful es rs = (length rs ≡ length (select has_row es)) × All IsLowerCase rs

  parse_records_lem :
      (es : List Element) {rs : List ParsedAggregateRecord}
      → parse_records dec es ≡ ok rs
      → Faithful es rs
  unfolding parse_records
  parse_records_lem [] h = ok-subst (Faithful []) h (refl, tt)
  parse_records_lem (e ∷ es) {rs} h = elim (Option-cases (child "row" e)) [
    | inl rowless ↦ rw rowless (parse_records_lem es (rw (parse_records, rowless) at h))
    | inr (row, found) ↦
        let (r, first, rest) =
          >>=-returned (parse_record dec e row) _ (rw (parse_records, found) at h) in
        let (rs', later, done) = >>=-returned (parse_records dec es) (λ rs. ok (r ∷ rs)) rest in
        let (same, lower_case) = parse_records_lem es later in
        rw found (
          ok-subst (λ l. (length l ≡ suc (length (select has_row es))) × All IsLowerCase l) done
            (ap suc same, (parse_record-IsLowerCase e row first, lower_case)))
  ]

  abbrev Complete : Element → ParsedAggregateReport → Type 0
  Complete root p =
      (p.org_name ≢ [])
      × (p.report_id ≢ [])
      × (lower p.policy_domain ≡ p.policy_domain)
      × (length p.records ≡ length (select has_row (find_all (codes "record") (children_of root))))
      × All IsLowerCase p.records

  text_or-nonempty : (s t : Text) → t ≢ [] → text_or s t ≢ []
  text_or-nonempty [] t h = h
  text_or-nonempty (c ∷ s) t h = λ e. cc

  unknown-nonempty : codes "unknown" ≢ []
  unknown-nonempty e = cc

  parse_feedback_lem :
      (document : Bytes) (root : Element) (metadata policy : Option Element)
      {p : ParsedAggregateReport}
      → take 32 (dec.sha256 document) ≢ []
      → parse_feedback dec document root metadata policy ≡ ok p
      → Complete root p
  unfolding parse_feedback
  parse_feedback_lem document root metadata policy hash h =
      let (begin, e1, h1) =
        >>=-returned (dec.epoch (field_under metadata "date_range" "begin" "0")) _ h in
      let (end, e2, h2) =
        >>=-returned (dec.epoch (field_under metadata "date_range" "end" "0")) _ h1 in
      let (pct, e3, h3) = >>=-returned (int_or dec (field policy "pct" "100") (pos 100)) _ h2 in
      let (records, parsed, done) =
        >>=-returned (parse_records dec (find_all (codes "record") (children_of root))) _ h3 in
      let (same, lower_case) =
        parse_records_lem (find_all (codes "record") (children_of root)) parsed in
      ok-subst (Complete root) done (
        text_or-nonempty (field metadata "org_name" "") (codes "unknown") unknown-nonempty,
        text_or-nonempty (field metadata "report_id" "") (take 32 (dec.sha256 document)) hash,
        policy_domain_of-lower root policy,
        same,
        lower_case,
      )

  parse_parts_lem :
      (document : Bytes) (root : Element) (metadata policy : Option Element)
      {p : ParsedAggregateReport}
      → take 32 (dec.sha256 document) ≢ []
      → parse_parts dec document root metadata policy ≡ ok p
      → Complete root p
  unfolding parse_parts
  parse_parts_lem document root none none hash h = cc
  parse_parts_lem document root none (some q) hash h =
      parse_feedback_lem document root none (some q) hash h
  parse_parts_lem document root (some m) none hash h =
      parse_feedback_lem document root (some m) none hash h
  parse_parts_lem document root (some m) (some q) hash h =
      parse_feedback_lem document root (some m) (some q) hash h

  -- A parsed aggregate report names an organisation and, where the hash of a document is a text, has a
  -- report id; its policy domain and every domain of its records are in lower case, as the
  -- registered domains are; and it has one record for each record of the document that has a row.
  pub parse_aggregate_xml_lem :
      (document : Bytes) {p : ParsedAggregateReport}
      → ((content : Bytes) → take 32 (dec.sha256 content) ≢ [])
      → parse_aggregate_xml dec document ≡ ok p
      → (tree : Element) × (dec.xml document ≡ ok tree)
        × (p.org_name ≢ [])
        × (p.report_id ≢ [])
        × (lower p.policy_domain ≡ p.policy_domain)
        × (length p.records
            ≡ length (
                select has_row (
                  find_all (codes "record") (children_of (feedback_root (strip_namespaces tree))))))
        × All IsLowerCase p.records
  unfolding parse_aggregate_xml parse_root
  parse_aggregate_xml_lem document {p} hash h =
      let (tree, read, rest) = >>=-returned (dec.xml document) _ h in
      let root = feedback_root (strip_namespaces tree) in
      let (org, id, domain, count, records) =
        parse_parts_lem document root (child "report_metadata" root) (child "policy_published" root)
          (hash document) rest in
      (tree, read, org, id, domain, count, records)
