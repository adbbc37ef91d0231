-- ===== src/Pipeline/Counted.antt =====
-- The counts that storing a message or an upload returns are the numbers of rows that it added.
use dmarc_service.Base.{
  ℕ, ◌+◌, ◌≤◌, ◌≡◌, refl, Bool, true, false, List, [], ◌∷◌, any, Bool-cases, inl, inr, ◌⊎◌,
  append-nil, Option, some, length, length-append, arith, if◌then◌else◌,
}
use dmarc_service.Base.Text.{Bytes}
use dmarc_service.Base.Exec.{
  Exc, Result, ok, raised, lift, bind-eq-ok, state-continue-pure, Result-cases,
}
use dmarc_service.Schema.{Source, Db}
use dmarc_service.Schema.Insert.{is_aggregate, is_tls}
use dmarc_service.Parsers.Types.{ParsedAggregateReport, ParsedTlsReport}
use dmarc_service.Parsers.Decoders.{Decoders}
use dmarc_service.Parsers.Documents.{Kind, classify, extract_report_payloads}
use dmarc_service.Parsers.Aggregate.{parse_aggregate_xml}
use dmarc_service.Parsers.Tlsrpt.{parse_tlsrpt_json}
use dmarc_service.Pipeline.Store.{
  Owner, Tally, store_aggregate, store_tlsrpt, store_document, store_documents, store_reports,
  one_more,
}
use dmarc_service.Pipeline.Grows.{
  store_aggregate_old, store_aggregate_new, store_tlsrpt_old, store_tlsrpt_new,
}

-- the rows that a call added, if it added `a` aggregate reports and `t` TLS reports
abbrev pub Added : ℕ → ℕ → Db → Db → Type 0
Added a t db db' =
    (length db'.aggregate_reports ≡ length db.aggregate_reports + a)
    × (length db'.tls_reports ≡ length db.tls_reports + t)

abbrev pub as_count : Bool → ℕ
as_count b = if b then 1 else 0

pub store_aggregate_counted :
    (p : ParsedAggregateReport) (raw_id : ℕ) (o : Owner) (db : Db)
    → (b : Bool) × (db' : Db) × (store_aggregate p raw_id o db ≡ (ok b, db'))
      × Added (as_count b) 0 db db'
store_aggregate_counted p raw_id o db =
    elim (Bool-cases
      (any (is_aggregate p.org_name p.report_id p.policy_domain) db.aggregate_reports)) [
        | inl old ↦ (false, db, store_aggregate_old p raw_id o db old, (omega arith, omega arith))
        | inr new ↦ (
          true,
          _,
          store_aggregate_new p raw_id o db new,
          (rw length-append (omega arith), rw append-nil (omega arith)),
        )
      ]

pub store_tlsrpt_counted :
    (p : ParsedTlsReport) (raw_id : Option ℕ) (o : Owner) (source : Source) (db : Db)
    → (b : Bool) × (db' : Db) × (store_tlsrpt p raw_id o source db ≡ (ok b, db'))
      × Added 0 (as_count b) db db'
store_tlsrpt_counted p raw_id o source db =
    elim (Bool-cases (any (is_tls p.organization_name p.report_id) db.tls_reports)) [
      | inl old ↦ (false, db, store_tlsrpt_old p raw_id o source db old, (omega arith, omega arith))
      | inr new ↦ (
        true,
        _,
        store_tlsrpt_new p raw_id o source db new,
        (rw append-nil (omega arith), rw length-append (omega arith)),
      )
    ]

abbrev pub report_count : Db → ℕ
report_count db = length db.aggregate_reports + length db.tls_reports

abbrev Tallied : Tally → Db → Db → Type 0
Tallied t db db' = (report_count db' ≡ report_count db + t.1) × (t.1 ≤ t.0)

-- Either nothing was done, or what was counted was added.
abbrev Counted : Result Tally × Db → Db → Type 0
Counted run db =
    ((x : Exc) × (run ≡ (raised x, db)))
    ⊎ ((t : Tally) × (db' : Db) × (run ≡ (ok t, db')) × Tallied t db db')

module _ (dec : Decoders) (i : ℕ) (o : Owner) where
  store_document-Counted :
      (kind : Kind) (document : Bytes) (db : Db)
      → Counted (store_document dec i o kind document db) db
  unfolding store_document
  store_document-Counted Kind.aggregate document db =
      elim (Result-cases (parse_aggregate_xml dec document)) [
        | inr (x, e) ↦ inl (x, rw (store_document, e) refl)
        | inl (p, e) ↦
            let (b, db', stored, added) = store_aggregate_counted p i o db in
            inr (one_more b, db', rw (store_document, e) (rw stored refl), ground arith)
      ]
  store_document-Counted Kind.tlsrpt document db =
      elim (Result-cases (parse_tlsrpt_json dec document)) [
        | inr (x, e) ↦ inl (x, rw (store_document, e) refl)
        | inl (p, e) ↦
            let (b, db', stored, added) = store_tlsrpt_counted p (some i) o Source.smtp db in
            inr (one_more b, db', rw (store_document, e) (rw stored refl), ground arith)
      ]
  store_document-Counted Kind.unknown document db =
      inr ((0, 0), db, refl, (omega arith, omega arith))

  store_documents_counted :
      (documents : List Bytes) (db : Db) {t : Tally}
      → (store_documents dec i o documents db).0 ≡ ok t
      → Tallied t db (store_documents dec i o documents db).1
  unfolding store_documents
  store_documents_counted [] db {t} h = ground arith
  store_documents_counted (document ∷ documents) db {t} h =
      let (kind, classified, rest) = bind-eq-ok (lift (classify dec document)) _ db h in
      let (this, stored, rest') = bind-eq-ok (store_document dec i o kind document) _ db rest in
      elim (store_document-Counted kind document db) [
        | inl (x, failed) ↦ cc
        | inr (t1, db', done, tallied) ↦
            let same : ok t1 ≡ ok this = rw done at stored in
            let (others, later, total) =
              bind-eq-ok (store_documents dec i o documents) _ db' (rw done at rest') in
            let more = store_documents_counted documents db' later in
            let sum : ok (this.0 + others.0, this.1 + others.1) ≡ ok t = total in
            rw (classified, done)
              (rw
                (state-continue-pure {B = Tally} (store_documents dec i o documents db').0
                  (λ (n : Tally). (t1.0 + n.0, t1.1 + n.1))
                  (store_documents dec i o documents db').1)
                (ground (arith, tallied, more, same, sum)))
      ]

  -- Of the reports of a message that are understood, those that are counted as stored are those
  -- that were added, and every other one was held already.
  pub store_reports_counted :
      (content : Bytes) (db : Db) {t : Tally}
      → (store_reports dec i o content db).0 ≡ ok t
      → (report_count (store_reports dec i o content db).1 ≡ report_count db + t.1) × (t.1 ≤ t.0)
  unfolding store_reports
  store_reports_counted content db h =
      let (documents, extracted, rest) =
        bind-eq-ok (lift (extract_report_payloads dec content)) _ db h in
      rw extracted (store_documents_counted documents db rest)
