-- ===== src/Pipeline/Again.antt =====
-- A message that comes a second time adds nothing.
use dmarc_service.Base.{
  ℕ, ◌+◌, ◌≡◌, true, List, [], ◌∷◌, Option, some, any, Bool-cases, inl, inr, arith, any-append,
  any-append_left,
}
use dmarc_service.Base.Text.{Text, Bytes, text_eq_refl}
use dmarc_service.Base.Exec.{ok, lift, continue, bind-eq-ok, state-continue-pure}
use dmarc_service.Schema.{Source, Db}
use dmarc_service.Schema.Insert.{is_aggregate, is_tls}
use dmarc_service.Parsers.Types.{ParsedAggregateReport, ParsedTlsReport}
use dmarc_service.Parsers.Decoders.{Decoders}
use dmarc_service.Parsers.Documents.{Kind, classify, extract_report_payloads}
use dmarc_service.Parsers.Aggregate.{parse_aggregate_xml}
use dmarc_service.Parsers.Tlsrpt.{parse_tlsrpt_json}
use dmarc_service.Pipeline.Store.{
  Owner, Tally, store_aggregate, store_tlsrpt, store_document, store_documents, store_reports,
  one_more, stored_aggregate, stored_tls,
}
use dmarc_service.Pipeline.Grows.{
  Grows, Adds, Grows-Adds, store_aggregate_old, store_aggregate_new, store_tlsrpt_old,
  store_tlsrpt_new, store_documents-Grows,
}

abbrev pub HoldsAggregate : ParsedAggregateReport → Db → Type 0
HoldsAggregate p db =
    any (is_aggregate p.org_name p.report_id p.policy_domain) db.aggregate_reports ≡ true

abbrev pub HoldsTls : ParsedTlsReport → Db → Type 0
HoldsTls p db = any (is_tls p.organization_name p.report_id) db.tls_reports ≡ true

-- Every report key of the first database is a key of the second.
pub record Holds (before after : Db) : Type 0 where
  pub aggregates :
      (org report_id domain : Text)
      → any (is_aggregate org report_id domain) before.aggregate_reports ≡ true
      → any (is_aggregate org report_id domain) after.aggregate_reports ≡ true
  pub tls :
      (org report_id : Text)
      → any (is_tls org report_id) before.tls_reports ≡ true
      → any (is_tls org report_id) after.tls_reports ≡ true

Adds-Holds : {before after : Db} → Adds before after → Holds before after
Adds-Holds {before} {after} g = record {
  aggregates = λ org report_id domain h.
      rw g.more_aggregates (
        any-append_left (is_aggregate org report_id domain) before.aggregate_reports g.aggregates
          h);
  tls = λ org report_id h.
      rw g.more_tls (any-append_left (is_tls org report_id) before.tls_reports g.tls h);
}

Grows-Holds : {before after : Db} → Grows before after → Holds before after
Grows-Holds g = Adds-Holds (Grows-Adds g)

Holds-trans : {a b c : Db} → Holds a b → Holds b c → Holds a c
Holds-trans h k = record {
  aggregates = λ org report_id domain e.
      k.aggregates org report_id domain (h.aggregates org report_id domain e);
  tls = λ org report_id e. k.tls org report_id (h.tls org report_id e);
}

pub Holds-refl : (db : Db) → Holds db db
Holds-refl db = record { aggregates = λ org report_id domain h. h; tls = λ org report_id h. h }

-- What was just stored, or was a duplicate, is held, and stays held as reports are added.
pub store_aggregate-Holds :
    (p : ParsedAggregateReport) (raw_id : ℕ) (o : Owner) (db e : Db)
    → Holds (store_aggregate p raw_id o db).1 e
    → HoldsAggregate p e
unfolding stored_aggregate
store_aggregate-Holds p raw_id o db e g = g.aggregates p.org_name p.report_id p.policy_domain held
  where
    held : HoldsAggregate p (store_aggregate p raw_id o db).1
    held =
        elim (Bool-cases
          (any (is_aggregate p.org_name p.report_id p.policy_domain) db.aggregate_reports)) [
            | inl old ↦ rw (store_aggregate_old p raw_id o db old) old
            | inr new ↦
                rw (store_aggregate_new p raw_id o db new)
                  (rw (any-append, new, text_eq_refl, text_eq_refl, text_eq_refl))
          ]

pub store_tlsrpt-Holds :
    (p : ParsedTlsReport) (raw_id : Option ℕ) (o : Owner) (source : Source) (db e : Db)
    → Holds (store_tlsrpt p raw_id o source db).1 e
    → HoldsTls p e
unfolding stored_tls
store_tlsrpt-Holds p raw_id o source db e g = g.tls p.organization_name p.report_id held
  where
    held : HoldsTls p (store_tlsrpt p raw_id o source db).1
    held = elim (Bool-cases (any (is_tls p.organization_name p.report_id) db.tls_reports)) [
      | inl old ↦ rw (store_tlsrpt_old p raw_id o source db old) old
      | inr new ↦
          rw (store_tlsrpt_new p raw_id o source db new)
            (rw (any-append, new, text_eq_refl, text_eq_refl))
    ]

module _ (dec : Decoders) (i j : ℕ) (o o' : Owner) where
  -- One document again: it is understood as before, and nothing is stored.
  store_document_again :
      (kind : Kind) (document : Bytes) (db e : Db) {t : Tally}
      → (store_document dec i o kind document db).0 ≡ ok t
      → Holds (store_document dec i o kind document db).1 e
      → store_document dec j o' kind document e ≡ (ok (t.0, 0), e)
  unfolding store_document
  store_document_again Kind.aggregate document db e {t} h g =
      let (p, parsed, rest) = bind-eq-ok (lift (parse_aggregate_xml dec document)) _ db h in
      let (b, stored, done) = bind-eq-ok (store_aggregate p i o) _ db rest in
      let grew : Holds (store_aggregate p i o db).1 e =
        rw (state-continue-pure (store_aggregate p i o db).0 one_more (store_aggregate p i o db).1)
          at (rw parsed at g) in
      rw (parsed, store_aggregate_old p j o' e (store_aggregate-Holds p i o db e grew))
        (ground arith)
  store_document_again Kind.tlsrpt document db e {t} h g =
      let (p, parsed, rest) = bind-eq-ok (lift (parse_tlsrpt_json dec document)) _ db h in
      let (b, stored, done) = bind-eq-ok (store_tlsrpt p (some i) o Source.smtp) _ db rest in
      let grew : Holds (store_tlsrpt p (some i) o Source.smtp db).1 e =
        rw
          (state-continue-pure (store_tlsrpt p (some i) o Source.smtp db).0 one_more
            (store_tlsrpt p (some i) o Source.smtp db).1)
          at (rw parsed at g) in
      rw
        (
          parsed,
          store_tlsrpt_old p (some j) o' Source.smtp e
              (store_tlsrpt-Holds p (some i) o Source.smtp db e grew),
        )
        (ground arith)
  store_document_again Kind.unknown document db e h g = ground arith

  store_documents_again :
      (documents : List Bytes) (db e : Db) {t : Tally}
      → (store_documents dec i o documents db).0 ≡ ok t
      → Holds (store_documents dec i o documents db).1 e
      → store_documents dec j o' documents e ≡ (ok (t.0, 0), e)
  unfolding store_documents
  store_documents_again [] db e h g = ground arith
  store_documents_again (document ∷ documents) db e {t} h g =
      let (kind, classified, rest) = bind-eq-ok (lift (classify dec document)) _ db h in
      let (this, stored, rest') = bind-eq-ok (store_document dec i o kind document) _ db rest in
      let db' = (store_document dec i o kind document db).1 in
      let (others, later, done) = bind-eq-ok (store_documents dec i o documents) _ db' rest' in
      let grew : Holds (store_documents dec i o documents db').1 e =
        rw
          (state-continue-pure {B = Tally} (store_documents dec i o documents db').0
            (λ (n : Tally). (this.0 + n.0, this.1 + n.1)) (store_documents dec i o documents db').1)
          at (rw (stored, continue) at (rw classified at g)) in
      let grew' = Holds-trans (Grows-Holds (store_documents-Grows dec i o documents db')) grew in
      rw
        (
          classified,
          store_document_again kind document db e stored grew',
          store_documents_again documents db' e later grew,
        )
        (ground arith)

  -- A message whose reports were all stored, or were held already, changes nothing when it is stored
  -- again: whatever happened in between, as long as the keys of its reports are held, and whoever it is filed under.
  pub store_reports_again :
      (content : Bytes) (db e : Db) {t : Tally}
      → (store_reports dec i o content db).0 ≡ ok t
      → Holds (store_reports dec i o content db).1 e
      → store_reports dec j o' content e ≡ (ok (t.0, 0), e)
  unfolding store_reports
  store_reports_again content db e h g =
      let (documents, extracted, rest) =
        bind-eq-ok (lift (extract_report_payloads dec content)) _ db h in
      rw extracted (store_documents_again documents db e rest (rw (extracted, continue) at g))
