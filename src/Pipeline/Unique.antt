-- ===== src/Pipeline/Unique.antt =====
-- Storing reports keeps the constraints of the schema: no two stored reports have one key.
use dmarc_service.Base.{ℕ, any, Bool-cases, inl, inr, Option}
use dmarc_service.Base.Text.{Bytes}
use dmarc_service.Base.Exec.{state-bind}
use dmarc_service.Schema.{Source, Db}
use dmarc_service.Schema.Insert.{is_aggregate, is_tls, insert_aggregate, insert_tls}
use dmarc_service.Schema.Valid.{IsValid, insert_aggregate-IsValid, insert_tls-IsValid}
use dmarc_service.Parsers.Types.{ParsedAggregateReport, ParsedTlsReport}
use dmarc_service.Parsers.Decoders.{Decoders}
use dmarc_service.Pipeline.Store.{
  Owner, store_aggregate, store_tlsrpt, store_reports, file_under, file_tls_under, stored_aggregate,
  stored_tls,
}
use dmarc_service.Pipeline.Induction.{store_reports_keeps}

pub store_aggregate-IsValid :
    (parsed : ParsedAggregateReport) (raw_id : ℕ) (o : Owner) (db : Db)
    → IsValid db
    → IsValid (store_aggregate parsed raw_id o db).1
unfolding store_aggregate
store_aggregate-IsValid parsed raw_id o db v =
    let row = stored_aggregate parsed raw_id (file_under db parsed.policy_domain o) in
    let kept = insert_aggregate-IsValid row db v in
    elim (Bool-cases (
      any (is_aggregate parsed.org_name parsed.report_id parsed.policy_domain)
        db.aggregate_reports)) [
          | inl old ↦ rw old v
          | inr new ↦ rw new (state-bind IsValid (insert_aggregate row) _ db (λ _ _. kept) kept)
        ]

pub store_tlsrpt-IsValid :
    (parsed : ParsedTlsReport) (raw_id : Option ℕ) (o : Owner) (source : Source) (db : Db)
    → IsValid db
    → IsValid (store_tlsrpt parsed raw_id o source db).1
unfolding store_tlsrpt
store_tlsrpt-IsValid parsed raw_id o source db v =
    let row = stored_tls parsed raw_id (file_tls_under db parsed.policy_domains o) source in
    let kept = insert_tls-IsValid row db v in
    elim (Bool-cases (any (is_tls parsed.organization_name parsed.report_id) db.tls_reports)) [
      | inl old ↦ rw old v
      | inr new ↦ rw new (state-bind IsValid (insert_tls row) _ db (λ _ _. kept) kept)
    ]

pub store_reports-IsValid :
    (dec : Decoders) (raw_id : ℕ) (o : Owner) (content : Bytes) (db : Db)
    → IsValid db
    → IsValid (store_reports dec raw_id o content db).1
store_reports-IsValid dec raw_id o =
    store_reports_keeps dec IsValid o (λ parsed id. store_aggregate-IsValid parsed id o)
      (λ parsed id. store_tlsrpt-IsValid parsed id o) raw_id
