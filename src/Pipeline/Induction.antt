-- ===== src/Pipeline/Induction.antt =====
-- What storing one report keeps, storing the reports of a message or of an upload keeps too, also
-- where a document in the middle raises.
use dmarc_service.Base.{ℕ, List, [], ◌∷◌, Option, some}
use dmarc_service.Base.Text.{Bytes}
use dmarc_service.Base.Exec.{lift, state-bind}
use dmarc_service.Schema.{Source, Db}
use dmarc_service.Parsers.Types.{ParsedAggregateReport, ParsedTlsReport}
use dmarc_service.Parsers.Decoders.{Decoders}
use dmarc_service.Parsers.Documents.{Kind, classify, extract_report_payloads}
use dmarc_service.Parsers.Aggregate.{parse_aggregate_xml}
use dmarc_service.Parsers.Tlsrpt.{parse_tlsrpt_json}
use dmarc_service.Pipeline.Store.{
  Owner, store_aggregate, store_tlsrpt, store_document, store_documents, store_reports,
}

module _ {ℓ} (dec : Decoders) (P : Db → Type ℓ) (o : Owner)
    (aggregates : (parsed : ParsedAggregateReport) (raw_id : ℕ) (db : Db)
      → P db
      → P (store_aggregate parsed raw_id o db).1)
    (tls : (parsed : ParsedTlsReport) (raw_id : Option ℕ) (source : Source) (db : Db)
      → P db
      → P (store_tlsrpt parsed raw_id o source db).1) where
  store_document_keeps :
      (raw_id : ℕ) (kind : Kind) (document : Bytes) (db : Db)
      → P db
      → P (store_document dec raw_id o kind document db).1
  unfolding store_document
  store_document_keeps raw_id Kind.aggregate document db h =
      state-bind P (lift (parse_aggregate_xml dec document)) _ db
        (λ parsed _.
          state-bind P (store_aggregate parsed raw_id o) _ db (λ _ _. aggregates parsed raw_id db h)
            (aggregates parsed raw_id db h))
        h
  store_document_keeps raw_id Kind.tlsrpt document db h =
      state-bind P (lift (parse_tlsrpt_json dec document)) _ db
        (λ parsed _.
          state-bind P (store_tlsrpt parsed (some raw_id) o Source.smtp) _ db
            (λ _ _. tls parsed (some raw_id) Source.smtp db h)
            (tls parsed (some raw_id) Source.smtp db h))
        h
  store_document_keeps raw_id Kind.unknown document db h = h

  pub store_documents_keeps :
      (raw_id : ℕ) (documents : List Bytes) (db : Db)
      → P db
      → P (store_documents dec raw_id o documents db).1
  unfolding store_documents
  store_documents_keeps raw_id [] db h = h
  store_documents_keeps raw_id (document ∷ documents) db h =
      state-bind P (lift (classify dec document)) _ db
        (λ kind _.
          let db' = (store_document dec raw_id o kind document db).1 in
          let h' = store_document_keeps raw_id kind document db h in
          state-bind P (store_document dec raw_id o kind document) _ db
            (λ this _.
              let later = store_documents_keeps raw_id documents db' h' in
              state-bind P (store_documents dec raw_id o documents) _ db' (λ _ _. later) later)
            h')
        h

  pub store_reports_keeps :
      (raw_id : ℕ) (content : Bytes) (db : Db) → P db → P (store_reports dec raw_id o content db).1
  unfolding store_reports
  store_reports_keeps raw_id content db h =
      state-bind P (lift (extract_report_payloads dec content)) _ db
        (λ documents _. store_documents_keeps raw_id documents db h) h
