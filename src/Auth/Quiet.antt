-- ===== src/Auth/Quiet.antt =====
-- Writing to the other tables leaves the users as they are.
use dmarc_service.Base.{
  ℕ, List, [], ◌∷◌, ◌++◌, Option, some, Bool, any, find, Bool-cases, inl, inr, take,
}
use dmarc_service.Base.Text.{Text, Bytes, codes, text_or, is_empty}
use dmarc_service.Base.Exec.{message, lift, state-bind, Result-cases, pure}
use dmarc_service.Schema.{Source, AggregateReport, TlsReport, Db, upload}
use dmarc_service.Schema.Insert.{
  has_slug, has_name, has_local_part, has_hash, is_aggregate, is_tls, insert_token, insert_tenant,
  insert_domain, insert_address, insert_raw, insert_aggregate, insert_tls,
}
use dmarc_service.Parsers.Types.{ParsedAggregateReport, ParsedTlsReport}
use dmarc_service.Parsers.Decoders.{Decoders}
use dmarc_service.Parsers.Documents.{Kind, classify}
use dmarc_service.Parsers.Aggregate.{parse_aggregate_xml}
use dmarc_service.Parsers.Tlsrpt.{parse_tlsrpt_json}
use dmarc_service.Pipeline.Store.{
  Owner, owner_of, store_aggregate, store_tlsrpt, file_under, file_tls_under, stored_aggregate,
  stored_tls,
}
use dmarc_service.Pipeline.Message.{new_raw, set_verdict}
use dmarc_service.Pipeline.Upload.{
  Stored, no_owner, count_aggregate, count_tlsrpt, store_upload_document, store_upload_documents,
  conclude_upload, upload_documents, process_upload, is_nothing,
}
use dmarc_service.Api.Ingest.{Totals, add_file, add_error, upload_files}
use dmarc_service.Auth.Manned.{IsManned, MannedBy-later}

pub insert_tenant-IsManned :
    (slug name : Text) (db : Db) → IsManned db → IsManned (insert_tenant slug name db).1
unfolding insert_tenant
insert_tenant-IsManned slug name db m = elim (Bool-cases (any (has_slug slug) db.tenants)) [
  | inl taken ↦ rw taken m
  | inr free ↦ rw free (MannedBy-later m)
]

pub insert_domain-IsManned :
    (tenant_id : ℕ) (name : Text) (db : Db)
    → IsManned db
    → IsManned (insert_domain tenant_id name db).1
unfolding insert_domain
insert_domain-IsManned tenant_id name db m = elim (Bool-cases (any (has_name name) db.domains)) [
  | inl taken ↦ rw taken m
  | inr free ↦ rw free (MannedBy-later m)
]

pub insert_address-IsManned :
    (domain_id : ℕ) (local_part : Text) (active : Bool) (db : Db)
    → IsManned db
    → IsManned (insert_address domain_id local_part active db).1
unfolding insert_address
insert_address-IsManned domain_id local_part active db m =
    elim (Bool-cases (any (has_local_part local_part) db.addresses)) [
      | inl taken ↦ rw taken m
      | inr free ↦ rw free (MannedBy-later m)
    ]

pub insert_token-IsManned :
    (user_id : ℕ) (name token_hash prefix : Text) (db : Db)
    → IsManned db
    → IsManned (insert_token user_id name token_hash prefix db).1
unfolding insert_token
insert_token-IsManned user_id name token_hash prefix db m =
    elim (Bool-cases (any (has_hash token_hash) db.api_tokens)) [
      | inl taken ↦ rw taken m
      | inr free ↦ rw free (MannedBy-later m)
    ]

insert_aggregate-IsManned :
    (row : AggregateReport) (db : Db) → IsManned db → IsManned (insert_aggregate row db).1
unfolding insert_aggregate
insert_aggregate-IsManned row db m =
    elim (Bool-cases
      (any (is_aggregate row.org_name row.report_id row.policy_domain) db.aggregate_reports)) [
        | inl taken ↦ rw taken m
        | inr free ↦ rw free (MannedBy-later m)
      ]

insert_tls-IsManned : (row : TlsReport) (db : Db) → IsManned db → IsManned (insert_tls row db).1
unfolding insert_tls
insert_tls-IsManned row db m =
    elim (Bool-cases (any (is_tls row.organization_name row.report_id) db.tls_reports)) [
      | inl taken ↦ rw taken m
      | inr free ↦ rw free (MannedBy-later m)
    ]

pub store_aggregate-IsManned :
    (parsed : ParsedAggregateReport) (raw_id : ℕ) (o : Owner) (db : Db)
    → IsManned db
    → IsManned (store_aggregate parsed raw_id o db).1
unfolding store_aggregate
store_aggregate-IsManned parsed raw_id o db m =
    let row = stored_aggregate parsed raw_id (file_under db parsed.policy_domain o) in
    let kept = insert_aggregate-IsManned row db m in
    elim (Bool-cases (
      any (is_aggregate parsed.org_name parsed.report_id parsed.policy_domain)
        db.aggregate_reports)) [
          | inl old ↦ rw old m
          | inr new ↦ rw new (state-bind IsManned (insert_aggregate row) _ db (λ _ _. kept) kept)
        ]

pub store_tlsrpt-IsManned :
    (parsed : ParsedTlsReport) (raw_id : Option ℕ) (o : Owner) (source : Source) (db : Db)
    → IsManned db
    → IsManned (store_tlsrpt parsed raw_id o source db).1
unfolding store_tlsrpt
store_tlsrpt-IsManned parsed raw_id o source db m =
    let row = stored_tls parsed raw_id (file_tls_under db parsed.policy_domains o) source in
    let kept = insert_tls-IsManned row db m in
    elim (Bool-cases (any (is_tls parsed.organization_name parsed.report_id) db.tls_reports)) [
      | inl old ↦ rw old m
      | inr new ↦ rw new (state-bind IsManned (insert_tls row) _ db (λ _ _. kept) kept)
    ]

module _ (dec : Decoders) where
  store_upload_document-IsManned :
      (raw_id : ℕ) (kind : Kind) (document : Bytes) (n : Stored) (db : Db)
      → IsManned db
      → IsManned (store_upload_document dec raw_id kind document n db).1
  unfolding store_upload_document
  store_upload_document-IsManned raw_id Kind.aggregate document n db m =
      state-bind IsManned (lift (parse_aggregate_xml dec document)) _ db
        (λ parsed _.
          let o = owner_of (find (has_name parsed.policy_domain) db.domains) no_owner in
          let kept = store_aggregate-IsManned parsed raw_id o db m in
          state-bind IsManned (store_aggregate parsed raw_id o)
            (λ new. pure (count_aggregate new n)) db (λ _ _. kept) kept)
        m
  store_upload_document-IsManned raw_id Kind.tlsrpt document n db m =
      state-bind IsManned (lift (parse_tlsrpt_json dec document)) _ db
        (λ parsed _.
          let o = file_tls_under db parsed.policy_domains no_owner in
          let kept = store_tlsrpt-IsManned parsed (some raw_id) o upload db m in
          state-bind IsManned (store_tlsrpt parsed (some raw_id) o upload)
            (λ new. pure (count_tlsrpt new n)) db (λ _ _. kept) kept)
        m
  store_upload_document-IsManned raw_id Kind.unknown document n db m = m

  store_upload_documents-IsManned :
      (raw_id : ℕ) (documents : List Bytes) (n : Stored) (problems : List Text) (db : Db)
      → IsManned db
      → IsManned (store_upload_documents dec raw_id documents n problems db).1
  unfolding store_upload_documents
  store_upload_documents-IsManned raw_id [] n problems db m = m
  store_upload_documents-IsManned raw_id (document ∷ documents) n problems db m =
      state-bind IsManned (lift (classify dec document)) _ db
        (λ kind _.
          let run = store_upload_document dec raw_id kind document n db in
          let kept = store_upload_document-IsManned raw_id kind document n db m in
          elim (Result-cases run.0) [
            | inl (n', e) ↦
                rw e (store_upload_documents-IsManned raw_id documents n' problems run.1 kept)
            | inr (x, e) ↦ rw e (
                store_upload_documents-IsManned raw_id documents n (problems ++ message x ∷ [])
                  run.1 kept)
          ])
        m

  conclude_upload-IsManned :
      (raw_id : ℕ) (filename : Text) (counted : Stored × List Text) (db : Db)
      → IsManned db
      → IsManned (conclude_upload dec raw_id filename counted db).1
  unfolding conclude_upload set_verdict
  conclude_upload-IsManned raw_id filename counted db m =
      elim (Bool-cases (is_nothing dec counted.0)) [
        | inl nothing ↦ rw nothing m
        | inr something ↦ rw something m
      ]

  process_upload-IsManned :
      (filename : Text) (content : Bytes) (db : Db)
      → IsManned db
      → IsManned (process_upload dec filename content db).1
  unfolding process_upload insert_raw
  process_upload-IsManned filename content db m =
      let raw = new_raw content [] (codes "upload") (take 320 filename) in
      let start : Db = (insert_raw raw db).1 in
      let zero_counts : Stored = record { aggregate = 0; tlsrpt = 0; skipped = 0 } in
      state-bind IsManned (lift (upload_documents dec filename content)) _ db
        (λ documents _.
          let kept =
            store_upload_documents-IsManned db.next_id documents zero_counts [] start
              (MannedBy-later m) in
          let stored = store_upload_documents dec db.next_id documents zero_counts [] in
          state-bind IsManned stored _ start
            (λ counted _.
              conclude_upload-IsManned db.next_id filename counted (stored start).1 kept)
            kept)
        m

  pub upload_files-IsManned :
      (files : List (Text × Bytes)) (t : Totals) (db : Db)
      → IsManned db
      → IsManned (upload_files dec files t db).1
  unfolding upload_files
  upload_files-IsManned [] t db m = m
  upload_files-IsManned ((filename, content) ∷ files) t db m =
      let run = process_upload dec (text_or filename (codes "upload")) content db in
      let kept = process_upload-IsManned (text_or filename (codes "upload")) content db m in
      elim (Bool-cases (is_empty content)) [
        | inl empty ↦ rw empty (upload_files-IsManned files t db m)
        | inr some_content ↦ rw some_content (elim (Result-cases run.0) [
          | inl (n, e) ↦ rw e (upload_files-IsManned files (add_file n t) run.1 kept)
          | inr (x, e) ↦ rw e (upload_files-IsManned files (add_error filename x t) run.1 kept)
        ])
      ]
