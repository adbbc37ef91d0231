-- ===== src/Pipeline/Uploaded.antt =====
-- What an upload through the web interface adds, and what it answers.
use dmarc_service.Base.{
  ℕ, ◌+◌, ◌≡◌, ◌≢◌, refl, ap, Bool, true, false, List, [], ◌∷◌, ◌++◌, Bool-cases, inl, inr, ◌⊎◌,
  some, length, arith, find, take,
}
use dmarc_service.Base.Text.{Text, Bytes, codes}
use dmarc_service.Base.Exec.{Exc, Result, ok, raised, lift, bind-eq-ok, message, Result-cases}
use dmarc_service.Schema.{Db, upload}
use dmarc_service.Schema.Insert.{has_name, insert_raw}
use dmarc_service.Parsers.Decoders.{Decoders}
use dmarc_service.Parsers.Documents.{Kind, classify}
use dmarc_service.Parsers.Aggregate.{parse_aggregate_xml}
use dmarc_service.Parsers.Tlsrpt.{parse_tlsrpt_json}
use dmarc_service.Pipeline.Store.{owner_of, file_tls_under}
use dmarc_service.Pipeline.Message.{new_raw}
use dmarc_service.Pipeline.Upload.{
  Stored, no_owner, count_aggregate, count_tlsrpt, store_upload_document, store_upload_documents,
  upload_documents, process_upload, conclude_upload, is_nothing,
}
use dmarc_service.Pipeline.Counted.{Added, as_count, store_aggregate_counted, store_tlsrpt_counted}

-- The counters went up by what was added.
abbrev pub Grown : Stored → Stored → Db → Db → Type 0
Grown n n' db db' =
    (length db'.aggregate_reports + n.aggregate ≡ length db.aggregate_reports + n'.aggregate)
    × (length db'.tls_reports + n.tlsrpt ≡ length db.tls_reports + n'.tlsrpt)

count_aggregate-Grown :
    (b : Bool) (n : Stored) (db db' : Db)
    → Added (as_count b) 0 db db'
    → Grown n (count_aggregate b n) db db'
count_aggregate-Grown true n db db' h = (ground arith, ground arith)
count_aggregate-Grown false n db db' h = (ground arith, ground arith)

count_tlsrpt-Grown :
    (b : Bool) (n : Stored) (db db' : Db)
    → Added 0 (as_count b) db db'
    → Grown n (count_tlsrpt b n) db db'
count_tlsrpt-Grown true n db db' h = (ground arith, ground arith)
count_tlsrpt-Grown false n db db' h = (ground arith, ground arith)

-- Either the document was no usable report and nothing was done, or the counters are right.
abbrev pub UploadCounted : Result Stored × Db → Stored → Db → Type 0
UploadCounted run n db =
    ((x : Exc) × (run ≡ (raised x, db)))
    ⊎ ((n' : Stored) × (db' : Db) × (run ≡ (ok n', db')) × Grown n n' db db')

module _ (dec : Decoders) (i : ℕ) where
  pub store_upload_document_counted :
      (kind : Kind) (document : Bytes) (n : Stored) (db : Db)
      → UploadCounted (store_upload_document dec i kind document n db) n db
  unfolding store_upload_document
  store_upload_document_counted Kind.aggregate document n db =
      elim (Result-cases (parse_aggregate_xml dec document)) [
        | inr (x, e) ↦ inl (x, rw (store_upload_document, e) refl)
        | inl (p, e) ↦
            let (b, db', stored, added) =
              store_aggregate_counted p i
                (owner_of (find (has_name p.policy_domain) db.domains) no_owner) db in
            inr (
              count_aggregate b n,
              db',
              rw (store_upload_document, e) (rw stored refl),
              count_aggregate-Grown b n db db' added,
            )
      ]
  store_upload_document_counted Kind.tlsrpt document n db =
      elim (Result-cases (parse_tlsrpt_json dec document)) [
        | inr (x, e) ↦ inl (x, rw (store_upload_document, e) refl)
        | inl (p, e) ↦
            let (b, db', stored, added) =
              store_tlsrpt_counted p (some i) (file_tls_under db p.policy_domains no_owner) upload
                db in
            inr (
              count_tlsrpt b n,
              db',
              rw (store_upload_document, e) (rw stored refl),
              count_tlsrpt-Grown b n db db' added,
            )
      ]
  store_upload_document_counted Kind.unknown document n db = inl (_, refl)

  store_upload_documents_counted :
      (documents : List Bytes) (n : Stored) (problems : List Text) (db : Db) {n' : Stored}
      {ps : List Text}
      → (store_upload_documents dec i documents n problems db).0 ≡ ok (n', ps)
      → Grown n n' db (store_upload_documents dec i documents n problems db).1
  unfolding store_upload_documents
  store_upload_documents_counted [] n problems db {n'} h = ground arith
  store_upload_documents_counted (document ∷ documents) n problems db {n'} {ps} h =
      let (kind, classified, rest) = bind-eq-ok (lift (classify dec document)) _ db h in
      elim (store_upload_document_counted kind document n db) [
        | inl (x, unusable) ↦
            let later =
              store_upload_documents_counted documents n (problems ++ message x ∷ []) db {n' = n'}
                {ps = ps} (rw unusable at rest) in
            rw (classified, unusable) later
        | inr (n1, db', done, grown) ↦
            let later =
              store_upload_documents_counted documents n1 problems db' {n' = n'} {ps = ps}
                (rw done at rest) in
            rw (classified, done) (ground (arith, grown, later))
      ]

-- An upload is accepted where something of it was counted.
conclude_upload-ok :
    (dec : Decoders) (raw_id : ℕ) (filename : Text) (counted : Stored × List Text) (db : Db)
    {n : Stored}
    → (conclude_upload dec raw_id filename counted db).0 ≡ ok n
    → (conclude_upload dec raw_id filename counted db ≡ (ok n, db))
      × (counted.0 ≡ n)
      × (n.aggregate + n.tlsrpt + n.skipped ≢ 0)
unfolding conclude_upload
conclude_upload-ok dec raw_id filename counted db {n} h =
    elim (Bool-cases (is_nothing dec counted.0)) [
      | inl nothing ↦ cc (rw nothing at h)
      | inr something ↦
          let same : ok counted.0 ≡ ok n = rw something at h in
          (rw something (ap (λ r. (r, db)) same), ground arith, ground arith)
    ]

-- An upload that is accepted answers with the numbers of reports that it added, and of those that
-- were there already, which are not all zero.
pub process_upload_counted :
    (dec : Decoders) (filename : Text) (content : Bytes) (db : Db) (n : Stored)
    → (process_upload dec filename content db).0 ≡ ok n
    → let db' = (process_upload dec filename content db).1 in
      (length db'.aggregate_reports ≡ length db.aggregate_reports + n.aggregate)
      × (length db'.tls_reports ≡ length db.tls_reports + n.tlsrpt)
      × (n.aggregate + n.tlsrpt + n.skipped ≢ 0)
unfolding process_upload insert_raw
process_upload_counted dec filename content db n h =
    let (documents, read, rest) =
      bind-eq-ok (lift (upload_documents dec filename content)) _ db h in
    let start : Db = (insert_raw (new_raw content [] (codes "upload") (take 320 filename)) db).1 in
    let zero_counts : Stored = record { aggregate = 0; tlsrpt = 0; skipped = 0 } in
    let (counted, stored, last) =
      bind-eq-ok (store_upload_documents dec db.next_id documents zero_counts []) _ start rest in
    let grown =
      store_upload_documents_counted dec db.next_id documents zero_counts [] start stored in
    let (kept, same, some_new) =
      conclude_upload-ok dec db.next_id filename counted
        (store_upload_documents dec db.next_id documents zero_counts [] start).1 last in
    rw (read, stored) (rw kept (ground arith))
