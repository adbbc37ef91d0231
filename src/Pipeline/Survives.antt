-- ===== src/Pipeline/Survives.antt =====
-- What an upload, and a report that comes by HTTPS, keep, whether they are accepted or raise.
use dmarc_service.Base.{ℕ, List, [], ◌∷◌, ◌++◌, Bool-cases, List-cases, inl, inr, none, some, take}
use dmarc_service.Base.Text.{Text, Bytes, codes}
use dmarc_service.Base.Exec.{message, lift, state-bind, Result-cases}
use dmarc_service.Schema.{Db}
use dmarc_service.Schema.Insert.{insert_raw}
use dmarc_service.Schema.Valid.{IsValid, insert_raw-IsValid}
use dmarc_service.Parsers.Decoders.{Decoders}
use dmarc_service.Parsers.Documents.{classify}
use dmarc_service.Pipeline.Message.{new_raw}
use dmarc_service.Pipeline.Upload.{
  Stored, store_upload_document, store_upload_documents, conclude_upload, upload_documents,
  process_upload, is_nothing,
}
use dmarc_service.Schema.{https}
use dmarc_service.Parsers.Tlsrpt.{parse_tlsrpt_json}
use dmarc_service.Pipeline.Unique.{store_tlsrpt-IsValid}
use dmarc_service.Pipeline.Http.{process_tlsrpt_http, registered}
use dmarc_service.Pipeline.Grows.{Adds, Adds-refl}
use dmarc_service.Pipeline.Replayed.{Keeps, store_upload_document-Keeps}
use dmarc_service.Pipeline.Batch.{apply_verdict-Keeps, Keeps-refl}

module _ (dec : Decoders) (db : Db) where
  store_upload_documents-Keeps :
      (raw_id : ℕ) (documents : List Bytes) (n : Stored) (problems : List Text) (now : Db)
      → Keeps db now
      → Keeps db (store_upload_documents dec raw_id documents n problems now).1
  unfolding store_upload_documents
  store_upload_documents-Keeps raw_id [] n problems now k = k
  store_upload_documents-Keeps raw_id (document ∷ documents) n problems now k =
      state-bind (Keeps db) (lift (classify dec document)) _ now
        (λ kind _.
          let run = store_upload_document dec raw_id kind document n now in
          let kept = store_upload_document-Keeps db dec raw_id kind document n now k in
          elim (Result-cases run.0) [
            | inl (n', e) ↦
                rw e (store_upload_documents-Keeps raw_id documents n' problems run.1 kept)
            | inr (x, e) ↦ rw e (
                store_upload_documents-Keeps raw_id documents n (problems ++ message x ∷ []) run.1
                  kept)
          ])
        k

  conclude_upload-Keeps :
      (raw_id : ℕ) (filename : Text) (counted : Stored × List Text) (now : Db)
      → Keeps db now
      → Keeps db (conclude_upload dec raw_id filename counted now).1
  unfolding conclude_upload
  conclude_upload-Keeps raw_id filename counted now k =
      elim (Bool-cases (is_nothing dec counted.0)) [
        | inl nothing ↦ rw nothing (apply_verdict-Keeps db raw_id (some _) now k)
        | inr something ↦ rw something k
      ]

-- Whatever an upload holds, and whether or not it raises: no stored report is lost or changed, and
-- the constraints of the schema still hold.
pub process_upload-IsValid :
    (dec : Decoders) (filename : Text) (content : Bytes) (db : Db)
    → IsValid db
    → let db' = (process_upload dec filename content db).1 in IsValid db' × Adds db db'
unfolding process_upload insert_raw
process_upload-IsValid dec filename content db v =
    let raw = new_raw content [] (codes "upload") (take 320 filename) in
    let start : Db = (insert_raw raw db).1 in
    let whole : Keeps start start = Keeps-refl start (insert_raw-IsValid raw db v) in
    let zero_counts : Stored = record { aggregate = 0; tlsrpt = 0; skipped = 0 } in
    state-bind (λ d. IsValid d × Adds db d) (lift (upload_documents dec filename content)) _ db
      (λ documents _.
        let kept =
          store_upload_documents-Keeps dec start db.next_id documents zero_counts [] start whole in
        let stored = store_upload_documents dec db.next_id documents zero_counts [] in
        state-bind (λ d. IsValid d × Adds db d) stored _ start
          (λ counted _.
            since_start
              (conclude_upload-Keeps dec start db.next_id filename counted (stored start).1 kept))
          (since_start kept))
      (v, Adds-refl db)
  where
    since_start :
        {d : Db}
        → Keeps (insert_raw (new_raw content [] (codes "upload") (take 320 filename)) db).1 d
        → IsValid d × Adds db d
    since_start k = (
      k.valid,
      record {
        aggregates = k.adds.aggregates;
        tls = k.adds.tls;
        more_aggregates = k.adds.more_aggregates;
        more_tls = k.adds.more_tls;
      },
    )

-- A report that comes by HTTPS, accepted or not.
pub process_tlsrpt_http-IsValid :
    (dec : Decoders) (document : Bytes) (db : Db)
    → IsValid db
    → IsValid (process_tlsrpt_http dec document db).1
unfolding process_tlsrpt_http
process_tlsrpt_http-IsValid dec document db v =
    state-bind IsValid (lift (parse_tlsrpt_json dec document)) _ db
      (λ p _. elim (List-cases (registered db p.policy_domains)) [
        | inl none_known ↦ rw none_known v
        | inr (d, ds, known) ↦ rw known (store_tlsrpt-IsValid p none _ https db v)
      ])
      v
