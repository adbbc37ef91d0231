-- ===== src/Api/Incoming.antt =====
-- The handlers through which reports come in keep the constraints of the schema.
use dmarc_service.Base.{ℕ, List, [], ◌∷◌, take, Bool-cases, inl, inr, if◌then◌else◌}
use dmarc_service.Base.Text.{Text, Bytes, codes, is_empty, text_eq, text_or}
use dmarc_service.Base.Exec.{ok, pure, lift, state-bind, Result-cases}
use dmarc_service.Config.{Settings}
use dmarc_service.Schema.{Status, Db}
use dmarc_service.Schema.Session.{session_scope-keeps}
use dmarc_service.Schema.Valid.{IsValid}
use dmarc_service.Parsers.Decoders.{Decoders}
use dmarc_service.Parsers.Documents.{gzip_magic}
use dmarc_service.Pipeline.Message.{process_message}
use dmarc_service.Pipeline.Upload.{process_upload}
use dmarc_service.Pipeline.Http.{process_tlsrpt_http}
use dmarc_service.Pipeline.Arrival.{process_message_total}
use dmarc_service.Pipeline.Survives.{process_upload-IsValid, process_tlsrpt_http-IsValid}
use dmarc_service.Api.Ingest.{
  Totals, add_file, add_error, require_ingest_token, tlsrpt, ingest, id_and_status, upload_files,
}

module _ (dec : Decoders) where
  pub tlsrpt-IsValid : (body : Bytes) (db : Db) → IsValid db → IsValid (tlsrpt dec body db).1
  unfolding tlsrpt
  tlsrpt-IsValid body db v =
      state-bind IsValid
        (lift (if text_eq (take 2 body) gzip_magic then dec.gunzip body else ok body)) _ db
        (λ document _.
          session_scope-keeps IsValid (process_tlsrpt_http dec document) db v
            (process_tlsrpt_http-IsValid dec document db v))
        v

  pub process_message-IsValid :
      (content : Bytes) (source_ip mail_from rcpt_to : Text) (db : Db)
      → IsValid db
      → IsValid (process_message dec content source_ip mail_from rcpt_to db).1
  process_message-IsValid content source_ip mail_from rcpt_to db v =
      (process_message_total dec content source_ip mail_from rcpt_to db v).8

  id_and_status-IsValid :
      (content : Bytes) (source_ip mail_from rcpt_to : Text) (db : Db)
      → IsValid db
      → IsValid (id_and_status dec content source_ip mail_from rcpt_to db).1
  id_and_status-IsValid content source_ip mail_from rcpt_to db v =
      let kept = process_message-IsValid content source_ip mail_from rcpt_to db v in
      state-bind {B = ℕ × Status} IsValid (process_message dec content source_ip mail_from rcpt_to)
        (λ raw. pure (raw.id, raw.status)) db (λ _ _. kept) kept

  pub ingest-IsValid :
      (settings : Settings) (authorization : Text) (content : Bytes)
      (source_ip mail_from rcpt_to : Text) (db : Db)
      → IsValid db
      → IsValid (ingest dec settings authorization content source_ip mail_from rcpt_to db).1
  unfolding ingest
  ingest-IsValid settings authorization content source_ip mail_from rcpt_to db v =
      state-bind IsValid (lift (require_ingest_token settings authorization)) _ db
        (λ _ _. elim (Bool-cases (is_empty content)) [
          | inl empty ↦ rw empty v
          | inr some_content ↦ rw some_content (
              session_scope-keeps IsValid (id_and_status dec content source_ip mail_from rcpt_to) db
                v (id_and_status-IsValid content source_ip mail_from rcpt_to db v))
        ])
        v

  pub upload_files-IsValid :
      (files : List (Text × Bytes)) (t : Totals) (db : Db)
      → IsValid db
      → IsValid (upload_files dec files t db).1
  unfolding upload_files
  upload_files-IsValid [] t db v = v
  upload_files-IsValid ((filename, content) ∷ files) t db v =
      let run = process_upload dec (text_or filename (codes "upload")) content db in
      let kept = (process_upload-IsValid dec (text_or filename (codes "upload")) content db v).0 in
      elim (Bool-cases (is_empty content)) [
        | inl empty ↦ rw empty (upload_files-IsValid files t db v)
        | inr some_content ↦ rw some_content (elim (Result-cases run.0) [
          | inl (n, e) ↦ rw e (upload_files-IsValid files (add_file n t) run.1 kept)
          | inr (x, e) ↦ rw e (upload_files-IsValid files (add_error filename x t) run.1 kept)
        ])
      ]
