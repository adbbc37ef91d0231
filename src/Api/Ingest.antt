-- ===== src/Api/Ingest.antt =====
-- The handlers through which reports come in: `tlsrpt`, `ingest` and `require_ingest_token` of
-- api/app.py, and the loop of `upload_reports` of api/ui.py. The request's body and headers are
-- arguments.
use dmarc_service.Base.{ℕ, suc, ◌+◌, Bool, List, [], ◌∷◌, ◌++◌, take, if◌then◌else◌}
use dmarc_service.Base.Text.{Text, Bytes, codes, is_empty, text_eq, text_or}
use dmarc_service.Base.Exec.{
  Exc, http_exception, Exec, Result, ok, raised, message, pure, raise, lift, attempt, ◌>>=◌, ◌>>◌,
}
use dmarc_service.Config.{Settings}
use dmarc_service.Schema.{Status, Db}
use dmarc_service.Schema.Session.{session_scope}
use dmarc_service.Parsers.Decoders.{Decoders}
use dmarc_service.Parsers.Documents.{gzip_magic}
use dmarc_service.Pipeline.Message.{process_message}
use dmarc_service.Pipeline.Http.{process_tlsrpt_http}
use dmarc_service.Pipeline.Upload.{Stored, process_upload}

unfoldable pub require_ingest_token : Settings → Text → Result (Unit {0})
unfolding text_eq
require_ingest_token settings authorization =
    if is_empty settings.ingest_token
    then raised (http_exception 404 (codes "ingest endpoint disabled"))
    else if text_eq authorization (codes "Bearer " ++ settings.ingest_token)
    then ok tt
    else raised (http_exception 401 (codes "invalid or missing ingest token"))

-- what is counted over the files of one request
pub record Totals : Type 0 where
  pub stored : Stored
  pub files : ℕ
  pub errors : List Text

abbrev pub add_file : Stored → Totals → Totals
add_file n t = record {
  stored = record {
    aggregate = t.stored.aggregate + n.aggregate;
    tlsrpt = t.stored.tlsrpt + n.tlsrpt;
    skipped = t.stored.skipped + n.skipped;
  };
  files = suc t.files;
  errors = t.errors;
}

abbrev pub add_error : Text → Exc → Totals → Totals
add_error filename x t = record t {
  errors = t.errors ++ (filename ++ (codes ": " ++ message x)) ∷ [];
}

module _ (dec : Decoders) where
  -- every exception of the block becomes a 400
  unparsable : Result Bool → Result Bool
  unparsable (ok stored) = ok stored
  unparsable (raised x) =
      raised (http_exception 400 (codes "unparsable TLS-RPT report: " ++ message x))

  unfoldable pub tlsrpt : Bytes → Exec Db Bool
  unfolding text_eq session_scope process_tlsrpt_http unparsable
  tlsrpt body = do
    document ← lift (if text_eq (take 2 body) gzip_magic then dec.gunzip body else ok body)
    outcome ← attempt (session_scope (process_tlsrpt_http dec document))
    lift (unparsable outcome)

  -- the block of the handler's session: the id and the status of the new row
  abbrev pub id_and_status : Bytes → Text → Text → Text → Exec Db (ℕ × Status)
  id_and_status content source_ip mail_from rcpt_to =
      process_message dec content source_ip mail_from rcpt_to >>= λ raw. pure (raw.id, raw.status)

  unfoldable pub ingest : Settings → Text → Bytes → Text → Text → Text → Exec Db (ℕ × Status)
  unfolding require_ingest_token session_scope
  ingest settings authorization content source_ip mail_from rcpt_to = do
    lift (require_ingest_token settings authorization)
    if is_empty content
        then raise (http_exception 400 (codes "empty message"))
        else session_scope (id_and_status content source_ip mail_from rcpt_to)

  -- the loop over the files, which an exception does not end
  unfoldable pub upload_files : List (Text × Bytes) → Totals → Exec Db Totals
  unfolding process_upload
  upload_files [] t = pure t
  upload_files ((filename, content) ∷ files) t =
      if is_empty content then upload_files files t else do
        outcome ← attempt (process_upload dec (text_or filename (codes "upload")) content)
        elim outcome [
          | ok n ↦ upload_files files (add_file n t)
          | raised x ↦ upload_files files (add_error filename x t)
        ]
