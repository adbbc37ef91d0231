-- ===== src/Pipeline/Reprocess.antt =====
-- `reprocess` of ingest/pipeline.py.
use dmarc_service.Base.{
  ℕ, zero, suc, ◌+◌, Bool, true, false, List, [], ◌∷◌, Option, none, some, select, take, is_some,
  if◌then◌else◌,
}
use dmarc_service.Base.Text.{Text, Bytes, codes, text_eq}
use dmarc_service.Base.Exec.{
  Exec, Result, ok, raised, message, pure, gets, lift, modify, attempt, ◌>>=◌, ◌>>◌,
}
use dmarc_service.Schema.{
  ReportAddress, RawMessage, Status, routed, retired, unrouted, duplicate, failed, Db,
}
use dmarc_service.Parsers.Decoders.{Decoders}
use dmarc_service.Parsers.Documents.{Kind, classify, decompress}
use dmarc_service.Pipeline.Flush.{flush}
use dmarc_service.Pipeline.Store.{Owner, Tally, store_reports}
use dmarc_service.Pipeline.Message.{
  local_part_of, active_for, retired_for, owner_by_address, Verdict, set_verdict,
}
use dmarc_service.Pipeline.Upload.{Stored, no_owner, store_upload_document}

pub record ReprocessCounts : Type 0 where
  pub examined : ℕ
  pub recovered : ℕ
  pub duplicate : ℕ
  pub still_failing : ℕ

abbrev pub is_pending : Status → Bool
is_pending failed = true
is_pending unrouted = true
is_pending duplicate = true
is_pending _ = false

abbrev pub owner_of_known : Db → Option ReportAddress → Option ReportAddress → Result Owner
owner_of_known db (some a) r = owner_by_address db a
owner_of_known db none (some a) = owner_by_address db a
owner_of_known db none none = ok no_owner

-- `known = address or retired`, and the owner that it names
unfoldable pub known_owner : Db → Text → Result Owner
unfolding active_for retired_for owner_by_address
known_owner db local_part = owner_of_known db (active_for db local_part) (retired_for db local_part)

-- the counters of one document of an upload: understood, newly stored
abbrev pub upload_tally : Result Stored → Tally
upload_tally (ok n) = (1, n.aggregate + n.tlsrpt)
upload_tally (raised x) = (1, 0)

abbrev pub is_unknown : Kind → Bool
is_unknown Kind.unknown = true
is_unknown _ = false

-- the new status and error, if they change, and the counters
unfoldable pub settle : Bool → Result Tally → ReprocessCounts → Option Verdict × ReprocessCounts
settle has_address (raised x) n =
    (some (failed, take 2000 (message x)), record n { still_failing = suc n.still_failing })
settle has_address (ok (parsed, suc stored)) n =
    (some ((if has_address then routed else retired), []), record n { recovered = suc n.recovered })
settle has_address (ok (suc parsed, zero)) n =
    (some (Status.duplicate, codes "already stored"), record n { duplicate = suc n.duplicate })
settle has_address (ok (zero, zero)) n = (none, record n { still_failing = suc n.still_failing })

abbrev pub apply_verdict : ℕ → Option Verdict → Db → Db
apply_verdict id none db = db
apply_verdict id (some v) db = set_verdict id v db

module _ (dec : Decoders) where
  -- one document of an upload: a document of no known kind is passed over
  unfoldable pub restore_document : ℕ → Kind → Bytes → Exec Db Tally
  unfolding store_upload_document
  restore_document raw_id kind document = if is_unknown kind then pure (0, 0) else do
    n ← attempt (
        store_upload_document dec raw_id kind document
          (record { aggregate = 0; tlsrpt = 0; skipped = 0 }))
    pure (upload_tally n)

  unfoldable pub restore_upload : ℕ → List Bytes → Exec Db Tally
  unfolding restore_document
  restore_upload raw_id [] = pure (0, 0)
  restore_upload raw_id (document ∷ documents) = do
    kind ← lift (classify dec document)
    this ← restore_document raw_id kind document
    others ← restore_upload raw_id documents
    pure (this.0 + others.0, this.1 + others.1)

  -- the body of the try block
  unfoldable pub replay : RawMessage → Owner → Exec Db Tally
  unfolding restore_upload store_reports text_eq decompress
  replay raw o =
      if text_eq raw.mail_from (codes "upload")
      then (do
        documents ← lift (decompress dec raw.content raw.rcpt_to)
        restore_upload raw.id documents)
      else store_reports dec raw.id o raw.content

  unfoldable pub reprocess_one : RawMessage → ReprocessCounts → Exec Db ReprocessCounts
  unfolding local_part_of known_owner replay settle set_verdict
  reprocess_one raw n = do
    o ← λ db. (known_owner db (local_part_of raw.rcpt_to), db)
    address ← λ db. (ok (active_for db (local_part_of raw.rcpt_to)), db)
    outcome ← attempt (replay raw o)
    let (change, n') = settle (is_some address) outcome (record n { examined = suc n.examined })
    modify (apply_verdict raw.id change)
    pure n'

  unfoldable pub reprocess_all : List RawMessage → ReprocessCounts → Exec Db ReprocessCounts
  unfolding reprocess_one
  reprocess_all [] n = pure n
  reprocess_all (raw ∷ raws) n = do n' ← reprocess_one raw n; reprocess_all raws n'

  -- the loop over the pending messages
  unfoldable pub examine_all : ℕ → Exec Db ReprocessCounts
  unfolding reprocess_all
  examine_all limit db =
      reprocess_all
        (take limit (select (λ (raw : RawMessage). is_pending raw.status) db.raw_messages))
        (record { examined = 0; recovered = 0; duplicate = 0; still_failing = 0 }) db

  unfoldable pub reprocess : ℕ → Exec Db ReprocessCounts
  unfolding reprocess_all flush
  reprocess limit = do before ← gets (λ db. db); n ← examine_all limit; flush dec before; pure n
