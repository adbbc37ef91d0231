-- ===== src/Pipeline/Replayed.antt =====
-- What storing the reports of a message again keeps.
use dmarc_service.Base.{
  ℕ, ◌≡◌, ◌∙◌, ap, List, [], ◌∷◌, Bool-cases, inl, inr, Option, some, map, find,
}
use dmarc_service.Base.Text.{Bytes, codes, text_eq}
use dmarc_service.Base.Exec.{lift, state-bind}
use dmarc_service.Schema.{RawMessage, Source, Status, Db, upload}
use dmarc_service.Schema.Insert.{has_name}
use dmarc_service.Schema.Valid.{IsValid}
use dmarc_service.Parsers.Decoders.{Decoders}
use dmarc_service.Parsers.Types.{ParsedAggregateReport, ParsedTlsReport}
use dmarc_service.Parsers.Documents.{Kind, classify, decompress}
use dmarc_service.Parsers.Aggregate.{parse_aggregate_xml}
use dmarc_service.Parsers.Tlsrpt.{parse_tlsrpt_json}
use dmarc_service.Pipeline.Store.{Owner, owner_of, store_aggregate, store_tlsrpt, file_tls_under}
use dmarc_service.Pipeline.Upload.{Stored, no_owner, store_upload_document}
use dmarc_service.Pipeline.Reprocess.{restore_upload, restore_document, is_unknown, replay}
use dmarc_service.Pipeline.Induction.{store_reports_keeps}
use dmarc_service.Pipeline.Grows.{
  Adds, Adds-trans, Grows-Adds, store_aggregate-Grows, store_tlsrpt-Grows,
}
use dmarc_service.Pipeline.Unique.{store_aggregate-IsValid, store_tlsrpt-IsValid}

-- a message without the verdict on it
abbrev pub unjudged : RawMessage → RawMessage
unjudged raw = record raw { status = Status.failed; error = [] }

-- Reports were only added, and of a message only the verdict changed.
pub record Keeps (db db' : Db) : Type 0 where
  pub valid : IsValid db'
  pub adds : Adds db db'
  pub messages : map unjudged db'.raw_messages ≡ map unjudged db.raw_messages

module _ (db : Db) where
  store_aggregate-Keeps :
      (p : ParsedAggregateReport) (raw_id : ℕ) (o : Owner) (now : Db)
      → Keeps db now
      → Keeps db (store_aggregate p raw_id o now).1
  store_aggregate-Keeps p raw_id o now k =
      let g = store_aggregate-Grows p raw_id o now in
      record {
        valid = store_aggregate-IsValid p raw_id o now k.valid;
        adds = Adds-trans k.adds (Grows-Adds g);
        messages = ap (λ (d : Db). map unjudged d.raw_messages) g.grown ∙ k.messages;
      }

  store_tlsrpt-Keeps :
      (p : ParsedTlsReport) (raw_id : Option ℕ) (o : Owner) (source : Source) (now : Db)
      → Keeps db now
      → Keeps db (store_tlsrpt p raw_id o source now).1
  store_tlsrpt-Keeps p raw_id o source now k =
      let g = store_tlsrpt-Grows p raw_id o source now in
      record {
        valid = store_tlsrpt-IsValid p raw_id o source now k.valid;
        adds = Adds-trans k.adds (Grows-Adds g);
        messages = ap (λ (d : Db). map unjudged d.raw_messages) g.grown ∙ k.messages;
      }

  module _ (dec : Decoders) where
    pub store_upload_document-Keeps :
        (raw_id : ℕ) (kind : Kind) (document : Bytes) (n : Stored) (now : Db)
        → Keeps db now
        → Keeps db (store_upload_document dec raw_id kind document n now).1
    unfolding store_upload_document
    store_upload_document-Keeps raw_id Kind.aggregate document n now k =
        state-bind (Keeps db) (lift (parse_aggregate_xml dec document)) _ now
          (λ p _.
            let o = owner_of (find (has_name p.policy_domain) now.domains) no_owner in
            let kept = store_aggregate-Keeps p raw_id o now k in
            state-bind (Keeps db) (store_aggregate p raw_id o) _ now (λ b _. kept) kept)
          k
    store_upload_document-Keeps raw_id Kind.tlsrpt document n now k =
        state-bind (Keeps db) (lift (parse_tlsrpt_json dec document)) _ now
          (λ p _.
            let o = file_tls_under now p.policy_domains no_owner in
            let kept = store_tlsrpt-Keeps p (some raw_id) o upload now k in
            state-bind (Keeps db) (store_tlsrpt p (some raw_id) o upload) _ now (λ b _. kept) kept)
          k
    store_upload_document-Keeps raw_id Kind.unknown document n now k = k

    restore_document-Keeps :
        (raw_id : ℕ) (kind : Kind) (document : Bytes) (now : Db)
        → Keeps db now
        → Keeps db (restore_document dec raw_id kind document now).1
    unfolding restore_document
    restore_document-Keeps raw_id kind document now k = elim (Bool-cases (is_unknown kind)) [
      | inl unknown ↦ rw unknown k
      | inr known ↦ rw known (
          store_upload_document-Keeps raw_id kind document
            (record { aggregate = 0; tlsrpt = 0; skipped = 0 }) now k)
    ]

    restore_upload-Keeps :
        (raw_id : ℕ) (documents : List Bytes) (now : Db)
        → Keeps db now
        → Keeps db (restore_upload dec raw_id documents now).1
    unfolding restore_upload
    restore_upload-Keeps raw_id [] now k = k
    restore_upload-Keeps raw_id (document ∷ documents) now k =
        state-bind (Keeps db) (lift (classify dec document)) _ now
          (λ kind _.
            let kept = restore_document-Keeps raw_id kind document now k in
            let now' = (restore_document dec raw_id kind document now).1 in
            state-bind (Keeps db) (restore_document dec raw_id kind document) _ now
              (λ this _.
                let later = restore_upload-Keeps raw_id documents now' kept in
                state-bind (Keeps db) (restore_upload dec raw_id documents) _ now' (λ _ _. later)
                  later)
              kept)
          k

    pub replay-Keeps :
        (raw : RawMessage) (o : Owner) (now : Db) → Keeps db now → Keeps db (replay dec raw o now).1
    unfolding replay
    replay-Keeps raw o now k = elim (Bool-cases (text_eq raw.mail_from (codes "upload"))) [
      | inl uploaded ↦ rw uploaded (
          state-bind (Keeps db) (lift (decompress dec raw.content raw.rcpt_to)) _ now
            (λ documents _. restore_upload-Keeps raw.id documents now k) k)
      | inr mailed ↦ rw mailed (
          store_reports_keeps dec (Keeps db) o (λ p id. store_aggregate-Keeps p id o)
            (λ p id. store_tlsrpt-Keeps p id o) raw.id raw.content now k)
    ]
