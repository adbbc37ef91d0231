-- ===== src/Pipeline/Upload.antt =====
-- `process_upload` and `_store_upload_document` of ingest/pipeline.py.
use dmarc_service.Base.{
  ℕ, suc, Bool, true, false, ◌&&◌, ◌||◌, List, [], ◌∷◌, ◌++◌, none, some, find, take, ◌==◌,
  if◌then◌else◌,
}
use dmarc_service.Base.Text.{Text, Bytes, codes, lower, lstrip, text_eq, ends_with, join}
use dmarc_service.Base.Exec.{
  Exec, Result, ok, raised, value_error, message, pure, raise, lift, gets, modify, attempt, ◌>>=◌,
  ◌>>◌,
}
use dmarc_service.Schema.{upload, failed, Db}
use dmarc_service.Schema.Insert.{has_name, insert_raw}
use dmarc_service.Parsers.Decoders.{Decoders}
use dmarc_service.Parsers.Documents.{Kind, classify, decompress, extract_report_payloads}
use dmarc_service.Parsers.Aggregate.{parse_aggregate_xml}
use dmarc_service.Parsers.Tlsrpt.{parse_tlsrpt_json}
use dmarc_service.Pipeline.Store.{Owner, owner_of, store_aggregate, store_tlsrpt, file_tls_under}
use dmarc_service.Pipeline.Message.{new_raw, set_verdict}

-- the counters of one upload
pub record Stored : Type 0 where
  pub aggregate : ℕ
  pub tlsrpt : ℕ
  pub skipped : ℕ

abbrev pub no_owner : Owner
no_owner = record { tenant_id = none; domain_id = none }

abbrev pub count_aggregate : Bool → Stored → Stored
count_aggregate true n = record n { aggregate = suc n.aggregate }
count_aggregate false n = record n { skipped = suc n.skipped }

abbrev pub count_tlsrpt : Bool → Stored → Stored
count_tlsrpt true n = record n { tlsrpt = suc n.tlsrpt }
count_tlsrpt false n = record n { skipped = suc n.skipped }

module _ (dec : Decoders) where
  -- the counters after one document; raises if it is no usable report
  unfoldable pub store_upload_document : ℕ → Kind → Bytes → Stored → Exec Db Stored
  unfolding store_aggregate store_tlsrpt
  store_upload_document raw_id Kind.aggregate document n = do
    parsed ← lift (parse_aggregate_xml dec document)
    domain ← gets (λ db. find (has_name parsed.policy_domain) db.domains)
    new ← store_aggregate parsed raw_id (owner_of domain no_owner)
    pure (count_aggregate new n)
  store_upload_document raw_id Kind.tlsrpt document n = do
    parsed ← lift (parse_tlsrpt_json dec document)
    o ← gets (λ db. file_tls_under db parsed.policy_domains no_owner)
    new ← store_tlsrpt parsed (some raw_id) o upload
    pure (count_tlsrpt new n)
  store_upload_document raw_id Kind.unknown document n =
      raise (value_error (codes "not a DMARC or TLS-RPT document"))

  -- the loop: the counters, and the messages of the documents that could not be used; `classify`
  -- stands outside the try block
  unfoldable pub store_upload_documents :
      ℕ → List Bytes → Stored → List Text → Exec Db (Stored × List Text)
  unfolding store_upload_document
  store_upload_documents raw_id [] n problems = pure (n, problems)
  store_upload_documents raw_id (document ∷ documents) n problems = do
    kind ← lift (classify dec document)
    this ← attempt (store_upload_document raw_id kind document n)
    elim this [
      | ok n' ↦ store_upload_documents raw_id documents n' problems
      | raised x ↦ store_upload_documents raw_id documents n (problems ++ message x ∷ [])
    ]

  unfoldable pub is_email : Text → Bytes → Bool
  unfolding ends_with lower lstrip text_eq
  is_email filename content =
      ends_with (lower filename) (codes ".eml")
      || (ends_with (lower filename) (codes ".msg")
          || (text_eq (lower (take 5 (lstrip content))) (codes "from ")
              || text_eq (lower (take 5 (lstrip content))) (codes "retur")))

  unfoldable pub upload_documents : Text → Bytes → Result (List Bytes)
  unfolding is_email
  upload_documents filename content =
      if is_email filename content
      then extract_report_payloads dec content
      else elim (decompress dec content filename) [
        | ok documents ↦ ok documents
        | raised x ↦
            raised
              (value_error (codes "could not read " ++ (filename ++ (codes ": " ++ message x))))
      ]

  abbrev pub is_nothing : Stored → Bool
  is_nothing n = n.aggregate == 0 && n.tlsrpt == 0 && n.skipped == 0

  abbrev upload_problem : Text → List Text → Text
  upload_problem filename [] = codes "no DMARC or TLS-RPT documents found in " ++ filename
  upload_problem filename (p ∷ problems) = p

  -- after the loop: an upload of which nothing could be used is marked as failed, and raises
  unfoldable pub conclude_upload : ℕ → Text → Stored × List Text → Exec Db Stored
  unfolding set_verdict join
  conclude_upload raw_id filename counted =
      if is_nothing counted.0
      then (do
        modify (set_verdict raw_id (failed, take 2000 (join (codes "; ") counted.1)))
        raise (value_error (upload_problem filename counted.1)))
      else pure counted.0

  unfoldable pub process_upload : Text → Bytes → Exec Db Stored
  unfolding upload_documents insert_raw store_upload_documents conclude_upload
  process_upload filename content = do
    documents ← lift (upload_documents filename content)
    raw ← insert_raw (new_raw content [] (codes "upload") (take 320 filename))
    counted ←
        store_upload_documents raw.id documents (record { aggregate = 0; tlsrpt = 0; skipped = 0 })
          []
    conclude_upload raw.id filename counted
