-- ===== src/Pipeline/Store.antt =====
-- `_store_aggregate`, `_store_tlsrpt` and `_store_reports` of ingest/pipeline.py. A query flushes
-- what was added before it, so a row is inserted where the program adds it to the session.
use dmarc_service.Base.{
  ℕ, ◌+◌, Bool, true, false, List, [], ◌∷◌, Option, none, some, any, find, map, if◌then◌else◌,
}
use dmarc_service.Base.Text.{Text, Bytes, is_empty}
use dmarc_service.Base.Exec.{Exec, pure, lift, gets, ◌>>=◌, ◌>>◌}
use dmarc_service.Schema.{Domain, AggregateRecord, AggregateReport, TlsReport, Source, smtp, Db}
use dmarc_service.Schema.Insert.{has_name, is_aggregate, is_tls, insert_aggregate, insert_tls}
use dmarc_service.Parsers.Types.{ParsedAggregateRecord, ParsedAggregateReport, ParsedTlsReport}
use dmarc_service.Parsers.Decoders.{Decoders}
use dmarc_service.Parsers.Documents.{Kind, classify, extract_report_payloads}
use dmarc_service.Parsers.Aggregate.{parse_aggregate_xml}
use dmarc_service.Parsers.Tlsrpt.{parse_tlsrpt_json}

-- whom a report is filed under
pub record Owner : Type 0 where
  pub tenant_id : Option ℕ
  pub domain_id : Option ℕ

abbrev pub owner_of : Option Domain → Owner → Owner
owner_of none o = o
owner_of (some d) o = record { tenant_id = some d.tenant_id; domain_id = some d.id }

-- The owner that routing found, or the registered domain of that name.
unfoldable pub file_under : Db → Text → Owner → Owner
file_under db name o = elim o.domain_id [
  | some _ ↦ o
  | none ↦ if is_empty name then o else owner_of (find (has_name name) db.domains) o
]

unfoldable pub stored_record : ParsedAggregateRecord → AggregateRecord
stored_record r = record {
  source_ip = r.source_ip;
  count = r.count;
  disposition = r.disposition;
  dkim_result = r.dkim_result;
  spf_result = r.spf_result;
  header_from = r.header_from;
  envelope_from = r.envelope_from;
  auth_dkim_domain = r.auth_dkim_domain;
  auth_dkim_result = r.auth_dkim_result;
  auth_spf_domain = r.auth_spf_domain;
  auth_spf_result = r.auth_spf_result;
}

unfoldable pub stored_aggregate : ParsedAggregateReport → ℕ → Owner → AggregateReport
unfolding stored_record
stored_aggregate parsed raw_id o = record {
  id = 0;
  tenant_id = o.tenant_id;
  domain_id = o.domain_id;
  raw_message_id = some raw_id;
  org_name = parsed.org_name;
  org_email = parsed.org_email;
  report_id = parsed.report_id;
  date_begin = parsed.date_begin;
  date_end = parsed.date_end;
  policy_domain = parsed.policy_domain;
  policy_adkim = parsed.policy_adkim;
  policy_aspf = parsed.policy_aspf;
  policy_p = parsed.policy_p;
  policy_sp = parsed.policy_sp;
  policy_pct = parsed.policy_pct;
  records = map stored_record parsed.records;
}

unfoldable pub store_aggregate : ParsedAggregateReport → ℕ → Owner → Exec Db Bool
unfolding file_under stored_aggregate insert_aggregate
store_aggregate parsed raw_id o = do
  duplicate ← gets (λ db.
      any (is_aggregate parsed.org_name parsed.report_id parsed.policy_domain) db.aggregate_reports)
  if duplicate then pure false else do
    filed ← gets (λ db. file_under db parsed.policy_domain o)
    insert_aggregate (stored_aggregate parsed raw_id filed)
    pure true

abbrev pub first_domain : List Text → Text
first_domain [] = []
first_domain (d ∷ _) = d

-- `file_under` for the first policy domain; the parser lists no empty ones
unfoldable pub file_tls_under : Db → List Text → Owner → Owner
file_tls_under db [] o = o
file_tls_under db (name ∷ _) o = elim o.domain_id [
  | some _ ↦ o
  | none ↦ owner_of (find (has_name name) db.domains) o
]

unfoldable pub stored_tls : ParsedTlsReport → Option ℕ → Owner → Source → TlsReport
stored_tls parsed raw_id o source = record {
  id = 0;
  tenant_id = o.tenant_id;
  domain_id = o.domain_id;
  raw_message_id = raw_id;
  organization_name = parsed.organization_name;
  report_id = parsed.report_id;
  date_begin = parsed.date_begin;
  date_end = parsed.date_end;
  contact_info = parsed.contact_info;
  body = parsed.body;
  source = source;
}

unfoldable pub store_tlsrpt : ParsedTlsReport → Option ℕ → Owner → Source → Exec Db Bool
unfolding file_tls_under stored_tls insert_tls
store_tlsrpt parsed raw_id o source = do
  duplicate ← gets (λ db. any (is_tls parsed.organization_name parsed.report_id) db.tls_reports)
  if duplicate then pure false else do
    filed ← gets (λ db. file_tls_under db parsed.policy_domains o)
    insert_tls (stored_tls parsed raw_id filed source)
    pure true

-- (documents understood, documents newly stored)
abbrev pub Tally : Type 0
Tally = ℕ × ℕ

abbrev pub one_more : Bool → Tally
one_more stored = (1, if stored then 1 else 0)

module _ (dec : Decoders) (raw_id : ℕ) (o : Owner) where
  unfoldable pub store_document : Kind → Bytes → Exec Db Tally
  unfolding store_aggregate store_tlsrpt
  store_document Kind.aggregate document = do
    parsed ← lift (parse_aggregate_xml dec document)
    stored ← store_aggregate parsed raw_id o
    pure (one_more stored)
  store_document Kind.tlsrpt document = do
    parsed ← lift (parse_tlsrpt_json dec document)
    stored ← store_tlsrpt parsed (some raw_id) o smtp
    pure (one_more stored)
  store_document Kind.unknown document = pure (0, 0)

  unfoldable pub store_documents : List Bytes → Exec Db Tally
  unfolding store_document
  store_documents [] = pure (0, 0)
  store_documents (document ∷ documents) = do
    kind ← lift (classify dec document)
    this ← store_document kind document
    others ← store_documents documents
    pure (this.0 + others.0, this.1 + others.1)

  unfoldable pub store_reports : Bytes → Exec Db Tally
  unfolding store_documents
  store_reports content = do
    documents ← lift (extract_report_payloads dec content)
    store_documents documents
