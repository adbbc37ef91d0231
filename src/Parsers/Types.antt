-- ===== src/Parsers/Types.antt =====
-- The data classes of ingest/parsers.py.
use dmarc_service.Base.{ℕ, List}
use dmarc_service.Base.Int.{ℤ}
use dmarc_service.Base.Text.{Text}

pub record ParsedAggregateRecord : Type 0 where
  pub source_ip : Text
  pub count : ℤ
  pub disposition : Text
  pub dkim_result : Text
  pub spf_result : Text
  pub header_from : Text
  pub envelope_from : Text
  pub auth_dkim_domain : Text
  pub auth_dkim_result : Text
  pub auth_spf_domain : Text
  pub auth_spf_result : Text

pub record ParsedAggregateReport : Type 0 where
  pub org_name : Text
  pub org_email : Text
  pub report_id : Text
  pub date_begin : ℕ
  pub date_end : ℕ
  pub policy_domain : Text
  pub policy_adkim : Text
  pub policy_aspf : Text
  pub policy_p : Text
  pub policy_sp : Text
  pub policy_pct : ℤ
  pub records : List ParsedAggregateRecord

pub record ParsedTlsReport : Type 0 where
  pub organization_name : Text
  pub report_id : Text
  pub date_begin : ℕ
  pub date_end : ℕ
  pub contact_info : Text
  pub body : Text
  pub policy_domains : List Text
