-- ===== src/Schema.antt =====
-- The tables of db/models.py. A column that the program never reads (the creation times of all
-- tables but report_addresses) is left out. The rows of a table are kept in the order of their ids.
-- An instant is the number of seconds since 0001-01-01 UTC.
pub mod Insert
pub mod Valid
pub mod Session
use dmarc_service.Base.{ℕ, Bool, Option, List, []}
use dmarc_service.Base.Int.{ℤ}
use dmarc_service.Base.Text.{Text, Bytes, codes}

abbrev pub unrouted_tenant_slug : Text
unrouted_tenant_slug = codes "unrouted"

pub record User : Type 0 where
  pub id : ℕ
  pub email : Text
  pub password_hash : Option Text
  pub is_admin : Bool

pub record ApiToken : Type 0 where
  pub id : ℕ
  pub user_id : ℕ
  pub name : Text
  pub token_hash : Text
  pub prefix : Text

pub record IpIntel : Type 0 where
  pub ip : Text
  pub ptr : Text
  pub netname : Text
  pub org : Text

pub record ImapAccount : Type 0 where
  pub id : ℕ
  pub host : Text
  pub port : ℕ
  pub use_ssl : Bool
  pub username : Text
  pub password_encrypted : Text
  pub folder : Text
  pub processed_folder : Text
  pub catch_all : Bool
  pub enabled : Bool
  pub last_polled_at : Option ℕ
  pub last_result : Text

pub record AuthProvider : Type 0 where
  pub id : ℕ
  pub name : Text
  pub issuer : Text
  pub client_id : Text
  pub client_secret : Text
  pub enabled : Bool

pub record Tenant : Type 0 where
  pub id : ℕ
  pub slug : Text
  pub name : Text

pub record Domain : Type 0 where
  pub id : ℕ
  pub tenant_id : ℕ
  pub name : Text

pub record ReportAddress : Type 0 where
  pub id : ℕ
  pub domain_id : ℕ
  pub local_part : Text
  pub active : Bool
  pub created_at : ℕ

-- the values of the column `status`
pub data Status : Type 0 where
  routed retired unrouted duplicate failed : Status

pub record RawMessage : Type 0 where
  pub id : ℕ
  pub source_ip : Text
  pub mail_from : Text
  pub rcpt_to : Text
  pub size : ℕ
  pub content : Bytes
  pub status : Status
  pub error : Text

pub record AggregateRecord : Type 0 where
  pub source_ip : Text
  pub count : ℤ
  pub disposition : Text
  pub dkim_result : Text
  pub spf_result : Text
  pub header_from : Text
  pub envelope_from : Text
  pub auth_dkim_domain : Text
  pub auth_dkim_result : Text
  pub auth_spf_domain : Text
  pub auth_spf_result : Text

-- a report with the rows of aggregate_records that belong to it
pub record AggregateReport : Type 0 where
  pub id : ℕ
  pub tenant_id : Option ℕ
  pub domain_id : Option ℕ
  pub raw_message_id : Option ℕ
  pub org_name : Text
  pub org_email : Text
  pub report_id : Text
  pub date_begin : ℕ
  pub date_end : ℕ
  pub policy_domain : Text
  pub policy_adkim : Text
  pub policy_aspf : Text
  pub policy_p : Text
  pub policy_sp : Text
  pub policy_pct : ℤ
  pub records : List AggregateRecord

-- the values of the column `source`
pub data Source : Type 0 where
  smtp https upload : Source

pub record TlsReport : Type 0 where
  pub id : ℕ
  pub tenant_id : Option ℕ
  pub domain_id : Option ℕ
  pub raw_message_id : Option ℕ
  pub organization_name : Text
  pub report_id : Text
  pub date_begin : ℕ
  pub date_end : ℕ
  pub contact_info : Text
  pub body : Text
  pub source : Source

-- The database. `next_id` is the next value of the sequence that its primary keys come from, and
-- `now` is the clock of the request.
pub record Db : Type 0 where
  pub users : List User
  pub api_tokens : List ApiToken
  pub ip_intel : List IpIntel
  pub imap_accounts : List ImapAccount
  pub auth_providers : List AuthProvider
  pub tenants : List Tenant
  pub domains : List Domain
  pub addresses : List ReportAddress
  pub raw_messages : List RawMessage
  pub aggregate_reports : List AggregateReport
  pub tls_reports : List TlsReport
  pub next_id : ℕ
  pub now : ℕ

abbrev pub empty_db : Db
empty_db = record {
  users = [];
  api_tokens = [];
  ip_intel = [];
  imap_accounts = [];
  auth_providers = [];
  tenants = [];
  domains = [];
  addresses = [];
  raw_messages = [];
  aggregate_reports = [];
  tls_reports = [];
  next_id = 1;
  now = 0;
}
