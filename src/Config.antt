-- ===== src/Config.antt =====
-- config.py: the settings of the core, of tenancy, of the tokens and of the relay.
use dmarc_service.Base.{ℕ, Bool}
use dmarc_service.Base.Int.{ℤ}
use dmarc_service.Base.Text.{Text}

pub data TenancyMode : Type 0 where
  single multi : TenancyMode

pub data SmtpMode : Type 0 where
  direct forward : SmtpMode

pub record Settings : Type 0 where
  pub database_url : Text
  pub external_url : Text
  pub report_host : Text
  pub tenancy_mode : TenancyMode
  pub control_plane_enabled : Bool
  pub default_tenant : Text
  pub api_token : Text
  pub session_secret : Text
  pub ingest_token : Text
  pub credentials_key : Text
  pub smtp_mode : SmtpMode
  pub smtp_forward_url : Text
  pub smtp_forward_token : Text
  pub imap_host : Text
  pub imap_port : ℕ
  pub imap_ssl : Bool
  pub imap_username : Text
  pub imap_password : Text
  pub imap_folder : Text
  pub imap_processed_folder : Text
  pub backup_s3_url : Text
  pub backup_retention_days : ℤ
  pub metrics_enabled : Bool
  pub metrics_token : Text
  pub metrics_allow_unauthenticated : Bool
  pub metrics_labels : Bool
