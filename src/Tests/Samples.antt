-- ===== src/Tests/Samples.antt =====
-- A small database, and decoders that read every message as one XML report.
use dmarc_service.Base.{refl, true, false, [], ◌∷◌, none, some, String}
use dmarc_service.Base.Int.{pos}
use dmarc_service.Base.Text.{Bytes, codes, text_eq}
use dmarc_service.Base.Exec.{os_error, value_error, ok, raised}
use dmarc_service.Config.{Settings, TenancyMode, SmtpMode}
use dmarc_service.Schema.{Tenant, Domain, ReportAddress, Db, empty_db, unrouted_tenant_slug}
use dmarc_service.Schema.Valid.{IsValid}
use dmarc_service.Parsers.Decoders.{
  Element, element, Elements, nil, cons, Json, object, array, string, nil_items, cons_item,
  nil_fields, cons_field, Decoders,
}

abbrev pub acme : Tenant
acme = record { id = 2; slug = codes "acme"; name = codes "Acme" }

abbrev pub example_com : Domain
example_com = record { id = 3; tenant_id = 2; name = codes "a.com" }

abbrev pub address_aa : ReportAddress
address_aa = record {
  id = 4;
  domain_id = 3;
  local_part = codes "aa";
  active = true;
  created_at = 0;
}

abbrev pub address_bb : ReportAddress
address_bb = record {
  id = 5;
  domain_id = 3;
  local_part = codes "bb";
  active = false;
  created_at = 1;
}

abbrev pub sample : Db
sample = record empty_db {
  tenants = record { id = 1; slug = unrouted_tenant_slug; name = codes "Q" } ∷ acme ∷ [];
  domains = example_com ∷ [];
  addresses = address_aa ∷ address_bb ∷ [];
  next_id = 6;
}

pub sample-IsValid : IsValid sample
unfolding text_eq
sample-IsValid = record {
  slugs = (refl, (refl, tt));
  names = (refl, tt);
  local_parts = (refl, (refl, tt));
  aggregates = tt;
  tls = tt;
  address_domains = (refl, (refl, tt));
  domain_tenants = (refl, tt);
  raw_ids = tt;
}

abbrev leaf : String → String → Element
leaf tag text = element (codes tag) (codes text) nil

abbrev node : String → Elements → Element
node tag children = element (codes tag) [] children

abbrev pub feedback : Element
feedback = node "feedback" (
    cons (node "report_metadata" (cons (leaf "org_name" "g") (cons (leaf "report_id" "r1") nil))) (
      cons (node "policy_published" (cons (leaf "domain" "A.com") nil))
        (cons (node "record" (cons (node "row" (cons (leaf "source_ip" "1.2.3.4") nil)) nil)) nil)))

abbrev pub tls_json : Json
tls_json = object (
    cons_field (codes "organization-name") (string (codes "g")) (
      cons_field (codes "report-id") (string (codes "t1")) (
        cons_field (codes "policies")
          (array (
            cons_item
              (object (
                cons_field (codes "policy")
                  (object (cons_field (codes "policy-domain") (string (codes "A.com")) nil_fields))
                  nil_fields))
              nil_items))
          nil_fields)))

abbrev pub xml_report : Bytes
xml_report = codes "<feedback>"

abbrev pub json_report : Bytes
json_report = codes "{}"

-- Every message has one part, the whole content; a gzip file is corrupt.
abbrev pub decoders : Decoders
decoders = record {
  walk = λ content.
      record {
        is_multipart = false;
        payload = some content;
        content_type = codes "application/xml";
        filename = none;
      }
      ∷ [];
  gunzip = λ b. raised (os_error (codes "not gzipped"));
  unzip = λ b. raised (value_error (codes "no archive"));
  xml = λ b. ok feedback;
  loads = λ b. ok tls_json;
  dumps = λ j. codes "{}";
  sha256 = λ b. b;
  int_of = λ t. ok (pos 1);
  epoch = λ t. ok 5;
  fromisoformat = λ t. ok 7;
  column_value = λ value. codes "None";
  takes_aggregate = λ r. true;
  takes_tls = λ r. true;
}

abbrev pub settings : Settings
settings = record {
  database_url = [];
  session_secret = [];
  credentials_key = [];
  external_url = codes "https://d.net";
  report_host = codes "d.net";
  tenancy_mode = TenancyMode.multi;
  control_plane_enabled = true;
  default_tenant = codes "default";
  api_token = [];
  ingest_token = [];
  smtp_mode = SmtpMode.direct;
  smtp_forward_url = [];
  smtp_forward_token = [];
  imap_host = [];
  imap_port = 993;
  imap_ssl = true;
  imap_username = [];
  imap_password = [];
  imap_folder = codes "INBOX";
  imap_processed_folder = [];
  backup_s3_url = [];
  backup_retention_days = pos 30;
  metrics_enabled = false;
  metrics_token = [];
  metrics_allow_unauthenticated = false;
  metrics_labels = true;
}
