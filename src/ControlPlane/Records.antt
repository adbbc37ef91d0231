-- ===== src/ControlPlane/Records.antt =====
-- `required_dns_records` of control_plane/service.py.
use dmarc_service.Base.{not, ◌&&◌, List, [], ◌∷◌, ◌++◌, map, select, if◌then◌else◌}
use dmarc_service.Base.Text.{Text, codes, is_empty, text_eq, last_part, join}
use dmarc_service.Config.{Settings}
use dmarc_service.Schema.{Domain, ReportAddress, Db}
use dmarc_service.ControlPlane.Provision.{
  org_domain, active_addresses, delivery_address, belongs_to,
}

-- the values of `published_by`
pub data Publisher : Type 0 where
  tenant operator : Publisher

pub record DnsRecord : Type 0 where
  pub zone : Text
  pub name : Text
  pub type : Text
  pub content : Text
  pub published_by : Publisher
  pub must_contain : Text
  pub must_start_with : Text
  pub retired_markers : List Text

-- f"{local_part}@{report_host}"
abbrev pub at_host : Text → ReportAddress → Text
at_host report_host a = a.local_part ++ (codes "@" ++ report_host)

unfoldable pub mailtos : Settings → Db → Domain → Text
unfolding active_addresses delivery_address join
mailtos settings db domain =
    let shared = delivery_address db in
    if is_empty shared
    then join (codes ",")
        (map (λ a. codes "mailto:" ++ at_host settings.report_host a) (active_addresses db domain))
    else codes "mailto:" ++ shared

unfoldable pub any_mailto : Settings → Db → Text
unfolding delivery_address last_part
any_mailto settings db =
    let shared = delivery_address db in
    codes "@" ++ (if is_empty shared then settings.report_host else last_part b'@' shared)

unfoldable pub retired_addresses : Settings → Db → Domain → List Text
retired_addresses settings db domain =
    map (at_host settings.report_host)
      (select (λ a. belongs_to domain a && not a.active) db.addresses)

unfoldable pub dmarc_record : Settings → Db → Domain → DnsRecord
unfolding mailtos any_mailto retired_addresses
dmarc_record settings db domain = record {
  zone = domain.name;
  name = codes "_dmarc." ++ domain.name;
  type = codes "TXT";
  content = codes "v=DMARC1; p=none; rua=" ++ mailtos settings db domain;
  published_by = tenant;
  must_contain = any_mailto settings db;
  must_start_with = codes "v=DMARC1";
  retired_markers = retired_addresses settings db domain;
}

unfoldable pub tls_record : Settings → Db → Domain → DnsRecord
unfolding mailtos any_mailto retired_addresses
tls_record settings db domain = record {
  zone = domain.name;
  name = codes "_smtp._tls." ++ domain.name;
  type = codes "TXT";
  content =
      codes "v=TLSRPTv1; rua="
      ++ (settings.external_url ++ (codes "/tlsrpt," ++ mailtos settings db domain));
  published_by = tenant;
  must_contain = any_mailto settings db;
  must_start_with = codes "v=TLSRPTv1";
  retired_markers = retired_addresses settings db domain;
}

-- the verification record of RFC 7489 section 7.1
unfoldable pub verification_record : (Text → Text) → Settings → Domain → DnsRecord
unfolding org_domain
verification_record top_domain settings domain = record {
  zone = org_domain top_domain settings.report_host;
  name = domain.name ++ (codes "._report._dmarc." ++ settings.report_host);
  type = codes "TXT";
  content = codes "v=DMARC1";
  published_by = operator;
  must_contain = codes "v=DMARC1";
  must_start_with = codes "v=DMARC1";
  retired_markers = [];
}

unfoldable pub required_dns_records : (Text → Text) → Settings → Db → Domain → List DnsRecord
unfolding dmarc_record tls_record verification_record org_domain text_eq
required_dns_records top_domain settings db domain =
    dmarc_record settings db domain
    ∷ tls_record settings db domain
    ∷ (if text_eq (org_domain top_domain domain.name) (org_domain top_domain settings.report_host)
        then []
        else verification_record top_domain settings domain ∷ [])
