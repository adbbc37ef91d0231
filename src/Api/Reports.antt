-- ===== src/Api/Reports.antt =====
-- The reports, tenants and totals that api/app.py lists. The order of texts is the database's, and so is
-- what it does with a negative LIMIT or OFFSET: both are parameters.
use dmarc_service.Base.{
  ℕ, Bool, true, false, List, [], ◌∷◌, ◌++◌, none, some, find, select, map, length, take, drop, leb,
  ◌==◌, if◌then◌else◌,
}
use dmarc_service.Base.Int.{ℤ, pos, negsuc, ◌+ℤ◌, sum}
use dmarc_service.Base.Tally.{tally}
use dmarc_service.Base.Order.{ordered}
use dmarc_service.Base.Text.{Text, codes, is_empty, lower, text_eq}
use dmarc_service.Base.Exec.{Result, ok, raised, http_exception}
use dmarc_service.Config.{Settings}
use dmarc_service.Schema.{
  Tenant, Domain, ReportAddress, RawMessage, unrouted, AggregateRecord, AggregateReport, TlsReport,
  Source, Db,
}
use dmarc_service.ControlPlane.Provision.{active_addresses}
use dmarc_service.ControlPlane.Records.{DnsRecord, required_dns_records}
use dmarc_service.Reports.Rows.{count_of}

-- ORDER BY key DESC: a later key comes first
unfoldable pub latest_first {ℓ} : {A : Type ℓ} → (A → ℕ) → List A → List A
unfolding ordered
latest_first key = ordered (λ x y. leb (key y) (key x))

-- min(limit, 500)
unfoldable pub capped : ℤ → ℤ
capped (negsuc n) = negsuc n
capped (pos n) = if leb n 500 then pos n else pos 500

-- `.limit(limit).offset(offset)`; `odd` is what the database does where one is negative
module _ {ℓ} {A : Type ℓ} (odd : ℤ → ℤ → List A → Result (List A)) where
  unfoldable pub limited : ℤ → ℤ → List A → Result (List A)
  limited (pos limit) (pos offset) rows = ok (take limit (drop offset rows))
  limited (pos limit) (negsuc n) rows = odd (pos limit) (negsuc n) rows
  limited (negsuc n) offset rows = odd (negsuc n) offset rows

pub record ReportSummary : Type 0 where
  pub id : ℕ
  pub org_name : Text
  pub report_id : Text
  pub policy_domain : Text
  pub date_begin : ℕ
  pub date_end : ℕ
  pub policy_p : Text
  pub message_count : ℤ

unfoldable pub report_summary : AggregateReport → ReportSummary
report_summary r = record {
  id = r.id;
  org_name = r.org_name;
  report_id = r.report_id;
  policy_domain = r.policy_domain;
  date_begin = r.date_begin;
  date_end = r.date_end;
  policy_p = r.policy_p;
  message_count = sum count_of r.records;
}

-- AggregateReport.policy_domain == domain.lower(), where a domain is given
unfoldable pub is_about : Text → AggregateReport → Bool
unfolding text_eq lower
is_about domain r = if is_empty domain then true else text_eq r.policy_domain (lower domain)

unfoldable pub list_reports :
    (ℤ → ℤ → List AggregateReport → Result (List AggregateReport))
    → Db
    → Text
    → ℤ
    → ℤ
    → Result (List ReportSummary)
unfolding latest_first capped limited report_summary is_about
list_reports odd db domain limit offset =
    let rows =
      latest_first (λ (r : AggregateReport). r.date_end)
        (select (is_about domain) db.aggregate_reports) in
    elim (limited odd (capped limit) offset rows) [
      | raised x ↦ raised x
      | ok found ↦ ok (map report_summary found)
    ]

-- a record of a report, as it is shown
pub record RecordDetail : Type 0 where
  pub source_ip : Text
  pub count : ℤ
  pub disposition : Text
  pub dkim : Text
  pub spf : Text
  pub header_from : Text
  pub auth_dkim_domain : Text
  pub auth_dkim_result : Text
  pub auth_spf_domain : Text
  pub auth_spf_result : Text

unfoldable pub record_detail : AggregateRecord → RecordDetail
record_detail r = record {
  source_ip = r.source_ip;
  count = r.count;
  disposition = r.disposition;
  dkim = r.dkim_result;
  spf = r.spf_result;
  header_from = r.header_from;
  auth_dkim_domain = r.auth_dkim_domain;
  auth_dkim_result = r.auth_dkim_result;
  auth_spf_domain = r.auth_spf_domain;
  auth_spf_result = r.auth_spf_result;
}

unfoldable pub report_detail : Db → ℕ → Result (ReportSummary × List RecordDetail)
unfolding report_summary record_detail
report_detail db report_id =
    elim (find (λ (r : AggregateReport). r.id == report_id) db.aggregate_reports) [
      | none ↦ raised (http_exception 404 (codes "report not found"))
      | some r ↦ ok (report_summary r, map record_detail r.records)
    ]

pub record TlsSummary : Type 0 where
  pub id : ℕ
  pub organization_name : Text
  pub report_id : Text
  pub date_begin : ℕ
  pub date_end : ℕ
  pub source : Source

unfoldable pub tls_summary : TlsReport → TlsSummary
tls_summary r = record {
  id = r.id;
  organization_name = r.organization_name;
  report_id = r.report_id;
  date_begin = r.date_begin;
  date_end = r.date_end;
  source = r.source;
}

unfoldable pub list_tls_reports :
    (ℤ → ℤ → List TlsReport → Result (List TlsReport)) → Db → ℤ → Result (List TlsSummary)
unfolding latest_first capped limited tls_summary
list_tls_reports odd db limit =
    elim (limited odd (capped limit) (pos 0)
      (latest_first (λ (r : TlsReport). r.date_end) db.tls_reports)) [
        | raised x ↦ raised x
        | ok found ↦ ok (map tls_summary found)
      ]

-- the records of some reports
abbrev pub records_of : List AggregateReport → List AggregateRecord
records_of [] = []
records_of (r ∷ rs) = r.records ++ records_of rs

abbrev pub is_unrouted : RawMessage → Bool
is_unrouted m = elim m.status [ unrouted ↦ true | _ ↦ false ]

-- GROUP BY disposition, as a dictionary, and the number of unrouted messages
unfoldable pub summary : Db → Text → List (Text × ℤ) × ℕ
unfolding is_about tally text_eq
summary db domain = (
  tally text_eq ◌+ℤ◌ (pos 0)
      (map (λ (r : AggregateRecord). (r.disposition, r.count))
        (records_of (select (is_about domain) db.aggregate_reports)))
      [],
  length (select is_unrouted db.raw_messages),
)

pub record DomainOut : Type 0 where
  pub id : ℕ
  pub name : Text
  pub addresses : List (Text × Bool)
  pub dns : List DnsRecord

unfoldable pub domain_out : (Text → Text) → Settings → Db → Domain → DomainOut
unfolding active_addresses required_dns_records
domain_out top_domain settings db domain = record {
  id = domain.id;
  name = domain.name;
  addresses = map (λ (a : ReportAddress). (a.local_part, a.active)) (active_addresses db domain);
  dns = required_dns_records top_domain settings db domain;
}

-- ORDER BY Tenant.slug, in the order of texts that is given
unfoldable pub by_slug : (Text → Text → Bool) → List Tenant → List Tenant
unfolding ordered
by_slug before = ordered (λ t u. before t.slug u.slug)

unfoldable pub list_tenants : (Text → Text → Bool) → Db → List Tenant
unfolding by_slug
list_tenants before db = by_slug before db.tenants
