-- ===== src/Ui/View/Domain.antt =====
-- `domain_page` of api/ui.py.
use dmarc_service.Base.{
  ℕ, ◌-◌, ◌/◌, Bool, true, false, not, List, Option, none, some, map, select, length, ltb, ◌==◌,
  if◌then◌else◌,
}
use dmarc_service.Base.Int.{ℤ}
use dmarc_service.Base.Order.{ordered}
use dmarc_service.Base.Text.{Text, codes, lower, text_eq}
use dmarc_service.Base.Exec.{ok, raised, http_exception}
use dmarc_service.Config.{Settings}
use dmarc_service.Schema.{Domain, ReportAddress, AggregateReport, Db}
use dmarc_service.Schema.Insert.{has_name}
use dmarc_service.Base.{find}
use dmarc_service.ControlPlane.Provision.{belongs_to}
use dmarc_service.ControlPlane.Records.{Publisher, DnsRecord, required_dns_records}
use dmarc_service.ControlPlane.Check.{
  dns_recheck_interval, dns_checked_age, DnsStatus, Checked, check_dns_records,
}
use dmarc_service.Api.Reports.{latest_first}
use dmarc_service.Reports.Rows.{ReportRow, report_row}
use dmarc_service.Ui.Pages.{Pagination, pagination, window}
use dmarc_service.Ui.Visit.{Visit}
use dmarc_service.Ui.View.Guard.{View, shown, for_user}
use dmarc_service.Ui.View.Lists.{end_date}

abbrev pub is_by_tenant : Checked → Bool
is_by_tenant c = elim c.expected.published_by [
  | Publisher.tenant ↦ true
  | Publisher.operator ↦ false
]

abbrev pub status_is_ok : Checked → Bool
status_is_ok c = elim c.status [ DnsStatus.ok ↦ true | _ ↦ false ]

-- what the banner says of the records that the owner of the domain publishes
pub record DnsSummary : Type 0 where
  pub ok_count : ℕ
  pub total : ℕ
  pub problems : List Checked
  pub all_ok : Bool

unfoldable pub dns_summary : List Checked → DnsSummary
dns_summary checks =
    let theirs = select is_by_tenant checks in
    let good = length (select status_is_ok theirs) in
    record {
      ok_count = good;
      total = length theirs;
      problems = select (λ c. not (status_is_ok c)) theirs;
      all_ok = good == length theirs;
    }

-- the key (not a.active, a.local_part): active addresses come first
abbrev pub address_before : (Text → Text → Bool) → ReportAddress → ReportAddress → Bool
address_before before a b =
    if a.active
    then (if b.active then before a.local_part b.local_part else true)
    else (if b.active then false else before a.local_part b.local_part)

-- seconds, from the milliseconds of the clock
abbrev pub age_shown : Option ℕ → Option ℕ
age_shown none = none
age_shown (some age) = some (age / 1000)

abbrev pub wait_shown : Option ℕ → ℕ
wait_shown none = 0
wait_shown (some age) =
    if ltb age dns_recheck_interval then (dns_recheck_interval - age) / 1000 else 0

pub record DomainPage : Type 0 where
  pub domain : Text
  pub dns : List Checked
  pub addresses : List (Text × Bool)
  pub reports : List ReportRow
  pub summary : DnsSummary
  pub pages : Pagination
  pub just_checked : Bool
  pub checked_age : Option ℕ
  pub recheck_wait : ℕ

abbrev pub unflag_recheck : Visit → Visit
unflag_recheck v = record v { session = record v.session { dns_rechecked = false } }

module _ (top_domain : Text → Text) (settings : Settings)
    (resolve_txt : Text → ℕ → Option (List Text) × ℕ) (before : Text → Text → Bool)
    (link : ℕ → Text) where
  -- the page of a domain whose records have been checked, and the age of the oldest lookup
  unfoldable pub domain_shown : Db → Domain → ℤ → List Checked → Bool → Option ℕ → DomainPage
  unfolding ordered dns_summary pagination latest_first report_row text_eq
  domain_shown db domain wanted checks just_checked age =
      let found =
        select (λ (r : AggregateReport). text_eq r.policy_domain domain.name)
          db.aggregate_reports in
      let pages = pagination link wanted (length found) in
      record {
        domain = domain.name;
        dns = checks;
        addresses =
            map (λ (a : ReportAddress). (a.local_part, a.active))
              (ordered (address_before before) (select (belongs_to domain) db.addresses));
        reports = map report_row (window link pages (latest_first end_date found));
        summary = dns_summary checks;
        pages = pages;
        just_checked = just_checked;
        checked_age = age_shown age;
        recheck_wait = wait_shown age;
      }

  unfoldable pub show_domain : Domain → ℤ → View DomainPage
  unfolding required_dns_records check_dns_records dns_checked_age domain_shown
  show_domain domain wanted v =
      let required = required_dns_records top_domain settings v.db domain in
      let (checks, dns) = check_dns_records resolve_txt required v.dns in
      elim (dns_checked_age dns.now dns.cache (map (λ (r : DnsRecord). r.name) required)) [
        | raised x ↦ (raised x, record v { dns = dns })
        | ok age ↦ (
          ok (shown (domain_shown v.db domain wanted checks v.session.dns_rechecked age)),
          unflag_recheck (record v { dns = dns }),
        )
      ]

  unfoldable pub show_found : Option Domain → ℤ → View DomainPage
  unfolding show_domain
  show_found none wanted v = (raised (http_exception 404 (codes "domain not found")), v)
  show_found (some domain) wanted v = show_domain domain wanted v

  unfoldable pub domain_page : Text → ℤ → View DomainPage
  unfolding show_found lower
  domain_page name wanted =
      for_user (λ user v. show_found (find (has_name (lower name)) v.db.domains) wanted v)
