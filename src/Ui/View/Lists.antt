-- ===== src/Ui/View/Lists.antt =====
-- The pages of api/ui.py that list reports: `index`, `reports_page` and `graphs_page`, with
-- `_filter_options`. The rounded percentage, which is computed in floating point, is a parameter, and so
-- are the order of texts, the reading and writing of dates, and the address of a page.
use dmarc_service.Base.{
  ℕ, ◌+◌, ◌*◌, Bool, true, false, not, ◌&&◌, ◌||◌, List, [], Option, none, some, any, map, select,
  length, leb, ◌==◌, if◌then◌else◌,
}
use dmarc_service.Base.Int.{ℤ, pos, negsuc, ◌+ℤ◌, sum}
use dmarc_service.Base.Order.{ordered}
use dmarc_service.Base.Text.{Text, is_empty, text_eq}
use dmarc_service.Base.Exec.{ok}
use dmarc_service.Schema.{Tenant, Domain, AggregateReport, Db}
use dmarc_service.Schema.Insert.{has_slug}
use dmarc_service.Api.Reports.{latest_first, by_slug, is_about, is_unrouted}
use dmarc_service.Reports.Rows.{ReportRow, report_row, is_of_tenant}
use dmarc_service.Reports.Series.{DayTotal, day_seconds, daily_series}
use dmarc_service.Reports.Gaps.{coverage_gaps}
use dmarc_service.Ui.Pages.{Pagination, pagination, window, page_slice}
use dmarc_service.Ui.View.Guard.{View, shown, for_user}
use mathlib.Core.List.{reverse}

abbrev pub is_zero : ℤ → Bool
is_zero (pos n) = n == 0
is_zero (negsuc n) = false

-- the totals over a series of days
pub record SeriesTotals : Type 0 where
  pub passed : ℤ
  pub failed : ℤ
  pub total : ℤ
  pub rate : Option ℤ

abbrev pub end_date : AggregateReport → ℕ
end_date r = r.date_end

-- `percent` is round(100 * passed / total)
unfoldable pub totals_of : (ℤ → ℤ → ℤ) → List DayTotal → SeriesTotals
totals_of percent series =
    let passed = sum (λ (d : DayTotal). d.passed) series in
    let failed = sum (λ (d : DayTotal). d.failed) series in
    let total = passed +ℤ failed in
    record {
      passed = passed;
      failed = failed;
      total = total;
      rate = if is_zero total then none else some (percent passed total);
    }

unfoldable pub filter_options : (Text → Text → Bool) → Db → Text → List (Text × Text) × List Text
unfolding by_slug ordered
filter_options before db tenant = (
  map (λ (t : Tenant). (t.slug, t.name)) (by_slug before db.tenants),
  map (λ (d : Domain). d.name)
      (ordered (λ (d e : Domain). before d.name e.name)
        (select
          (λ (d : Domain).
            is_empty tenant
            || any (λ (t : Tenant). has_slug tenant t && t.id == d.tenant_id) db.tenants)
          db.domains)),
)

pub record IndexPage : Type 0 where
  pub reports : List ReportRow
  pub unrouted : ℕ
  pub totals : SeriesTotals
  pub pages : Pagination

module _ (link : ℕ → Text) (percent : ℤ → ℤ → ℤ) where
  unfoldable pub index : ℤ → View IndexPage
  unfolding pagination latest_first report_row daily_series totals_of
  index wanted = for_user (λ user v.
      let pages = pagination link wanted (length v.db.aggregate_reports) in
      (
        ok (
            shown (record {
              reports =
                  map report_row (window link pages (latest_first end_date v.db.aggregate_reports));
              unrouted = length (select is_unrouted v.db.raw_messages);
              totals = totals_of percent (daily_series v.db [] 30 []);
              pages = pages;
            })),
        v,
      ))

-- the reports whose period overlaps the day: its last instant is that of `time.max`
unfoldable pub overlaps : Option ℕ → AggregateReport → Bool
overlaps none r = true
overlaps (some day) r =
    leb r.date_begin (day * day_seconds + 86399) && leb (day * day_seconds) r.date_end

-- the query for the reports, before it is ordered
unfoldable pub is_listed : Db → Text → Text → Option ℕ → AggregateReport → Bool
unfolding is_about is_of_tenant overlaps
is_listed db domain tenant day r =
    is_about domain r && (is_empty tenant || is_of_tenant db tenant r) && overlaps day r

pub record ReportsPage : Type 0 where
  pub reports : List ReportRow
  pub tenants : List (Text × Text)
  pub domains : List Text
  pub domain : Text
  pub tenant : Text
  pub day : Text
  pub pages : Pagination

module _ (link : ℕ → Text) (before : Text → Text → Bool) (fromisoformat : Text → Option ℕ)
    (isoformat : ℕ → Text) where
  -- an empty or unreadable date picks no day
  abbrev pub picked_day : Text → Option ℕ
  picked_day day = if is_empty day then none else fromisoformat day

  abbrev pub day_shown : Option ℕ → Text
  day_shown none = []
  day_shown (some day) = isoformat day

  -- what the template is given
  unfoldable pub reports_shown : Text → Text → Text → ℤ → Db → ReportsPage
  unfolding pagination latest_first report_row is_listed filter_options
  reports_shown domain tenant day wanted db =
      let picked = picked_day day in
      let found = select (is_listed db domain tenant picked) db.aggregate_reports in
      let pages = pagination link wanted (length found) in
      let (tenants, domains) = filter_options before db tenant in
      record {
        reports = map report_row (window link pages (latest_first end_date found));
        tenants = tenants;
        domains = domains;
        domain = domain;
        tenant = tenant;
        day = day_shown picked;
        pages = pages;
      }

  unfoldable pub reports_page : Text → Text → Text → ℤ → View ReportsPage
  unfolding reports_shown
  reports_page domain tenant day wanted =
      for_user (λ user v. (ok (shown (reports_shown domain tenant day wanted v.db)), v))

pub record GraphsPage : Type 0 where
  pub series : List DayTotal
  pub pages : Pagination
  pub totals : SeriesTotals
  pub tenants : List (Text × Text)
  pub domains : List Text
  pub gaps : List ℕ
  pub domain : Text
  pub tenant : Text
  pub days : ℕ

-- days = 90 if days >= 90 else 30
abbrev pub days_shown : ℤ → ℕ
days_shown (pos n) = if leb 90 n then 90 else 30
days_shown (negsuc n) = 30

-- a day on which something passed or failed
abbrev pub is_active_day : DayTotal → Bool
is_active_day d = not (is_zero d.passed) || not (is_zero d.failed)

module _ (link : ℕ → Text) (percent : ℤ → ℤ → ℤ) (before : Text → Text → Bool) where
  -- a domain that is not among the options is passed over
  abbrev pub known_domain : Text → List Text → Text
  known_domain domain domains = if any (text_eq domain) domains then domain else []

  unfoldable pub graphs_page : Text → Text → ℤ → ℤ → View GraphsPage
  unfolding pagination page_slice filter_options daily_series totals_of coverage_gaps text_eq
  graphs_page wanted_domain tenant wanted_days wanted = for_user (λ user v.
      let days = days_shown wanted_days in
      let (tenants, domains) = filter_options before v.db tenant in
      let domain = known_domain wanted_domain domains in
      let series = daily_series v.db domain days tenant in
      (
        ok (
            shown (record {
              series = page_slice link wanted (select is_active_day (reverse series));
              pages = pagination link wanted (length (select is_active_day series));
              totals = totals_of percent series;
              tenants = tenants;
              domains = domains;
              gaps = coverage_gaps v.db domain tenant days;
              domain = domain;
              tenant = tenant;
              days = days;
            })),
        v,
      ))
