-- ===== src/Tests/Figures.antt =====
-- The figures of two reports on one day, and of the metrics, backups and lookups.
use dmarc_service.Base.{
  ℕ, ◌+◌, ◌-◌, ◌*◌, ◌≤◌, ◌≡◌, ◌≢◌, refl, true, not, ◌&&◌, List, [], ◌∷◌, some, none, any, leb,
  length, take, drop, select, map,
}
use dmarc_service.Base.Int.{ℤ, pos, ◌+ℤ◌, sum}
use mathlib.Core.List.{Perm}
use dmarc_service.Base.Tally.{total_at, plus_all}
use dmarc_service.Base.Text.{Text, codes, text_eq}
use dmarc_service.Base.Exec.{Result, ok}
use dmarc_service.Config.{Settings}
use dmarc_service.Schema.{AggregateRecord, AggregateReport, Db}
use dmarc_service.Reports.Rows.{count_of, is_selected}
use dmarc_service.Reports.Series.{day_of, since, recent, days_from, daily_series}
use dmarc_service.Reports.Figures.{passed_messages, failed_messages}
use dmarc_service.Reports.Bucketed.{passed_on, failed_on, daily_series_lem}
use dmarc_service.Reports.Gaps.{covered, coverage_gaps, yesterday}
use dmarc_service.Reports.Missing.{is_in, coverage_gaps_lem}
use dmarc_service.Api.Reports.{
  ReportSummary, report_summary, list_reports, summary, is_about, records_of,
}
use dmarc_service.Api.Listed.{IsLatestFirst, has_disposition, list_reports_lem, summary_lem}
use dmarc_service.Metrics.Counts.{message_counts, same_labels}
use dmarc_service.Metrics.Exact.{counter, message_counts_lem}
use dmarc_service.Metrics.Server.{presented, serve, do_get, authorized}
use dmarc_service.Metrics.Polls.{do_get-serve}
use dmarc_service.Backup.{Destination, Store, day_seconds, prune}
use dmarc_service.Backup.Pruned.{Deletes, keys, expired, all_pages, prune_lem}
use dmarc_service.Tests.Samples.{sample, settings}

abbrev pub record_of : ℤ → Text → Text → AggregateRecord
record_of count dkim disposition = record {
  source_ip = codes "1.2.3.4";
  count = count;
  disposition = disposition;
  dkim_result = dkim;
  spf_result = codes "fail";
  header_from = codes "a.com";
  envelope_from = [];
  auth_dkim_domain = [];
  auth_dkim_result = [];
  auth_spf_domain = [];
  auth_spf_result = [];
}

abbrev pub report_of : ℕ → ℕ → List AggregateRecord → AggregateReport
report_of id begin records = record {
  id = id;
  tenant_id = some 2;
  domain_id = some 3;
  raw_message_id = none;
  org_name = codes "g";
  org_email = [];
  report_id = codes "r";
  date_begin = begin;
  date_end = begin + 86399;
  policy_domain = codes "a.com";
  policy_adkim = [];
  policy_aspf = [];
  policy_p = codes "none";
  policy_sp = [];
  policy_pct = pos 100;
  records = records;
}

-- two reports on day 10 and one on day 12; today is day 14
abbrev pub reports : List AggregateReport
reports =
    report_of 7 864000
      (record_of (pos 5) (codes "pass") (codes "none") ∷ record_of (pos 2) [] (codes "reject") ∷ [])
    ∷ report_of 8 900000 (record_of (pos 4) (codes "pass") (codes "none") ∷ [])
    ∷ report_of 9 1036800 (record_of (pos 1) [] (codes "none") ∷ [])
    ∷ []

abbrev pub reported : Db
reported = record sample { aggregate_reports = reports; now = 1210000 }

daily_series_lem_example :
    let rs = recent reported (codes "a.com") 5 [] in
    daily_series reported (codes "a.com") 5 []
    ≡ map
        (λ day. record { day = day; passed = passed_on day rs; failed = failed_on day rs })
        (days_from 9 6)
unfolding since
daily_series_lem_example = daily_series_lem reported (codes "a.com") 5 []

run_gaps : coverage_gaps reported (codes "a.com") [] 30 ≡ 11 ∷ 13 ∷ []
unfolding coverage_gaps covered is_selected since text_eq
run_gaps = refl

coverage_gaps_lem_example : is_in (coverage_gaps reported (codes "a.com") [] 30) 11 ≡ (
    any (λ c. leb c 11) (covered reported (codes "a.com") [])
    && (leb (day_of (since reported 30)) 11
        && (leb 11 (yesterday reported) && not (is_in (covered reported (codes "a.com") []) 11))))
coverage_gaps_lem_example = coverage_gaps_lem reported (codes "a.com") [] 30 11

abbrev odd : {A : Type 0} → ℤ → ℤ → List A → Result (List A)
odd limit offset rows = ok rows

list_reports_lem_example :
    (rs : List ReportSummary) × (list_reports odd reported [] (pos 2) (pos 1) ≡ ok rs)
    × (length rs ≤ 2)
    × (length rs ≤ 500)
    × IsLatestFirst (λ (r : ReportSummary). r.date_end) rs
    × ((all : List AggregateReport) × Perm all (select (is_about []) reports)
        × IsLatestFirst (λ (r : AggregateReport). r.date_end) all
        × (rs ≡ map report_summary (take 2 (drop 1 all))))
list_reports_lem_example = list_reports_lem odd reported [] 2 1

summary_lem_example :
    let totals = (summary reported []).0 in
    let rs = records_of (select (is_about []) reports) in
    (total_at text_eq ◌+ℤ◌ (pos 0) (codes "none") totals
      ≡ sum count_of (select (has_disposition (codes "none")) rs))
    × (plus_all text_eq ◌+ℤ◌ (pos 0) totals ≡ sum count_of rs)
summary_lem_example = summary_lem reported [] (codes "none")

message_counts_lem_example :
    let (verdicts, dispositions) = message_counts reported true in
    let about = select (λ (r : AggregateReport). text_eq r.policy_domain (codes "a.com")) reports in
    (counter (codes "a.com", codes "pass") verdicts ≡ sum (λ r. passed_messages r.records) about)
    × (counter (codes "a.com", codes "fail") verdicts ≡ sum (λ r. failed_messages r.records) about)
    × (plus_all same_labels ◌+ℤ◌ (pos 0) verdicts ≡ sum (λ r. sum count_of r.records) reports)
    × (plus_all same_labels ◌+ℤ◌ (pos 0) dispositions ≡ sum (λ r. sum count_of r.records) reports)
message_counts_lem_example = message_counts_lem reported (codes "a.com")

abbrev scraped : Settings
scraped = record settings { metrics_enabled = true; metrics_token = codes "secret" }

do_get-serve_example :
    (scraped.metrics_token ≢ []) × (presented (codes "Bearer secret") ≡ codes "secret")
unfolding serve do_get authorized
do_get-serve_example =
    do_get-serve scraped (record { token = codes "secret" }) (codes "/metrics")
      (codes "Bearer secret") refl refl refl

abbrev bucket : Destination
bucket = record {
  access_key = codes "k";
  secret_key = codes "s";
  endpoint = codes "https://s3";
  bucket = codes "b";
  prefix = codes "prod";
}

abbrev store : Store
store = record {
  pages = λ b prefix.
      (record { key = codes "old"; last_modified = 5 }
        ∷ record { key = codes "new"; last_modified = 90000 }
        ∷ [])
      ∷ [];
  delete = λ b key. ok tt;
  upload = λ b key. ok tt;
}

prune_lem_example :
    Deletes
      (keys
        (expired (100000 - 1 * day_seconds) (all_pages (store.pages (codes "b") (codes "prod")))))
      0
      []
      (prune store bucket 100000 (pos 1) [])
prune_lem_example = prune_lem store bucket 100000 0
