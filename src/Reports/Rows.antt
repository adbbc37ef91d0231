-- ===== src/Reports/Rows.antt =====
-- `_pass_case` and `_report_row` of api/ui.py, `_report_summary` of api/app.py, and the filters of the
-- queries over aggregate reports.
use dmarc_service.Base.{ℕ, Bool, false, ◌&&◌, ◌||◌, none, some, any, ◌==◌, if◌then◌else◌}
use dmarc_service.Base.Int.{ℤ, pos, ◌-ℤ◌, sum}
use dmarc_service.Base.Text.{Text, codes, is_empty, text_eq}
use dmarc_service.Schema.{Tenant, AggregateRecord, AggregateReport, Db}
use dmarc_service.Schema.Insert.{has_slug}

abbrev pub count_of : AggregateRecord → ℤ
count_of r = r.count

unfoldable pub is_passed : AggregateRecord → Bool
unfolding text_eq
is_passed r = text_eq r.dkim_result (codes "pass") || text_eq r.spf_result (codes "pass")

unfoldable pub pass_case : AggregateRecord → ℤ
unfolding is_passed
pass_case r = if is_passed r then r.count else pos 0

pub record ReportRow : Type 0 where
  pub id : ℕ
  pub org_name : Text
  pub policy_domain : Text
  pub date_begin : ℕ
  pub date_end : ℕ
  pub policy_p : Text
  pub message_count : ℤ
  pub pass_count : ℤ
  pub fail_count : ℤ

unfoldable pub report_row : AggregateReport → ReportRow
unfolding pass_case
report_row report =
    let total = sum count_of report.records in
    let passed = sum pass_case report.records in
    record {
      id = report.id;
      org_name = report.org_name;
      policy_domain = report.policy_domain;
      date_begin = report.date_begin;
      date_end = report.date_end;
      policy_p = report.policy_p;
      message_count = total;
      pass_count = passed;
      fail_count = total -ℤ passed;
    }

-- AggregateReport.tenant_id.in_(select(Tenant.id).where(Tenant.slug == tenant))
unfoldable pub is_of_tenant : Db → Text → AggregateReport → Bool
is_of_tenant db tenant r = elim r.tenant_id [
  | none ↦ false
  | some id ↦ any (λ (t : Tenant). has_slug tenant t && t.id == id) db.tenants
]

-- the filters by domain and by tenant, each only where it is given
unfoldable pub is_selected : Db → Text → Text → AggregateReport → Bool
unfolding is_of_tenant text_eq
is_selected db domain tenant r =
    (is_empty domain || text_eq r.policy_domain domain)
    && (is_empty tenant || is_of_tenant db tenant r)
