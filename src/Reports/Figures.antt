-- ===== src/Reports/Figures.antt =====
-- What the counts of a report are, by its records.
use dmarc_service.Base.{not, ◌≡◌, ◌∙◌, ap, sym, List, select}
use dmarc_service.Base.Int.{ℤ, ◌+ℤ◌, ◌-ℤ◌, sum, sum_case, sum_split, -ℤ_cancel}
use dmarc_service.Schema.{AggregateRecord, AggregateReport}
use dmarc_service.Reports.Rows.{count_of, is_passed, pass_case, report_row}

-- the messages of the records that passed, and of those that did not
abbrev pub passed_messages : List AggregateRecord → ℤ
passed_messages rs = sum count_of (select is_passed rs)

abbrev pub failed_messages : List AggregateRecord → ℤ
failed_messages rs = sum count_of (select (λ r. not (is_passed r)) rs)

pub sum-pass_case : (rs : List AggregateRecord) → sum pass_case rs ≡ passed_messages rs
unfolding pass_case
sum-pass_case rs = sum_case count_of is_passed rs

pub sum_failed :
    (rs : List AggregateRecord) → sum count_of rs -ℤ sum pass_case rs ≡ failed_messages rs
sum_failed rs =
    ap (λ s. s -ℤ sum pass_case rs) (sum_split count_of is_passed rs)
    ∙ ap (λ s. (passed_messages rs +ℤ failed_messages rs) -ℤ s) (sum-pass_case rs)
    ∙ -ℤ_cancel (passed_messages rs) (failed_messages rs)

-- The row of a report counts as passed the messages of the records with a DKIM or an SPF pass, as
-- failed those of the other records, also where a reporter sent negative counts, and as messages both.
pub report_row_lem :
    (report : AggregateReport)
    → let row = report_row report in
      (row.pass_count ≡ passed_messages report.records)
      × (row.fail_count ≡ failed_messages report.records)
      × (row.message_count ≡ row.pass_count +ℤ row.fail_count)
unfolding report_row
report_row_lem report =
    let passed = sum-pass_case report.records in
    let failed = sum_failed report.records in
    (
      passed,
      failed,
      sum_split count_of is_passed report.records
          ∙ ap (λ s. s +ℤ failed_messages report.records) (sym passed)
          ∙ ap (λ s. sum pass_case report.records +ℤ s) (sym failed),
    )
