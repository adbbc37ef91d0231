-- ===== src/Reports/Bucketed.antt =====
-- The daily totals, and the days without a report.
use mathlib.Core.Path.{fun_ext}
use dmarc_service.Base.{
  ℕ, suc, Bool, true, ◌≡◌, refl, ◌∙◌, ap, List, [], ◌∷◌, select, map, ◌==◌, ==_iff, ==_refl,
  Bool-cases, inl, inr, arith,
}
use dmarc_service.Base.Int.{ℤ, ◌-ℤ◌, sum, +ℤ_assoc, +ℤ_comm, +ℤ_zero}
use dmarc_service.Base.Tally.{plus_all, total_at-tally}
use dmarc_service.Base.Text.{Text}
use dmarc_service.Schema.{AggregateReport, Db}
use dmarc_service.Reports.Rows.{count_of, pass_case}
use dmarc_service.Reports.Series.{
  day_of, Verdicts, add_verdicts, no_verdicts, verdicts_of, dated_verdicts, since, recent,
  day_total, days_from, daily_series,
}
use dmarc_service.Reports.Figures.{passed_messages, failed_messages, sum-pass_case, sum_failed}

abbrev pub begins_on : ℕ → AggregateReport → Bool
begins_on day r = day_of r.date_begin == day

-- the messages that passed in the reports that begin on a day, and those that failed
abbrev pub passed_on : ℕ → List AggregateReport → ℤ
passed_on day rs =
    sum (λ (r : AggregateReport). passed_messages r.records) (select (begins_on day) rs)

abbrev pub failed_on : ℕ → List AggregateReport → ℤ
failed_on day rs =
    sum (λ (r : AggregateReport). failed_messages r.records) (select (begins_on day) rs)

verdicts_of_lem :
    (r : AggregateReport) → verdicts_of r ≡ (passed_messages r.records, failed_messages r.records)
unfolding verdicts_of
verdicts_of_lem r =
    ap (λ a. (a, sum count_of r.records -ℤ sum pass_case r.records)) (sum-pass_case r.records)
    ∙ ap (λ b. (passed_messages r.records, b)) (sum_failed r.records)

verdicts_assoc :
    (a b c : Verdicts) → add_verdicts (add_verdicts a b) c ≡ add_verdicts a (add_verdicts b c)
verdicts_assoc a b c = rw (+ℤ_assoc a.0 b.0 c.0, +ℤ_assoc a.1 b.1 c.1) refl

verdicts_comm : (a b : Verdicts) → add_verdicts a b ≡ add_verdicts b a
verdicts_comm a b = rw (+ℤ_comm a.0 b.0, +ℤ_comm a.1 b.1) refl

verdicts_nothing : (a : Verdicts) → add_verdicts a no_verdicts ≡ a
verdicts_nothing a = rw (+ℤ_zero a.0, +ℤ_zero a.1) refl

day_follows : (j k q : ℕ) → (j == k) ≡ true → (j == q) ≡ (k == q)
day_follows j k q e = ap (λ d. d == q) (ground (arith, ==_iff j k))

plus_all_on :
    (day : ℕ) (rs : List AggregateReport)
    → plus_all ◌==◌ add_verdicts no_verdicts (select (λ row. row.0 == day) (map dated_verdicts rs))
      ≡ (passed_on day rs, failed_on day rs)
plus_all_on day [] = refl
plus_all_on day (r ∷ rs) = elim (Bool-cases (begins_on day r)) [
  | inl hit ↦ rw hit (
      ap (add_verdicts (verdicts_of r)) (plus_all_on day rs)
      ∙ ap (λ v. add_verdicts v (passed_on day rs, failed_on day rs)) (verdicts_of_lem r))
  | inr miss ↦ rw miss (plus_all_on day rs)
]

-- The series has one entry for each day from the first to today, in order, and each counts the
-- messages that passed and that failed in the selected reports that begin on this day.
pub daily_series_lem :
    (db : Db) (domain : Text) (days : ℕ) (tenant : Text)
    → let rs = recent db domain days tenant in
      daily_series db domain days tenant
      ≡ map
          (λ day. record { day = day; passed = passed_on day rs; failed = failed_on day rs })
          (days_from (day_of (since db days)) (suc days))
unfolding daily_series
daily_series_lem db domain days tenant =
    let rs = recent db domain days tenant in
    ap (λ f. map f (days_from (day_of (since db days)) (suc days)))
      (fun_ext (λ day. ap (day_total day) (
        total_at-tally ◌==◌ add_verdicts no_verdicts day_follows ==_refl verdicts_assoc
          verdicts_comm verdicts_nothing day (map dated_verdicts rs) []
        ∙ verdicts_comm no_verdicts _
        ∙ verdicts_nothing _
        ∙ plus_all_on day rs)))
