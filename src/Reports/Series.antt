-- ===== src/Reports/Series.antt =====
-- `_daily_series` of api/ui.py. A day is a number of days since 0001-01-01.
use dmarc_service.Base.{
  ℕ, zero, suc, ◌-◌, ◌*◌, ◌/◌, Bool, true, false, ◌&&◌, List, [], ◌∷◌, select, map, leb, ◌==◌,
}
use dmarc_service.Base.Int.{ℤ, pos, ◌+ℤ◌, ◌-ℤ◌, sum}
use dmarc_service.Base.Tally.{tally, total_at}
use dmarc_service.Base.Text.{Text}
use dmarc_service.Schema.{AggregateReport, Db}
use dmarc_service.Reports.Rows.{count_of, pass_case, is_selected}

abbrev pub day_seconds : ℕ
day_seconds = 86400

abbrev pub day_of : ℕ → ℕ
day_of instant = instant / day_seconds

-- what passed, and what failed
abbrev pub Verdicts : Type 0
Verdicts = ℤ × ℤ

abbrev pub add_verdicts : Verdicts → Verdicts → Verdicts
add_verdicts a b = (a.0 +ℤ b.0, a.1 +ℤ b.1)

abbrev pub no_verdicts : Verdicts
no_verdicts = (pos 0, pos 0)

-- the inner join: a report without records has no row
abbrev pub has_records : AggregateReport → Bool
has_records r = elim r.records [ [] ↦ false | _ ↦ true ]

unfoldable pub since : Db → ℕ → ℕ
since db days = db.now - days * day_seconds

-- the reports that the query finds
unfoldable pub recent : Db → Text → ℕ → Text → List AggregateReport
unfolding since is_selected
recent db domain days tenant =
    select
      (λ r. leb (since db days) r.date_begin && has_records r && is_selected db domain tenant r)
      db.aggregate_reports

unfoldable pub verdicts_of : AggregateReport → Verdicts
unfolding pass_case
verdicts_of r = let passed = sum pass_case r.records in (passed, sum count_of r.records -ℤ passed)

abbrev pub dated_verdicts : AggregateReport → ℕ × Verdicts
dated_verdicts r = (day_of r.date_begin, verdicts_of r)

pub record DayTotal : Type 0 where
  pub day : ℕ
  pub passed : ℤ
  pub failed : ℤ

abbrev pub day_total : ℕ → Verdicts → DayTotal
day_total day v = record { day = day; passed = v.0; failed = v.1 }

-- as many days as the second number says
abbrev pub days_from : ℕ → ℕ → List ℕ
days_from first zero = []
days_from first (suc n) = first ∷ days_from (suc first) n

unfoldable pub daily_series : Db → Text → ℕ → Text → List DayTotal
unfolding since recent verdicts_of tally
daily_series db domain days tenant =
    let rows = map dated_verdicts (recent db domain days tenant) in
    let buckets = tally ◌==◌ add_verdicts no_verdicts rows [] in
    map (λ day. day_total day (total_at ◌==◌ add_verdicts no_verdicts day buckets))
      (days_from (day_of (since db days)) (suc days))
