-- ===== src/Reports/Gaps.antt =====
-- `_coverage_gaps` of api/ui.py: the days without a report.
use dmarc_service.Base.{
  ℕ, zero, suc, ◌-◌, List, [], ◌∷◌, any, select, map, leb, ◌==◌, if◌then◌else◌,
}
use dmarc_service.Base.Text.{Text}
use dmarc_service.Schema.{AggregateReport, Db}
use dmarc_service.Reports.Rows.{is_selected}
use dmarc_service.Reports.Series.{day_seconds, day_of, since}

unfoldable pub covered : Db → Text → Text → List ℕ
unfolding is_selected
covered db domain tenant =
    map (λ (r : AggregateReport). day_of r.date_begin)
      (select (is_selected db domain tenant) db.aggregate_reports)

-- min(covered)
unfoldable pub earliest : ℕ → List ℕ → ℕ
earliest d [] = d
earliest d (c ∷ cs) = let rest = earliest c cs in if leb d rest then d else rest

-- The loop over the days: the fuel is the number of days up to yesterday.
unfoldable pub gaps_from : List ℕ → ℕ → ℕ → List ℕ
gaps_from taken zero cursor = []
gaps_from taken (suc fuel) cursor =
    let rest = gaps_from taken fuel (suc cursor) in
    if any (λ c. c == cursor) taken then rest else cursor ∷ rest

abbrev pub yesterday : Db → ℕ
yesterday db = day_of (db.now - day_seconds)

-- max(a, b)
abbrev pub later : ℕ → ℕ → ℕ
later a b = if leb a b then b else a

unfoldable pub coverage_gaps : Db → Text → Text → ℕ → List ℕ
unfolding covered earliest gaps_from since
coverage_gaps db domain tenant days = elim (covered db domain tenant) [
  | [] ↦ []
  | d ∷ ds ↦
      let start = later (earliest d ds) (day_of (since db days)) in
      gaps_from (d ∷ ds) (suc (yesterday db) - start) start
]
