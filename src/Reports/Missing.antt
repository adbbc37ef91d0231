-- ===== src/Reports/Missing.antt =====
-- Which days are reported as missing.
use dmarc_service.Base.{
  ℕ, zero, suc, ◌+◌, ◌-◌, Bool, not, ◌&&◌, ◌||◌, ◌≡◌, refl, ◌∙◌, ap, List, [], ◌∷◌, ◌==◌, ==_iff,
  Bool-cases, inl, inr, arith, any, leb, ltb, List-cases,
}
use dmarc_service.Base.Text.{Text}
use dmarc_service.Schema.{Db}
use dmarc_service.Reports.Series.{day_of, since}
use dmarc_service.Reports.Gaps.{covered, earliest, gaps_from, yesterday, later, coverage_gaps}

abbrev pub is_in : List ℕ → ℕ → Bool
is_in days d = any (λ c. c == d) days

gaps_from_step :
    (taken : List ℕ) (fuel cursor d : ℕ)
    → is_in (gaps_from taken (suc fuel) cursor) d
      ≡ ((not (is_in taken cursor) && (cursor == d)) || is_in (gaps_from taken fuel (suc cursor)) d)
unfolding gaps_from
gaps_from_step taken fuel cursor d = elim (Bool-cases (is_in taken cursor)) [
  | inl hit ↦ rw (gaps_from, hit) refl
  | inr miss ↦ rw (gaps_from, miss) refl
]

gaps_from_lem :
    (taken : List ℕ) (fuel cursor d : ℕ)
    → is_in (gaps_from taken fuel cursor) d
      ≡ (leb cursor d && ltb d (cursor + fuel) && not (is_in taken d))
unfolding gaps_from
gaps_from_lem taken zero cursor d = ground arith
gaps_from_lem taken (suc fuel) cursor d =
    gaps_from_step taken fuel cursor d ∙ elim (Bool-cases (cursor == d)) [
      | inl here ↦
          let same : is_in taken cursor ≡ is_in taken d =
            ap (is_in taken) (ground (arith, ==_iff cursor d)) in
          ground (arith, gaps_from_lem taken fuel (suc cursor) d)
      | inr there ↦ ground (arith, gaps_from_lem taken fuel (suc cursor) d)
    ]

earliest_lem : (d : ℕ) (ds : List ℕ) (x : ℕ) → leb (earliest d ds) x ≡ any (λ c. leb c x) (d ∷ ds)
unfolding earliest
earliest_lem d [] x = ground arith
earliest_lem d (c ∷ cs) x = ground (arith, earliest_lem c cs x)

after_start :
    (a b d fuel : ℕ) → fuel ≡ suc b - a → (leb a d && ltb d (a + fuel)) ≡ (leb a d && leb d b)
after_start a b d fuel e = ground arith

leb-later : (a b d : ℕ) → leb (later a b) d ≡ (leb a d && leb b d)
leb-later a b d = ground arith

-- what the loop over the days finds, where some day is covered
gaps_of_covered :
    (taken : List ℕ) (first window last d : ℕ)
    → let start = later first window in
      is_in (gaps_from taken (suc last - start) start) d
      ≡ (leb first d && (leb window d && (leb d last && not (is_in taken d))))
gaps_of_covered taken first window last d =
    let start = later first window in
    gaps_from_lem taken (suc last - start) start d
    ∙ ground (arith, after_start start last d (suc last - start) refl, leb-later first window d)

-- A day is reported as missing exactly if some report begins on this day or before, the day lies in the
-- window that is shown and is past, and no selected report begins on it.
pub coverage_gaps_lem :
    (db : Db) (domain tenant : Text) (days d : ℕ)
    → let cs = covered db domain tenant in
      is_in (coverage_gaps db domain tenant days) d ≡ (
        any (λ c. leb c d) cs
        && (leb (day_of (since db days)) d && (leb d (yesterday db) && not (is_in cs d))))
unfolding coverage_gaps
coverage_gaps_lem db domain tenant days d = elim (List-cases (covered db domain tenant)) [
  | inl none_covered ↦ rw (coverage_gaps, none_covered) refl
  | inr (c, cs, some_covered) ↦
      rw (coverage_gaps, some_covered)
        (gaps_of_covered (c ∷ cs) (earliest c cs) (day_of (since db days)) (yesterday db) d
          ∙ ap
              (λ b.
                b
                && (leb (day_of (since db days)) d
                    && (leb d (yesterday db) && not (is_in (c ∷ cs) d))))
              (earliest_lem c cs d))
]
