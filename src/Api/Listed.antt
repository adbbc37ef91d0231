-- ===== src/Api/Listed.antt =====
-- What the listings of api/app.py show.
use dmarc_service.Base.{
  ℕ, zero, suc, ◌≤◌, ◌≡◌, refl, ◌∙◌, ap, Bool, true, List, [], ◌∷◌, select, map, length, take, drop,
  leb, arith, Bool-cases, inl, inr, length-take_le, if◌then◌else◌,
}
use mathlib.Core.List.{Perm}
use dmarc_service.Base.Int.{ℤ, pos, ◌+ℤ◌, sum, +ℤ_assoc, +ℤ_comm, +ℤ_zero, zero_+ℤ}
use dmarc_service.Base.Tally.{total_at, plus_all, total_at-tally, plus_all-tally}
use dmarc_service.Base.Rows.{All}
use dmarc_service.Base.Order.{IsOrdered, ordered-IsOrdered, ordered-perm}
use dmarc_service.Base.Text.{Text, text_eq, text_eq_refl, eq_of_text_eq}
use dmarc_service.Base.Exec.{Result, ok}
use dmarc_service.Schema.{AggregateRecord, AggregateReport, Db}
use dmarc_service.Reports.Rows.{count_of}
use dmarc_service.Api.Reports.{
  latest_first, capped, limited, ReportSummary, report_summary, is_about, list_reports, records_of,
  summary,
}

length-map : {A B : Type 0} (f : A → B) (xs : List A) → length (map f xs) ≡ length xs
length-map f [] = refl
length-map f (x ∷ xs) = ap suc (length-map f xs)

-- No row comes before one with a later key.
abbrev pub IsLatestFirst {ℓ} : {A : Type ℓ} → (A → ℕ) → List A → Type 0
IsLatestFirst key = IsOrdered (λ x y. key y ≤ key x)

module _ {ℓ} {A : Type ℓ} (key : A → ℕ) where
  pub latest_first-IsLatestFirst : (xs : List A) → IsLatestFirst key (latest_first key xs)
  unfolding latest_first
  latest_first-IsLatestFirst =
      ordered-IsOrdered (λ x y. leb (key y) (key x)) (λ x y e. ground arith) (λ x y e. ground arith)
        (λ x y z h k. omega (arith, h, k))

  pub latest_first-perm : (xs : List A) → Perm (latest_first key xs) xs
  unfolding latest_first
  latest_first-perm = ordered-perm _

  drop-IsLatestFirst : (n : ℕ) (xs : List A) → IsLatestFirst key xs → IsLatestFirst key (drop n xs)
  drop-IsLatestFirst zero xs h = h
  drop-IsLatestFirst (suc n) [] h = tt
  drop-IsLatestFirst (suc n) (x ∷ xs) h = drop-IsLatestFirst n xs h.1

  All-take {κ} : (P : A → Type κ) (n : ℕ) (xs : List A) → All P xs → All P (take n xs)
  All-take P zero xs h = tt
  All-take P (suc n) [] h = tt
  All-take P (suc n) (x ∷ xs) h = (h.0, All-take P n xs h.1)

  take-IsLatestFirst : (n : ℕ) (xs : List A) → IsLatestFirst key xs → IsLatestFirst key (take n xs)
  take-IsLatestFirst zero xs h = tt
  take-IsLatestFirst (suc n) [] h = tt
  take-IsLatestFirst (suc n) (x ∷ xs) h = (All-take _ n xs h.0, take-IsLatestFirst n xs h.1)

summaries-IsLatestFirst :
    (rs : List AggregateReport)
    → IsLatestFirst (λ (r : AggregateReport). r.date_end) rs
    → IsLatestFirst (λ (r : ReportSummary). r.date_end) (map report_summary rs)
unfolding report_summary
summaries-IsLatestFirst [] h = tt
summaries-IsLatestFirst (r ∷ rs) h = (below rs h.0, summaries-IsLatestFirst rs h.1)
  where
    below :
        (qs : List AggregateReport)
        → All (λ (q : AggregateReport). q.date_end ≤ r.date_end) qs
        → All (λ (q : ReportSummary). q.date_end ≤ r.date_end) (map report_summary qs)
    below [] k = tt
    below (q ∷ qs) k = (k.0, below qs k.1)

capped_lem :
    (n : ℕ) → let m = if leb n 500 then n else 500 in (capped (pos n) ≡ pos m) × (m ≤ n) × (m ≤ 500)
unfolding capped
capped_lem n = elim (Bool-cases (leb n 500)) [
  | inl small ↦ rw (capped, small) (refl, omega arith, ground arith)
  | inr large ↦ rw (capped, large) (refl, ground arith, omega arith)
]

-- For any limit and offset that are not negative: when all reports about the domain that is asked for are
-- in an order where those whose period ended last come first, the list is the part of them that starts
-- at the offset, as long as the limit but never longer than 500.
pub list_reports_lem :
    (odd : ℤ → ℤ → List AggregateReport → Result (List AggregateReport)) (db : Db) (domain : Text)
    (limit offset : ℕ)
    → (rs : List ReportSummary) × (list_reports odd db domain (pos limit) (pos offset) ≡ ok rs)
      × (length rs ≤ limit)
      × (length rs ≤ 500)
      × IsLatestFirst (λ (r : ReportSummary). r.date_end) rs
      × ((all : List AggregateReport) × Perm all (select (is_about domain) db.aggregate_reports)
          × IsLatestFirst (λ (r : AggregateReport). r.date_end) all
          × (rs
              ≡ map report_summary (take (if leb limit 500 then limit else 500) (drop offset all))))
unfolding list_reports limited
list_reports_lem odd db domain limit offset =
    let (e, low, high) = capped_lem limit in
    let m = if leb limit 500 then limit else 500 in
    let asked = select (is_about domain) db.aggregate_reports in
    let rows = latest_first (λ (r : AggregateReport). r.date_end) asked in
    let in_order = latest_first-IsLatestFirst (λ (r : AggregateReport). r.date_end) asked in
    let found = take m (drop offset rows) in
    let size = length-take_le m (drop offset rows) in
    (
      map report_summary found,
      rw (list_reports, e) refl,
      omega (arith, length-map report_summary found, size, low),
      omega (arith, length-map report_summary found, size, high),
      summaries-IsLatestFirst found
          (take-IsLatestFirst _ m (drop offset rows) (drop-IsLatestFirst _ offset rows in_order)),
      (rows, latest_first-perm _ asked, in_order, refl),
    )

text_follows : (j k q : Text) → text_eq j k ≡ true → text_eq j q ≡ text_eq k q
text_follows j k q e = ap (λ s. text_eq s q) (eq_of_text_eq j k e)

abbrev pub has_disposition : Text → AggregateRecord → Bool
has_disposition d r = text_eq r.disposition d

abbrev counted : AggregateRecord → Text × ℤ
counted r = (r.disposition, r.count)

counted_lem :
    (d : Text) (rs : List AggregateRecord)
    → plus_all text_eq ◌+ℤ◌ (pos 0) (select (λ row. text_eq row.0 d) (map counted rs))
      ≡ sum count_of (select (has_disposition d) rs)
counted_lem d [] = refl
counted_lem d (r ∷ rs) = elim (Bool-cases (has_disposition d r)) [
  | inl hit ↦ rw hit (ap (λ s. r.count +ℤ s) (counted_lem d rs))
  | inr miss ↦ rw miss (counted_lem d rs)
]

counted_all :
    (rs : List AggregateRecord) → plus_all text_eq ◌+ℤ◌ (pos 0) (map counted rs) ≡ sum count_of rs
counted_all [] = refl
counted_all (r ∷ rs) = ap (λ s. r.count +ℤ s) (counted_all rs)

-- The summary gives for each disposition the messages of the records with it, among the reports about
-- the domain that is asked for, and no message is left out: the totals together are all messages.
pub summary_lem :
    (db : Db) (domain disposition : Text)
    → let totals = (summary db domain).0 in
      let rs = records_of (select (is_about domain) db.aggregate_reports) in
      (total_at text_eq ◌+ℤ◌ (pos 0) disposition totals
        ≡ sum count_of (select (has_disposition disposition) rs))
      × (plus_all text_eq ◌+ℤ◌ (pos 0) totals ≡ sum count_of rs)
unfolding summary
summary_lem db domain disposition =
    let rs = records_of (select (is_about domain) db.aggregate_reports) in
    (
      total_at-tally text_eq ◌+ℤ◌ (pos 0) text_follows text_eq_refl +ℤ_assoc +ℤ_comm +ℤ_zero
            disposition (map counted rs) []
          ∙ zero_+ℤ _
          ∙ counted_lem disposition rs,
      plus_all-tally text_eq ◌+ℤ◌ (pos 0) text_follows text_eq_refl +ℤ_assoc +ℤ_comm +ℤ_zero
            (map counted rs) []
          ∙ zero_+ℤ _
          ∙ counted_all rs,
    )
