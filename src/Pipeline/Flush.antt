-- ===== src/Pipeline/Flush.antt =====
-- `session.flush()` at the end of `process_message` and of `reprocess` in ingest/pipeline.py, which
-- stands outside their try blocks. A flush that a query of the block makes fails on the same rows, and
-- leaves the session unusable, so that the last one raises as well; what was written is rolled back.
use dmarc_service.Base.{
  Bool, ◌&&◌, all, drop, length, if◌then◌else◌, ◌≡◌, refl, true, false, List, [], ◌∷◌, ◌⊎◌,
  Bool-cases, inl, inr,
}
use dmarc_service.Base.Text.{codes}
use dmarc_service.Base.Exec.{Exc, integrity_error, Exec, Result, ok, raised, ◌>>◌, pure}
use dmarc_service.Schema.{AggregateReport, TlsReport, Db}
use dmarc_service.Parsers.Decoders.{Decoders}

abbrev pub not_taken : Exc
not_taken = integrity_error (codes "a column does not take a value")

module _ (dec : Decoders) where
  -- the columns take every report that was added to the first database
  unfoldable pub are_taken : Db → Db → Bool
  are_taken before after =
      all dec.takes_aggregate (drop (length before.aggregate_reports) after.aggregate_reports)
      && all dec.takes_tls (drop (length before.tls_reports) after.tls_reports)

  unfoldable pub flush : Db → Exec Db (Unit {0})
  unfolding are_taken
  flush before now = ((if are_taken before now then ok tt else raised not_taken), now)

  -- The last flush decides whether a call returns.
  pub flush-pure :
      {A : Type 0} (before now : Db) (a : A)
      → (flush before >> pure a) now
        ≡ ((if are_taken before now then ok a else raised not_taken), now)
  unfolding flush
  flush-pure before now a = elim (Bool-cases (are_taken before now)) [
    | inl e ↦ rw (flush, e) refl
    | inr e ↦ rw (flush, e) refl
  ]

pub taken_or_not :
    {A : Type 0} (taken : Bool) (a : A)
    → let reply : Result A = if taken then ok a else raised not_taken in
      ((reply ≡ ok a) × (taken ≡ true)) ⊎ ((reply ≡ raised not_taken) × (taken ≡ false))
taken_or_not true a = inl (refl, refl)
taken_or_not false a = inr (refl, refl)

-- The columns take every report.
abbrev pub TakesAll : Decoders → Type 0
TakesAll dec =
    ((r : AggregateReport) → dec.takes_aggregate r ≡ true)
    × ((r : TlsReport) → dec.takes_tls r ≡ true)

all-true : {A : Type 0} (p : A → Bool) (xs : List A) → ((a : A) → p a ≡ true) → all p xs ≡ true
all-true p [] h = refl
all-true p (x ∷ xs) h = rw (h x) (all-true p xs h)

pub TakesAll-are_taken :
    (dec : Decoders) (before after : Db) → TakesAll dec → are_taken dec before after ≡ true
unfolding are_taken
TakesAll-are_taken dec before after (a, t) =
    rw
      (
        all-true dec.takes_aggregate
            (drop (length before.aggregate_reports) after.aggregate_reports) a,
        all-true dec.takes_tls (drop (length before.tls_reports) after.tls_reports) t,
      )
      refl

drop-length : {A : Type 0} (xs : List A) → drop (length xs) xs ≡ []
drop-length [] = refl
drop-length (x ∷ xs) = drop-length xs

-- Where no report was added there is nothing to refuse.
pub are_taken_none :
    (dec : Decoders) (before after : Db)
    → after.aggregate_reports ≡ before.aggregate_reports
    → after.tls_reports ≡ before.tls_reports
    → are_taken dec before after ≡ true
unfolding are_taken
are_taken_none dec before after e f =
    rw (e, f, drop-length before.aggregate_reports, drop-length before.tls_reports) refl
