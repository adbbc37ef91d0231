-- ===== src/Backup/Pruned.antt =====
-- What pruning deletes.
use mathlib.Core.Path.{subst}
use mathlib.Core.List.{map-append}
use dmarc_service.Base.{
  ℕ, suc, ◌+◌, ◌-◌, ◌*◌, ◌≡◌, refl, ◌∙◌, ap, sym, List, [], ◌∷◌, ◌++◌, select, map, length,
  Bool-cases, inl, inr, ◌⊎◌, arith, append-nil, append_assoc, select-append, length-append,
}
use dmarc_service.Base.Int.{pos}
use dmarc_service.Base.Text.{Text}
use dmarc_service.Base.Exec.{Exc, Result, Result-cases, ok, raised, continue}
use dmarc_service.Backup.{
  Destination, Object, day_seconds, is_expired, Store, delete_object, prune_page, prune_pages,
  prune,
}

abbrev pub keys : List Object → List Text
keys os = map (λ (o : Object). o.key) os

abbrev pub expired : ℕ → List Object → List Object
expired cutoff os = select (is_expired cutoff) os

abbrev pub all_pages : List (List Object) → List Object
all_pages [] = []
all_pages (page ∷ pages) = page ++ all_pages pages

-- All of the keys were deleted and counted, or an exception stopped the deletion after some.
abbrev pub Deletes : List Text → ℕ → List Text → Result ℕ × List Text → Type 0
Deletes ks removed deleted run =
    (run ≡ (ok (length ks + removed), deleted ++ ks))
    ⊎ ((x : Exc) × (done : List Text) × (rest : List Text) × (ks ≡ done ++ rest)
        × (run ≡ (raised x, deleted ++ done)))

extend :
    (k : Text) (ks : List Text) (removed : ℕ) (deleted : List Text) (run : Result ℕ × List Text)
    → Deletes ks (suc removed) (deleted ++ k ∷ []) run
    → Deletes (k ∷ ks) removed deleted run
extend k ks removed deleted run (inl e) = inl (
    e
    ∙ ap (λ n. (ok n, (deleted ++ k ∷ []) ++ ks)) (omega arith)
    ∙ ap (λ now. (ok (suc (length ks) + removed), now)) (append_assoc deleted (k ∷ []) ks))
extend k ks removed deleted run (inr (x, done, rest, split, e)) = inr (
  x,
  k ∷ done,
  rest,
  ap (λ l. k ∷ l) split,
  e ∙ ap (λ now. (raised x, now)) (append_assoc deleted (k ∷ []) done),
)

module _ (store : Store) (d : Destination) where
  prune_page_lem :
      (cutoff : ℕ) (os : List Object) (removed : ℕ) (deleted : List Text)
      → Deletes
          (keys (expired cutoff os))
          removed
          deleted
          (prune_page store d cutoff os removed deleted)
  unfolding prune_page
  prune_page_lem cutoff [] removed deleted = inl (
      ap (λ n. (ok n, deleted)) (omega arith)
      ∙ ap (λ now. (ok (0 + removed), now)) (sym (append-nil deleted)))
  prune_page_lem cutoff (o ∷ os) removed deleted = elim (Bool-cases (is_expired cutoff o)) [
    | inr young ↦ rw (prune_page, young) (prune_page_lem cutoff os removed deleted)
    | inl old ↦ elim (Result-cases (store.delete d.bucket o.key)) [
      | inr (x, failed) ↦
          rw (prune_page, old)
            (rw (delete_object, failed)
              (inr (
                x,
                [],
                keys (o ∷ expired cutoff os),
                refl,
                ap (λ now. (raised x, now)) (sym (append-nil deleted)),
              )))
      | inl (done, gone) ↦
          rw (prune_page, old)
            (rw (delete_object, gone)
              (extend o.key (keys (expired cutoff os)) removed deleted
                (prune_page store d cutoff os (suc removed) (deleted ++ o.key ∷ []))
                (prune_page_lem cutoff os (suc removed) (deleted ++ o.key ∷ []))))
    ]
  ]

  -- one page after another
  both_pages :
      (ks ls : List Text) (removed : ℕ) (deleted : List Text) (first : Result ℕ × List Text)
      (next : ℕ → List Text → Result ℕ × List Text)
      → Deletes ks removed deleted first
      → Deletes ls
          (length ks + removed)
          (deleted ++ ks)
          (next (length ks + removed) (deleted ++ ks))
      → Deletes (ks ++ ls) removed deleted (continue first.0 next first.1)
  both_pages ks ls removed deleted first next (inr (x, done, rest, split, e)) later = inr (
    x,
    done,
    rest ++ ls,
    ap (λ l. l ++ ls) split ∙ append_assoc done rest ls,
    ap (λ r. continue r.0 next r.1) e,
  )
  both_pages ks ls removed deleted first next (inl e) (inl f) = inl (
      ap (λ r. continue r.0 next r.1) e
      ∙ f
      ∙ ap (λ n. (ok n, (deleted ++ ks) ++ ls)) (omega (arith, length-append ks ls))
      ∙ ap (λ now. (ok (length (ks ++ ls) + removed), now)) (append_assoc deleted ks ls))
  both_pages ks ls removed deleted first next (inl e) (inr (x, done, rest, split, f)) = inr (
    x,
    ks ++ done,
    rest,
    ap (λ l. ks ++ l) split ∙ sym (append_assoc ks done rest),
    ap (λ r. continue r.0 next r.1) e
        ∙ f
        ∙ ap (λ now. (raised x, now)) (append_assoc deleted ks done),
  )

  keys-append :
      (cutoff : ℕ) (xs ys : List Object)
      → keys (expired cutoff (xs ++ ys)) ≡ keys (expired cutoff xs) ++ keys (expired cutoff ys)
  keys-append cutoff xs ys =
      ap keys (select-append (is_expired cutoff) xs ys)
      ∙ map-append _ (expired cutoff xs) (expired cutoff ys)

  prune_pages_lem :
      (cutoff : ℕ) (pages : List (List Object)) (removed : ℕ) (deleted : List Text)
      → Deletes
          (keys (expired cutoff (all_pages pages)))
          removed
          deleted
          (prune_pages store d cutoff pages removed deleted)
  unfolding prune_pages
  prune_pages_lem cutoff [] removed deleted = inl (
      ap (λ n. (ok n, deleted)) (omega arith)
      ∙ ap (λ now. (ok (0 + removed), now)) (sym (append-nil deleted)))
  prune_pages_lem cutoff (page ∷ pages) removed deleted =
      let ks = keys (expired cutoff page) in
      subst
        (λ l. Deletes l removed deleted (prune_pages store d cutoff (page ∷ pages) removed deleted))
        (sym (keys-append cutoff page (all_pages pages)))
        (both_pages ks (keys (expired cutoff (all_pages pages))) removed deleted
          (prune_page store d cutoff page removed deleted) (prune_pages store d cutoff pages)
          (prune_page_lem cutoff page removed deleted)
          (prune_pages_lem cutoff pages (length ks + removed) (deleted ++ ks)))

  -- Pruning deletes the objects under the prefix that were last modified before the window of retention,
  -- in the order of the listing, and returns their number; if the store raises, it has deleted some of
  -- these and nothing else.
  pub prune_lem :
      (now days : ℕ)
      → Deletes
          (keys
            (expired (now - suc days * day_seconds) (all_pages (store.pages d.bucket d.prefix))))
          0
          []
          (prune store d now (pos (suc days)) [])
  unfolding prune
  prune_lem now days =
      prune_pages_lem (now - suc days * day_seconds) (store.pages d.bucket d.prefix) 0 []
