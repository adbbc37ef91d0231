-- ===== src/Base/Tally.antt =====
-- Totals by key: a dictionary whose entries are added to, as `d[k] = d.get(k, 0) + v` does.
use mathlib.Core.Path.{◌≡◌, refl, ap, sym, ◌∙◌}
use mathlib.Core.Bool.{Bool, true, false}
use mathlib.Core.Logic.{inl, inr}
use mathlib.Core.List.{List, [], ◌∷◌}
use dmarc_service.Base.Tests.{if◌then◌else◌, Bool-cases}
use dmarc_service.Base.Lists.{select}

module _ {κ ℓ} {K : Type κ} {V : Type ℓ} (same : K → K → Bool) (plus : V → V → V)
    (nothing : V) where
  abbrev pub add_at : K → V → List (K × V) → List (K × V)
  add_at k v [] = (k, v) ∷ []
  add_at k v ((j, w) ∷ entries) =
      let rest = add_at k v entries in if same j k then (j, plus w v) ∷ entries else (j, w) ∷ rest

  -- d.get(k, nothing)
  abbrev pub total_at : K → List (K × V) → V
  total_at k [] = nothing
  total_at k ((j, w) ∷ entries) = let rest = total_at k entries in if same j k then w else rest

  unfoldable pub tally : List (K × V) → List (K × V) → List (K × V)
  tally [] entries = entries
  tally ((k, v) ∷ rows) entries = tally rows (add_at k v entries)

  abbrev pub plus_all : List (K × V) → V
  plus_all [] = nothing
  plus_all ((k, v) ∷ rows) = plus v (plus_all rows)

  module _ (follows : (j k q : K) → same j k ≡ true → same j q ≡ same k q)
      (itself : (k : K) → same k k ≡ true)
      (plus_assoc : (a b c : V) → plus (plus a b) c ≡ plus a (plus b c))
      (plus_comm : (a b : V) → plus a b ≡ plus b a)
      (plus_nothing : (a : V) → plus a nothing ≡ a) where
    nothing_plus : (a : V) → plus nothing a ≡ a
    nothing_plus a = plus_comm nothing a ∙ plus_nothing a

    total_at-add_at_hit :
        (q k : K) (v : V) (entries : List (K × V))
        → same k q ≡ true
        → total_at q (add_at k v entries) ≡ plus (total_at q entries) v
    total_at-add_at_hit q k v [] h = rw h (sym (nothing_plus v))
    total_at-add_at_hit q k v ((j, w) ∷ entries) h = elim (Bool-cases (same j k)) [
      | inl this ↦ rw this (rw (follows j k q this ∙ h) refl)
      | inr other ↦ rw other (elim (Bool-cases (same j q)) [
        | inl hit ↦ cc (other, follows j q k hit, follows k q k h, itself k)
        | inr miss ↦ rw miss (total_at-add_at_hit q k v entries h)
      ])
    ]

    total_at-add_at_miss :
        (q k : K) (v : V) (entries : List (K × V))
        → same k q ≡ false
        → total_at q (add_at k v entries) ≡ total_at q entries
    total_at-add_at_miss q k v [] h = rw h refl
    total_at-add_at_miss q k v ((j, w) ∷ entries) h = elim (Bool-cases (same j k)) [
      | inl this ↦ rw this (rw (follows j k q this ∙ h) refl)
      | inr other ↦
          rw other (ap (λ r. if same j q then w else r) (total_at-add_at_miss q k v entries h))
    ]

    -- The total of a key is what was there, and the values of the rows with this key.
    pub total_at-tally :
        (q : K) (rows entries : List (K × V))
        → total_at q (tally rows entries)
          ≡ plus (total_at q entries) (plus_all (select (λ row. same row.0 q) rows))
    unfolding tally
    total_at-tally q [] entries = sym (plus_nothing (total_at q entries))
    total_at-tally q ((k, v) ∷ rows) entries =
        total_at-tally q rows (add_at k v entries) ∙ elim (Bool-cases (same k q)) [
          | inl hit ↦ rw (total_at-add_at_hit q k v entries hit) (rw hit (plus_assoc _ _ _))
          | inr miss ↦ rw (total_at-add_at_miss q k v entries miss) (rw miss refl)
        ]

    -- Nothing is lost: all totals together are what was there and all the rows.
    plus_all-add_at :
        (k : K) (v : V) (entries : List (K × V))
        → plus_all (add_at k v entries) ≡ plus (plus_all entries) v
    plus_all-add_at k v [] = plus_comm v nothing
    plus_all-add_at k v ((j, w) ∷ entries) = elim (Bool-cases (same j k)) [
      | inl this ↦ rw this (plus_assoc w v _ ∙ ap (plus w) (plus_comm v _) ∙ sym (plus_assoc w _ v))
      | inr other ↦ rw other (ap (plus w) (plus_all-add_at k v entries) ∙ sym (plus_assoc w _ v))
    ]

    pub plus_all-tally :
        (rows entries : List (K × V))
        → plus_all (tally rows entries) ≡ plus (plus_all entries) (plus_all rows)
    unfolding tally
    plus_all-tally [] entries = sym (plus_nothing (plus_all entries))
    plus_all-tally ((k, v) ∷ rows) entries =
        plus_all-tally rows (add_at k v entries)
        ∙ ap (λ s. plus s (plus_all rows)) (plus_all-add_at k v entries)
        ∙ plus_assoc _ _ _

    -- The same for the rows whose key has a property that equal keys share.
    module _ (q : K → Bool) (shared : (j k : K) → same j k ≡ true → q j ≡ q k) where
      abbrev those : List (K × V) → V
      those rows = plus_all (select (λ row. q row.0) rows)

      those-add_at_hit :
          (k : K) (v : V) (entries : List (K × V))
          → q k ≡ true
          → those (add_at k v entries) ≡ plus (those entries) v
      those-add_at_hit k v [] h = rw h (plus_comm v nothing)
      those-add_at_hit k v ((j, w) ∷ entries) h = elim (Bool-cases (same j k)) [
        | inl this ↦ rw this (
            rw (shared j k this ∙ h)
              (plus_assoc w v _ ∙ ap (plus w) (plus_comm v _) ∙ sym (plus_assoc w _ v)))
        | inr other ↦ rw other (elim (Bool-cases (q j)) [
          | inl counts ↦
              rw counts (ap (plus w) (those-add_at_hit k v entries h) ∙ sym (plus_assoc w _ v))
          | inr not_counted ↦ rw not_counted (those-add_at_hit k v entries h)
        ])
      ]

      those-add_at_miss :
          (k : K) (v : V) (entries : List (K × V))
          → q k ≡ false
          → those (add_at k v entries) ≡ those entries
      those-add_at_miss k v [] h = rw h refl
      those-add_at_miss k v ((j, w) ∷ entries) h = elim (Bool-cases (same j k)) [
        | inl this ↦ rw this (rw (shared j k this ∙ h) refl)
        | inr other ↦ rw other (elim (Bool-cases (q j)) [
          | inl counts ↦ rw counts (ap (plus w) (those-add_at_miss k v entries h))
          | inr not_counted ↦ rw not_counted (those-add_at_miss k v entries h)
        ])
      ]

      pub those-tally :
          (rows entries : List (K × V))
          → those (tally rows entries) ≡ plus (those entries) (those rows)
      unfolding tally
      those-tally [] entries = sym (plus_nothing (those entries))
      those-tally ((k, v) ∷ rows) entries =
          those-tally rows (add_at k v entries) ∙ elim (Bool-cases (q k)) [
            | inl hit ↦ rw (those-add_at_hit k v entries hit) (rw hit (plus_assoc _ _ _))
            | inr miss ↦ rw (those-add_at_miss k v entries miss) (rw miss refl)
          ]
