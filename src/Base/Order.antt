-- ===== src/Base/Order.antt =====
-- Sorting: a stable sort by a test, which Python's `sorted` is, and the database's ORDER BY where rows
-- with one key stay in the order of their ids.
use Prim.Native.Nat.{suc}
use dmarc_service.Base.Lists.{length, any}
use dmarc_service.Base.Tests.{if◌then◌else◌, Bool-cases}
use dmarc_service.Base.Rows.{All, All-map, Distinct}
use native.Mathlib.Omega.{arith}
use mathlib.Core.Path.{◌≡◌, refl, ap, ◌∙◌}
use mathlib.Core.Logic.{inl, inr}
use mathlib.Core.Bool.{Bool, true, false}
use mathlib.Core.List.{List, [], ◌∷◌, Perm}
use mathlib.Core.List.Perm

module _ {ℓ} {A : Type ℓ} (before : A → A → Bool) where
  insert_ordered : A → List A → List A
  insert_ordered x [] = x ∷ []
  insert_ordered x (y ∷ ys) =
      let rest = insert_ordered x ys in if before x y then x ∷ y ∷ ys else y ∷ rest

  unfoldable pub ordered : List A → List A
  unfolding insert_ordered
  ordered [] = []
  ordered (x ∷ xs) = insert_ordered x (ordered xs)

  insert_ordered-perm : (x : A) (xs : List A) → Perm (insert_ordered x xs) (x ∷ xs)
  unfolding insert_ordered
  insert_ordered-perm x [] = Perm.rfl
  insert_ordered-perm x (y ∷ ys) = elim (Bool-cases (before x y)) [
    | inl first ↦ rw first Perm.rfl
    | inr later ↦ rw later (Perm.trans (Perm.cons y (insert_ordered-perm x ys)) (Perm.swap x y ys))
  ]

  -- Sorting loses and adds nothing.
  pub ordered-perm : (xs : List A) → Perm (ordered xs) xs
  unfolding ordered
  ordered-perm [] = Perm.rfl
  ordered-perm (x ∷ xs) =
      Perm.trans (insert_ordered-perm x (ordered xs)) (Perm.cons x (ordered-perm xs))

  length-insert_ordered : (x : A) (xs : List A) → length (insert_ordered x xs) ≡ suc (length xs)
  unfolding insert_ordered
  length-insert_ordered x [] = refl
  length-insert_ordered x (y ∷ ys) = elim (Bool-cases (before x y)) [
    | inl first ↦ rw first refl
    | inr later ↦ rw later (ap suc (length-insert_ordered x ys))
  ]

  pub length-ordered : (xs : List A) → length (ordered xs) ≡ length xs
  unfolding ordered
  length-ordered [] = refl
  length-ordered (x ∷ xs) = length-insert_ordered x (ordered xs) ∙ ap suc (length-ordered xs)

  any-insert_ordered :
      (p : A → Bool) (x : A) (xs : List A) → any p (insert_ordered x xs) ≡ any p (x ∷ xs)
  unfolding insert_ordered
  any-insert_ordered p x [] = refl
  any-insert_ordered p x (y ∷ ys) = ground (arith, any-insert_ordered p x ys)

  any-ordered : (p : A → Bool) (xs : List A) → any p (ordered xs) ≡ any p xs
  unfolding ordered
  any-ordered p [] = refl
  any-ordered p (x ∷ xs) = ground (arith, any-insert_ordered p x (ordered xs), any-ordered p xs)

  module _ (same : A → A → Bool) (same_sym : (x y : A) → same x y ≡ same y x) where
    insert_ordered-Distinct :
        (x : A) (xs : List A)
        → any (same x) xs ≡ false
        → Distinct same xs
        → Distinct same (insert_ordered x xs)
    unfolding insert_ordered
    insert_ordered-Distinct x [] e d = (refl, tt)
    insert_ordered-Distinct x (y ∷ ys) e d = elim (Bool-cases (before x y)) [
      | inl first ↦ rw first (e, d)
      | inr later ↦ rw later (
        ground (arith, any-insert_ordered (same y) x ys, same_sym x y, d.0),
        insert_ordered-Distinct x ys (ground arith) d.1,
      )
    ]

    pub ordered-Distinct : (xs : List A) → Distinct same xs → Distinct same (ordered xs)
    unfolding ordered
    ordered-Distinct [] d = tt
    ordered-Distinct (x ∷ xs) d =
        insert_ordered-Distinct x (ordered xs) (any-ordered (same x) xs ∙ d.0)
          (ordered-Distinct xs d.1)

-- Each item is related to all that come after it.
module _ {ℓ κ} {A : Type ℓ} (R : A → A → Type κ) where
  abbrev pub IsOrdered : List A → Type κ
  IsOrdered [] = Unit
  IsOrdered (x ∷ xs) = All (R x) xs × IsOrdered xs

module _ {ℓ κ} {A : Type ℓ} {R : A → A → Type κ} (before : A → A → Bool)
    (first : (x y : A) → before x y ≡ true → R x y) (later : (x y : A) → before x y ≡ false → R y x)
    (trans : (x y z : A) → R x y → R y z → R x z) where
  All-insert_ordered :
      (P : A → Type κ) (x : A) (xs : List A) → P x → All P xs → All P (insert_ordered before x xs)
  unfolding insert_ordered
  All-insert_ordered P x [] p h = (p, tt)
  All-insert_ordered P x (y ∷ ys) p h = elim (Bool-cases (before x y)) [
    | inl e ↦ rw e (p, h)
    | inr e ↦ rw e (h.0, All-insert_ordered P x ys p h.1)
  ]

  insert_ordered-IsOrdered :
      (x : A) (xs : List A) → IsOrdered R xs → IsOrdered R (insert_ordered before x xs)
  unfolding insert_ordered
  insert_ordered-IsOrdered x [] h = (tt, tt)
  insert_ordered-IsOrdered x (y ∷ ys) h = elim (Bool-cases (before x y)) [
    | inl e ↦
        let below = first x y e in rw e ((below, All-map ys (λ z k. trans x y z below k) h.0), h)
    | inr e ↦
        rw e (All-insert_ordered (R y) x ys (later x y e) h.0, insert_ordered-IsOrdered x ys h.1)
  ]

  pub ordered-IsOrdered : (xs : List A) → IsOrdered R (ordered before xs)
  unfolding ordered
  ordered-IsOrdered [] = tt
  ordered-IsOrdered (x ∷ xs) = insert_ordered-IsOrdered x (ordered before xs) (ordered-IsOrdered xs)
