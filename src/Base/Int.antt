-- ===== src/Base/Int.antt =====
-- Python's integers over the native numbers.
use Prim.Native.Nat.{ℕ, suc, ◌+◌, ◌-◌, ◌≤◌}
use mathlib.Core.Path.{◌≡◌, refl, ap, sym, ◌∙◌}
use mathlib.Core.Bool.{Bool, true, false, not}
use mathlib.Core.Logic.{inl, inr}
use mathlib.Core.List.{List, [], ◌∷◌, ◌++◌}
use native.Mathlib.Omega.{arith}
use dmarc_service.Base.Tests.{leb, if◌then◌else◌, Bool-cases}
use dmarc_service.Base.Lists.{select}

-- `negsuc n` is -(n + 1)
pub data ℤ : Type 0 where
  pos : ℕ → ℤ
  negsuc : ℕ → ℤ

-- what lies above zero, and what lies below
abbrev above : ℤ → ℕ
above (pos n) = n
above (negsuc n) = 0

abbrev below : ℤ → ℕ
below (pos n) = 0
below (negsuc n) = suc n

-- the integer m - n
unfoldable difference : ℕ → ℕ → ℤ
difference m n = if leb n m then pos (m - n) else negsuc (n - suc m)

abbrev pub leb_ℤ : ℤ → ℤ → Bool
leb_ℤ (pos m) (pos n) = leb m n
leb_ℤ (pos m) (negsuc n) = false
leb_ℤ (negsuc m) (pos n) = true
leb_ℤ (negsuc m) (negsuc n) = leb n m

infixl 60 ◌+ℤ◌
unfoldable pub ◌+ℤ◌ : ℤ → ℤ → ℤ
unfolding difference
a +ℤ b = difference (above a + above b) (below a + below b)

infixl 60 ◌-ℤ◌
unfoldable pub ◌-ℤ◌ : ℤ → ℤ → ℤ
unfolding difference
a -ℤ b = difference (above a + below b) (below a + above b)

difference_lem : (m n : ℕ) → above (difference m n) + n ≡ below (difference m n) + m
unfolding difference
difference_lem m n = elim (Bool-cases (leb n m)) [
  | inl h ↦ rw h (ground arith)
  | inr h ↦ rw h (ground arith)
]

difference_pos : (m n : ℕ) → n ≤ m → difference m n ≡ pos (m - n)
unfolding difference
difference_pos m n h = elim (Bool-cases (leb n m)) [
  | inl e ↦ rw (difference, e) refl
  | inr e ↦ absurd (ground arith)
]

difference_neg : (m n : ℕ) → suc m ≤ n → difference m n ≡ negsuc (n - suc m)
unfolding difference
difference_neg m n h = elim (Bool-cases (leb n m)) [
  | inl e ↦ absurd (ground arith)
  | inr e ↦ rw (difference, e) refl
]

-- Equal differences: the two pairs differ by the same integer.
difference_eq : (m n k l : ℕ) → m + l ≡ k + n → difference m n ≡ difference k l
difference_eq m n k l e = elim (Bool-cases (leb n m)) [
  | inl h ↦
      difference_pos m n (ground arith)
      ∙ ap pos (omega (arith, e))
      ∙ sym (difference_pos k l (ground arith))
  | inr h ↦
      difference_neg m n (ground arith)
      ∙ ap negsuc (ground arith)
      ∙ sym (difference_neg k l (ground arith))
]

difference_of : (a : ℤ) → difference (above a) (below a) ≡ a
difference_of (pos n) = difference_pos n 0 (omega arith) ∙ ap pos (omega arith)
difference_of (negsuc n) = difference_neg 0 (suc n) (omega arith) ∙ ap negsuc (omega arith)

pub +ℤ_comm : (a b : ℤ) → a +ℤ b ≡ b +ℤ a
unfolding ◌+ℤ◌
+ℤ_comm a b = difference_eq _ _ _ _ (omega arith)

pub +ℤ_assoc : (a b c : ℤ) → (a +ℤ b) +ℤ c ≡ a +ℤ (b +ℤ c)
unfolding ◌+ℤ◌
+ℤ_assoc a b c =
    let l = difference_lem (above a + above b) (below a + below b) in
    let r = difference_lem (above b + above c) (below b + below c) in
    difference_eq _ _ _ _ (omega (arith, l, r))

pub +ℤ_zero : (a : ℤ) → a +ℤ pos 0 ≡ a
unfolding ◌+ℤ◌
+ℤ_zero a = difference_eq _ _ _ _ (omega arith) ∙ difference_of a

pub zero_+ℤ : (a : ℤ) → pos 0 +ℤ a ≡ a
zero_+ℤ a = +ℤ_comm (pos 0) a ∙ +ℤ_zero a

pub +ℤ_swap : (a b c : ℤ) → a +ℤ (b +ℤ c) ≡ b +ℤ (a +ℤ c)
+ℤ_swap a b c = sym (+ℤ_assoc a b c) ∙ ap (λ x. x +ℤ c) (+ℤ_comm a b) ∙ +ℤ_assoc b a c

pub -ℤ_cancel : (a b : ℤ) → (a +ℤ b) -ℤ a ≡ b
unfolding ◌+ℤ◌ ◌-ℤ◌
-ℤ_cancel a b =
    let l = difference_lem (above a + above b) (below a + below b) in
    difference_eq _ _ (above b) (below b) (omega (arith, l)) ∙ difference_of b

-- Python's `sum(f(x) for x in xs)`, and SUM of a column, which is 0 here where there are no rows
module _ {ℓ} {A : Type ℓ} where
  abbrev pub sum : (A → ℤ) → List A → ℤ
  sum f [] = pos 0
  sum f (x ∷ xs) = f x +ℤ sum f xs

  pub sum-append : (f : A → ℤ) (xs ys : List A) → sum f (xs ++ ys) ≡ sum f xs +ℤ sum f ys
  sum-append f [] ys = sym (zero_+ℤ (sum f ys))
  sum-append f (x ∷ xs) ys =
      ap (λ s. f x +ℤ s) (sum-append f xs ys) ∙ sym (+ℤ_assoc (f x) (sum f xs) (sum f ys))

  -- A sum splits along any test.
  pub sum_split :
      (f : A → ℤ) (p : A → Bool) (xs : List A)
      → sum f xs ≡ sum f (select p xs) +ℤ sum f (select (λ x. not (p x)) xs)
  sum_split f p [] = sym (+ℤ_zero (pos 0))
  sum_split f p (x ∷ xs) =
      let yes = sum f (select p xs) in
      let no = sum f (select (λ y. not (p y)) xs) in
      ap (λ s. f x +ℤ s) (sum_split f p xs) ∙ elim (Bool-cases (p x)) [
        | inl h ↦ rw h (sym (+ℤ_assoc (f x) yes no))
        | inr h ↦ rw h (+ℤ_swap (f x) yes no)
      ]

  -- CASE WHEN p THEN f ELSE 0 END
  pub sum_case :
      (f : A → ℤ) (p : A → Bool) (xs : List A)
      → sum (λ x. if p x then f x else pos 0) xs ≡ sum f (select p xs)
  sum_case f p [] = refl
  sum_case f p (x ∷ xs) = elim (Bool-cases (p x)) [
    | inl h ↦ rw h (ap (λ s. f x +ℤ s) (sum_case f p xs))
    | inr h ↦ rw h (zero_+ℤ _ ∙ sum_case f p xs)
  ]
