-- ===== src/Base/Rows.antt =====
-- Predicates on the rows of a table, and what adding, changing and removing rows does to them.
use mathlib.Core.Path.{◌≡◌, refl, ap, ◌∙◌, fun_ext, subst}
use mathlib.Core.Bool.{Bool, true, false}
use mathlib.Core.List.{List, [], ◌∷◌, ◌++◌}
use mathlib.Core.Option.{some, some-injective}
use mathlib.Core.Logic.{inl, inr}
use native.Mathlib.Omega.{arith}
use dmarc_service.Base.Tests.{Bool-cases, if◌then◌else◌}
use dmarc_service.Base.Lists.{any, find, select, update, update_first, any-append}

module _ {ℓ} {A : Type ℓ} where
  abbrev pub All {κ} : (A → Type κ) → List A → Type κ
  All P [] = Unit
  All P (x ∷ xs) = P x × All P xs

  -- No row has the same key as a later one.
  abbrev pub Distinct : (A → A → Bool) → List A → Type 0
  Distinct same [] = Unit
  Distinct same (x ∷ xs) = (any (same x) xs ≡ false) × Distinct same xs

  pub All-append {κ} : (P : A → Type κ) (xs ys : List A) → All P xs → All P ys → All P (xs ++ ys)
  All-append P [] ys h k = k
  All-append P (x ∷ xs) ys h k = (h.0, All-append P xs ys h.1 k)

  pub All-map {κ μ} :
      {P : A → Type κ} {Q : A → Type μ} (xs : List A) → ((x : A) → P x → Q x) → All P xs → All Q xs
  All-map [] f h = tt
  All-map (x ∷ xs) f h = (f x h.0, All-map xs f h.1)

  -- The new row's key is taken by no row before it.
  pub Distinct-append :
      (same : A → A → Bool) (xs : List A) (x : A)
      → any (λ y. same y x) xs ≡ false
      → Distinct same xs
      → Distinct same (xs ++ x ∷ [])
  Distinct-append same [] x h d = (refl, tt)
  Distinct-append same (y ∷ xs) x h d = (
    ground (arith, any-append (same y) xs (x ∷ []), d.0),
    Distinct-append same xs x (ground arith) d.1,
  )

  pub any-select_le :
      (p q : A → Bool) (xs : List A) → any p xs ≡ false → any p (select q xs) ≡ false
  any-select_le p q [] h = refl
  any-select_le p q (x ∷ xs) h = ground (arith, any-select_le p q xs)

  pub Distinct-select :
      (same : A → A → Bool) (q : A → Bool) (xs : List A)
      → Distinct same xs
      → Distinct same (select q xs)
  Distinct-select same q [] d = tt
  Distinct-select same q (x ∷ xs) d =
      ground (arith, any-select_le (same x) q xs d.0, Distinct-select same q xs d.1)

  pub All-select {κ} :
      (P : A → Type κ) (q : A → Bool) (xs : List A) → All P xs → All P (select q xs)
  All-select P q [] h = tt
  All-select P q (x ∷ xs) h =
      elim (q x) as (λ b. All P (if b then x ∷ select q xs else select q xs)) [
        | true ↦ (h.0, All-select P q xs h.1)
        | false ↦ All-select P q xs h.1
      ]

  -- A change that keeps the tests' answers keeps uniqueness.
  pub any-update :
      (p q : A → Bool) (f : A → A) (xs : List A)
      → ((x : A) → p (f x) ≡ p x)
      → any p (update q f xs) ≡ any p xs
  any-update p q f [] k = refl
  any-update p q f (x ∷ xs) k = ground (arith, k x, any-update p q f xs k)

  pub All-update {κ} :
      (P : A → Type κ) (q : A → Bool) (f : A → A) (xs : List A)
      → ((x : A) → P x → P (f x))
      → All P xs
      → All P (update q f xs)
  All-update P q f [] k h = tt
  All-update P q f (x ∷ xs) k h = (change (q x), All-update P q f xs k h.1)
    where
      change : (b : Bool) → P (if b then f x else x)
      change true = k x h.0
      change false = h.0

  pub Distinct-update :
      (same : A → A → Bool) (q : A → Bool) (f : A → A) (xs : List A)
      → ((x y : A) → same (f x) y ≡ same x y)
      → ((x y : A) → same x (f y) ≡ same x y)
      → Distinct same xs
      → Distinct same (update q f xs)
  Distinct-update same q f [] l r d = tt
  Distinct-update same q f (x ∷ xs) l r d = (head (q x), Distinct-update same q f xs l r d.1)
    where
      head : (b : Bool) → any (same (if b then f x else x)) (update q f xs) ≡ false
      head true =
          any-update (same (f x)) q f xs (r (f x)) ∙ ap (λ p. any p xs) (fun_ext (λ y. l x y)) ∙ d.0
      head false = any-update (same x) q f xs (r x) ∙ d.0

  pub All-find {κ} :
      (P : A → Type κ) (p : A → Bool) (xs : List A) {x : A} → All P xs → find p xs ≡ some x → P x
  All-find P p [] h e = cc
  All-find P p (y ∷ xs) {x} h e = elim (Bool-cases (p y)) [
    | inl hit ↦ let same : some y ≡ some x = rw hit at e in subst P (some-injective y x same) h.0
    | inr miss ↦ All-find P p xs h.1 (rw miss at e)
  ]

  pub find_of_any : (p : A → Bool) (xs : List A) → any p xs ≡ true → (x : A) × (find p xs ≡ some x)
  find_of_any p [] h = cc
  find_of_any p (x ∷ xs) h = elim (Bool-cases (p x)) [
    | inl hit ↦ (x, rw hit)
    | inr miss ↦ let (y, e) = find_of_any p xs (ground arith) in (y, rw miss e)
  ]

  pub update-append :
      (p : A → Bool) (f : A → A) (xs ys : List A)
      → update p f (xs ++ ys) ≡ update p f xs ++ update p f ys
  update-append p f [] ys = refl
  update-append p f (x ∷ xs) ys = ap (λ zs. (if p x then f x else x) ∷ zs) (update-append p f xs ys)

  pub update_none :
      (p : A → Bool) (f : A → A) (xs : List A) → All (λ x. p x ≡ false) xs → update p f xs ≡ xs
  update_none p f [] h = refl
  update_none p f (x ∷ xs) h = rw (h.0, update_none p f xs h.1)

  -- The same for a change of the first row that a test picks.
  pub any-update_first :
      (p q : A → Bool) (f : A → A) (xs : List A)
      → ((x : A) → p (f x) ≡ p x)
      → any p (update_first q f xs) ≡ any p xs
  any-update_first p q f [] k = refl
  any-update_first p q f (x ∷ xs) k = ground (arith, k x, any-update_first p q f xs k)

  pub All-update_first {κ} :
      (P : A → Type κ) (q : A → Bool) (f : A → A) (xs : List A)
      → ((x : A) → P x → P (f x))
      → All P xs
      → All P (update_first q f xs)
  All-update_first P q f [] k h = tt
  All-update_first P q f (x ∷ xs) k h = elim (Bool-cases (q x)) [
    | inl hit ↦ rw hit (k x h.0, h.1)
    | inr miss ↦ rw miss (h.0, All-update_first P q f xs k h.1)
  ]

  pub Distinct-update_first :
      (same : A → A → Bool) (q : A → Bool) (f : A → A) (xs : List A)
      → ((x y : A) → same (f x) y ≡ same x y)
      → ((x y : A) → same x (f y) ≡ same x y)
      → Distinct same xs
      → Distinct same (update_first q f xs)
  Distinct-update_first same q f [] l r d = tt
  Distinct-update_first same q f (x ∷ xs) l r d = elim (Bool-cases (q x)) [
    | inl hit ↦ rw hit (ap (λ p. any p xs) (fun_ext (λ y. l x y)) ∙ d.0, d.1)
    | inr miss ↦
        rw miss
          (any-update_first (same x) q f xs (r x) ∙ d.0, Distinct-update_first same q f xs l r d.1)
  ]
