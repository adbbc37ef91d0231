-- ===== src/Base/Text/Parts.antt =====
-- Parts of a text, and what stripping and splitting keep of them.
use mathlib.Core.Path.{◌≡◌, refl, sym, ap, ◌∙◌}
use mathlib.Core.Bool.{Bool, true, false, ◌&&◌}
use mathlib.Core.List.{[], ◌∷◌, ◌++◌, append-nil, append_assoc}
use mathlib.Core.Logic.{inl, inr}
use native.Mathlib.Omega.{arith}
use Prim.Native.Nat.{ℕ}
use dmarc_service.Base.Tests.{◌==◌, ==_iff, Bool-cases}
use dmarc_service.Base.Lists.{any, any-append}
use dmarc_service.Base.Text.Defs.{
  Text, is_empty, lstrip_by, rstrip_by, starts_with, occurs, remove_prefix,
}
use dmarc_service.Base.Text.Laws.{starts_with-append}

-- the second text is the first with something before it and after it
abbrev pub IsPart : Text → Text → Type 0
IsPart t s = (a b : Text) × (s ≡ a ++ (t ++ b))

abbrev pub has : ℕ → Text → Bool
has k = any (λ c. c == k)

pub IsPart-refl : (t : Text) → IsPart t t
IsPart-refl t = ([], [], sym (append-nil t))

pub IsPart-cons : (c : ℕ) (t s : Text) → IsPart t s → IsPart t (c ∷ s)
IsPart-cons c t s (a, b, e) = (c ∷ a, b, ap (λ x. c ∷ x) e)

pub IsPart-trans : (t u s : Text) → IsPart t u → IsPart u s → IsPart t s
IsPart-trans t u s (a, b, e) (c, d, e') =
    (c ++ a, b ++ d, e' ∙ (ap (λ x. c ++ (x ++ d)) e ∙ simp (append_assoc)))

pub IsPart-append : (a t b : Text) → IsPart t (a ++ (t ++ b))
IsPart-append a t b = (a, b, refl)

occurs_nil : (s : Text) → occurs [] s ≡ true
unfolding occurs starts_with
occurs_nil [] = refl
occurs_nil (c ∷ s) = refl

occurs-append : (a t b : Text) → occurs t (a ++ (t ++ b)) ≡ true
unfolding occurs
occurs-append [] [] b = occurs_nil b
occurs-append [] (c ∷ t) b = rw (starts_with-append (c ∷ t) b) refl
occurs-append (c ∷ a) t b = ground (arith, occurs-append a t b)

pub IsPart-occurs : (t s : Text) → IsPart t s → occurs t s ≡ true
IsPart-occurs t s (a, b, e) = rw e (occurs-append a t b)

pub has-occurs : (k : ℕ) (s : Text) → has k s ≡ true → occurs (k ∷ []) s ≡ true
unfolding occurs starts_with
has-occurs k [] h = cc
has-occurs k (c ∷ s) h = ground (arith, has-occurs k s)

pub has-not_empty : (k : ℕ) (s : Text) → has k s ≡ true → is_empty s ≡ false
has-not_empty k [] h = cc
has-not_empty k (c ∷ s) h = refl

module _ (p : ℕ → Bool) where
  pub lstrip_by-IsPart : (s : Text) → IsPart (lstrip_by p s) s
  unfolding lstrip_by
  lstrip_by-IsPart [] = IsPart-refl []
  lstrip_by-IsPart (c ∷ s) = elim (Bool-cases (p c)) [
    | inl h ↦ rw h (IsPart-cons c (lstrip_by p s) s (lstrip_by-IsPart s))
    | inr h ↦ rw h (IsPart-refl (c ∷ s))
  ]

  rstrip_by_rest : (s : Text) → (b : Text) × (s ≡ rstrip_by p s ++ b)
  unfolding rstrip_by
  rstrip_by_rest [] = ([], refl)
  rstrip_by_rest (c ∷ s) = elim (Bool-cases (p c && is_empty (rstrip_by p s))) [
    | inl h ↦ rw h (c ∷ s, refl)
    | inr h ↦ rw h (let (b, e) = rstrip_by_rest s in (b, ap (λ x. c ∷ x) e))
  ]

  pub rstrip_by-IsPart : (s : Text) → IsPart (rstrip_by p s) s
  rstrip_by-IsPart s = let (b, e) = rstrip_by_rest s in ([], b, e)

  module _ (k : ℕ) (kept : p k ≡ false) where
    same_kept : (c : ℕ) → c == k ≡ true → p c ≡ false
    same_kept c e = rw ((==_iff c k).0 e) kept

    pub has-lstrip_by : (s : Text) → has k s ≡ true → has k (lstrip_by p s) ≡ true
    unfolding lstrip_by
    has-lstrip_by [] h = h
    has-lstrip_by (c ∷ s) h = elim (Bool-cases (c == k)) [
      | inl e ↦ rw (same_kept c e) h
      | inr e ↦ ground (arith, has-lstrip_by s)
    ]

    pub has-rstrip_by : (s : Text) → has k s ≡ true → has k (rstrip_by p s) ≡ true
    unfolding rstrip_by
    has-rstrip_by [] h = h
    has-rstrip_by (c ∷ s) h = elim (Bool-cases (c == k)) [
      | inl e ↦ rw (same_kept c e) (rw e refl)
      | inr e ↦
          (let rest : has k s ≡ true = ground arith in
            let kept_rest = has-rstrip_by s rest in
            rw (has-not_empty k (rstrip_by p s) kept_rest) (ground arith))
    ]

pub remove_prefix-IsPart : (s p : Text) → IsPart (remove_prefix s p) s
unfolding remove_prefix
remove_prefix-IsPart s [] = IsPart-refl s
remove_prefix-IsPart [] (d ∷ p) = IsPart-refl []
remove_prefix-IsPart (c ∷ s) (d ∷ p) = elim (Bool-cases (starts_with (c ∷ s) (d ∷ p))) [
  | inl h ↦ rw h (IsPart-cons c (remove_prefix s p) s (remove_prefix-IsPart s p))
  | inr h ↦ rw h (IsPart-refl (c ∷ s))
]

pub has-remove_prefix :
    (k : ℕ) (s p : Text) → has k p ≡ false → has k s ≡ true → has k (remove_prefix s p) ≡ true
unfolding remove_prefix starts_with
has-remove_prefix k s [] free h = h
has-remove_prefix k [] (d ∷ p) free h = h
has-remove_prefix k (c ∷ s) (d ∷ p) free h = ground (arith, has-remove_prefix k s p)

pub has-IsPart : (k : ℕ) (t s : Text) → has k t ≡ true → IsPart t s → has k s ≡ true
has-IsPart k t s h (a, b, e) =
    rw (e, any-append (λ c. c == k) a (t ++ b), any-append (λ c. c == k) t b, h) (ground arith)
