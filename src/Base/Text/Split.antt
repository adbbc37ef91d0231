-- ===== src/Base/Text/Split.antt =====
-- The words of a text, its last part, and what it starts with once it is stripped.
use mathlib.Core.Path.{◌≡◌, refl, ◌∙◌, subst}
use mathlib.Core.Bool.{Bool, true, false, ◌||◌}
use mathlib.Core.List.{List, [], ◌∷◌, ◌++◌, map, reverse, reverse-cons, append_assoc}
use mathlib.Core.Logic.{inl, inr}
use mathlib.Core.Option.{none, some}
use native.Mathlib.Omega.{arith}
use Prim.Native.Nat.{ℕ}
use dmarc_service.Base.Tests.{◌==◌, ==_iff, if◌then◌else◌, Bool-cases}
use dmarc_service.Base.Lists.{any, any-append}
use dmarc_service.Base.Text.Defs.{
  Text, is_empty, is_space, text_eq, lstrip_by, rstrip_by, strip, strip_by, last_part, after,
  starts_with, words_from,
}
use dmarc_service.Base.Text.Laws.{text_eq_refl, starts_with-append}
use dmarc_service.Base.Text.Parts.{
  IsPart, IsPart-refl, IsPart-cons, IsPart-append, has, has-not_empty,
}

has-reverse : (k : ℕ) (s : Text) → has k (reverse s) ≡ has k s
has-reverse k [] = refl
has-reverse k (c ∷ s) =
    rw (reverse-cons c s, any-append (λ x. x == k) (reverse s) (c ∷ []), has-reverse k s)
      (ground arith)

either :
    (b : Bool) (p : Text → Bool) (x : Text) (xs : List Text)
    → any p xs ≡ true
    → any p (if b then xs else x ∷ xs) ≡ true
either b p x xs h = ground arith

module _ (f : ℕ → ℕ) (k : ℕ) (same : (c : ℕ) → is_space (f c) ≡ false → f c ≡ c)
    (unspaced : is_space (f k) ≡ false) where
  later :
      (c : ℕ) (w s : Text)
      → (has k w || has k (c ∷ s)) ≡ true
      → has k w ≡ false
      → is_space (f c) ≡ true
      → (has k [] || has k s) ≡ true
  later c w s h missing space = elim (Bool-cases (c == k)) [
    | inl e ↦
        (let eq : c ≡ k = (==_iff c k).0 e in
          let odd : is_space (f k) ≡ true = subst (λ x. is_space (f x) ≡ true) eq space in cc)
    | inr e ↦ ground arith
  ]

  -- a word with the character `k`, where the text has one
  pub word_from :
      (before w s : Text)
      → (has k w || has k s) ≡ true
      → (u : Text) × (any (text_eq u) (words_from w (map f s)) ≡ true)
        × (has k u ≡ true)
        × IsPart u (before ++ (reverse w ++ s))
  unfolding words_from
  word_from before w [] h =
      let held : has k w ≡ true = ground arith in
      (
        reverse w,
        rw (has-not_empty k w held) (rw (text_eq_refl (reverse w)) refl),
        has-reverse k w ∙ held,
        (before, [], refl),
      )
  word_from before w (c ∷ s) h = elim (Bool-cases (is_space (f c))) [
    | inl space ↦ rw space (elim (Bool-cases (has k w)) [
      | inl held ↦ rw (has-not_empty k w held) (
        reverse w,
        rw (text_eq_refl (reverse w)) refl,
        has-reverse k w ∙ held,
        IsPart-append before (reverse w) (c ∷ s),
      )
      | inr missing ↦
          (let (u, found, held, part) =
              word_from (before ++ (reverse w ++ c ∷ [])) [] s (later c w s h missing space) in
            (
              u,
              either (is_empty w) (text_eq u) (reverse w) (words_from [] (map f s)) found,
              held,
              subst (IsPart u) (simp (append_assoc)) part,
            ))
    ])
    | inr letter ↦ rw letter (
        rw (same c letter) (
          let (u, found, held, part) = word_from before (c ∷ w) s (ground (arith, h)) in
          (u, found, held, subst (IsPart u) (rw (reverse-cons c w) (simp (append_assoc))) part)))
  ]

rstrip_by-prefix :
    (p : ℕ → Bool) (pre s : Text)
    → any p pre ≡ false
    → rstrip_by p (pre ++ s) ≡ pre ++ rstrip_by p s
unfolding rstrip_by
rstrip_by-prefix p [] s h = refl
rstrip_by-prefix p (c ∷ pre) s h =
    let first : p c ≡ false = ground arith in
    rw first (rw (rstrip_by-prefix p pre s (ground arith)) refl)

pub strip-prefix :
    (c : ℕ) (pre s : Text)
    → any is_space (c ∷ pre) ≡ false
    → starts_with (strip ((c ∷ pre) ++ s)) (c ∷ pre) ≡ true
unfolding strip strip_by lstrip_by
strip-prefix c pre s h =
    let first : is_space c ≡ false = ground arith in
    rw (first, rstrip_by-prefix is_space (c ∷ pre) s h)
      (starts_with-append (c ∷ pre) (rstrip_by is_space s))

after-none : (k : ℕ) (s : Text) → has k s ≡ false → after k s ≡ none
unfolding after
after-none k [] h = refl
after-none k (c ∷ s) h =
    let other : c == k ≡ false = ground arith in rw other (after-none k s (ground arith))

after-some : (k : ℕ) (s : Text) → has k s ≡ true → (t : Text) × (after k s ≡ some t)
unfolding after
after-some k [] h = cc
after-some k (c ∷ s) h = elim (Bool-cases (c == k)) [
  | inl e ↦ rw e (s, refl)
  | inr e ↦ rw e (after-some k s (ground arith))
]

last_all : (k : ℕ) (s : Text) → has k s ≡ false → last_part k s ≡ s
unfolding last_part
last_all k [] h = refl
last_all k (c ∷ s) h =
    let other : c == k ≡ false = ground arith in rw other (rw (after-none k s (ground arith)) refl)

-- what follows the last of the characters, with the character
pub last_part-IsPart : (k : ℕ) (s : Text) → has k s ≡ true → IsPart (k ∷ last_part k s) s
unfolding last_part
last_part-IsPart k [] h = cc
last_part-IsPart k (c ∷ s) h = elim (Bool-cases (has k s)) [
  | inl more ↦
      (let (t, e) = after-some k s more in
        let part = IsPart-cons c (k ∷ last_part k s) s (last_part-IsPart k s more) in
        elim (Bool-cases (c == k)) [ inl same ↦ rw same part | inr other ↦ rw other (rw e part) ])
  | inr only ↦
      (let same : c == k ≡ true = ground arith in
        rw same (rw (last_all k s only, (==_iff c k).0 same) (IsPart-refl (k ∷ s))))
]
