-- ===== src/Base/Fallible.antt =====
-- Chains of calls that may raise and change no state.
use mathlib.Core.Path.{◌≡◌, refl, subst}
use dmarc_service.Base.Exec.{Result, ok, raised}

infixl 5 ◌>>=◌
abbrev pub ◌>>=◌ {κ ℓ} : {B : Type κ} {A : Type ℓ} → Result A → (A → Result B) → Result B
◌>>=◌ (raised x) next = raised x
◌>>=◌ (ok value) next = next value

-- Both calls of a chain that returned have returned.
pub >>=-returned {κ ℓ} :
    {B : Type κ} {A : Type ℓ} (first : Result A) (next : A → Result B) {last : B}
    → (first >>= next) ≡ ok last
    → (value : A) × (first ≡ ok value) × (next value ≡ ok last)
>>=-returned (raised x) next chain = cc
>>=-returned (ok value) next chain = (value, refl, chain)

-- what holds of a value holds of the value of an equal result
module _ {ℓ κ} {A : Type ℓ} (P : A → Type κ) where
  OfResult : Result A → Type κ
  OfResult (ok a) = P a
  OfResult (raised e) = Unit

  pub ok-subst : {a b : A} → ok a ≡ ok b → P a → P b
  unfolding OfResult
  ok-subst e h = subst OfResult e h
