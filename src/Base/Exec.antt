-- ===== src/Base/Exec.antt =====
-- Exceptions, and calls that read and change a state and may raise. What was written before a
-- raise stays written, until a session is rolled back.
use Prim.Native.Nat.{ℕ}
use dmarc_service.Base.Text.Defs.{Text}
use mathlib.Core.Path.{◌≡◌, refl}
use mathlib.Core.Logic.{◌⊎◌, inl, inr}

-- The exceptions that some `except` clause tells apart, each with its message.
pub data Exc : Type 0 where
  value_error os_error bad_zip_file eof_error integrity_error json_decode_error other : Text → Exc
  -- HTTPException(status_code, detail)
  http_exception : ℕ → Text → Exc

-- str(exc)
abbrev pub message : Exc → Text
message (value_error m) = m
message (os_error m) = m
message (bad_zip_file m) = m
message (eof_error m) = m
message (integrity_error m) = m
message (json_decode_error m) = m
message (other m) = m
message (http_exception code m) = m

pub data Result {ℓ} (A : Type ℓ) : Type ℓ where
  ok : A → Result A
  raised : Exc → Result A

pub Result-cases {ℓ} :
    {A : Type ℓ} (r : Result A) → ((a : A) × (r ≡ ok a)) ⊎ ((e : Exc) × (r ≡ raised e))
Result-cases (ok a) = inl (a, refl)
Result-cases (raised e) = inr (e, refl)

abbrev pub Exec : Type 0 → Type 0 → Type 0
Exec S A = S → Result A × S

module _ {S A : Type 0} where
  -- a result that leaves the state alone
  abbrev pub lift : Result A → Exec S A
  lift r now = (r, now)

  abbrev pub raise : Exc → Exec S A
  raise x now = (raised x, now)

  abbrev pub gets : (S → A) → Exec S A
  gets read now = (ok (read now), now)

  abbrev pub pure : A → Exec S A
  pure value now = (ok value, now)

module _ {S : Type 0} where
  abbrev pub modify : (S → S) → Exec S (Unit {0})
  modify change now = (ok tt, change now)

module _ {B A S : Type 0} where
  -- an exception ends the chain, with the state as it was when it was raised
  abbrev pub continue : Result A → (A → Exec S B) → S → Result B × S
  continue (raised x) next now = (raised x, now)
  continue (ok value) next now = next value now

  infixl 5 ◌>>=◌
  abbrev pub ◌>>=◌ : Exec S A → (A → Exec S B) → S → Result B × S
  ◌>>=◌ first next before = let ran = first before in continue ran.0 next ran.1

  infixl 5 ◌>>◌
  abbrev pub ◌>>◌ : Exec S A → Exec S B → S → Result B × S
  ◌>>◌ first second = first >>= λ ignored. second

-- What holds after a bind: after the second call if the first returned, else after the first.
module _ {ℓ} {S A B : Type 0} (P : S → Type ℓ) where
  state-continue :
      (r : Result A) (f : A → Exec S B) (s : S)
      → ((a : A) → r ≡ ok a → P (f a s).1)
      → P s
      → P (continue r f s).1
  state-continue (ok a) f s h k = h a refl
  state-continue (raised e) f s h k = k

  pub state-bind :
      (m : Exec S A) (f : A → Exec S B) (s : S)
      → ((a : A) → (m s).0 ≡ ok a → P (f a (m s).1).1)
      → P (m s).1
      → P ((m >>= f) s).1
  state-bind m f s h k = state-continue (m s).0 f (m s).1 h k

-- try: ... except Exception as exc: the exception becomes a value, and what was written stays
module _ {S A : Type 0} where
  abbrev pub attempt : Exec S A → Exec S (Result A)
  attempt m s = let (r, s') = m s in (ok r, s')

-- A bind that returned a value went through both calls.
module _ {S A B : Type 0} where
  continue-eq-ok :
      (r : Result A) (f : A → Exec S B) (s : S) {b : B}
      → (continue r f s).0 ≡ ok b
      → (a : A) × (r ≡ ok a) × ((f a s).0 ≡ ok b)
  continue-eq-ok (ok a) f s h = (a, refl, h)
  continue-eq-ok (raised e) f s h = cc

  pub bind-eq-ok :
      (m : Exec S A) (f : A → Exec S B) (s : S) {b : B}
      → ((m >>= f) s).0 ≡ ok b
      → (a : A) × ((m s).0 ≡ ok a) × ((f a (m s).1).0 ≡ ok b)
  bind-eq-ok m f s h = continue-eq-ok (m s).0 f (m s).1 h

  pub bind_of_ok :
      (m : Exec S A) (f : A → Exec S B) (s s' : S) (a : A) → m s ≡ (ok a, s') → (m >>= f) s ≡ f a s'
  bind_of_ok m f s s' a e = rw e

  -- the state after a bind that ends in a value is the state after its first call
  pub state-continue-pure :
      (r : Result A) (f : A → B) (s : S) → (continue r (λ a. pure (f a)) s).1 ≡ s
  state-continue-pure (ok a) f s = refl
  state-continue-pure (raised e) f s = refl
