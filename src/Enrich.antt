-- ===== src/Enrich.antt =====
-- ingest/enrich.py. The registry's answer to a lookup, and the PTR answer, are parameters; the pool
-- of threads gives its results in the order of the addresses.
pub mod Ips
pub mod Learned
pub mod Lookup
use dmarc_service.Base.{
  ℕ, ◌+◌, ◌≤◌, ◌<◌, ◌≢◌, sym, ◌==◌, ==_refl, Bool-cases, inl, inr, ◌⊎◌, Bool, true, false, ◌&&◌,
  List, [], ◌∷◌, Option, none, some, any, map, ltb, if◌then◌else◌, ◌≡◌, refl, arith,
}
use mathlib.Core.Path.{subst}
use dmarc_service.Base.Rows.{All}
use dmarc_service.Base.Text.{Text, text_eq_refl, codes, is_empty, text_eq, text_or, lower, occurs}
use dmarc_service.Schema.{IpIntel}

-- a contact of a network: its last `fn`, whether its `kind` is "individual", its roles
pub record Contact : Type 0 where
  pub name : Text
  pub is_individual : Bool
  pub roles : List Text

unfoldable pub role_rank : Text → ℕ
unfolding text_eq
role_rank role =
    if text_eq role (codes "registrant")
    then 0
    else if text_eq role (codes "administrative")
    then 1
    else if text_eq role (codes "technical")
    then 2
    else if text_eq role (codes "abuse")
    then 30
    else 8

-- min(..., default=8)
unfoldable pub least : List ℕ → ℕ
least [] = 8
least (n ∷ []) = n
least (n ∷ m ∷ ns) = let rest = least (m ∷ ns) in if ltb rest n then rest else n

abbrev pub role_words : List Text
role_words =
    codes "role"
    ∷ codes "abuse"
    ∷ codes "noc"
    ∷ codes "hostmaster"
    ∷ codes "postmaster"
    ∷ codes "registry"
    ∷ []

unfoldable pub score : Contact → ℕ
unfolding role_rank least occurs lower
score c =
    least (map role_rank c.roles)
    + (if c.is_individual then 10 else 0)
    + (if any (λ word. occurs word (lower c.name)) role_words then 20 else 0)

-- the loop over the contacts: the best score so far, and its name
unfoldable pub best : List Contact → ℕ → Text → ℕ × Text
unfolding score
best [] best_score org = (best_score, org)
best (c ∷ contacts) best_score org =
    if is_empty c.name
    then best contacts best_score org
    else if ltb (score c) best_score
    then best contacts (score c) c.name
    else best contacts best_score org

unfoldable pub organisation : List Contact → Text
unfolding best
organisation contacts = let (s, org) = best contacts 99 [] in if ltb s 20 then org else []

unfoldable pub describe : Option IpIntel → Text
describe none = []
describe (some intel) = text_or intel.org (text_or intel.netname intel.ptr)

best_unnamed :
    (c : Contact) (cs : List Contact) (s : ℕ) (org : Text)
    → is_empty c.name ≡ true
    → best (c ∷ cs) s org ≡ best cs s org
unfolding best
best_unnamed c cs s org e = rw (best, e) refl

best_better :
    (c : Contact) (cs : List Contact) (s : ℕ) (org : Text)
    → is_empty c.name ≡ false
    → ltb (score c) s ≡ true
    → best (c ∷ cs) s org ≡ best cs (score c) c.name
unfolding best
best_better c cs s org e f = rw (best, e) (rw f refl)

best_worse :
    (c : Contact) (cs : List Contact) (s : ℕ) (org : Text)
    → is_empty c.name ≡ false
    → ltb (score c) s ≡ false
    → best (c ∷ cs) s org ≡ best cs s org
unfolding best
best_worse c cs s org e f = rw (best, e) (rw f refl)

-- The score that the loop ends with is no greater than the one it began with, nor than that of any
-- contact that has a name; and it is a contact's, unless none was better.
abbrev IsLeast : List Contact → ℕ → ℕ × Text → Type 0
IsLeast contacts s r = (r.0 ≤ s) × All (λ c. is_empty c.name ≡ false → r.0 ≤ score c) contacts

abbrev IsChosen : List Contact → ℕ → Text → ℕ × Text → Type 0
IsChosen contacts s org r =
    (r ≡ (s, org)) ⊎ (any (λ c. text_eq c.name r.1 && (score c == r.0)) contacts ≡ true)

best-IsLeast :
    (contacts : List Contact) (s : ℕ) (org : Text) → IsLeast contacts s (best contacts s org)
unfolding best
best-IsLeast [] s org = (omega arith, tt)
best-IsLeast (c ∷ cs) s org = elim (Bool-cases (is_empty c.name)) [
  | inl unnamed ↦
      let (low, all) = best-IsLeast cs s org in
      subst (IsLeast (c ∷ cs) s) (sym (best_unnamed c cs s org unnamed)) (low, ((λ e. cc), all))
  | inr named ↦ elim (Bool-cases (ltb (score c) s)) [
    | inl better ↦
        let (low, all) = best-IsLeast cs (score c) c.name in
        subst (IsLeast (c ∷ cs) s) (sym (best_better c cs s org named better))
          (ground (arith, low), ((λ e. low), all))
    | inr worse ↦
        let (low, all) = best-IsLeast cs s org in
        subst (IsLeast (c ∷ cs) s) (sym (best_worse c cs s org named worse))
          (low, ((λ e. ground (arith, low)), all))
  ]
]

later :
    (c : Contact) (cs : List Contact) (s : ℕ) (org : Text) (r : ℕ × Text)
    → IsChosen cs s org r
    → IsChosen (c ∷ cs) s org r
later c cs s org r (inl same) = inl same
later c cs s org r (inr chosen) = inr (ground (arith, chosen))

taken :
    (c : Contact) (cs : List Contact) (s : ℕ) (org : Text) (r : ℕ × Text)
    → IsChosen cs (score c) c.name r
    → IsChosen (c ∷ cs) s org r
taken c cs s org r (inl same) = inr (rw same (rw (text_eq_refl, ==_refl) refl))
taken c cs s org r (inr chosen) = inr (ground (arith, chosen))

best-IsChosen :
    (contacts : List Contact) (s : ℕ) (org : Text) → IsChosen contacts s org (best contacts s org)
unfolding best
best-IsChosen [] s org = inl refl
best-IsChosen (c ∷ cs) s org = elim (Bool-cases (is_empty c.name)) [
  | inl unnamed ↦
      subst (IsChosen (c ∷ cs) s org) (sym (best_unnamed c cs s org unnamed))
        (later c cs s org _ (best-IsChosen cs s org))
  | inr named ↦ elim (Bool-cases (ltb (score c) s)) [
    | inl better ↦
        subst (IsChosen (c ∷ cs) s org) (sym (best_better c cs s org named better))
          (taken c cs s org _ (best-IsChosen cs (score c) c.name))
    | inr worse ↦
        subst (IsChosen (c ∷ cs) s org) (sym (best_worse c cs s org named worse))
          (later c cs s org _ (best-IsChosen cs s org))
  ]
]

-- An address is named after a contact that scores below 20, which no role object, abuse contact or
-- the like reaches by its name, and no named contact scores lower.
pub organisation_lem :
    (contacts : List Contact)
    → organisation contacts ≢ []
    → (s : ℕ) × (s < 20)
      × (any (λ c. text_eq c.name (organisation contacts) && (score c == s)) contacts ≡ true)
      × All (λ c. is_empty c.name ≡ false → s ≤ score c) contacts
unfolding organisation
organisation_lem contacts named = elim (Bool-cases (ltb (best contacts 99 []).0 20)) [
  | inr high ↦ absurd (named (rw (organisation, high) refl))
  | inl low ↦ elim (best-IsChosen contacts 99 []) [
    | inl none_better ↦ absurd (no_default none_better low)
    | inr chosen ↦ (
      (best contacts 99 []).0,
      ground (arith, low),
      rw (organisation, low) chosen,
      (best-IsLeast contacts 99 []).1,
    )
  ]
]
  where
    no_default : best contacts 99 [] ≡ (99, []) → ltb (best contacts 99 []).0 20 ≡ true → ⊥
    no_default e low = ground (arith, rw e at low)
