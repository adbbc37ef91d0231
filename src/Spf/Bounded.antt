-- ===== src/Spf/Bounded.antt =====
-- The expansion of an SPF record ends within the lookup budget, however the records refer to each
-- other.
use dmarc_service.Base.{
  ℕ, zero, suc, ◌+◌, ◌-◌, ◌≤◌, ◌<◌, ◌≡◌, refl, ◌∙◌, ap, Bool, false, ◌||◌, List, [], ◌∷◌,
  Bool-cases, inl, inr, arith, ◌==◌, Option, any,
}
use dmarc_service.Base.Int.{ℤ, pos, leb_ℤ}
use dmarc_service.Base.Text.{
  is_empty, Text, codes, text_eq, lower, starts_with, words, lstrip_by, after_or_all,
}
use dmarc_service.Spf.Expand.{
  Dns, Walk, max_dns_terms, spf_record, tail_of, apply_term, apply_terms, walk, mark_seen, start,
  expand_with_cost, spend, less_one, floored,
}

abbrev is_include : Text → Bool
is_include term =
    starts_with (lower term) (codes "include:") || starts_with (lower term) (codes "redirect=")

less_one_lem :
    (n : ℕ) (b : ℤ) (k : ℕ)
    → b ≡ pos k
    → leb_ℤ b (pos 0) ≡ false
    → k < suc n
    → (j : ℕ) × (less_one b ≡ pos j) × (j < n)
less_one_lem n b zero e some_left h = cc (rw e at some_left)
less_one_lem n b (suc k) e some_left h = (k, rw e refl, omega (arith, h))

module _ {ℓ} {Network : Type ℓ} (dns : Dns) (ip_network : Text → Option Network) where
  abbrev Visit : Type ℓ
  Visit = Text → Walk Network → Walk Network

  -- what is left of the budget is not negative, and below the bound
  abbrev IsWithin : ℕ → Walk Network → Type 0
  IsWithin n w = (k : ℕ) × (w.budget ≡ pos k) × (k < n)

  abbrev IsThrifty : Visit → Type ℓ
  IsThrifty visit =
      (n : ℕ) (name : Text) (w : Walk Network) → IsWithin n w → IsWithin n (visit name w)

  spend-IsWithin :
      (n : ℕ) (w : Walk Network)
      → IsWithin (suc n) w
      → leb_ℤ w.budget (pos 0) ≡ false
      → IsWithin n (spend dns ip_network w)
  spend-IsWithin n w (k, e, h) some_left = less_one_lem n w.budget k e some_left h

  spend-IsWithin_same :
      (n : ℕ) (w : Walk Network)
      → IsWithin n w
      → leb_ℤ w.budget (pos 0) ≡ false
      → IsWithin n (spend dns ip_network w)
  spend-IsWithin_same n w (k, e, h) some_left =
      less_one_lem n w.budget k e some_left (omega (arith, h))

  apply_term-IsWithin :
      (visit : Visit) (n : ℕ) (name term : Text) (w : Walk Network)
      → IsThrifty visit
      → IsWithin n w
      → leb_ℤ w.budget (pos 0) ≡ false
      → IsWithin n (apply_term dns ip_network visit name term w)
  unfolding apply_term
  apply_term-IsWithin visit n name term w thrifty within some_left =
      let spent = spend-IsWithin_same n w within some_left in
      let visited =
        thrifty n (after_or_all b'=' (after_or_all b':' term)) (spend dns ip_network w) spent in
      let lowered = lower term in
      elim (Bool-cases (starts_with lowered (codes "ip4:") || starts_with lowered (codes "ip6:"))) [
        | inl network ↦ rw (apply_term, network) within
        | inr no_network ↦ elim (Bool-cases (is_include term)) [
          | inl include ↦ rw (apply_term, no_network) (rw include visited)
          | inr no_include ↦
              elim (Bool-cases (text_eq lowered (codes "a") || starts_with lowered (codes "a:"))) [
                | inl host ↦ rw (apply_term, no_network) (rw no_include (rw host spent))
                | inr no_host ↦
                    elim (Bool-cases
                      (text_eq lowered (codes "mx") || starts_with lowered (codes "mx:"))) [
                        | inl mail ↦
                            rw (apply_term, no_network) (rw no_include (rw no_host (rw mail spent)))
                        | inr other ↦
                            rw (apply_term, no_network)
                              (rw no_include (rw no_host (rw other within)))
                      ]
              ]
        ]
      ]

  apply_terms-IsWithin :
      (visit : Visit) (n : ℕ) (name : Text) (terms : List Text) (w : Walk Network)
      → IsThrifty visit
      → IsWithin n w
      → IsWithin n (apply_terms dns ip_network visit name terms w)
  unfolding apply_terms
  apply_terms-IsWithin visit n name [] w thrifty within = within
  apply_terms-IsWithin visit n name (term ∷ terms) w thrifty within =
      elim (Bool-cases (leb_ℤ w.budget (pos 0))) [
        | inl spent ↦ rw spent within
        | inr some_left ↦
            let plain = lstrip_by (λ c. c == b'+') term in
            let next = apply_term dns ip_network visit name plain w in
            rw some_left (
              apply_terms-IsWithin visit n name terms next thrifty
                (apply_term-IsWithin visit n name plain w thrifty within some_left))
      ]

  pub walk-IsWithin : (fuel : ℕ) → IsThrifty (walk dns ip_network fuel)
  unfolding walk
  walk-IsWithin zero n name w within = within
  walk-IsWithin (suc fuel) n name w within =
      let below =
        apply_terms-IsWithin (walk dns ip_network fuel) n name
          (tail_of (words (spf_record dns name))) (mark_seen dns ip_network name w)
          (walk-IsWithin fuel) within in
      elim (Bool-cases (leb_ℤ w.budget (pos 0) || any (text_eq name) w.seen)) [
        | inl over ↦ rw (walk, over) within
        | inr unseen ↦ elim (Bool-cases (is_empty (spf_record dns name))) [
          | inl missing ↦ rw (walk, unseen) (rw missing within)
          | inr present ↦ rw (walk, unseen) (rw present below)
        ]
      ]

  -- two visits that agree below a budget
  abbrev Agree : ℕ → Visit → Visit → Type ℓ
  Agree n visit visit' =
      (name : Text) (w : Walk Network) → IsWithin n w → visit name w ≡ visit' name w

  apply_term-Agree :
      (n : ℕ) (visit visit' : Visit) (name term : Text) (w : Walk Network)
      → Agree n visit visit'
      → IsWithin (suc n) w
      → leb_ℤ w.budget (pos 0) ≡ false
      → apply_term dns ip_network visit name term w ≡ apply_term dns ip_network visit' name term w
  unfolding apply_term
  apply_term-Agree n visit visit' name term w agree within some_left =
      let same =
        agree (after_or_all b'=' (after_or_all b':' term)) (spend dns ip_network w)
          (spend-IsWithin n w within some_left) in
      rw same refl

  apply_terms-Agree :
      (n : ℕ) (visit visit' : Visit) (name : Text) (terms : List Text) (w : Walk Network)
      → Agree n visit visit'
      → IsThrifty visit'
      → IsWithin (suc n) w
      → apply_terms dns ip_network visit name terms w
        ≡ apply_terms dns ip_network visit' name terms w
  unfolding apply_terms
  apply_terms-Agree n visit visit' name [] w agree thrifty within = refl
  apply_terms-Agree n visit visit' name (term ∷ terms) w agree thrifty within =
      elim (Bool-cases (leb_ℤ w.budget (pos 0))) [
        | inl spent ↦ rw spent refl
        | inr some_left ↦
            let plain = lstrip_by (λ c. c == b'+') term in
            let next = apply_term dns ip_network visit' name plain w in
            let first = apply_term-Agree n visit visit' name plain w agree within some_left in
            let later =
              apply_terms-Agree n visit visit' name terms next agree thrifty
                (apply_term-IsWithin visit' (suc n) name plain w thrifty within some_left) in
            rw some_left (ap (apply_terms dns ip_network visit name terms) first ∙ later)
      ]

  -- More fuel than there is budget left changes nothing.
  walk-Agree :
      (fuel extra : ℕ) → Agree fuel (walk dns ip_network fuel) (walk dns ip_network (fuel + extra))
  unfolding walk
  walk-Agree zero extra name w (k, e, h) = absurd (omega (arith, h))
  walk-Agree (suc fuel) extra name w within =
      let below =
        apply_terms-Agree fuel (walk dns ip_network fuel) (walk dns ip_network (fuel + extra)) name
          (tail_of (words (spf_record dns name))) (mark_seen dns ip_network name w)
          (walk-Agree fuel extra) (walk-IsWithin (fuel + extra)) within in
      rw more (rw (walk, below) refl)
    where
      more : suc fuel + extra ≡ suc (fuel + extra)
      more = omega arith

  -- The expansion is the one that any more fuel gives, so the fuel is no bound of its own. The budget of
  -- ten lookups is never overdrawn: what is left of it at the end is not negative and at most ten, and
  -- the cost is what was taken from it.
  pub expand_with_cost_lem :
      (extra : ℕ) (domain : Text)
      → let w = walk dns ip_network (suc max_dns_terms + extra) domain (start dns ip_network) in
        (k : ℕ) × (w.budget ≡ pos k)
        × (k ≤ max_dns_terms)
        × (expand_with_cost dns ip_network domain ≡ (w.networks, max_dns_terms - k))
  unfolding expand_with_cost
  expand_with_cost_lem extra domain =
      let whole : IsWithin (suc max_dns_terms) (start dns ip_network) =
        (max_dns_terms, refl, omega arith) in
      let w = walk dns ip_network (suc max_dns_terms + extra) domain (start dns ip_network) in
      let (k, e, h) =
        walk-IsWithin (suc max_dns_terms + extra) (suc max_dns_terms) domain (start dns ip_network)
          whole in
      (
        k,
        e,
        omega (arith, h),
        ap (λ (v : Walk Network). (v.networks, max_dns_terms - floored v.budget))
              (walk-Agree (suc max_dns_terms) extra domain (start dns ip_network) whole)
            ∙ ap (λ b. (w.networks, max_dns_terms - floored b)) e,
      )
