-- ===== src/Spf/Expand.antt =====
-- `spf_record`, `expand_with_cost`, `contains` and `classify` of ingest/spf.py.
use dmarc_service.Base.{
  ℕ, zero, suc, ◌-◌, Bool, false, ◌||◌, List, [], ◌∷◌, ◌++◌, Option, none, some, any, find, take,
  ◌==◌, if◌then◌else◌,
}
use dmarc_service.Base.Int.{ℤ, pos, negsuc, leb_ℤ}
use dmarc_service.Base.Text.{
  Text, codes, is_empty, text_eq, lower, starts_with, words, after, after_or_all, rstrip_by,
  lstrip_by,
}

abbrev pub max_dns_terms : ℕ
max_dns_terms = 10

pub record Dns : Type 0 where
  -- the answers of `_txt` and `_addresses`; [] where the lookup fails
  pub txt : Text → List Text
  pub addresses : Text → List Text
  -- str(r.exchange) of the MX answers, [] where the lookup fails
  pub exchanges : Text → List Text

-- the first value that begins with v=spf1
unfoldable pub spf_record : Dns → Text → Text
unfolding lower starts_with
spf_record dns domain =
    elim (find (λ value. starts_with (lower value) (codes "v=spf1")) (dns.txt domain)) [
      | none ↦ []
      | some value ↦ value
    ]

abbrev pub tail_of : List Text → List Text
tail_of [] = []
tail_of (_ ∷ ts) = ts

-- the variables that the inner function shares
pub record Walk {ℓ} (Network : Type ℓ) : Type ℓ where
  pub networks : List Network
  pub budget : ℤ
  pub seen : List Text

-- n -= 1, on an integer
abbrev pub less_one : ℤ → ℤ
less_one (pos zero) = negsuc zero
less_one (pos (suc n)) = pos n
less_one (negsuc n) = negsuc (suc n)

-- max(n, 0)
abbrev pub floored : ℤ → ℕ
floored (pos n) = n
floored (negsuc n) = 0

abbrev pub all_addresses : Dns → List Text → List Text
all_addresses dns [] = []
all_addresses dns (host ∷ hosts) =
    let rest = all_addresses dns hosts in dns.addresses (rstrip_by (λ c. c == b'.') host) ++ rest

module _ {ℓ} {Network : Type ℓ} (dns : Dns) (ip_network : Text → Option Network) where
  -- the loop that appends the networks; a malformed one raises, which ends the term
  unfoldable pub append_networks : List Text → List Network → List Network
  append_networks [] ns = ns
  append_networks (a ∷ addresses) ns = elim (ip_network a) [
    | none ↦ ns
    | some n ↦ append_networks addresses (ns ++ n ∷ [])
  ]

  abbrev pub add_addresses : List Text → Walk Network → Walk Network
  add_addresses addresses w = record w { networks = append_networks addresses w.networks }

  abbrev pub spend : Walk Network → Walk Network
  spend w = record w { budget = less_one w.budget }

  -- the host that a term names, or the domain itself
  unfoldable pub host_of : Text → Text → Text
  unfolding after
  host_of name term = elim (after b':' term) [ none ↦ name | some host ↦ host ]

  -- one term without its "+"; `visit` is the recursive call
  unfoldable pub apply_term :
      (Text → Walk Network → Walk Network) → Text → Text → Walk Network → Walk Network
  unfolding append_networks lower starts_with text_eq host_of after_or_all rstrip_by
  apply_term visit name term w =
      let lowered = lower term in
      if starts_with lowered (codes "ip4:") || starts_with lowered (codes "ip6:")
      then add_addresses (after_or_all b':' term ∷ []) w
      else if starts_with lowered (codes "include:") || starts_with lowered (codes "redirect=")
      then visit (after_or_all b'=' (after_or_all b':' term)) (spend w)
      else if text_eq lowered (codes "a") || starts_with lowered (codes "a:")
      then add_addresses (dns.addresses (host_of name term)) (spend w)
      else if text_eq lowered (codes "mx") || starts_with lowered (codes "mx:")
      then add_addresses (all_addresses dns (take 5 (dns.exchanges (host_of name term)))) (spend w)
      else w

  -- the loop over the terms, which ends when the budget is spent
  unfoldable pub apply_terms :
      (Text → Walk Network → Walk Network) → Text → List Text → Walk Network → Walk Network
  unfolding apply_term lstrip_by
  apply_terms visit name [] w = w
  apply_terms visit name (term ∷ terms) w =
      let rest =
        apply_terms visit name terms (apply_term visit name (lstrip_by (λ c. c == b'+') term) w) in
      if leb_ℤ w.budget (pos 0) then w else rest

  abbrev pub mark_seen : Text → Walk Network → Walk Network
  mark_seen name w = record w { seen = name ∷ w.seen }

  -- the inner function `walk`, on fuel
  unfoldable pub walk : ℕ → Text → Walk Network → Walk Network
  unfolding spf_record apply_terms words text_eq
  walk zero name w = w
  walk (suc fuel) name w =
      let rest =
        apply_terms (walk fuel) name (tail_of (words (spf_record dns name))) (mark_seen name w) in
      if leb_ℤ w.budget (pos 0) || any (text_eq name) w.seen
      then w
      else if is_empty (spf_record dns name)
      then mark_seen name w
      else rest

  abbrev pub start : Walk Network
  start = record { networks = []; budget = pos max_dns_terms; seen = [] }

  -- the networks, and the lookups that were consumed; a call within a call has spent some budget
  unfoldable pub expand_with_cost : Text → List Network × ℕ
  unfolding walk
  expand_with_cost domain =
      let w = walk (suc max_dns_terms) domain start in
      (w.networks, max_dns_terms - floored w.budget)

-- `address in network`, of the same version, is a parameter
pub data SenderClass : Type 0 where
  authorized aligned unknown : SenderClass

module _ {ℓ κ} {Network : Type ℓ} {Address : Type κ} (ip_address : Text → Option Address)
    (is_in : Address → Network → Bool) where
  unfoldable pub contains : List Network → Text → Bool
  contains networks ip = elim (ip_address ip) [ none ↦ false | some a ↦ any (is_in a) networks ]

  unfoldable pub sender_class : List Network → Text → Bool → SenderClass
  unfolding contains
  sender_class networks ip is_aligned =
      if contains networks ip
      then SenderClass.authorized
      else if is_aligned
      then SenderClass.aligned
      else SenderClass.unknown
