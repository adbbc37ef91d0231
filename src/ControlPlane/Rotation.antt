-- ===== src/ControlPlane/Rotation.antt =====
-- The life of a report address: minted, resolved, deactivated, and still recognised afterwards.
use dmarc_service.Base.{
  ◌≡◌, refl, Bool, true, false, not, ◌&&◌, List, [], ◌∷◌, none, some, any, find, arith, Bool-cases,
  inl, inr, ◌≢◌, any-find, find-append_miss, find-append_hit,
}
use dmarc_service.Base.Rows.{Distinct}
use dmarc_service.Base.Text.{Text, text_eq_iff, text_eq_refl}
use dmarc_service.Schema.{Domain, ReportAddress, Db}
use dmarc_service.Schema.Insert.{has_local_part}
use dmarc_service.Schema.Valid.{IsValid, same_local_part}
use dmarc_service.ControlPlane.Provision.{
  mint_address, deactivate, deactivated, belongs_to, resolve_address, resolve_retired_address,
}

any-and_false :
    (p q : ReportAddress → Bool) (xs : List ReportAddress)
    → any p xs ≡ false
    → any (λ a. p a && q a) xs ≡ false
any-and_false p q [] h = refl
any-and_false p q (x ∷ xs) h = ground (arith, any-and_false p q xs)

any-and_left :
    (p q : ReportAddress → Bool) (xs : List ReportAddress)
    → any q xs ≡ false
    → any (λ a. p a && q a) xs ≡ false
any-and_left p q [] h = refl
any-and_left p q (x ∷ xs) h = ground (arith, any-and_left p q xs)

-- A freshly minted address resolves to its domain at once, and every address that resolved
-- before still resolves to the row that it had.
pub resolve_address-mint_address :
    (local_part : Text) (domain : Domain) (db : Db)
    → any (has_local_part local_part) db.addresses ≡ false
    → let db' = (mint_address local_part domain db).1 in
      (a : ReportAddress) × (resolve_address db' local_part ≡ some a)
      × (a.domain_id ≡ domain.id)
      × ((other : Text) (b : ReportAddress)
          → resolve_address db other ≡ some b
          → resolve_address db' other ≡ some b)
unfolding mint_address resolve_address
resolve_address-mint_address local_part domain db fresh = rw fresh (
  record {
    id = db.next_id;
    domain_id = domain.id;
    local_part = local_part;
    active = true;
    created_at = db.now;
  },
  rw
      (find-append_miss _ db.addresses _
        (any-and_false (has_local_part local_part) (λ a. a.active) db.addresses fresh))
      (rw text_eq_refl),
  refl,
  λ other b e. find-append_hit (λ a. has_local_part other a && a.active) db.addresses _ e,
)

-- The local part that one row carries is on no later row.
taken_once :
    (a : ReportAddress) (local_part : Text) (addrs : List ReportAddress)
    → a.local_part ≡ local_part
    → any (same_local_part a) addrs ≡ false
    → any (has_local_part local_part) addrs ≡ false
taken_once a local_part [] e h = refl
taken_once a local_part (b ∷ addrs) e h = ground (
  arith,
  text_eq_iff a.local_part b.local_part,
  text_eq_iff b.local_part local_part,
  taken_once a local_part addrs e,
)

no_active_left :
    (domain : Domain) (local_part : Text) (addrs : List ReportAddress)
    → Distinct same_local_part addrs
    → any (λ a. belongs_to domain a && has_local_part local_part a) addrs ≡ true
    → find (λ a. has_local_part local_part a && a.active) (deactivated domain local_part addrs)
      ≡ none
no_active_left domain local_part [] d h = refl
no_active_left domain local_part (a ∷ addrs) d h = ground (
  arith,
  text_eq_iff a.local_part local_part,
  taken_once a local_part addrs,
  no_active_left domain local_part addrs d.1,
  any-find (λ b. has_local_part local_part b && b.active) addrs,
  any-and_false (has_local_part local_part) (λ b. b.active) addrs,
  any-and_left (belongs_to domain) (has_local_part local_part) addrs,
)

retired_is_found :
    (domain : Domain) (local_part : Text) (addrs : List ReportAddress)
    → Distinct same_local_part addrs
    → any (λ a. belongs_to domain a && has_local_part local_part a) addrs ≡ true
    → (a : ReportAddress) × (find
          (λ b. has_local_part local_part b && not b.active)
          (deactivated domain local_part addrs)
        ≡ some a)
      × (a.domain_id ≡ domain.id)
retired_is_found domain local_part [] d h = cc
retired_is_found domain local_part (a ∷ addrs) d h =
    elim (Bool-cases (belongs_to domain a && has_local_part local_part a)) [
      | inl hit ↦ (deactivate a, ground arith, ground arith)
      | inr miss ↦
          let (b, found, theirs) = retired_is_found domain local_part addrs d.1 (ground arith) in
          (
            b,
            ground (
              arith,
              text_eq_iff a.local_part local_part,
              taken_once a local_part addrs,
              any-and_left (belongs_to domain) (has_local_part local_part) addrs,
            ),
            theirs,
          )
    ]

others_resolve :
    (domain : Domain) (local_part other : Text) (addrs : List ReportAddress)
    → local_part ≢ other
    → find (λ a. has_local_part other a && a.active) (deactivated domain local_part addrs)
      ≡ find (λ a. has_local_part other a && a.active) addrs
others_resolve domain local_part other [] ne = refl
others_resolve domain local_part other (a ∷ addrs) ne = ground (
  arith,
  text_eq_iff a.local_part local_part,
  text_eq_iff a.local_part other,
  others_resolve domain local_part other addrs ne,
)

-- Deactivating an address of a domain: mail to it no longer resolves as active, it is recognised
-- as a retired address of that domain, and no other address resolves differently.
pub deactivated_lem :
    (domain : Domain) (local_part : Text) (db : Db)
    → IsValid db
    → any (λ a. belongs_to domain a && has_local_part local_part a) db.addresses ≡ true
    → let db' : Db = record db { addresses = deactivated domain local_part db.addresses } in
      (resolve_address db' local_part ≡ none)
      × ((a : ReportAddress) × (resolve_retired_address db' local_part ≡ some a)
          × (a.domain_id ≡ domain.id))
      × ((other : Text) → local_part ≢ other → resolve_address db' other ≡ resolve_address db other)
unfolding resolve_address resolve_retired_address
deactivated_lem domain local_part db v known = (
  no_active_left domain local_part db.addresses v.local_parts known,
  retired_is_found domain local_part db.addresses v.local_parts known,
  λ other ne. others_resolve domain local_part other db.addresses ne,
)
