-- ===== src/ControlPlane/Deletion.antt =====
-- What the removal of a domain takes along, and what it leaves.
use dmarc_service.Base.{
  ℕ, Option, none, ◌≡◌, ◌≢◌, refl, Bool, true, false, not, List, [], ◌∷◌, some, any, find, select,
  update, map, ◌==◌, arith, Bool-cases, inl, inr,
}
use dmarc_service.Base.Text.{Text}
use dmarc_service.Schema.{Domain, ReportAddress, AggregateReport, TlsReport, Db}
use dmarc_service.ControlPlane.Provision.{
  delete_domain, belongs_to, names_id, unlink_aggregate, unlink_tls, resolve_address,
}

any-select-not :
    {A : Type 0} (p : A → Bool) (xs : List A) → any p (select (λ x. not (p x)) xs) ≡ false
any-select-not p [] = refl
any-select-not p (x ∷ xs) = ground (arith, any-select-not p xs)

-- A change that undoes what it looks for leaves none, and is invisible to what it forgets.
any-update_undone :
    {A : Type 0} (p : A → Bool) (f : A → A) (xs : List A)
    → ((x : A) → p (f x) ≡ false)
    → any p (update p f xs) ≡ false
any-update_undone p f [] h = refl
any-update_undone p f (x ∷ xs) h = ground (arith, h x, any-update_undone p f xs h)

map-update_undone :
    {A : Type 0} (p : A → Bool) (f : A → A) (xs : List A)
    → ((x : A) → f (f x) ≡ f x)
    → map f (update p f xs) ≡ map f xs
map-update_undone p f [] h = refl
map-update_undone p f (x ∷ xs) h = elim (Bool-cases (p x)) [
  | inl hit ↦ rw hit (rw (h x, map-update_undone p f xs h))
  | inr miss ↦ rw miss (rw (map-update_undone p f xs h))
]

find-select_kept :
    (p q : ReportAddress → Bool) (xs : List ReportAddress) {x : ReportAddress}
    → find p xs ≡ some x
    → q x ≡ true
    → find p (select q xs) ≡ some x
find-select_kept p q [] e k = cc
find-select_kept p q (y ∷ xs) {x} e k = elim (Bool-cases (p y)) [
  | inl hit ↦ ground (arith, hit)
  | inr miss ↦ ground (arith, find-select_kept p q xs {x = x}, miss)
]

-- A choice that a removal or a change does not concern is the same after it.
select-select_kept :
    {A : Type 0} (q p : A → Bool) (xs : List A)
    → ((x : A) → q x ≡ true → p x ≡ true)
    → select q (select p xs) ≡ select q xs
select-select_kept q p [] h = refl
select-select_kept q p (x ∷ xs) h = ground (arith, h x, select-select_kept q p xs h)

select-update_other :
    {A : Type 0} (q p : A → Bool) (f : A → A) (xs : List A)
    → ((x : A) → p x ≡ true → q x ≡ false)
    → ((x : A) → q (f x) ≡ false)
    → select q (update p f xs) ≡ select q xs
select-update_other q p f [] h k = refl
select-update_other q p f (x ∷ xs) h k = ground (arith, h x, k x, select-update_other q p f xs h k)

two_links :
    (id other : ℕ) (link : Option ℕ)
    → other ≢ id
    → names_id id link ≡ true
    → names_id other link ≡ false
unfolding names_id
two_links id other none different e = refl
two_links id other (some n) different e = ground arith

-- Deleting a domain removes it and its addresses. Every report is kept as it was but for the link
-- to the domain, which none carries any more, and so is every message. An active address of another
-- domain resolves as before, and for the id of any other domain the rows of domains and addresses
-- with it, retired addresses included, and the reports that are linked to it are the same.
pub delete_domain_lem :
    (domain : Domain) (db : Db)
    → let db' = delete_domain domain db in
      (any (λ (d : Domain). d.id == domain.id) db'.domains ≡ false)
      × (any (belongs_to domain) db'.addresses ≡ false)
      × (any (λ (r : AggregateReport). names_id domain.id r.domain_id) db'.aggregate_reports
          ≡ false)
      × (any (λ (r : TlsReport). names_id domain.id r.domain_id) db'.tls_reports ≡ false)
      × (map unlink_aggregate db'.aggregate_reports ≡ map unlink_aggregate db.aggregate_reports)
      × (map unlink_tls db'.tls_reports ≡ map unlink_tls db.tls_reports)
      × (db'.raw_messages ≡ db.raw_messages)
      × ((local_part : Text) (a : ReportAddress)
          → resolve_address db local_part ≡ some a
          → a.domain_id ≢ domain.id
          → resolve_address db' local_part ≡ some a)
      × ((other : ℕ)
          → other ≢ domain.id
          → (select (λ (d : Domain). d.id == other) db'.domains
              ≡ select (λ (d : Domain). d.id == other) db.domains)
            × (select (λ (a : ReportAddress). a.domain_id == other) db'.addresses
                ≡ select (λ (a : ReportAddress). a.domain_id == other) db.addresses)
            × (select (λ (r : AggregateReport). names_id other r.domain_id) db'.aggregate_reports
                ≡ select (λ (r : AggregateReport). names_id other r.domain_id) db.aggregate_reports)
            × (select (λ (r : TlsReport). names_id other r.domain_id) db'.tls_reports
                ≡ select (λ (r : TlsReport). names_id other r.domain_id) db.tls_reports))
unfolding delete_domain resolve_address
delete_domain_lem domain db = (
  any-select-not (λ (d : Domain). d.id == domain.id) db.domains,
  any-select-not (belongs_to domain) db.addresses,
  any-update_undone (λ (r : AggregateReport). names_id domain.id r.domain_id) unlink_aggregate
      db.aggregate_reports (λ r. refl),
  any-update_undone (λ (r : TlsReport). names_id domain.id r.domain_id) unlink_tls db.tls_reports
      (λ r. refl),
  map-update_undone (λ (r : AggregateReport). names_id domain.id r.domain_id) unlink_aggregate
      db.aggregate_reports (λ r. refl),
  map-update_undone (λ (r : TlsReport). names_id domain.id r.domain_id) unlink_tls db.tls_reports
      (λ r. refl),
  refl,
  λ local_part a e other.
      find-select_kept _ (λ b. not (belongs_to domain b)) db.addresses e (ground arith),
  λ other different. (
    select-select_kept _ _ db.domains (λ d e. ground arith),
    select-select_kept _ _ db.addresses (λ a e. ground arith),
    select-update_other _ _ unlink_aggregate db.aggregate_reports
        (λ r e. two_links domain.id other r.domain_id different e) (λ r. refl),
    select-update_other _ _ unlink_tls db.tls_reports
        (λ r e. two_links domain.id other r.domain_id different e) (λ r. refl),
  ),
)
