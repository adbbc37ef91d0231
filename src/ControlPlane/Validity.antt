-- ===== src/ControlPlane/Validity.antt =====
-- Every operation of the control plane keeps the constraints of the schema.
use dmarc_service.Base.{
  ℕ, ◌≡◌, ◌≢◌, refl, Bool, true, false, not, List, [], ◌∷◌, any, select, ◌==◌, Bool-cases, inl, inr,
  arith, any-append, any-find,
}
use dmarc_service.Base.Rows.{All, Distinct-select, Distinct-update, All-select}
use dmarc_service.Base.Text.{Text}
use dmarc_service.Base.Exec.{ok, pure, state-bind}
use dmarc_service.Schema.{Tenant, Domain, ReportAddress, Db}
use dmarc_service.Schema.Insert.{insert_domain, has_name}
use dmarc_service.Schema.Valid.{
  IsValid, same_slug, HasDomain, HasTenant, same_name, same_local_part, same_aggregate, same_tls,
  insert_domain-IsValid, insert_address-IsValid,
}
use dmarc_service.ControlPlane.Provision.{
  add_domain, mint_address, delete_domain, delete_tenant, belongs_to, normalise, names_id,
  unlink_aggregate, unlink_tls,
}

abbrev has_id : ℕ → Domain → Bool
has_id i d = d.id == i

-- A row with another id outlives the removal of one id.
any-select_ne :
    (i j : ℕ) (ds : List Domain)
    → i ≢ j
    → any (has_id i) ds ≡ true
    → any (has_id i) (select (λ d. not (d.id == j)) ds) ≡ true
any-select_ne i j [] ne h = cc
any-select_ne i j (d ∷ ds) ne h = ground (arith, any-select_ne i j ds ne)

addresses_keep_domains :
    (domain : Domain) (ds : List Domain) (addrs : List ReportAddress)
    → All (HasDomain ds) addrs
    → All
        (HasDomain (select (λ d. not (d.id == domain.id)) ds))
        (select (λ a. not (belongs_to domain a)) addrs)
addresses_keep_domains domain ds [] h = tt
addresses_keep_domains domain ds (a ∷ addrs) h = elim (Bool-cases (a.domain_id == domain.id)) [
  | inl theirs ↦ rw theirs (addresses_keep_domains domain ds addrs h.1)
  | inr other ↦ rw other (
    any-select_ne a.domain_id domain.id ds (ground arith) h.0,
    addresses_keep_domains domain ds addrs h.1,
  )
]

-- Removing a domain takes its addresses along, so that no address is left without a domain,
-- and keeps every other constraint.
pub delete_domain-IsValid :
    (domain : Domain) (db : Db) → IsValid db → IsValid (delete_domain domain db)
unfolding delete_domain
delete_domain-IsValid domain db v = record {
  slugs = v.slugs;
  names = Distinct-select same_name _ db.domains v.names;
  local_parts = Distinct-select same_local_part _ db.addresses v.local_parts;
  aggregates =
      Distinct-update same_aggregate (λ r. names_id domain.id r.domain_id) unlink_aggregate
        db.aggregate_reports (λ r s. refl) (λ r s. refl) v.aggregates;
  tls =
      Distinct-update same_tls (λ r. names_id domain.id r.domain_id) unlink_tls db.tls_reports
        (λ r s. refl) (λ r s. refl) v.tls;
  address_domains = addresses_keep_domains domain db.domains db.addresses v.address_domains;
  domain_tenants = All-select (HasTenant db.tenants) _ db.domains v.domain_tenants;
  raw_ids = v.raw_ids;
}

tenants_stay :
    (tenant : Tenant) (ts : List Tenant) (ds : List Domain)
    → any (λ (d : Domain). d.tenant_id == tenant.id) ds ≡ false
    → All (HasTenant ts) ds
    → All (HasTenant (select (λ t. not (t.id == tenant.id)) ts)) ds
tenants_stay tenant ts [] e h = tt
tenants_stay tenant ts (d ∷ ds) e h =
    (keeps ts (ground arith) h.0, tenants_stay tenant ts ds (ground arith) h.1)
  where
    keeps :
        (us : List Tenant)
        → d.tenant_id ≢ tenant.id
        → any (λ (t : Tenant). t.id == d.tenant_id) us ≡ true
        → any (λ (t : Tenant). t.id == d.tenant_id) (select (λ t. not (t.id == tenant.id)) us)
          ≡ true
    keeps [] ne k = cc
    keeps (u ∷ us) ne k = ground (arith, keeps us ne)

-- A tenant is removed only where no domain names it, and then no constraint breaks.
pub delete_tenant-IsValid :
    (tenant : Tenant) (db : Db) → IsValid db → IsValid (delete_tenant tenant db).1
unfolding delete_tenant
delete_tenant-IsValid tenant db v =
    elim (Bool-cases (any (λ (d : Domain). d.tenant_id == tenant.id) db.domains)) [
      | inl used ↦ rw used v
      | inr unused ↦ rw unused (record {
        slugs = Distinct-select same_slug _ db.tenants v.slugs;
        names = v.names;
        local_parts = v.local_parts;
        aggregates = v.aggregates;
        tls = v.tls;
        address_domains = v.address_domains;
        domain_tenants = tenants_stay tenant db.tenants db.domains unused v.domain_tenants;
        raw_ids = v.raw_ids;
      })
    ]

-- the new domain is there when its address is minted
any-new_domain :
    (tenant_id : ℕ) (name : Text) (db : Db) (d : Domain)
    → (insert_domain tenant_id name db).0 ≡ ok d
    → any (λ (e : Domain). e.id == d.id) (insert_domain tenant_id name db).1.domains ≡ true
unfolding insert_domain
any-new_domain tenant_id name db d e = elim (Bool-cases (any (has_name name) db.domains)) [
  | inl taken ↦ cc (rw taken at e)
  | inr free ↦ ground (
    arith,
    any-append (λ (x : Domain). x.id == d.id) db.domains
        (record { id = db.next_id; tenant_id = tenant_id; name = name } ∷ []),
    any-find (λ (x : Domain). x.id == d.id) db.domains,
  )
]

-- `add_domain`, also where the name or the local part is taken.
pub add_domain-IsValid :
    (local_part : Text) (tenant : Tenant) (name : Text) (db : Db)
    → any (λ (t : Tenant). t.id == tenant.id) db.tenants ≡ true
    → IsValid db
    → IsValid (add_domain local_part tenant name db).1
unfolding add_domain
add_domain-IsValid local_part tenant name db known v =
    let db' = (insert_domain tenant.id (normalise name) db).1 in
    let after = insert_domain-IsValid tenant.id (normalise name) db known v in
    state-bind IsValid (insert_domain tenant.id (normalise name)) _ db
      (λ d e.
        let minted =
          insert_address-IsValid d.id local_part true db'
            (any-new_domain tenant.id (normalise name) db d e) after in
        state-bind IsValid (mint_address local_part d) (λ _. pure d) db' (λ a e'. minted) minted)
      after
