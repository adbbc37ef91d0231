-- ===== src/Api/Control.antt =====
-- The control-plane handlers of api/app.py, each the block of its `session_scope`. What they answer
-- with is the id or the text that identifies the row. The token check that FastAPI runs before a
-- handler is not part of it.
use dmarc_service.Base.{
  String, ◌⊎◌, inl, inr, ℕ, Bool, true, false, ◌&&◌, List, Option, none, some, any, find, is_some,
  if◌then◌else◌,
}
use dmarc_service.Base.Text.{Text, codes, lower, text_or}
use dmarc_service.Base.Exec.{
  http_exception, Exec, Result, lift, ok, raised, pure, raise, gets, ◌>>=◌, ◌>>◌,
}
use dmarc_service.Config.{Settings, TenancyMode}
use dmarc_service.Schema.{Tenant, Domain, Db}
use dmarc_service.Schema.Insert.{has_slug, has_name, has_local_part}
use dmarc_service.ControlPlane.Records.{DnsRecord, required_dns_records}
use dmarc_service.ControlPlane.Check.{World, Checked, check_dns_records}
use dmarc_service.ControlPlane.Provision
use dmarc_service.ControlPlane.Provision.{belongs_to, deactivated}

unfoldable pub control_plane_guard : Settings → Result (Unit {0})
control_plane_guard settings =
    if settings.control_plane_enabled
    then ok tt
    else raised (http_exception 404 (codes "control plane disabled"))

abbrev pub or_404 : {A : Type 0} → String → Option A → Result A
or_404 detail none = raised (http_exception 404 (codes detail))
or_404 detail (some a) = ok a

abbrev pub tenant_by_slug : Text → Exec Db (Option Tenant)
tenant_by_slug slug = gets (λ db. find (has_slug slug) db.tenants)

abbrev pub domain_by_name : Text → Exec Db (Option Domain)
domain_by_name name = gets (λ db. find (has_name name) db.domains)

unfoldable pub create_tenant : Settings → Text → Text → Exec Db Tenant
unfolding control_plane_guard Provision.create_tenant
create_tenant settings slug name = do
  lift (control_plane_guard settings)
  elim settings.tenancy_mode [
    | TenancyMode.single ↦
        raise (http_exception 400 (codes "single-tenant mode: tenants are implicit"))
    | TenancyMode.multi ↦ do
      found ← tenant_by_slug slug
      if is_some found
          then raise (http_exception 409 (codes "tenant exists"))
          else Provision.create_tenant slug (text_or name slug)
  ]

-- `local_part` is what `mint_local_part` draws.
unfoldable pub add_domain : Settings → Text → Text → Text → Exec Db Domain
unfolding control_plane_guard Provision.add_domain lower
add_domain settings local_part slug name = do
  lift (control_plane_guard settings)
  found ← tenant_by_slug slug
  tenant ← lift (or_404 "tenant not found" found)
  taken ← domain_by_name (lower name)
  if is_some taken
      then raise (http_exception 409 (codes "domain exists"))
      else Provision.add_domain local_part tenant name

unfoldable pub delete_domain : Text → Exec Db Text
unfolding Provision.delete_domain lower
delete_domain name = do
  found ← domain_by_name (lower name)
  domain ← lift (or_404 "domain not found" found)
  λ db. (ok name, Provision.delete_domain domain db)

unfoldable pub delete_tenant : Text → Exec Db Text
unfolding Provision.delete_tenant
delete_tenant slug = do
  found ← tenant_by_slug slug
  tenant ← lift (or_404 "tenant not found" found)
  done ← λ db. let (b, db') = Provision.delete_tenant tenant db in (ok b, db')
  if done then pure slug else raise (http_exception 409 (codes "tenant still has domains"))

unfoldable pub rotate_address : Settings → Text → Text → Exec Db (Text × Bool)
unfolding control_plane_guard Provision.mint_address lower
rotate_address settings local_part name = do
  lift (control_plane_guard settings)
  found ← domain_by_name (lower name)
  domain ← lift (or_404 "domain not found" found)
  address ← Provision.mint_address local_part domain
  pure (address.local_part, true)

-- the loop over `domain.addresses`, which returns at the first match
unfoldable pub deactivate_in : Domain → Text → Exec Db (Text × Bool)
deactivate_in domain local_part db =
    if any (λ a. belongs_to domain a && has_local_part local_part a) db.addresses
    then (
      ok (local_part, false),
      record db { addresses = deactivated domain local_part db.addresses },
    )
    else (raised (http_exception 404 (codes "address not found")), db)

unfoldable pub deactivate_address : Text → Text → Exec Db (Text × Bool)
unfolding deactivate_in lower
deactivate_address name local_part = do
  found ← domain_by_name (lower name)
  domain ← lift (or_404 "domain not found" found)
  deactivate_in domain local_part

-- The records that a domain has to publish, or with `verify` their check, which may change the cache.
unfoldable pub domain_dns :
    (Text → Text)
    → (Text → ℕ → Option (List Text) × ℕ)
    → Settings
    → Db
    → Text
    → Bool
    → World
    → Result (List DnsRecord ⊎ List Checked) × World
unfolding lower required_dns_records check_dns_records
domain_dns top_domain resolve_txt settings db name verify w =
    elim (find (has_name (lower name)) db.domains) [
      | none ↦ (raised (http_exception 404 (codes "domain not found")), w)
      | some domain ↦
          let records = required_dns_records top_domain settings db domain in
          if verify
          then (let (results, w') = check_dns_records resolve_txt records w in
              (ok (inr results), w'))
          else (ok (inl records), w)
    ]
