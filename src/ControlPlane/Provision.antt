-- ===== src/ControlPlane/Provision.antt =====
-- Tenants, domains and addresses (control_plane/service.py up to `delete_tenant`).
use dmarc_service.Base.{
  ℕ, Bool, true, false, not, ◌&&◌, List, [], ◌∷◌, Option, none, some, any, find, select, update,
  update_first, ◌==◌, leb, if◌then◌else◌, is_some,
}
use dmarc_service.Base.Text.{Text, codes, text_or, lower, strip_by}
use dmarc_service.Base.Exec.{Exec, pure, gets, ◌>>=◌, ◌>>◌}
use dmarc_service.Config.{Settings, TenancyMode}
use dmarc_service.Schema.{
  Tenant, Domain, ReportAddress, AggregateReport, TlsReport, ImapAccount, Db, unrouted_tenant_slug,
}
use dmarc_service.Schema.Insert.{
  has_slug, has_local_part, insert_tenant, insert_domain, insert_address,
}

-- `top_domain_under_public_suffix`, of tldextract, is a parameter: "" where there is none.
unfoldable pub org_domain : (Text → Text) → Text → Text
org_domain top_domain hostname = text_or (top_domain hostname) hostname

unfoldable pub ensure_tenant : Text → Text → Exec Db Unit
unfolding insert_tenant
ensure_tenant slug name = do
  found ← gets (λ db. find (has_slug slug) db.tenants)
  if is_some found then pure tt else do insert_tenant slug name; pure tt

unfoldable pub bootstrap : Settings → Exec Db Unit
unfolding ensure_tenant
bootstrap settings = do
  ensure_tenant unrouted_tenant_slug (codes "Unrouted quarantine")
  elim settings.tenancy_mode [
    | TenancyMode.single ↦ ensure_tenant settings.default_tenant settings.default_tenant
    | TenancyMode.multi ↦ pure tt
  ]

unfoldable pub create_tenant : Text → Text → Exec Db Tenant
unfolding insert_tenant
create_tenant slug name = insert_tenant slug name

-- The local part is what `mint_local_part` drew from `secrets`.
unfoldable pub mint_address : Text → Domain → Exec Db ReportAddress
unfolding insert_address
mint_address local_part domain = insert_address domain.id local_part true

-- name.lower().strip(".")
unfoldable pub normalise : Text → Text
unfolding lower strip_by
normalise name = strip_by (λ c. c == b'.') (lower name)

unfoldable pub add_domain : Text → Tenant → Text → Exec Db Domain
unfolding insert_domain mint_address normalise
add_domain local_part tenant name = do
  domain ← insert_domain tenant.id (normalise name)
  mint_address local_part domain
  pure domain

-- order_by(ReportAddress.created_at)
insert_by_age : ReportAddress → List ReportAddress → List ReportAddress
insert_by_age a [] = a ∷ []
insert_by_age a (b ∷ bs) =
    if leb a.created_at b.created_at then a ∷ b ∷ bs else b ∷ insert_by_age a bs

unfoldable pub sort_by_age : List ReportAddress → List ReportAddress
unfolding insert_by_age
sort_by_age [] = []
sort_by_age (a ∷ addrs) = insert_by_age a (sort_by_age addrs)

abbrev pub belongs_to : Domain → ReportAddress → Bool
belongs_to domain a = a.domain_id == domain.id

unfoldable pub active_addresses : Db → Domain → List ReportAddress
unfolding sort_by_age
active_addresses db domain =
    sort_by_age (select (λ a. belongs_to domain a && a.active) db.addresses)

unfoldable pub resolve_address : Db → Text → Option ReportAddress
resolve_address db local_part = find (λ a. has_local_part local_part a && a.active) db.addresses

unfoldable pub resolve_retired_address : Db → Text → Option ReportAddress
resolve_retired_address db local_part =
    find (λ a. has_local_part local_part a && not a.active) db.addresses

-- address.active = False
abbrev pub deactivate : ReportAddress → ReportAddress
deactivate a = record a { active = false }

-- what the deactivation of one address of a domain does to the table
abbrev pub deactivated : Domain → Text → List ReportAddress → List ReportAddress
deactivated domain local_part =
    update_first (λ a. belongs_to domain a && has_local_part local_part a) deactivate

abbrev pub names_id : ℕ → Option ℕ → Bool
names_id id none = false
names_id id (some i) = i == id

abbrev pub unlink_aggregate : AggregateReport → AggregateReport
unlink_aggregate r = record r { domain_id = none }

abbrev pub unlink_tls : TlsReport → TlsReport
unlink_tls r = record r { domain_id = none }

unfoldable pub delete_domain : Domain → Db → Db
delete_domain domain db = record db {
  aggregate_reports =
      update (λ r. names_id domain.id r.domain_id) unlink_aggregate db.aggregate_reports;
  tls_reports = update (λ r. names_id domain.id r.domain_id) unlink_tls db.tls_reports;
  addresses = select (λ a. not (belongs_to domain a)) db.addresses;
  domains = select (λ d. not (d.id == domain.id)) db.domains;
}

unfoldable pub delete_tenant : Tenant → Db → Bool × Db
delete_tenant tenant db =
    if any (λ (d : Domain). d.tenant_id == tenant.id) db.domains
    then (false, db)
    else (true, record db { tenants = select (λ t. not (t.id == tenant.id)) db.tenants })

-- "" where every domain's own address can be reached
unfoldable pub delivery_address : Db → Text
delivery_address db =
    elim (find (λ (a : ImapAccount). a.enabled && not a.catch_all) db.imap_accounts) [
      | none ↦ []
      | some row ↦ row.username
    ]
