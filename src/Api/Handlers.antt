-- ===== src/Api/Handlers.antt =====
-- The handlers of the control plane keep the constraints of the schema, whatever the request holds.
use dmarc_service.Base.{
  String, ◌&&◌, ◌≡◌, refl, true, List, [], ◌∷◌, Option, none, some, any, find, is_some, Bool-cases,
  inl, inr, if◌then◌else◌, arith, ◌==◌,
}
use dmarc_service.Base.Rows.{Distinct-update_first, All-update_first}
use dmarc_service.Base.Text.{Text, codes, lower, text_or}
use dmarc_service.Base.Exec.{http_exception, Exec, ok, raise, lift, state-bind, ◌>>=◌}
use dmarc_service.Config.{Settings, TenancyMode}
use dmarc_service.Schema.{Tenant, Domain, Db}
use dmarc_service.Schema.Insert.{has_slug, has_name, has_local_part}
use dmarc_service.Schema.Valid.{
  IsValid, same_local_part, HasDomain, insert_tenant-IsValid, insert_address-IsValid,
}
use dmarc_service.ControlPlane.Provision
use dmarc_service.ControlPlane.Provision.{belongs_to, deactivate, deactivated}
use dmarc_service.ControlPlane.Validity
use dmarc_service.Api.Control
use dmarc_service.Api.Control.{
  control_plane_guard, or_404, tenant_by_slug, domain_by_name, deactivate_in,
}

pub tenant_exists :
    (db : Db) (slug : Text) {t : Tenant}
    → find (has_slug slug) db.tenants ≡ some t
    → any (λ (u : Tenant). u.id == t.id) db.tenants ≡ true
tenant_exists db slug {t} e = go db.tenants e
  where
    go :
        (ts : List Tenant)
        → find (has_slug slug) ts ≡ some t
        → any (λ (u : Tenant). u.id == t.id) ts ≡ true
    go [] e = cc
    go (u ∷ ts) e = ground (arith, go ts)

pub create_tenant-IsValid :
    (settings : Settings) (slug name : Text) (db : Db)
    → IsValid db
    → IsValid (Control.create_tenant settings slug name db).1
unfolding Control.create_tenant Provision.create_tenant
create_tenant-IsValid settings slug name db v =
    state-bind IsValid (lift (control_plane_guard settings)) _ db
      (λ _ _. by_mode settings.tenancy_mode) v
  where
    by_mode :
        (m : TenancyMode)
        → IsValid
            (elim m as (λ _. Exec Db Tenant) [
              | TenancyMode.single ↦
                  raise (http_exception 400 (codes "single-tenant mode: tenants are implicit"))
              | TenancyMode.multi ↦ do
                found ← tenant_by_slug slug
                if is_some found
                    then raise (http_exception 409 (codes "tenant exists"))
                    else Provision.create_tenant slug (text_or name slug)
            ]
              db).1
    by_mode TenancyMode.single = v
    by_mode TenancyMode.multi = elim (Bool-cases (is_some (find (has_slug slug) db.tenants))) [
      | inl taken ↦ rw taken v
      | inr free ↦ rw free (insert_tenant-IsValid slug (text_or name slug) db v)
    ]

pub or_404-ok :
    {A : Type 0} (detail : String) (o : Option A) {a : A} → or_404 detail o ≡ ok a → o ≡ some a
or_404-ok detail none e = cc
or_404-ok detail (some b) e = cc

pub domain_exists :
    (db : Db) (name : Text) {d : Domain}
    → find (has_name name) db.domains ≡ some d
    → any (λ (e : Domain). e.id == d.id) db.domains ≡ true
domain_exists db name {d} e = go db.domains e
  where
    go :
        (ds : List Domain)
        → find (has_name name) ds ≡ some d
        → any (λ (e : Domain). e.id == d.id) ds ≡ true
    go [] e = cc
    go (u ∷ ds) e = ground (arith, go ds)

pub add_domain-IsValid :
    (settings : Settings) (local_part slug name : Text) (db : Db)
    → IsValid db
    → IsValid (Control.add_domain settings local_part slug name db).1
unfolding Control.add_domain
add_domain-IsValid settings local_part slug name db v =
    state-bind IsValid (lift (control_plane_guard settings)) _ db
      (λ _ _.
        state-bind IsValid (lift (or_404 "tenant not found" (find (has_slug slug) db.tenants))) _ db
          (λ t found. elim (Bool-cases (is_some (find (has_name (lower name)) db.domains))) [
            | inl taken ↦ rw taken v
            | inr free ↦ rw free (
                Validity.add_domain-IsValid local_part t name db
                  (tenant_exists db slug (or_404-ok "tenant not found" _ found)) v)
          ])
          v)
      v

pub delete_domain-IsValid :
    (name : Text) (db : Db) → IsValid db → IsValid (Control.delete_domain name db).1
unfolding Control.delete_domain
delete_domain-IsValid name db v =
    state-bind IsValid (lift (or_404 "domain not found" (find (has_name (lower name)) db.domains)))
      _ db (λ d _. Validity.delete_domain-IsValid d db v) v

pub delete_tenant-IsValid :
    (slug : Text) (db : Db) → IsValid db → IsValid (Control.delete_tenant slug db).1
unfolding Control.delete_tenant
delete_tenant-IsValid slug db v =
    state-bind IsValid (lift (or_404 "tenant not found" (find (has_slug slug) db.tenants))) _ db
      (λ t _.
        let kept = Validity.delete_tenant-IsValid t db v in
        elim (Bool-cases (Provision.delete_tenant t db).0) [
          | inl done ↦ rw done kept
          | inr refused ↦ rw refused kept
        ])
      v

pub rotate_address-IsValid :
    (settings : Settings) (local_part name : Text) (db : Db)
    → IsValid db
    → IsValid (Control.rotate_address settings local_part name db).1
unfolding Control.rotate_address Provision.mint_address
rotate_address-IsValid settings local_part name db v =
    state-bind IsValid (lift (control_plane_guard settings)) _ db
      (λ _ _.
        state-bind IsValid
          (lift (or_404 "domain not found" (find (has_name (lower name)) db.domains))) _ db
          (λ d found.
            let kept =
              insert_address-IsValid d.id local_part true db
                (domain_exists db (lower name) (or_404-ok "domain not found" _ found)) v in
            state-bind IsValid (Provision.mint_address local_part d) _ db (λ _ _. kept) kept)
          v)
      v

pub deactivate_address-IsValid :
    (name local_part : Text) (db : Db)
    → IsValid db
    → IsValid (Control.deactivate_address name local_part db).1
unfolding Control.deactivate_address deactivate_in
deactivate_address-IsValid name local_part db v =
    state-bind IsValid (lift (or_404 "domain not found" (find (has_name (lower name)) db.domains)))
      _ db
      (λ d _.
        elim (Bool-cases (any (λ a. belongs_to d a && has_local_part local_part a) db.addresses)) [
          | inr unknown ↦ rw unknown v
          | inl known ↦ rw known (record {
            slugs = v.slugs;
            names = v.names;
            local_parts =
                Distinct-update_first same_local_part _ deactivate db.addresses (λ a b. refl)
                  (λ a b. refl) v.local_parts;
            aggregates = v.aggregates;
            tls = v.tls;
            address_domains =
                All-update_first (HasDomain db.domains) _ deactivate db.addresses (λ a h. h)
                  v.address_domains;
            domain_tenants = v.domain_tenants;
            raw_ids = v.raw_ids;
          })
        ])
      v
