-- ===== src/Ui/Forms.antt =====
-- The forms of api/ui.py for tenants, domains and addresses, and the upload: what a handler does
-- once it has found the user of the session. What `mint_local_part` draws is an argument.
use dmarc_service.Base.{
  String, Bool, ◌&&◌, List, [], ◌++◌, some, update, is_some, map, if◌then◌else◌, take,
}
use dmarc_service.Base.Text.{Text, Bytes, codes, lower, text_or, text_eq}
use dmarc_service.Base.Exec.{Exec, ok, pure, raise, lift, modify, gets, http_exception, ◌>>=◌, ◌>>◌}
use dmarc_service.Config.{Settings}
use dmarc_service.Schema.{User, Tenant, Domain, Db, unrouted_tenant_slug}
use dmarc_service.Schema.Insert.{has_local_part}
use dmarc_service.ControlPlane.Provision
use dmarc_service.ControlPlane.Provision.{belongs_to, deactivate, normalise}
use dmarc_service.ControlPlane.Records.{DnsRecord, required_dns_records}
use dmarc_service.ControlPlane.Check.{force_dns_recheck}
use dmarc_service.Parsers.Decoders.{Decoders}
use dmarc_service.Api.Control.{or_404, tenant_by_slug, domain_by_name}
use dmarc_service.Api.Ingest.{Totals, upload_files}
use dmarc_service.Ui.Visit.{Visit, Reply, redirect, Handler, on_db}

abbrev pub tenants_with : String → Reply
tenants_with error = redirect (codes "/tenants?error=" ++ codes error)

abbrev pub tenants : Reply
tenants = redirect (codes "/tenants")

abbrev pub to_domain : Text → Reply
to_domain name = redirect (codes "/domains/" ++ name)

-- domain = ...; if domain is None: raise HTTPException(404)
unfoldable pub named_domain : Text → Exec Visit Domain
unfolding lower
named_domain name = do
  found ← on_db (domain_by_name (lower name))
  lift (or_404 "domain not found" found)

abbrev pub slugged_tenant : Text → Exec Visit Tenant
slugged_tenant slug = do found ← on_db (tenant_by_slug slug); lift (or_404 "tenant not found" found)

unfoldable pub create_tenant_form : Text → Text → User → Handler
unfolding Provision.create_tenant
create_tenant_form slug name user = do
  found ← on_db (tenant_by_slug slug)
  if is_some found
      then pure (tenants_with "tenant+exists")
      else (do on_db (Provision.create_tenant slug (text_or name slug)); pure tenants)

unfoldable pub add_domain_form : Text → Text → Text → User → Handler
unfolding Provision.add_domain normalise text_eq
add_domain_form local_part slug name user = do
  tenant ← slugged_tenant slug
  taken ← on_db (domain_by_name (normalise name))
  if text_eq tenant.slug unrouted_tenant_slug
      then pure (tenants_with "the+quarantine+cannot+own+domains")
      else if is_some taken
      then pure (tenants_with "domain+exists")
      else (do
        domain ← on_db (Provision.add_domain local_part tenant name)
        pure (to_domain domain.name))

unfoldable pub mint_address_form : Text → Text → User → Handler
unfolding named_domain Provision.mint_address
mint_address_form local_part name user = do
  domain ← named_domain name
  on_db (Provision.mint_address local_part domain)
  pure (to_domain name)

-- the loop over all addresses of the domain
unfoldable pub deactivate_all : Domain → Text → Db → Db
deactivate_all domain local_part db = record db {
  addresses =
      update (λ a. belongs_to domain a && has_local_part local_part a) deactivate db.addresses;
}

unfoldable pub deactivate_address_form : Text → Text → User → Handler
unfolding named_domain deactivate_all
deactivate_address_form name local_part user = do
  domain ← named_domain name
  on_db (modify (deactivate_all domain local_part))
  pure (to_domain name)

unfoldable pub delete_domain_form : Text → User → Handler
unfolding named_domain Provision.delete_domain
delete_domain_form name user = do
  domain ← named_domain name
  on_db (modify (Provision.delete_domain domain))
  pure tenants

unfoldable pub delete_tenant_form : Text → User → Handler
unfolding Provision.delete_tenant text_eq
delete_tenant_form slug user = do
  tenant ← slugged_tenant slug
  if text_eq tenant.slug unrouted_tenant_slug
      then raise (http_exception 400 (codes "the quarantine tenant is built-in"))
      else (do
        done ← on_db (λ db. let (b, db') = Provision.delete_tenant tenant db in (ok b, db'))
        if done then pure tenants else pure (tenants_with "delete+the+tenant%27s+domains+first"))

module _ (top_domain : Text → Text) (settings : Settings) where
  -- the recheck of the records, and the note of it for the page
  abbrev pub recheck : List Text → Exec Visit Bool
  recheck names v =
      let done = force_dns_recheck v.dns.now names v.dns.cache in
      (done.0, record v { dns = record v.dns { cache = done.1 } })

  abbrev pub note_recheck : Bool → Visit → Visit
  note_recheck forced v = record v { session = record v.session { dns_rechecked = forced } }

  unfoldable pub recheck_dns : Text → User → Handler
  unfolding named_domain required_dns_records force_dns_recheck
  recheck_dns name user = do
    domain ← named_domain name
    required ← on_db (gets (λ db. required_dns_records top_domain settings db domain))
    forced ← recheck (map (λ (r : DnsRecord). r.name) required)
    modify (note_recheck forced)
    pure (to_domain name)

abbrev pub note_upload : Totals → Visit → Visit
note_upload t v = record v {
  session = record v.session { upload_result = some (record t { errors = take 10 t.errors }) };
}

unfoldable pub upload_reports : Decoders → List (Text × Bytes) → User → Handler
unfolding upload_files
upload_reports dec files user = do
  totals ← on_db (
      upload_files dec files (record {
        stored = record { aggregate = 0; tlsrpt = 0; skipped = 0 };
        files = 0;
        errors = [];
      }))
  modify (note_upload totals)
  pure (redirect (codes "/upload"))
