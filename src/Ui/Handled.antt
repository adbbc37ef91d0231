-- ===== src/Ui/Handled.antt =====
-- The forms for tenants, domains and addresses, and a property that the operations keep.
use dmarc_service.Base.{find, is_some, Bool-cases, inl, inr}
use dmarc_service.Base.Text.{Text, text_or, text_eq, lower}
use dmarc_service.Base.Exec.{state-bind}
use dmarc_service.Schema.{User, Tenant, Domain, Db, unrouted_tenant_slug}
use dmarc_service.ControlPlane.Provision
use dmarc_service.ControlPlane.Provision.{normalise}
use dmarc_service.Api.Handlers.{tenant_exists, domain_exists, or_404-ok}
use dmarc_service.Ui.Visit.{Visit, on_db}
use dmarc_service.Ui.Forms.{
  named_domain, slugged_tenant, create_tenant_form, add_domain_form, mint_address_form,
  deactivate_address_form, delete_domain_form, delete_tenant_form,
}
use dmarc_service.Ui.Kept.{Kept, Holds}

module _ {P : Db → Type 0} (k : Kept P) where
  pub create_tenant_form-Holds :
      (slug name : Text) (user : User) (v : Visit)
      → Holds P v
      → Holds P (create_tenant_form slug name user v).1
  unfolding create_tenant_form
  create_tenant_form-Holds slug name user v m =
      elim (Bool-cases (is_some (find (λ (t : Tenant). text_eq t.slug slug) v.db.tenants))) [
        | inl taken ↦ rw taken m
        | inr free ↦
            let kept = k.create_tenant slug (text_or name slug) v.db m in
            rw free (
              state-bind (Holds P) (on_db (Provision.create_tenant slug (text_or name slug))) _ v
                (λ _ _. kept) kept)
      ]

  pub add_domain_form-Holds :
      (local_part slug name : Text) (user : User) (v : Visit)
      → Holds P v
      → Holds P (add_domain_form local_part slug name user v).1
  unfolding add_domain_form
  add_domain_form-Holds local_part slug name user v m =
      state-bind (Holds P) (slugged_tenant slug) _ v
        (λ tenant found. elim (Bool-cases (text_eq tenant.slug unrouted_tenant_slug)) [
          | inl quarantine ↦ rw quarantine m
          | inr other ↦
              elim (Bool-cases
                (is_some (find (λ (d : Domain). text_eq d.name (normalise name)) v.db.domains))) [
                  | inl taken ↦ rw other (rw taken m)
                  | inr free ↦
                      let known = tenant_exists v.db slug (or_404-ok "tenant not found" _ found) in
                      let kept = k.add_domain local_part tenant name v.db known m in
                      rw other (
                        rw free (
                          state-bind (Holds P) (on_db (Provision.add_domain local_part tenant name))
                            _ v (λ _ _. kept) kept))
                ]
        ])
        m

  pub mint_address_form-Holds :
      (local_part name : Text) (user : User) (v : Visit)
      → Holds P v
      → Holds P (mint_address_form local_part name user v).1
  unfolding mint_address_form named_domain
  mint_address_form-Holds local_part name user v m =
      state-bind (Holds P) (named_domain name) _ v
        (λ domain found.
          let known = domain_exists v.db (lower name) (or_404-ok "domain not found" _ found) in
          let kept = k.mint_address local_part domain v.db known m in
          state-bind (Holds P) (on_db (Provision.mint_address local_part domain)) _ v (λ _ _. kept)
            kept)
        m

  pub deactivate_address_form-Holds :
      (name local_part : Text) (user : User) (v : Visit)
      → Holds P v
      → Holds P (deactivate_address_form name local_part user v).1
  unfolding deactivate_address_form named_domain
  deactivate_address_form-Holds name local_part user v m =
      state-bind (Holds P) (named_domain name) _ v
        (λ domain _. k.deactivate domain local_part v.db m) m

  pub delete_domain_form-Holds :
      (name : Text) (user : User) (v : Visit)
      → Holds P v
      → Holds P (delete_domain_form name user v).1
  unfolding delete_domain_form named_domain
  delete_domain_form-Holds name user v m =
      state-bind (Holds P) (named_domain name) _ v (λ domain _. k.delete_domain domain v.db m) m

  pub delete_tenant_form-Holds :
      (slug : Text) (user : User) (v : Visit)
      → Holds P v
      → Holds P (delete_tenant_form slug user v).1
  unfolding delete_tenant_form
  delete_tenant_form-Holds slug user v m =
      state-bind (Holds P) (slugged_tenant slug) _ v
        (λ tenant _.
          let kept = k.delete_tenant tenant v.db m in
          elim (Bool-cases (text_eq tenant.slug unrouted_tenant_slug)) [
            | inl quarantine ↦ rw quarantine m
            | inr other ↦ elim (Bool-cases (Provision.delete_tenant tenant v.db).0) [
              | inl done ↦ rw other (rw done kept)
              | inr refused ↦ rw other (rw refused kept)
            ]
          ])
        m
