-- ===== src/Ui/View/Tenants.antt =====
-- `tenants_page` of api/ui.py.
use dmarc_service.Base.{
  ℕ, Bool, true, false, not, Option, List, [], ◌∷◌, ◌++◌, map, any, select, length, ◌==◌,
  if◌then◌else◌,
}
use dmarc_service.Base.Text.{Text, text_eq}
use dmarc_service.Base.Exec.{ok}
use dmarc_service.Config.{Settings, TenancyMode}
use dmarc_service.Schema.{Tenant, Domain, ReportAddress, Db, unrouted_tenant_slug}
use dmarc_service.ControlPlane.Provision.{active_addresses}
use dmarc_service.ControlPlane.Records.{required_dns_records}
use dmarc_service.ControlPlane.Check.{World, Checked, check_dns_records}
use dmarc_service.Api.Reports.{by_slug, is_unrouted}
use dmarc_service.Ui.View.Guard.{View, shown, for_user}
use dmarc_service.Ui.View.Domain.{is_by_tenant, status_is_ok}

pub record DomainLine : Type 0 where
  pub name : Text
  pub addresses : List Text
  pub dns_ok : ℕ
  pub dns_total : ℕ
  pub verification_missing : Bool

pub record TenantLine : Type 0 where
  pub slug : Text
  pub name : Text
  pub domains : List DomainLine

-- a record that the operator publishes, with the domain that it is for
abbrev pub OperatorRecord : Type 0
OperatorRecord = Checked × Text

pub record TenantsPage : Type 0 where
  pub tenants : List TenantLine
  pub quarantined : ℕ
  pub operator_records : List OperatorRecord
  pub operator_missing : List OperatorRecord
  pub error : Text
  pub multi_tenant : Bool

-- [c for c in checks if c["published_by"] == "operator"]
abbrev pub of_operator : List Checked → List Checked
of_operator checks = select (λ c. not (is_by_tenant c)) checks

unfoldable pub domain_line : Db → Domain → List Checked → DomainLine
unfolding active_addresses
domain_line db d checks =
    let theirs = select is_by_tenant checks in
    record {
      name = d.name;
      addresses = map (λ (a : ReportAddress). a.local_part) (active_addresses db d);
      dns_ok = length (select status_is_ok theirs);
      dns_total = length theirs;
      verification_missing = any (λ c. not (status_is_ok c)) (of_operator checks);
    }

abbrev pub is_quarantine : Tenant → Bool
is_quarantine tenant = text_eq tenant.slug unrouted_tenant_slug

module _ (top_domain : Text → Text) (settings : Settings)
    (resolve_txt : Text → ℕ → Option (List Text) × ℕ) (before : Text → Text → Bool) (db : Db) where
  -- the inner loop: the lines of the domains, and the operator's records
  unfoldable pub domain_lines :
      List Domain → World → (List DomainLine × List OperatorRecord) × World
  unfolding required_dns_records check_dns_records domain_line
  domain_lines [] dns = (([], []), dns)
  domain_lines (d ∷ ds) dns =
      let (checks, dns') =
        check_dns_records resolve_txt (required_dns_records top_domain settings db d) dns in
      let ((lines, records), dns'') = domain_lines ds dns' in
      (
        (
          domain_line db d checks ∷ lines,
          map (λ (c : Checked). (c, d.name)) (of_operator checks) ++ records,
        ),
        dns'',
      )

  abbrev pub tenant_domains : Tenant → List Domain
  tenant_domains tenant = select (λ (d : Domain). d.tenant_id == tenant.id) db.domains

  -- the outer loop, which leaves the quarantine out once its domains have been checked
  unfoldable pub tenant_lines :
      List Tenant → World → (List TenantLine × List OperatorRecord) × World
  unfolding domain_lines text_eq
  tenant_lines [] dns = (([], []), dns)
  tenant_lines (t ∷ ts) dns =
      let ((domains, records), dns') = domain_lines (tenant_domains t) dns in
      let ((lines, more), dns'') = tenant_lines ts dns' in
      (
        (
          (if is_quarantine t
              then lines
              else record { slug = t.slug; name = t.name; domains = domains } ∷ lines),
          records ++ more,
        ),
        dns'',
      )

  abbrev pub is_multi : TenancyMode → Bool
  is_multi TenancyMode.multi = true
  is_multi TenancyMode.single = false

  -- what the template is given, after the loops
  unfoldable pub tenants_shown : Text → List TenantLine → List OperatorRecord → TenantsPage
  tenants_shown error lines records = record {
    tenants = lines;
    quarantined = length (select is_unrouted db.raw_messages);
    operator_records = records;
    operator_missing = select (λ r. not (status_is_ok r.0)) records;
    error = error;
    multi_tenant = is_multi settings.tenancy_mode;
  }

unfoldable pub tenants_page :
    (Text → Text)
    → Settings
    → (Text → ℕ → Option (List Text) × ℕ)
    → (Text → Text → Bool)
    → Text
    → View TenantsPage
unfolding tenant_lines tenants_shown by_slug
tenants_page top_domain settings resolve_txt before error = for_user (λ user v.
    let ((lines, records), dns) =
      tenant_lines top_domain settings resolve_txt before v.db (by_slug before v.db.tenants)
        v.dns in
    (
      ok (shown (tenants_shown top_domain settings resolve_txt before v.db error lines records)),
      record v { dns = dns },
    ))
