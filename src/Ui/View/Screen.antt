-- ===== src/Ui/View/Screen.antt =====
-- The pages of api/ui.py that want a user, as one function: a constructor for each page, with what the
-- request holds, and one for what each template is given.
use dmarc_service.Base.{ℕ, Bool, List, Option}
use dmarc_service.Base.Int.{ℤ}
use dmarc_service.Base.Text.{Text}
use dmarc_service.Base.Exec.{Result, ok, raised}
use dmarc_service.Config.{Settings}
use dmarc_service.Schema.{IpIntel}
use dmarc_service.Resolver.{Resolver}
use dmarc_service.ControlPlane.Resolve.{resolve_txt}
use dmarc_service.Spf.Cached.{SpfCache, cached_expand}
use dmarc_service.Enrich.Lookup.{Registration, intel_for}
use dmarc_service.Api.Ingest.{Totals}
use dmarc_service.Ui.View.Guard.{Answer, sent, shown, View}
use dmarc_service.Ui.View.Lists.{
  IndexPage, index, ReportsPage, reports_page, GraphsPage, graphs_page,
}
use dmarc_service.Ui.View.Report.{ReportPage, report_page}
use dmarc_service.Ui.View.Domain.{DomainPage, domain_page}
use dmarc_service.Ui.View.Tenants.{TenantsPage, tenants_page}
use dmarc_service.Ui.View.Personal.{
  upload_page, ProfilePage, profile_page, SettingsPage, settings_page,
}

-- The libraries, the network and the configuration that the pages use.
pub record Reader : Type 1 where
  pub Network : Type 0
  pub Address : Type 0
  pub settings : Settings
  pub link : ℕ → Text
  pub before : Text → Text → Bool
  pub percent : ℤ → ℤ → ℤ
  pub fromisoformat : Text → Option ℕ
  pub isoformat : ℕ → Text
  pub top_domain : Text → Text
  pub resolver : Resolver
  pub ip_address : Text → Option Address
  pub is_in : Address → Network → Bool
  pub ip_network : Text → Option Network
  -- when an expansion ends, and the instant and the cache that a report's page finds
  pub expanded_at : Text → ℕ → ℕ
  pub opened_at : ℕ
  pub spf_cache : SpfCache Network
  pub ptr : Text → Option Text
  pub rdap : Text → Option Registration

module _ (r : Reader) where
  abbrev pub txt_of : Text → ℕ → Option (List Text) × ℕ
  txt_of = resolve_txt r.resolver r.top_domain

  abbrev pub networks_of : Text → List r.Network
  networks_of domain =
      (cached_expand r.resolver r.ip_network r.expanded_at domain r.opened_at r.spf_cache).0

  abbrev pub lookup_of : Text → IpIntel
  lookup_of = intel_for r.ptr r.rdap

pub data Screen : Type 0 where
  front : (page : ℤ) → Screen
  reports : (domain tenant day : Text) (page : ℤ) → Screen
  graphs : (domain tenant : Text) (days page : ℤ) → Screen
  report : (report_id : ℕ) (page : ℤ) → Screen
  domain_named : (name : Text) (page : ℤ) → Screen
  tenants : (error : Text) → Screen
  uploads : Screen
  profile : (page : ℤ) → Screen
  settings : (page : ℤ) → Screen

pub data Page : Type 0 where
  of_index : IndexPage → Page
  of_reports : ReportsPage → Page
  of_graphs : GraphsPage → Page
  of_report : ReportPage → Page
  of_domain : DomainPage → Page
  of_tenants : TenantsPage → Page
  of_upload : Option Totals → Page
  of_profile : ProfilePage → Page
  of_settings : SettingsPage → Page

module _ {A B : Type 0} (f : A → B) where
  abbrev pub tagged : Result (Answer A) → Result (Answer B)
  tagged (ok (sent reply)) = ok (sent reply)
  tagged (ok (shown a)) = ok (shown (f a))
  tagged (raised x) = raised x

  abbrev pub tag : View A → View B
  tag m v = let (r, v') = m v in (tagged r, v')

module _ (r : Reader) where
  unfoldable pub view : Screen → View Page
  unfolding index reports_page graphs_page report_page domain_page tenants_page upload_page
      profile_page settings_page
  view (Screen.front page) = tag of_index (index r.link r.percent page)
  view (Screen.reports domain tenant day page) =
      tag of_reports
        (reports_page r.link r.before r.fromisoformat r.isoformat domain tenant day page)
  view (Screen.graphs domain tenant days page) =
      tag of_graphs (graphs_page r.link r.percent r.before domain tenant days page)
  view (Screen.report report_id page) =
      tag of_report
        (report_page r.ip_address r.is_in (networks_of r) (lookup_of r) r.link report_id page)
  view (Screen.domain_named name page) =
      tag of_domain (domain_page r.top_domain r.settings (txt_of r) r.before r.link name page)
  view (Screen.tenants error) =
      tag of_tenants (tenants_page r.top_domain r.settings (txt_of r) r.before error)
  view Screen.uploads = tag of_upload upload_page
  view (Screen.profile page) = tag of_profile (profile_page r.link page)
  view (Screen.settings page) = tag of_settings (settings_page r.settings r.before r.link page)
