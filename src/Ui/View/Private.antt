-- ===== src/Ui/View/Private.antt =====
-- Who sees a page, and what looking at one changes.
use dmarc_service.Base.{◌≡◌, refl, ◌∙◌, Option, Bool-cases, Option-cases, inl, inr, none, some, map}
use dmarc_service.Base.Int.{ℤ}
use dmarc_service.Base.Exec.{ok, Result-cases}
use dmarc_service.Schema.{User, Domain, AggregateReport}
use dmarc_service.ControlPlane.Records.{DnsRecord, required_dns_records}
use dmarc_service.ControlPlane.Check.{dns_checked_age, check_dns_records}
use dmarc_service.Enrich.Ips.{enrich_ips}
use dmarc_service.Ui.Visit.{Visit, current_user, login_redirect, in_session}
use dmarc_service.Ui.View.Guard.{Answer, sent, View, for_user}
use dmarc_service.Ui.View.Lists.{index, reports_page, graphs_page}
use dmarc_service.Ui.View.Report.{show_report, report_page}
use dmarc_service.Ui.View.Domain.{show_domain, show_found, domain_page}
use dmarc_service.Ui.View.Tenants.{tenants_page}
use dmarc_service.Ui.View.Personal.{upload_page, profile_page, show_settings, settings_page}
use dmarc_service.Ui.View.Screen.{lookup_of, txt_of, networks_of, Reader, Screen, tag, view}

module _ {A : Type 0} (page : User → View A) (v : Visit) where
  for_user-none : current_user v ≡ none → for_user page v ≡ (ok (sent (login_redirect v.db)), v)
  unfolding for_user in_session
  for_user-none e = rw (for_user, in_session, e) refl

  for_user-some :
      (user : User) → current_user v ≡ some user → for_user page v ≡ in_session (page user) v
  unfolding for_user in_session
  for_user-some user e = rw (for_user, in_session, e) refl

module _ {A : Type 0} (page : User → View A) (v : Visit) where
  pub for_user_ok :
      (user : User) (a : Answer A) (w : Visit)
      → current_user v ≡ some user
      → page user v ≡ (ok a, w)
      → for_user page v ≡ (ok a, w)
  unfolding in_session
  for_user_ok user a w e h = for_user-some page v user e ∙ rw (in_session, h) refl

tag-none :
    {A B : Type 0} (f : A → B) (page : User → View A) (v : Visit)
    → current_user v ≡ none
    → tag f (for_user page) v ≡ (ok (sent (login_redirect v.db)), v)
tag-none f page v e = rw (for_user-none page v e) refl

-- Without a signed-in user every page leads to the sign-in page, or to the setup page where there is no
-- user yet; nothing is shown, and neither the database nor the session changes.
pub view_signed_out :
    (r : Reader) (s : Screen) (v : Visit)
    → current_user v ≡ none
    → view r s v ≡ (ok (sent (login_redirect v.db)), v)
unfolding view index reports_page graphs_page report_page domain_page tenants_page upload_page
    profile_page settings_page
view_signed_out r (Screen.front page) v e = tag-none _ _ v e
view_signed_out r (Screen.reports domain tenant day page) v e = tag-none _ _ v e
view_signed_out r (Screen.graphs domain tenant days page) v e = tag-none _ _ v e
view_signed_out r (Screen.report report_id page) v e = tag-none _ _ v e
view_signed_out r (Screen.domain_named name page) v e = tag-none _ _ v e
view_signed_out r (Screen.tenants error) v e = tag-none _ _ v e
view_signed_out r Screen.uploads v e = tag-none _ _ v e
view_signed_out r (Screen.profile page) v e = tag-none _ _ v e
view_signed_out r (Screen.settings page) v e = tag-none _ _ v e

-- `w` is `v` after it was looked at: what is known of addresses may have grown, the notes in the session
-- may be gone, and records may have been looked up.
pub record IsLookedAt (v w : Visit) : Type 0 where
  pub database : w.db ≡ record v.db { ip_intel = w.db.ip_intel }
  pub visitor : w.session.user_id ≡ v.session.user_id

unchanged : (v : Visit) → IsLookedAt v v
unchanged v = record { database = refl; visitor = refl }

module _ {A : Type 0} where
  for_user-IsLookedAt :
      (page : User → View A) (v : Visit)
      → ((user : User) → IsLookedAt v (page user v).1)
      → IsLookedAt v (for_user page v).1
  unfolding for_user in_session
  for_user-IsLookedAt page v h = elim (Option-cases (current_user v)) [
    | inl e ↦ rw (for_user-none page v e) (unchanged v)
    | inr (user, e) ↦ rw (for_user-some page v user e) (elim (Result-cases (page user v).0) [
      | inl (a, k) ↦ rw (in_session, k) (h user)
      | inr (x, k) ↦ rw (in_session, k) (record { database = refl; visitor = (h user).visitor })
    ])
  ]

show_domain-IsLookedAt :
    (r : Reader) (d : Domain) (wanted : ℤ) (v : Visit)
    → IsLookedAt v (show_domain r.top_domain r.settings (txt_of r) r.before r.link d wanted v).1
unfolding show_domain
show_domain-IsLookedAt r d wanted v =
    let required = required_dns_records r.top_domain r.settings v.db d in
    let dns = (check_dns_records (txt_of r) required v.dns).1 in
    elim (Result-cases
      (dns_checked_age dns.now dns.cache (map (λ (q : DnsRecord). q.name) required))) [
        | inl (age, e) ↦ rw (show_domain, e) (record { database = refl; visitor = refl })
        | inr (x, e) ↦ rw (show_domain, e) (record { database = refl; visitor = refl })
      ]

show_found-IsLookedAt :
    (r : Reader) (found : Option Domain) (wanted : ℤ) (v : Visit)
    → IsLookedAt v (show_found r.top_domain r.settings (txt_of r) r.before r.link found wanted v).1
unfolding show_found
show_found-IsLookedAt r none wanted v = unchanged v
show_found-IsLookedAt r (some d) wanted v = show_domain-IsLookedAt r d wanted v

show_report-IsLookedAt :
    (r : Reader) (found : Option AggregateReport) (wanted : ℤ) (v : Visit)
    → IsLookedAt v
        (show_report r.ip_address r.is_in (networks_of r) (lookup_of r) r.link found wanted v).1
unfolding show_report enrich_ips
show_report-IsLookedAt r none wanted v = unchanged v
show_report-IsLookedAt r (some report) wanted v = record { database = refl; visitor = refl }

show_settings-IsLookedAt :
    (r : Reader) (user : User) (wanted : ℤ) (v : Visit)
    → IsLookedAt v (show_settings r.settings r.before r.link user wanted v).1
unfolding show_settings
show_settings-IsLookedAt r user wanted v = elim (Bool-cases user.is_admin) [
  | inl e ↦ rw e (record { database = refl; visitor = refl })
  | inr e ↦ rw e (unchanged v)
]

-- Looking at a page changes nothing in the database but what is known of addresses, and signs nobody
-- in or out.
pub view-IsLookedAt : (r : Reader) (s : Screen) (v : Visit) → IsLookedAt v (view r s v).1
unfolding view index reports_page graphs_page report_page domain_page tenants_page upload_page
    profile_page settings_page
view-IsLookedAt r (Screen.front page) v = for_user-IsLookedAt _ v (λ user. unchanged v)
view-IsLookedAt r (Screen.reports domain tenant day page) v =
    for_user-IsLookedAt _ v (λ user. unchanged v)
view-IsLookedAt r (Screen.graphs domain tenant days page) v =
    for_user-IsLookedAt _ v (λ user. unchanged v)
view-IsLookedAt r (Screen.report report_id page) v =
    for_user-IsLookedAt _ v (λ user. show_report-IsLookedAt r _ page v)
view-IsLookedAt r (Screen.domain_named name page) v =
    for_user-IsLookedAt _ v (λ user. show_found-IsLookedAt r _ page v)
view-IsLookedAt r (Screen.tenants error) v =
    for_user-IsLookedAt _ v (λ user. record { database = refl; visitor = refl })
view-IsLookedAt r Screen.uploads v =
    for_user-IsLookedAt _ v (λ user. record { database = refl; visitor = refl })
view-IsLookedAt r (Screen.profile page) v =
    for_user-IsLookedAt _ v (λ user. record { database = refl; visitor = refl })
view-IsLookedAt r (Screen.settings page) v =
    for_user-IsLookedAt _ v (λ user. show_settings-IsLookedAt r user page v)
