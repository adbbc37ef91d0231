-- ===== src/Tests/Views.antt =====
-- The pages of the web interface, asked for by nobody and by a user.
use dmarc_service.Base.{
  ℕ, ◌-◌, ◌/◌, ◌≡◌, refl, [], ◌∷◌, some, none, map, ltb, if◌then◌else◌, true, false,
}
use mathlib.Core.List.{Perm}
use dmarc_service.Base.Rows.{All}
use dmarc_service.Base.Int.{pos}
use dmarc_service.Base.Text.{codes, lower, text_eq}
use dmarc_service.Base.Exec.{ok}
use dmarc_service.Schema.{AggregateReport}
use dmarc_service.ControlPlane.Records.{required_dns_records}
use dmarc_service.ControlPlane.Cached.{names_of, IsCached, IsFresh}
use dmarc_service.ControlPlane.Check.{dns_recheck_interval, force_dns_recheck, drop_names}
use dmarc_service.Ui.Visit.{Visit, redirect, current_user, login_redirect}
use dmarc_service.Ui.Settings.{profile}
use dmarc_service.Ui.Submit.{Form, submit}
use dmarc_service.Ui.View.Guard.{sent, shown}
use dmarc_service.Ui.View.Report.{record_row, ReportPage, report_shown, looked_up}
use dmarc_service.Ui.View.Domain.{DomainPage}
use dmarc_service.Ui.View.Personal.{ProfilePage}
use dmarc_service.Ui.View.Screen.{
  lookup_of, networks_of, Screen, of_report, of_domain, of_profile, view,
}
use dmarc_service.Ui.View.Private.{IsLookedAt, view_signed_out, view-IsLookedAt}
use dmarc_service.Ui.View.Covered.{pages_from, IsLargestFirst, report_page_lem}
use dmarc_service.Ui.View.Once.{new_token_shown_once}
use dmarc_service.Ui.View.Rechecked.{domain_page_lem}
use dmarc_service.Tests.Samples.{example_com}
use dmarc_service.Tests.Figures.{record_of, report_of, reported}
use dmarc_service.Tests.Web.{outside, browser, signed_out, reader, by_reader}

-- the user's session over a database with reports
abbrev by_owner : Visit
by_owner = record by_reader { db = record reported { users = reader ∷ [] } }

view_signed_out_example :
    view browser (Screen.domain_named (codes "a.com") (pos 1)) signed_out
    ≡ (ok (sent (redirect (codes "/setup"))), signed_out)
unfolding login_redirect current_user
view_signed_out_example =
    view_signed_out browser (Screen.domain_named (codes "a.com") (pos 1)) signed_out refl

view-IsLookedAt_example : IsLookedAt by_owner (view browser (Screen.report 7 (pos 1)) by_owner).1
view-IsLookedAt_example = view-IsLookedAt browser (Screen.report 7 (pos 1)) by_owner

new_token_shown_once_example :
    let minted = submit outside (Form.mint_token (codes "r") (codes "ci")) by_reader in
    let looked = view browser (Screen.profile (pos 1)) minted.1 in
    let again = view browser (Screen.profile (pos 1)) looked.1 in
    (p q : ProfilePage) × (minted.0 ≡ ok profile)
    × (looked.0 ≡ ok (shown (of_profile p)))
    × (p.new_token ≡ some (codes "dmk_r"))
    × (again.0 ≡ ok (shown (of_profile q)))
    × (q.new_token ≡ none)
    × (again.1.db ≡ minted.1.db)
unfolding current_user
new_token_shown_once_example =
    new_token_shown_once outside browser (codes "r") (codes "ci") (pos 1) (pos 1) by_reader reader
      refl refl

abbrev report : AggregateReport
report =
    report_of 7 864000
      (record_of (pos 5) (codes "pass") (codes "none") ∷ record_of (pos 2) [] (codes "reject") ∷ [])

report_page_lem_example :
    let db =
      looked_up browser.ip_address browser.is_in
        (networks_of browser)
        (lookup_of browser)
        browser.link
        report
        by_owner.db in
    let p : ℕ → ReportPage = λ n.
      report_shown browser.ip_address browser.is_in
        (networks_of browser)
        (lookup_of browser)
        browser.link
        report
        (pos n)
        db in
    let rows = pages_from (λ n. (p n).records) 1 (p 1).pages.pages in
    ((n : ℕ)
      → view browser (Screen.report 7 (pos n)) by_owner
        ≡ (ok (shown (of_report (p n))), record by_owner { db = db }))
    × Perm rows (
        map
          (record_row browser.ip_address browser.is_in
            (networks_of browser)
            (lookup_of browser)
            browser.link
            db
            (codes "a.com"))
          report.records)
    × IsLargestFirst rows
unfolding current_user
report_page_lem_example = report_page_lem browser 7 by_owner reader report refl refl

domain_page_lem_example :
    let seen = view browser (Screen.domain_named (codes "A.com") (pos 1)) by_owner in
    let dns = seen.1.dns in
    let required =
      required_dns_records browser.top_domain browser.settings by_owner.db example_com in
    (p : DomainPage) × (age : ℕ) × (seen.0 ≡ ok (shown (of_domain p)))
    × All (IsCached dns.now dns.cache age) (names_of required)
    × (¬ All (IsFresh age dns.now dns.cache) (names_of required))
    × (p.checked_age ≡ some (age / 1000))
    × (p.recheck_wait ≡ (dns_recheck_interval - age) / 1000)
    × (force_dns_recheck dns.now (names_of required) dns.cache ≡ (
        if ltb age dns_recheck_interval
        then (ok false, dns.cache)
        else (ok true, drop_names (names_of required) dns.cache)))
unfolding current_user text_eq lower
domain_page_lem_example =
    domain_page_lem browser (codes "A.com") (pos 1) by_owner reader example_com refl refl
