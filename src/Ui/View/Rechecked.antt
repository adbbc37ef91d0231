-- ===== src/Ui/View/Rechecked.antt =====
-- The page of a domain and the forced recheck that it offers.
use dmarc_service.Base.{
  ℕ, ◌-◌, ◌/◌, ◌≡◌, refl, ap, ◌∙◌, List, Option, some, find, ltb, arith, if◌then◌else◌, true, false,
}
use dmarc_service.Base.Int.{ℤ}
use dmarc_service.Base.Rows.{All}
use dmarc_service.Base.Text.{Text, lower}
use dmarc_service.Base.Exec.{ok}
use dmarc_service.Config.{Settings}
use dmarc_service.Schema.{User, Domain, Db}
use dmarc_service.Schema.Insert.{has_name}
use dmarc_service.ControlPlane.Records.{required_dns_records}
use dmarc_service.ControlPlane.Check.{
  DnsCache, World, dns_recheck_interval, dns_checked_age, drop_names, force_dns_recheck, Checked,
  check_dns_records,
}
use dmarc_service.ControlPlane.Cached.{names_of, IsCached, IsFresh, dns_checked_age_oldest}
use dmarc_service.ControlPlane.Held.{dns_checked_age-check_dns_records}
use dmarc_service.Ui.Visit.{Visit, current_user}
use dmarc_service.Ui.View.Guard.{shown}
use dmarc_service.Ui.View.Domain.{
  wait_shown, DomainPage, domain_shown, unflag_recheck, show_domain, show_found, domain_page,
}
use dmarc_service.Ui.View.Screen.{txt_of, Reader, Screen, of_domain, tag, view}
use dmarc_service.Ui.View.Private.{for_user_ok}

-- there is always a record to check
required_age :
    (top_domain : Text → Text) (settings : Settings) (db : Db) (d : Domain)
    (resolve_txt : Text → ℕ → Option (List Text) × ℕ) (w : World)
    → let required = required_dns_records top_domain settings db d in
      let dns = (check_dns_records resolve_txt required w).1 in
      (age : ℕ) × (dns_checked_age dns.now dns.cache (names_of required) ≡ ok (some age))
      × All (IsCached dns.now dns.cache age) (names_of required)
      × (¬ All (IsFresh age dns.now dns.cache) (names_of required))
unfolding required_dns_records
required_age top_domain settings db d resolve_txt w =
    let (age, aged) = dns_checked_age-check_dns_records resolve_txt _ _ w in
    let (within, oldest) = dns_checked_age_oldest _ age _ _ _ aged in (age, aged, within, oldest)

recheck_lem :
    (now : ℕ) (cache : DnsCache) (names : List Text) (age : ℕ)
    → dns_checked_age now cache names ≡ ok (some age)
    → force_dns_recheck now names cache ≡ (
        if ltb age dns_recheck_interval
        then (ok false, cache)
        else (ok true, drop_names names cache))
unfolding force_dns_recheck
recheck_lem now cache names age e = rw (force_dns_recheck, e) refl

wait_lem : (age : ℕ) → wait_shown (some age) ≡ (dns_recheck_interval - age) / 1000
wait_lem age = ground arith

module _ (r : Reader) (name : Text) (page : ℤ) (v : Visit) (user : User) (d : Domain)
    (e : current_user v ≡ some user)
    (found : find (has_name (lower name)) v.db.domains ≡ some d) where
  abbrev names : List Text
  names = names_of (required_dns_records r.top_domain r.settings v.db d)

  abbrev checked : List Checked × World
  checked = check_dns_records (txt_of r) (required_dns_records r.top_domain r.settings v.db d) v.dns

  abbrev page_at : ℕ → DomainPage
  page_at age =
      domain_shown r.top_domain r.settings (txt_of r) r.before r.link v.db d page checked.0
        v.session.dns_rechecked (some age)

  domain_opened :
      (age : ℕ)
      → dns_checked_age checked.1.now checked.1.cache names ≡ ok (some age)
      → view r (Screen.domain_named name page) v
        ≡ (ok (shown (of_domain (page_at age))), unflag_recheck (record v { dns = checked.1 }))
  unfolding view domain_page show_found show_domain
  domain_opened age aged =
      let after : Visit = unflag_recheck (record v { dns = checked.1 }) in
      let opened : show_domain r.top_domain r.settings (txt_of r) r.before r.link d page v
          ≡ (ok (shown (page_at age)), after) =
        rw (show_domain, aged) refl in
      ap (λ m. tag of_domain (λ w. m) v)
        (for_user_ok _ v user (shown (page_at age)) after e (
          ap (λ o. show_found r.top_domain r.settings (txt_of r) r.before r.link o page v) found
          ∙ opened))

-- For a signed-in user the page of a domain that exists is shown, with the age of its checks and the time
-- to wait, in whole seconds. The age is that of the oldest answer: each of the names of the domain's
-- records has one that is not older, and not all are younger. A forced recheck right afterwards is refused
-- where this age is below a minute, and drops these names otherwise.
pub domain_page_lem :
    (r : Reader) (name : Text) (page : ℤ) (v : Visit) (user : User) (d : Domain)
    → current_user v ≡ some user
    → find (has_name (lower name)) v.db.domains ≡ some d
    → let seen = view r (Screen.domain_named name page) v in
      let dns = seen.1.dns in
      let required = required_dns_records r.top_domain r.settings v.db d in
      (p : DomainPage) × (age : ℕ) × (seen.0 ≡ ok (shown (of_domain p)))
      × All (IsCached dns.now dns.cache age) (names_of required)
      × (¬ All (IsFresh age dns.now dns.cache) (names_of required))
      × (p.checked_age ≡ some (age / 1000))
      × (p.recheck_wait ≡ (dns_recheck_interval - age) / 1000)
      × (force_dns_recheck dns.now (names_of required) dns.cache ≡ (
          if ltb age dns_recheck_interval
          then (ok false, dns.cache)
          else (ok true, drop_names (names_of required) dns.cache)))
unfolding domain_shown
domain_page_lem r name page v user d e found =
    let required = required_dns_records r.top_domain r.settings v.db d in
    let dns = (check_dns_records (txt_of r) required v.dns).1 in
    let (age, aged, within, oldest) =
      required_age r.top_domain r.settings v.db d (txt_of r) v.dns in
    rw (domain_opened r name page v user d e found age aged) (
      page_at r name page v user d e found age,
      age,
      refl,
      within,
      oldest,
      refl,
      wait_lem age,
      recheck_lem dns.now dns.cache (names_of required) age aged,
    )
