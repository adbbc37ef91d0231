-- ===== src/ControlPlane/Published.antt =====
-- A domain whose requested records are published as they are requested.
use dmarc_service.Base.{
  ℕ, ◌≡◌, ◌≢◌, refl, sym, ap, ◌∙◌, true, List, [], ◌∷◌, Option, some, any, ltb, ◌-◌, if◌then◌else◌,
  Bool-cases, Option-cases, inl, inr,
}
use mathlib.Core.Path.{subst}
use mathlib.Core.Option.{some-injective}
use dmarc_service.Base.Rows.{All}
use dmarc_service.Base.Dict
use dmarc_service.Base.Text.{Text, text_eq, eq_of_text_eq}
use dmarc_service.Config.{Settings}
use dmarc_service.Schema.{Domain, Db}
use dmarc_service.ControlPlane.Provision.{active_addresses, delivery_address}
use dmarc_service.ControlPlane.Records.{DnsRecord, required_dns_records}
use dmarc_service.ControlPlane.Check.{
  World, DnsCache, DnsStatus, status_of, Checked, dns_cache_ttl, ask, resolve_txt_cached,
  check_dns_records,
}
use dmarc_service.ControlPlane.Agreed.{
  Agrees, status_of_lem, IsDeliverable, required_dns_records-Agrees,
}

-- Every entry of the cache is an answer of the resolver.
abbrev IsAnswered : (Text → ℕ → Option (List Text) × ℕ) → DnsCache → Type 0
IsAnswered resolve_txt cache =
    (name : Text) (at : ℕ) (answers : Option (List Text))
    → Dict.lookup name cache ≡ some (at, answers)
    → (now : ℕ) × (answers ≡ (resolve_txt name now).0)

-- At any time the lookup finds the record, perhaps among others.
abbrev pub IsPublished : (Text → ℕ → Option (List Text) × ℕ) → DnsRecord → Type 0
IsPublished resolve_txt r =
    (now : ℕ)
    → (answers : List Text) × ((resolve_txt r.name now).0 ≡ some answers)
      × (any (text_eq r.content) answers ≡ true)

abbrev IsOk : Checked → Type 0
IsOk c = c.status ≡ DnsStatus.ok

module _ (resolve_txt : Text → ℕ → Option (List Text) × ℕ) where
  inserted-IsAnswered :
      (name : Text) (at now : ℕ) (cache : DnsCache)
      → IsAnswered resolve_txt cache
      → IsAnswered resolve_txt (Dict.insert name (at, (resolve_txt name now).0) cache)
  inserted-IsAnswered name at now cache h other at' answers e =
      let new : ℕ × Option (List Text) = (at, (resolve_txt name now).0) in
      let found : (if text_eq name other then some new else Dict.lookup other cache)
          ≡ some (at', answers) =
        sym (Dict.lookup-insert name other new cache) ∙ e in
      elim (Bool-cases (text_eq name other)) [
        | inl same ↦
            (let pair : new ≡ (at', answers) =
                some-injective new (at', answers)
                  (subst
                    (λ b. (if b then some new else Dict.lookup other cache) ≡ some (at', answers))
                    same found) in
              (
                now,
                subst (λ n. answers ≡ (resolve_txt n now).0) (eq_of_text_eq name other same)
                    (ap (λ q. q.1) (sym pair)),
              ))
        | inr apart ↦ h other at' answers (
            subst (λ b. (if b then some new else Dict.lookup other cache) ≡ some (at', answers))
              apart found)
      ]

  ask-IsAnswered :
      (name : Text) (w : World)
      → IsAnswered resolve_txt w.cache
      → IsAnswered resolve_txt (ask resolve_txt name w).1.cache
        × ((now : ℕ) × ((ask resolve_txt name w).0 ≡ (resolve_txt name now).0))
  unfolding ask
  ask-IsAnswered name w h =
      (inserted-IsAnswered name (resolve_txt name w.now).1 w.now w.cache h, (w.now, refl))

  resolve_txt_cached-IsAnswered :
      (name : Text) (w : World)
      → IsAnswered resolve_txt w.cache
      → let (answers, w') = resolve_txt_cached resolve_txt name w in
        IsAnswered resolve_txt w'.cache × ((now : ℕ) × (answers ≡ (resolve_txt name now).0))
  unfolding resolve_txt_cached
  resolve_txt_cached-IsAnswered name w h = elim (Option-cases (Dict.lookup name w.cache)) [
    | inl missing ↦ rw (resolve_txt_cached, missing) (ask-IsAnswered name w h)
    | inr ((at, answers), found) ↦ elim (Bool-cases (ltb (w.now - at) dns_cache_ttl)) [
      | inl young ↦ rw (resolve_txt_cached, found) (rw young (h, h name at answers found))
      | inr old ↦ rw (resolve_txt_cached, found) (rw old (ask-IsAnswered name w h))
    ]
  ]

  check_dns_records-IsOk :
      (rs : List DnsRecord) (w : World)
      → IsAnswered resolve_txt w.cache
      → All Agrees rs
      → All (IsPublished resolve_txt) rs
      → All IsOk (check_dns_records resolve_txt rs w).0
  unfolding check_dns_records
  check_dns_records-IsOk [] w h agree published = tt
  check_dns_records-IsOk (r ∷ rs) w h agree published =
      let (kept, (now, e)) = resolve_txt_cached-IsAnswered r.name w h in
      let (answers, found, held) = published.0 now in
      (
        ap (status_of r) (e ∙ found) ∙ status_of_lem r answers held agree.0,
        check_dns_records-IsOk rs (resolve_txt_cached resolve_txt r.name w).1 kept agree.1
            published.1,
      )

nothing_cached :
    (at : ℕ) (answers : Option (List Text)) (name : Text)
    → Dict.lookup {V = ℕ × Option (List Text)} name [] ≢ some (at, answers)
unfolding Dict.lookup
nothing_cached at answers name e = cc

-- Where a domain has an address to ask for, and each of its requested records is published as it is
-- requested, perhaps next to others, a first check reports every one of them as ok.
pub check_dns_records-required_dns_records :
    (top_domain : Text → Text) (settings : Settings) (db : Db) (d : Domain)
    (resolve_txt : Text → ℕ → Option (List Text) × ℕ) (now : ℕ)
    → IsDeliverable (delivery_address db) (active_addresses db d)
    → let required = required_dns_records top_domain settings db d in
      All (IsPublished resolve_txt) required
      → All
          (λ (c : Checked). c.status ≡ DnsStatus.ok)
          (check_dns_records resolve_txt required (record { now = now; cache = [] })).0
check_dns_records-required_dns_records top_domain settings db d resolve_txt now h published =
    check_dns_records-IsOk resolve_txt (required_dns_records top_domain settings db d)
      (record { now = now; cache = [] })
      (λ name at answers e. absurd (nothing_cached at answers name e))
      (required_dns_records-Agrees top_domain settings db d h) published
