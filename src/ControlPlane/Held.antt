-- ===== src/ControlPlane/Held.antt =====
-- After a check of DNS records each of their names is in the cache, so that the check has an age.
use dmarc_service.Base.{
  ℕ, suc, ◌-◌, ◌≡◌, refl, ap, true, List, [], ◌∷◌, Option, some, is_some, length, ltb, ◌==◌, arith,
  Bool-cases, Option-cases, inl, inr, ==_refl,
}
use dmarc_service.Base.Rows.{All}
use dmarc_service.Base.Text.{Text}
use dmarc_service.Base.Exec.{Result}
use dmarc_service.Base.Dict
use dmarc_service.ControlPlane.Records.{DnsRecord}
use dmarc_service.ControlPlane.Check.{
  DnsCache, World, dns_cache_ttl, ages, maximum, oldest, dns_checked_age, ask, resolve_txt_cached,
  check_dns_records,
}
use dmarc_service.ControlPlane.Cached.{names_of}

abbrev pub IsHeld : DnsCache → Text → Type 0
IsHeld cache name = is_some (Dict.lookup name cache) ≡ true

module _ (resolve_txt : Text → ℕ → Option (List Text) × ℕ) where
  ask-IsHeld :
      (name other : Text) (w : World)
      → IsHeld (ask resolve_txt name w).1.cache name
        × (IsHeld w.cache other → IsHeld (ask resolve_txt name w).1.cache other)
  unfolding ask
  ask-IsHeld name other w =
      let (answers, now) = resolve_txt name w.now in
      (
        rw (Dict.lookup-insert_self name (now, answers) w.cache) refl,
        λ h. ground (arith, Dict.lookup-insert name other (now, answers) w.cache, h),
      )

  resolve_txt_cached-IsHeld :
      (name other : Text) (w : World)
      → let w' = (resolve_txt_cached resolve_txt name w).1 in
        IsHeld w'.cache name × (IsHeld w.cache other → IsHeld w'.cache other)
  unfolding resolve_txt_cached
  resolve_txt_cached-IsHeld name other w = elim (Option-cases (Dict.lookup name w.cache)) [
    | inl missing ↦ rw (resolve_txt_cached, missing) (ask-IsHeld name other w)
    | inr ((at, answers), found) ↦ elim (Bool-cases (ltb (w.now - at) dns_cache_ttl)) [
      | inl young ↦ rw (resolve_txt_cached, found) (rw young (rw found refl, λ h. h))
      | inr old ↦ rw (resolve_txt_cached, found) (rw old (ask-IsHeld name other w))
    ]
  ]

  check_dns_records-IsHeld :
      (rs : List DnsRecord) (other : Text) (w : World)
      → let w' = (check_dns_records resolve_txt rs w).1 in
        All (IsHeld w'.cache) (names_of rs) × (IsHeld w.cache other → IsHeld w'.cache other)
  unfolding check_dns_records
  check_dns_records-IsHeld [] other w = (tt, λ h. h)
  check_dns_records-IsHeld (r ∷ rs) other w =
      let w' = (resolve_txt_cached resolve_txt r.name w).1 in
      (
        (
          (check_dns_records-IsHeld rs r.name w').1 (resolve_txt_cached-IsHeld r.name other w).0,
          (check_dns_records-IsHeld rs other w').0,
        ),
        λ h.
            (check_dns_records-IsHeld rs other w').1
              ((resolve_txt_cached-IsHeld r.name other w).1 h),
      )

length-ages_held :
    (now : ℕ) (cache : DnsCache) (names : List Text)
    → All (IsHeld cache) names
    → length (ages now cache names) ≡ length names
unfolding ages
length-ages_held now cache [] h = refl
length-ages_held now cache (n ∷ names) h = elim (Option-cases (Dict.lookup n cache)) [
  | inl missing ↦ cc (rw missing at (h.0))
  | inr (v, found) ↦ rw (ages, found) (ap suc (length-ages_held now cache names h.1))
]

oldest_some : (ns : List ℕ) {k : ℕ} → length ns ≡ suc k → (m : ℕ) × (oldest ns ≡ Result.ok (some m))
unfolding oldest
oldest_some [] e = absurd (omega arith)
oldest_some (n ∷ ns) e = (maximum n ns, refl)

-- Right after a check of some records, the check has an age.
pub dns_checked_age-check_dns_records :
    (resolve_txt : Text → ℕ → Option (List Text) × ℕ) (r : DnsRecord) (rs : List DnsRecord)
    (w : World)
    → let w' = (check_dns_records resolve_txt (r ∷ rs) w).1 in
      (age : ℕ) × (dns_checked_age w'.now w'.cache (names_of (r ∷ rs)) ≡ Result.ok (some age))
unfolding dns_checked_age
dns_checked_age-check_dns_records resolve_txt r rs w =
    let w' = (check_dns_records resolve_txt (r ∷ rs) w).1 in
    let names = names_of (r ∷ rs) in
    let held = (check_dns_records-IsHeld resolve_txt (r ∷ rs) r.name w).0 in
    let size = length-ages_held w'.now w'.cache names held in
    let (age, e) = oldest_some (ages w'.now w'.cache names) size in
    let complete : (length (ages w'.now w'.cache names) == length names) ≡ true =
      rw size (==_refl (length names)) in
    (age, rw (dns_checked_age, complete) e)
