-- ===== src/ControlPlane/Cached.antt =====
-- The cache of DNS answers: when a check asks the network, and what a forced recheck drops.
use dmarc_service.Base.{
  ℕ, suc, ◌-◌, Bool, ◌∙◌, ◌≢◌, ◌≡◌, ◌<◌, ◌≤◌, refl, true, false, List, [], ◌∷◌, Option, none, some,
  any, map, length, ltb, ◌==◌, arith, if◌then◌else◌, Bool-cases, Option-cases, inl, inr, ap, ◌⊎◌,
  sym,
}
use dmarc_service.Base.Rows.{All, All-map}
use dmarc_service.Base.Text.{Text, text_eq, codes}
use dmarc_service.Base.Exec.{Result, value_error}
use mathlib.Core.Path.{subst}
use dmarc_service.Base.Dict
use dmarc_service.Base.Dict.{Dict}
use dmarc_service.ControlPlane.Records.{DnsRecord}
use dmarc_service.ControlPlane.Check.{
  DnsCache, World, dns_cache_ttl, dns_recheck_interval, ages, maximum, oldest, dns_checked_age,
  drop_names, force_dns_recheck, resolve_txt_cached, check_dns_records,
}

-- the name was looked up less than `limit` milliseconds ago
abbrev pub IsFresh : ℕ → ℕ → DnsCache → Text → Type 0
IsFresh limit now cache name =
    (at : ℕ) × (answers : Option (List Text)) × (Dict.lookup name cache ≡ some (at, answers))
    × (now - at < limit)

abbrev pub names_of : List DnsRecord → List Text
names_of = map (λ (r : DnsRecord). r.name)

cached_answer :
    (ask : Text → ℕ → Option (List Text) × ℕ) (name : Text) (w : World) {at : ℕ}
    {answers : Option (List Text)}
    → Dict.lookup name w.cache ≡ some (at, answers)
    → w.now - at < dns_cache_ttl
    → resolve_txt_cached ask name w ≡ (answers, w)
unfolding resolve_txt_cached
cached_answer ask name w {at} found young =
    let now : ltb (w.now - at) dns_cache_ttl ≡ true = ground arith in
    rw (resolve_txt_cached, found) (rw now)

-- Where every name is fresh, a check asks nothing: any resolver gives the same results, and
-- neither the clock nor the cache changes.
pub check_dns_records_fresh :
    (ask ask' : Text → ℕ → Option (List Text) × ℕ) (rs : List DnsRecord) (w : World)
    → All (IsFresh dns_cache_ttl w.now w.cache) (names_of rs)
    → (check_dns_records ask rs w ≡ check_dns_records ask' rs w)
      × ((check_dns_records ask rs w).1 ≡ w)
unfolding check_dns_records
check_dns_records_fresh ask ask' [] w h = (refl, refl)
check_dns_records_fresh ask ask' (r ∷ rs) w ((at, answers, found, young), h) =
    let rest = check_dns_records_fresh ask ask' rs w h in
    (
      rw
          (
            check_dns_records,
            cached_answer ask r.name w found young,
            cached_answer ask' r.name w found young,
          )
          (rw rest.0),
      rw (check_dns_records, cached_answer ask r.name w found young) rest.1,
    )

-- the stamps of the names that are cached
length-ages :
    (now : ℕ) (cache : DnsCache) (names : List Text) → length (ages now cache names) ≤ length names
unfolding ages
length-ages now cache [] = omega arith
length-ages now cache (n ∷ names) = elim (Option-cases (Dict.lookup n cache)) [
  | inl e ↦ rw (ages, e) (ground (arith, length-ages now cache names))
  | inr (v, e) ↦ rw (ages, e) (ground (arith, length-ages now cache names))
]

abbrev pub IsCached : ℕ → DnsCache → ℕ → Text → Type 0
IsCached now cache m n =
    (at : ℕ) × (answers : Option (List Text)) × (Dict.lookup n cache ≡ some (at, answers))
    × (now - at ≤ m)

maximum-≤ : (m : ℕ) (ns : List ℕ) → m ≤ maximum m ns
maximum-≤ m [] = omega arith
maximum-≤ m (n ∷ ns) = ground (arith, maximum-≤ n ns, maximum-≤ m ns)

ages_missing :
    (now : ℕ) (cache : DnsCache) (n : Text) (names : List Text)
    → Dict.lookup n cache ≡ none
    → ages now cache (n ∷ names) ≡ ages now cache names
unfolding ages
ages_missing now cache n names e = rw (ages, e) refl

ages_found :
    (now : ℕ) (cache : DnsCache) (n : Text) (names : List Text) {at : ℕ}
    {answers : Option (List Text)}
    → Dict.lookup n cache ≡ some (at, answers)
    → ages now cache (n ∷ names) ≡ (now - at) ∷ ages now cache names
unfolding ages
ages_found now cache n names e = rw (ages, e) refl

-- All names are cached, and none longer than the oldest.
ages-IsCached :
    (now m : ℕ) (cache : DnsCache) (names : List Text)
    → length (ages now cache names) ≡ length names
    → All (IsCached now cache (maximum m (ages now cache names))) names
ages-IsCached now m cache [] e = tt
ages-IsCached now m cache (n ∷ names) e = elim (Option-cases (Dict.lookup n cache)) [
  | inl missing ↦
      absurd
        (ground (arith, ages_missing now cache n names missing, length-ages now cache names, e))
  | inr ((at, answers), found) ↦
      subst (λ l. All (IsCached now cache (maximum m l)) (n ∷ names))
        (sym (ages_found now cache n names found))
        (
          (at, answers, found, within at m),
          ages-IsCached now (if ltb m (now - at) then now - at else m) cache names (shorter found),
        )
]
  where
    shorter :
        {at : ℕ} {answers : Option (List Text)}
        → Dict.lookup n cache ≡ some (at, answers)
        → length (ages now cache names) ≡ length names
    shorter found = let long = rw (ages_found now cache n names found) at e in omega arith

    within :
        (at k : ℕ)
        → now - at ≤ maximum (if ltb k (now - at) then now - at else k) (ages now cache names)
    within at k =
        let more = maximum-≤ (if ltb k (now - at) then now - at else k) (ages now cache names) in
        ground arith

lookup-drop_names :
    (names : List Text) (n : Text) (cache : DnsCache)
    → Dict.lookup n (drop_names names cache)
      ≡ (if any (λ m. text_eq m n) names then none else Dict.lookup n cache)
unfolding drop_names
lookup-drop_names [] n cache = refl
lookup-drop_names (m ∷ names) n cache =
    ground (arith, lookup-drop_names names n (Dict.erase m cache), Dict.lookup-erase m n cache)

abbrev RecentOrNot : ℕ → DnsCache → List Text → Type 0
RecentOrNot now cache names =
    (dns_checked_age now cache names ≡ Result.ok none)
    ⊎ ((m : ℕ) × (dns_checked_age now cache names ≡ Result.ok (some m))
        × All (IsCached now cache m) names)

oldest-cons : (l : List ℕ) {k : ℕ} → length l ≡ suc k → oldest l ≡ Result.ok (some (maximum 0 l))
unfolding oldest
oldest-cons [] e = absurd (omega arith)
oldest-cons (a ∷ l) e = ap (λ m. Result.ok (some (maximum m l))) (ground arith)

-- The age of a check is the age of its oldest answer, once there is one for each name.
dns_checked_age-cases :
    (now : ℕ) (cache : DnsCache) (n : Text) (names : List Text) → RecentOrNot now cache (n ∷ names)
unfolding dns_checked_age
dns_checked_age-cases now cache n names =
    elim (Bool-cases (length (ages now cache (n ∷ names)) == length (n ∷ names))) [
      | inr some_missing ↦ inl (rw (dns_checked_age, some_missing) refl)
      | inl all_cached ↦ inr (
        maximum 0 (ages now cache (n ∷ names)),
        rw (dns_checked_age, all_cached)
            (oldest-cons (ages now cache (n ∷ names)) {k = length names} (ground arith)),
        ages-IsCached now 0 cache (n ∷ names) (ground arith),
      )
    ]

-- where every name is fresh, so is the oldest
ages-IsFresh :
    (limit now : ℕ) (cache : DnsCache) (names : List Text)
    → All (IsFresh limit now cache) names
    → (length (ages now cache names) ≡ length names)
      × ((m : ℕ) → m < limit → maximum m (ages now cache names) < limit)
unfolding ages
ages-IsFresh limit now cache [] h = (refl, λ m k. k)
ages-IsFresh limit now cache (n ∷ names) ((at, answers, found, young), h) =
    let (size, below) = ages-IsFresh limit now cache names h in
    rw (ages_found now cache n names found)
      (ap suc size, λ m k. below (if ltb m (now - at) then now - at else m) (ground arith))

dns_checked_age-IsFresh :
    (limit now : ℕ) (cache : DnsCache) (n : Text) (names : List Text)
    → All (IsFresh limit now cache) (n ∷ names)
    → (m : ℕ) × (dns_checked_age now cache (n ∷ names) ≡ Result.ok (some m)) × (m < limit)
unfolding dns_checked_age
dns_checked_age-IsFresh limit now cache n names h =
    let (size, below) = ages-IsFresh limit now cache (n ∷ names) h in
    let complete : (length (ages now cache (n ∷ names)) == length (n ∷ names)) ≡ true =
      ground (arith, size) in
    (
      maximum 0 (ages now cache (n ∷ names)),
      rw (dns_checked_age, complete)
          (oldest-cons (ages now cache (n ∷ names)) {k = length names} size),
      below 0 (positive h.0),
    )
  where
    positive : IsFresh limit now cache n → 0 < limit
    positive (at, answers, found, young) = omega arith

-- The age of a check is that of its oldest answer: no answer is older, and not all are younger.
pub dns_checked_age_oldest :
    (now age : ℕ) (cache : DnsCache) (n : Text) (names : List Text)
    → dns_checked_age now cache (n ∷ names) ≡ Result.ok (some age)
    → All (IsCached now cache age) (n ∷ names) × (¬ All (IsFresh age now cache) (n ∷ names))
dns_checked_age_oldest now age cache n names e = (
  elim (dns_checked_age-cases now cache n names) [
    | inl unknown ↦ cc
    | inr (m, checked, cached) ↦
        subst (λ k. All (IsCached now cache k) (n ∷ names)) (same m checked) cached
  ],
  λ young.
      let (m, checked, below) = dns_checked_age-IsFresh age now cache n names young in
      absurd (omega (arith, same m checked, below)),
)
  where
    same : (m : ℕ) → dns_checked_age now cache (n ∷ names) ≡ Result.ok (some m) → m ≡ age
    same m checked = cc

-- within a minute of a complete check
recheck_refused :
    (now : ℕ) (cache : DnsCache) (n : Text) (names : List Text)
    → All (IsFresh dns_recheck_interval now cache) (n ∷ names)
    → force_dns_recheck now (n ∷ names) cache ≡ (Result.ok false, cache)
unfolding force_dns_recheck
recheck_refused now cache n names h =
    let (m, checked, below) = dns_checked_age-IsFresh dns_recheck_interval now cache n names h in
    let young : ltb m dns_recheck_interval ≡ true = ground arith in
    rw (force_dns_recheck, checked) (rw young refl)

not_both : ◌≡◌ {A = Result Bool} (Result.ok true) (Result.ok false) → ⊥
not_both e = cc

-- A forced recheck either drops all the names and nothing else, which it does only where some name was
-- not looked up within the last minute, or leaves the cache as it is because every name was; with no
-- names at all it raises.
pub force_dns_recheck_lem :
    (now : ℕ) (names : List Text) (cache : DnsCache)
    → let (r, cache') = force_dns_recheck now names cache in
      ((r ≡ Result.ok true)
        × (¬ All (IsFresh dns_recheck_interval now cache) names)
        × ((n : Text)
            → Dict.lookup n cache'
              ≡ (if any (λ m. text_eq m n) names then none else Dict.lookup n cache)))
      ⊎ (((r ≡ Result.ok false)
            × (cache' ≡ cache)
            × All (IsFresh dns_recheck_interval now cache) names)
          ⊎ ((names ≡ [])
              × (cache' ≡ cache)
              × (r ≡ Result.raised (value_error (codes "max() arg is an empty sequence")))))
unfolding force_dns_recheck dns_checked_age
force_dns_recheck_lem now [] cache = inr (inr (refl, refl, refl))
force_dns_recheck_lem now (n ∷ names) cache = elim (dns_checked_age-cases now cache n names) [
  | inl unknown ↦ inl (drops (rw (force_dns_recheck, unknown) refl))
  | inr (m, checked, cached) ↦ elim (Bool-cases (ltb m dns_recheck_interval)) [
    | inr old ↦ inl (drops (rw (force_dns_recheck, checked) (rw old refl)))
    | inl young ↦
        let kept : force_dns_recheck now (n ∷ names) cache ≡ (Result.ok false, cache) =
          rw (force_dns_recheck, checked) (rw young refl) in
        inr (
          inl (
            rw kept (
              refl,
              refl,
              All-map (n ∷ names)
                  (λ x (at, answers, found, age). (at, answers, found, ground arith)) cached,
            )))
  ]
]
  where
    drops :
        force_dns_recheck now (n ∷ names) cache ≡ (Result.ok true, drop_names (n ∷ names) cache)
        → let (r, cache') = force_dns_recheck now (n ∷ names) cache in
          (r ≡ Result.ok true)
          × (¬ All (IsFresh dns_recheck_interval now cache) (n ∷ names))
          × ((k : Text)
              → Dict.lookup k cache'
                ≡ (if any (λ m. text_eq m k) (n ∷ names) then none else Dict.lookup k cache))
    drops e = rw e (
      refl,
      λ young.
          not_both
            (sym (ap (λ p. p.0) e) ∙ ap (λ p. p.0) (recheck_refused now cache n names young)),
      λ k. lookup-drop_names (n ∷ names) k cache,
    )

-- Where there are names and each of them was looked up within the last minute, a forced recheck is
-- refused and does not reach the network: the cache stays, and the check that follows it gives the same
-- results with any resolver and changes nothing.
pub force_dns_recheck_quiet :
    (ask ask' : Text → ℕ → Option (List Text) × ℕ) (rs : List DnsRecord) (w : World)
    → names_of rs ≢ []
    → All (IsFresh dns_recheck_interval w.now w.cache) (names_of rs)
    → let (r, cache') = force_dns_recheck w.now (names_of rs) w.cache in
      let after : World = record w { cache = cache' } in
      (r ≡ Result.ok false)
      × (after ≡ w)
      × (check_dns_records ask rs after ≡ check_dns_records ask' rs w)
      × ((check_dns_records ask rs after).1 ≡ w)
force_dns_recheck_quiet ask ask' [] w some_names young = absurd (some_names refl)
force_dns_recheck_quiet ask ask' (r ∷ rs) w some_names young =
    let fresh =
      All-map (names_of (r ∷ rs)) (λ x (at, answers, found, age). (at, answers, found, omega arith))
        young in
    let quiet = check_dns_records_fresh ask ask' (r ∷ rs) w fresh in
    rw (recheck_refused w.now w.cache r.name (names_of rs) young) (refl, refl, quiet.0, quiet.1)
