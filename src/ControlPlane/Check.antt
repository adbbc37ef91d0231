-- ===== src/ControlPlane/Check.antt =====
-- Live DNS verification (control_plane/service.py from `DNS_CACHE_TTL` on). Instants are
-- milliseconds of `time.monotonic`. `_resolve_txt` (Resolve) is a parameter here: it takes a name and
-- the time, and gives the answers (`none` if the lookup failed) and the time after it.
use dmarc_service.Base.{
  ℕ, ◌-◌, Bool, true, false, not, ◌&&◌, ◌||◌, List, [], ◌∷◌, Option, none, some, map, any, select,
  length, ltb, ◌==◌, if◌then◌else◌,
}
use dmarc_service.Base.Text.{
  Text, codes, is_empty, occurs, starts_with, strip, rstrip_by, remove_prefix, replace, words,
}
use dmarc_service.Base.Dict
use dmarc_service.Base.Dict.{Dict}
use dmarc_service.Base.Exec.{Result, value_error, Exec}
use dmarc_service.ControlPlane.Records.{DnsRecord}

abbrev pub dns_cache_ttl : ℕ
dns_cache_ttl = 900000

abbrev pub dns_recheck_interval : ℕ
dns_recheck_interval = 60000

abbrev pub DnsCache : Type 0
DnsCache = Dict (ℕ × Option (List Text))

-- the ages of the cached lookups among the names
unfoldable pub ages : ℕ → DnsCache → List Text → List ℕ
unfolding Dict.lookup
ages now cache [] = []
ages now cache (n ∷ names) =
    let rest = ages now cache names in
    elim (Dict.lookup n cache) [ none ↦ rest | some (at, _) ↦ (now - at) ∷ rest ]

abbrev pub maximum : ℕ → List ℕ → ℕ
maximum m [] = m
maximum m (n ∷ ns) = maximum (if ltb m n then n else m) ns

-- max(ages); Python's `max` raises on an empty list
unfoldable pub oldest : List ℕ → Result (Option ℕ)
oldest [] = Result.raised (value_error (codes "max() arg is an empty sequence"))
oldest (n ∷ ns) = Result.ok (some (maximum n ns))

unfoldable pub dns_checked_age : ℕ → DnsCache → List Text → Result (Option ℕ)
unfolding ages oldest
dns_checked_age now cache names =
    let found = ages now cache names in
    if length found == length names then oldest found else Result.ok none

unfoldable pub drop_names : List Text → DnsCache → DnsCache
unfolding Dict.erase
drop_names [] cache = cache
drop_names (n ∷ names) cache = drop_names names (Dict.erase n cache)

abbrev pub is_recent : Option ℕ → Bool
is_recent none = false
is_recent (some age) = ltb age dns_recheck_interval

unfoldable pub force_dns_recheck : ℕ → List Text → Exec DnsCache Bool
unfolding dns_checked_age drop_names
force_dns_recheck now names cache = elim (dns_checked_age now cache names) [
  | Result.raised e ↦ (Result.raised e, cache)
  | Result.ok age ↦
      if is_recent age then (Result.ok false, cache) else (Result.ok true, drop_names names cache)
]

-- the clock and the cache
pub record World : Type 0 where
  pub now : ℕ
  pub cache : DnsCache

module _ (resolve_txt : Text → ℕ → Option (List Text) × ℕ) where
  unfoldable pub ask : Text → World → Option (List Text) × World
  unfolding Dict.insert
  ask name w =
      let (answers, now) = resolve_txt name w.now in
      (answers, record { now = now; cache = Dict.insert name (now, answers) w.cache })

  unfoldable pub resolve_txt_cached : Text → World → Option (List Text) × World
  unfolding ask Dict.lookup
  resolve_txt_cached name w = elim (Dict.lookup name w.cache) [
    | none ↦ ask name w
    | some (at, answers) ↦ if ltb (w.now - at) dns_cache_ttl then (answers, w) else ask name w
  ]

-- the parts of a record's content that name an address
unfoldable pub expected_addresses : Text → List Text
unfolding strip rstrip_by remove_prefix words replace occurs
expected_addresses content =
    map
      (λ part.
        remove_prefix (rstrip_by (λ c. c == b',' || c == b';') (strip part)) (codes "mailto:"))
      (select (λ part. occurs (codes "@") part)
        (words (replace b',' b' ' (replace b';' b' ' content))))

unfoldable pub names_expected_address : DnsRecord → Text → Bool
unfolding expected_addresses
names_expected_address r answer =
    any (λ address. not (is_empty address) && occurs address answer) (expected_addresses r.content)

pub data DnsStatus : Type 0 where
  ok missing mismatch malformed retired unknown : DnsStatus

abbrev pub no_markers : List Text → Bool
no_markers [] = true
no_markers (_ ∷ _) = false

-- the verdict on the answers that carry `must_contain`
unfoldable pub status_of_ours : DnsRecord → List Text → DnsStatus
unfolding names_expected_address starts_with strip
status_of_ours r [] = DnsStatus.mismatch
status_of_ours r (a ∷ ours) =
    if not (is_empty r.must_start_with)
      && not (any (λ t. starts_with (strip t) r.must_start_with) (a ∷ ours))
    then DnsStatus.malformed
    else if not (no_markers r.retired_markers) && not (any (names_expected_address r) (a ∷ ours))
    then DnsStatus.retired
    else DnsStatus.ok

unfoldable pub status_of : DnsRecord → Option (List Text) → DnsStatus
unfolding status_of_ours
status_of r none = DnsStatus.unknown
status_of r (some []) = DnsStatus.missing
status_of r (some (a ∷ answers)) = status_of_ours r (select (occurs r.must_contain) (a ∷ answers))

pub record Checked : Type 0 where
  pub expected : DnsRecord
  pub status : DnsStatus
  pub found : List Text

module _ (resolve_txt : Text → ℕ → Option (List Text) × ℕ) where
  abbrev found_or_empty : Option (List Text) → List Text
  found_or_empty none = []
  found_or_empty (some answers) = answers

  unfoldable pub check_dns_records : List DnsRecord → World → List Checked × World
  unfolding resolve_txt_cached status_of
  check_dns_records [] w = ([], w)
  check_dns_records (r ∷ rs) w =
      let (answers, w') = resolve_txt_cached resolve_txt r.name w in
      let (results, w'') = check_dns_records rs w' in
      (
        record { expected = r; status = status_of r answers; found = found_or_empty answers }
            ∷ results,
        w'',
      )
