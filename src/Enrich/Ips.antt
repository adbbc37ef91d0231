-- ===== src/Enrich/Ips.antt =====
-- `enrich_ips` and `backfill` of ingest/enrich.py. A lookup is a parameter.
use dmarc_service.Base.{
  ℕ, Bool, not, ◌&&◌, List, [], ◌∷◌, ◌++◌, any, select, map, take, length, update_first,
  if◌then◌else◌,
}
use dmarc_service.Base.Text.{Text, is_empty, text_eq, text_or}
use dmarc_service.Schema.{IpIntel, AggregateRecord, Db}
use dmarc_service.Api.Reports.{records_of}

abbrev pub has_ip : Text → IpIntel → Bool
has_ip ip row = text_eq row.ip ip

-- dict.fromkeys: each text once, at its first place
unfoldable pub distinct : List Text → List Text
unfolding text_eq
distinct [] = []
distinct (t ∷ ts) = t ∷ select (λ s. not (text_eq s t)) (distinct ts)

unfoldable pub wanted : List Text → List Text
unfolding distinct
wanted ips = select (λ ip. not (is_empty ip)) (distinct ips)

-- neither the registry's name of the network nor that of its owner is known
abbrev pub is_incomplete : IpIntel → Bool
is_incomplete row = is_empty row.org && is_empty row.netname

abbrev pub is_wanted : List Text → IpIntel → Bool
is_wanted ips row = any (text_eq row.ip) ips

-- the addresses to look up, at most `limit`
unfoldable pub todo : Db → List Text → ℕ → List Text
unfolding text_eq
todo db ips limit =
    let cached = select (is_wanted ips) db.ip_intel in
    let unknown = select (λ ip. not (any (has_ip ip) cached)) ips in
    take limit (unknown ++ map (λ (row : IpIntel). row.ip) (select is_incomplete cached))

-- what a lookup found goes over what is known, but nothing goes over something
abbrev pub merge : IpIntel → IpIntel → IpIntel
merge found row = record row {
  ptr = text_or found.ptr row.ptr;
  netname = text_or found.netname row.netname;
  org = text_or found.org row.org;
}

abbrev pub is_nothing : IpIntel → Bool
is_nothing found = is_empty found.ptr && is_empty found.netname && is_empty found.org

-- the row of the address is changed, or a new one is added
unfoldable pub learn : IpIntel → List IpIntel → List IpIntel
unfolding text_eq
learn found rows =
    if is_nothing found
    then rows
    else if any (has_ip found.ip) rows
    then update_first (has_ip found.ip) (merge found) rows
    else rows ++ found ∷ []

unfoldable pub learn_all : List IpIntel → List IpIntel → List IpIntel
unfolding learn
learn_all [] rows = rows
learn_all (found ∷ more) rows = learn_all more (learn found rows)

module _ (lookup : Text → IpIntel) where
  unfoldable pub enrich_ips : List Text → ℕ → Db → Db
  unfolding wanted todo learn_all
  enrich_ips ips limit db = record db {
    ip_intel = learn_all (map lookup (todo db (wanted ips) limit)) db.ip_intel;
  }

  -- the addresses of the records that have no complete row, at most `limit`
  unfoldable pub backfill_ips : Db → ℕ → List Text
  unfolding distinct text_eq
  backfill_ips db limit = take limit (
      select (λ ip. not (any (λ row. has_ip ip row && not (is_incomplete row)) db.ip_intel))
        (distinct (map (λ (r : AggregateRecord). r.source_ip) (records_of db.aggregate_reports))))

  -- the number of addresses, and the database
  unfoldable pub backfill : ℕ → Db → ℕ × Db
  unfolding backfill_ips enrich_ips
  backfill limit db =
      let ips = backfill_ips db limit in (length ips, enrich_ips ips (length ips) db)
