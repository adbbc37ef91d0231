-- ===== src/Metrics/Snapshot.antt =====
-- `DnsSnapshot` and `_dns` of metrics.py. The resolvers, the parser of networks, the clock and the order
-- of the names are parameters. The lock is left out: one refresh runs at a time.
use dmarc_service.Base.{
  ℕ, Bool, true, false, List, [], ◌∷◌, ◌++◌, Option, none, some, map, select, length, ◌==◌,
  if◌then◌else◌,
}
use dmarc_service.Base.Text.{Text}
use dmarc_service.Config.{Settings}
use dmarc_service.Schema.{Domain, Db}
use dmarc_service.ControlPlane.Records.{required_dns_records}
use dmarc_service.ControlPlane.Check.{DnsStatus, Checked, World, check_dns_records}
use dmarc_service.Spf.Expand.{Dns, expand_with_cost}
use dmarc_service.Metrics.Gauges.{greatest}

-- (domain, record name, status)
pub record RecordState : Type 0 where
  pub domain : Text
  pub name : Text
  pub status : DnsStatus

pub record Snapshot : Type 0 where
  pub records : List RecordState
  pub lookups : List (Text × ℕ)
  pub updated : ℕ

abbrev pub empty_snapshot : Snapshot
empty_snapshot = record { records = []; lookups = []; updated = 0 }

abbrev pub is_ok : DnsStatus → Bool
is_ok DnsStatus.ok = true
is_ok _ = false

abbrev pub state_of : Text → Checked → RecordState
state_of domain c = record { domain = domain; name = c.expected.name; status = c.status }

module _ {ℓ} {Network : Type ℓ} (resolve_txt : Text → ℕ → Option (List Text) × ℕ) (dns : Dns)
    (ip_network : Text → Option Network) (top_domain : Text → Text) (settings : Settings) where
  -- the loop over the domains
  unfoldable pub check_domains :
      Db → List Domain → World → List RecordState × List (Text × ℕ) × World
  unfolding required_dns_records check_dns_records expand_with_cost
  check_domains db [] w = ([], [], w)
  check_domains db (domain ∷ domains) w =
      let (checked, w') =
        check_dns_records resolve_txt (required_dns_records top_domain settings db domain) w in
      let (states, lookups, w'') = check_domains db domains w' in
      (
        map (state_of domain.name) checked ++ states,
        (domain.name, (expand_with_cost dns ip_network domain.name).1) ∷ lookups,
        w'',
      )

  unfoldable pub refresh : (List Domain → List Domain) → ℕ → Db → World → Snapshot × World
  unfolding check_domains
  refresh by_name time db w =
      let (states, lookups, w') = check_domains db (by_name db.domains) w in
      (record { records = states; lookups = lookups; updated = time }, w')

-- what `_dns` publishes
pub record DnsMetrics : Type 0 where
  pub checked : ℕ
  pub expected : ℕ
  pub published : ℕ
  pub record_ok : List (RecordState × ℕ)
  pub spf_lookups : List (Text × ℕ)
  pub spf_max : Option ℕ
  pub spf_limit : ℕ

-- nothing but the time, until a first refresh has finished
abbrev pub not_checked : DnsMetrics
not_checked = record {
  checked = 0;
  expected = 0;
  published = 0;
  record_ok = [];
  spf_lookups = [];
  spf_max = none;
  spf_limit = 0;
}

unfoldable pub dns_metrics : Option Snapshot → Bool → Option DnsMetrics
dns_metrics none labels = none
dns_metrics (some s) labels =
    if s.updated == 0
    then some not_checked
    else some (record {
      checked = s.updated;
      expected = length s.records;
      published = length (select (λ (r : RecordState). is_ok r.status) s.records);
      record_ok =
          if labels
          then map (λ (r : RecordState). (r, if is_ok r.status then 1 else 0)) s.records
          else [];
      spf_lookups = if labels then s.lookups else [];
      spf_max = if labels then none else some (greatest (map (λ row. row.1) s.lookups));
      spf_limit = 10;
    })
