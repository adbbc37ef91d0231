-- ===== src/Tests/Control.antt =====
-- Addresses, deletions and DNS checks on the sample database.
use dmarc_service.Base.{
  ℕ, select, arith, ◌≡◌, ◌≢◌, ◌⊎◌, refl, true, false, List, [], ◌∷◌, Option, some, none, any, map,
  ◌==◌, if◌then◌else◌,
}
use dmarc_service.Base.Dict
use dmarc_service.Base.Rows.{All}
use dmarc_service.Base.Text.{Text, codes, text_eq, join}
use dmarc_service.Base.Exec.{Result, value_error}
use dmarc_service.Schema.{Domain, ReportAddress, AggregateReport, TlsReport, Db}
use dmarc_service.ControlPlane.Provision.{
  delivery_address, active_addresses, sort_by_age, org_domain, mint_address, resolve_address,
  resolve_retired_address, deactivated, belongs_to, delete_domain, names_id, unlink_aggregate,
  unlink_tls,
}
use dmarc_service.ControlPlane.Records.{
  DnsRecord, Publisher, mailtos, dmarc_record, tls_record, verification_record,
  required_dns_records,
}
use dmarc_service.ControlPlane.Check.{
  World, dns_recheck_interval, force_dns_recheck, check_dns_records, Checked, DnsStatus,
}
use dmarc_service.ControlPlane.Rotation.{resolve_address-mint_address, deactivated_lem}
use dmarc_service.ControlPlane.Deletion.{delete_domain_lem}
use dmarc_service.ControlPlane.Cached.{IsFresh, force_dns_recheck_lem, force_dns_recheck_quiet}
use dmarc_service.ControlPlane.Published.{check_dns_records-required_dns_records}
use dmarc_service.Tests.Samples.{settings, sample, sample-IsValid, example_com}

resolve_address-mint_address_example :
    let db' = (mint_address (codes "cc") example_com sample).1 in
    (a : ReportAddress) × (resolve_address db' (codes "cc") ≡ some a)
    × (a.domain_id ≡ 3)
    × ((other : Text) (b : ReportAddress)
        → resolve_address sample other ≡ some b
        → resolve_address db' other ≡ some b)
unfolding text_eq
resolve_address-mint_address_example =
    resolve_address-mint_address (codes "cc") example_com sample refl

deactivated_lem_example :
    let db' : Db = record sample {
      addresses = deactivated example_com (codes "aa") sample.addresses;
    } in
    (resolve_address db' (codes "aa") ≡ none)
    × ((a : ReportAddress) × (resolve_retired_address db' (codes "aa") ≡ some a)
        × (a.domain_id ≡ example_com.id))
    × ((other : Text)
        → codes "aa" ≢ other
        → resolve_address db' other ≡ resolve_address sample other)
unfolding text_eq
deactivated_lem_example = deactivated_lem example_com (codes "aa") sample sample-IsValid refl

delete_domain_lem_example :
    let db' = delete_domain example_com sample in
    (any (λ (d : Domain). d.id == example_com.id) db'.domains ≡ false)
    × (any (belongs_to example_com) db'.addresses ≡ false)
    × (any (λ (r : AggregateReport). names_id 3 r.domain_id) db'.aggregate_reports ≡ false)
    × (any (λ (r : TlsReport). names_id 3 r.domain_id) db'.tls_reports ≡ false)
    × (map unlink_aggregate db'.aggregate_reports ≡ map unlink_aggregate sample.aggregate_reports)
    × (map unlink_tls db'.tls_reports ≡ map unlink_tls sample.tls_reports)
    × (db'.raw_messages ≡ sample.raw_messages)
    × ((local_part : Text) (a : ReportAddress)
        → resolve_address sample local_part ≡ some a
        → a.domain_id ≢ example_com.id
        → resolve_address db' local_part ≡ some a)
    × ((other : ℕ)
        → other ≢ example_com.id
        → (select (λ (d : Domain). d.id == other) db'.domains
            ≡ select (λ (d : Domain). d.id == other) sample.domains)
          × (select (λ (a : ReportAddress). a.domain_id == other) db'.addresses
              ≡ select (λ (a : ReportAddress). a.domain_id == other) sample.addresses)
          × (select (λ (r : AggregateReport). names_id other r.domain_id) db'.aggregate_reports
              ≡ select
                  (λ (r : AggregateReport). names_id other r.domain_id)
                  sample.aggregate_reports)
          × (select (λ (r : TlsReport). names_id other r.domain_id) db'.tls_reports
              ≡ select (λ (r : TlsReport). names_id other r.domain_id) sample.tls_reports))
delete_domain_lem_example = delete_domain_lem example_com sample

abbrev record_a : DnsRecord
record_a = record {
  zone = codes "a.com";
  name = codes "_dmarc.a.com";
  type = codes "TXT";
  content = codes "v=DMARC1; rua=mailto:aa@d.net";
  published_by = Publisher.tenant;
  must_contain = codes "@d.net";
  must_start_with = codes "v=DMARC1";
  retired_markers = [];
}

abbrev cached_world : World
cached_world = record {
  now = 70000;
  cache = (codes "_dmarc.a.com", (69000, some (codes "v=DMARC1; rua=mailto:aa@d.net" ∷ []))) ∷ [];
}

abbrev silent : Text → ℕ → Option (List Text) × ℕ
silent name now = (none, now)

abbrev empty_answer : Text → ℕ → Option (List Text) × ℕ
empty_answer name now = (some [], now)

abbrev requested : List DnsRecord
requested = required_dns_records (λ host. host) settings sample example_com

-- every name has all requested records
abbrev published : Text → ℕ → Option (List Text) × ℕ
published name now = (some (map (λ (r : DnsRecord). r.content) requested), now)

check_dns_records-required_dns_records_example :
    All
      (λ (c : Checked). c.status ≡ DnsStatus.ok)
      (check_dns_records published requested (record { now = 0; cache = [] })).0
unfolding required_dns_records delivery_address active_addresses sort_by_age text_eq dmarc_record
    tls_record verification_record mailtos org_domain join
check_dns_records-required_dns_records_example =
    check_dns_records-required_dns_records (λ host. host) settings sample example_com published 0
      (λ e. cc)
      (
        (λ now. (map (λ (r : DnsRecord). r.content) requested, refl, refl)),
        (
          (λ now. (map (λ (r : DnsRecord). r.content) requested, refl, refl)),
          ((λ now. (map (λ (r : DnsRecord). r.content) requested, refl, refl)), tt),
        ),
      )

force_dns_recheck_lem_example :
    let (r, cache') = force_dns_recheck 70000 (codes "x" ∷ []) cached_world.cache in
    ((r ≡ Result.ok true)
      × (¬ All (IsFresh dns_recheck_interval 70000 cached_world.cache) (codes "x" ∷ []))
      × ((n : Text)
          → Dict.lookup n cache' ≡ (
              if any (λ m. text_eq m n) (codes "x" ∷ [])
              then none
              else Dict.lookup n cached_world.cache)))
    ⊎ (((r ≡ Result.ok false)
          × (cache' ≡ cached_world.cache)
          × All (IsFresh dns_recheck_interval 70000 cached_world.cache) (codes "x" ∷ []))
        ⊎ (((codes "x" ∷ []) ≡ [])
            × (cache' ≡ cached_world.cache)
            × (r ≡ Result.raised (value_error (codes "max() arg is an empty sequence")))))
force_dns_recheck_lem_example = force_dns_recheck_lem 70000 (codes "x" ∷ []) cached_world.cache

force_dns_recheck_quiet_example :
    let (r, cache') = force_dns_recheck 70000 (codes "_dmarc.a.com" ∷ []) cached_world.cache in
    let after : World = record cached_world { cache = cache' } in
    (r ≡ Result.ok false)
    × (after ≡ cached_world)
    × (check_dns_records silent (record_a ∷ []) after
        ≡ check_dns_records empty_answer (record_a ∷ []) cached_world)
    × ((check_dns_records silent (record_a ∷ []) after).1 ≡ cached_world)
unfolding text_eq Dict.lookup
force_dns_recheck_quiet_example =
    force_dns_recheck_quiet silent empty_answer (record_a ∷ []) cached_world (λ e. cc)
      ((69000, some (codes "v=DMARC1; rua=mailto:aa@d.net" ∷ []), refl, omega arith), tt)
