-- ===== src/Schema/Valid.antt =====
-- Which of the constraints of db/models.py hold of the stored rows, and that an insertion keeps it.
use dmarc_service.Base.{
  ℕ, suc, ◌≡◌, ◌<◌, ◌≤◌, Bool, true, List, ◌++◌, any, arith, ◌==◌, Bool-cases, any-append_left, inl,
  inr,
}
use dmarc_service.Base.Rows.{All, Distinct, All-append, All-map, Distinct-append}
use dmarc_service.Base.Text.{Text}
use dmarc_service.Schema.{
  User, ApiToken, IpIntel, ImapAccount, AuthProvider, Tenant, Domain, ReportAddress, RawMessage,
  AggregateReport, TlsReport, Db,
}
use dmarc_service.Schema.Insert.{
  has_slug, has_name, has_local_part, is_aggregate, is_tls, insert_tenant, insert_domain,
  insert_address, insert_raw, insert_aggregate, insert_tls,
}

abbrev pub same_slug : Tenant → Tenant → Bool
same_slug t u = has_slug u.slug t

abbrev pub same_name : Domain → Domain → Bool
same_name d e = has_name e.name d

abbrev pub same_local_part : ReportAddress → ReportAddress → Bool
same_local_part a b = has_local_part b.local_part a

abbrev pub same_aggregate : AggregateReport → AggregateReport → Bool
same_aggregate r s = is_aggregate s.org_name s.report_id s.policy_domain r

abbrev pub same_tls : TlsReport → TlsReport → Bool
same_tls r s = is_tls s.organization_name s.report_id r

abbrev pub HasDomain : List Domain → ReportAddress → Type 0
HasDomain ds a = any (λ (d : Domain). d.id == a.domain_id) ds ≡ true

abbrev pub HasTenant : List Tenant → Domain → Type 0
HasTenant ts d = any (λ (t : Tenant). t.id == d.tenant_id) ts ≡ true

abbrev pub HasIdBelow : ℕ → RawMessage → Type 0
HasIdBelow n raw = raw.id < n

-- The slugs, domain names, local parts and report keys are unique, addresses name domains and domains name
-- tenants that exist, and message ids are below the next one.
pub record IsValid (db : Db) : Type 0 where
  pub slugs : Distinct same_slug db.tenants
  pub names : Distinct same_name db.domains
  pub local_parts : Distinct same_local_part db.addresses
  pub aggregates : Distinct same_aggregate db.aggregate_reports
  pub tls : Distinct same_tls db.tls_reports
  pub address_domains : All (HasDomain db.domains) db.addresses
  pub domain_tenants : All (HasTenant db.tenants) db.domains
  pub raw_ids : All (HasIdBelow db.next_id) db.raw_messages

HasTenant-append :
    (ts us : List Tenant) (ds : List Domain) → All (HasTenant ts) ds → All (HasTenant (ts ++ us)) ds
HasTenant-append ts us ds h =
    All-map ds (λ d k. any-append_left (λ (t : Tenant). t.id == d.tenant_id) ts us k) h

HasDomain-append :
    (ds es : List Domain) (addrs : List ReportAddress)
    → All (HasDomain ds) addrs
    → All (HasDomain (ds ++ es)) addrs
HasDomain-append ds es addrs h =
    All-map addrs (λ a k. any-append_left (λ (d : Domain). d.id == a.domain_id) ds es k) h

later_ids : (n : ℕ) (ms : List RawMessage) → All (HasIdBelow n) ms → All (HasIdBelow (suc n)) ms
later_ids n ms h = All-map ms (λ m k. omega arith) h

-- The constraints do not read the other tables and the clock, and a later id fits.
pub IsValid-elsewhere :
    (users : List User) (tokens : List ApiToken) (ips : List IpIntel) (accounts : List ImapAccount)
    (providers : List AuthProvider) (n clock : ℕ) (db : Db)
    → db.next_id ≤ n
    → IsValid db
    → IsValid (record db {
      users = users;
      api_tokens = tokens;
      ip_intel = ips;
      imap_accounts = accounts;
      auth_providers = providers;
      next_id = n;
      now = clock;
    })
IsValid-elsewhere users tokens ips accounts providers n clock db later v = record {
  slugs = v.slugs;
  names = v.names;
  local_parts = v.local_parts;
  aggregates = v.aggregates;
  tls = v.tls;
  address_domains = v.address_domains;
  domain_tenants = v.domain_tenants;
  raw_ids = All-map db.raw_messages (λ m k. omega (arith, later, k)) v.raw_ids;
}

pub insert_tenant-IsValid :
    (slug name : Text) (db : Db) → IsValid db → IsValid (insert_tenant slug name db).1
unfolding insert_tenant
insert_tenant-IsValid slug name db v = elim (Bool-cases (any (has_slug slug) db.tenants)) [
  | inl taken ↦ rw taken v
  | inr free ↦ rw free (record {
    slugs = Distinct-append same_slug db.tenants _ free v.slugs;
    names = v.names;
    local_parts = v.local_parts;
    aggregates = v.aggregates;
    tls = v.tls;
    address_domains = v.address_domains;
    domain_tenants = HasTenant-append db.tenants _ db.domains v.domain_tenants;
    raw_ids = later_ids db.next_id db.raw_messages v.raw_ids;
  })
]

pub insert_domain-IsValid :
    (tenant_id : ℕ) (name : Text) (db : Db)
    → any (λ (t : Tenant). t.id == tenant_id) db.tenants ≡ true
    → IsValid db
    → IsValid (insert_domain tenant_id name db).1
unfolding insert_domain
insert_domain-IsValid tenant_id name db known v =
    elim (Bool-cases (any (has_name name) db.domains)) [
      | inl taken ↦ rw taken v
      | inr free ↦ rw free (record {
        slugs = v.slugs;
        names = Distinct-append same_name db.domains _ free v.names;
        local_parts = v.local_parts;
        aggregates = v.aggregates;
        tls = v.tls;
        address_domains = HasDomain-append db.domains _ db.addresses v.address_domains;
        domain_tenants =
            All-append (HasTenant db.tenants) db.domains _ v.domain_tenants (known, tt);
        raw_ids = later_ids db.next_id db.raw_messages v.raw_ids;
      })
    ]

pub insert_address-IsValid :
    (domain_id : ℕ) (local_part : Text) (active : Bool) (db : Db)
    → any (λ (d : Domain). d.id == domain_id) db.domains ≡ true
    → IsValid db
    → IsValid (insert_address domain_id local_part active db).1
unfolding insert_address
insert_address-IsValid domain_id local_part active db known v =
    elim (Bool-cases (any (has_local_part local_part) db.addresses)) [
      | inl taken ↦ rw taken v
      | inr free ↦ rw free (record {
        slugs = v.slugs;
        names = v.names;
        local_parts = Distinct-append same_local_part db.addresses _ free v.local_parts;
        aggregates = v.aggregates;
        tls = v.tls;
        address_domains =
            All-append (HasDomain db.domains) db.addresses _ v.address_domains (known, tt);
        domain_tenants = v.domain_tenants;
        raw_ids = later_ids db.next_id db.raw_messages v.raw_ids;
      })
    ]

pub insert_raw-IsValid : (raw : RawMessage) (db : Db) → IsValid db → IsValid (insert_raw raw db).1
unfolding insert_raw
insert_raw-IsValid raw db v = record {
  slugs = v.slugs;
  names = v.names;
  local_parts = v.local_parts;
  aggregates = v.aggregates;
  tls = v.tls;
  address_domains = v.address_domains;
  domain_tenants = v.domain_tenants;
  raw_ids =
      All-append (HasIdBelow (suc db.next_id)) db.raw_messages _
        (later_ids db.next_id db.raw_messages v.raw_ids) (omega arith, tt);
}

pub insert_aggregate-IsValid :
    (report : AggregateReport) (db : Db) → IsValid db → IsValid (insert_aggregate report db).1
unfolding insert_aggregate
insert_aggregate-IsValid report db v =
    elim (Bool-cases (
      any (is_aggregate report.org_name report.report_id report.policy_domain)
        db.aggregate_reports)) [
          | inl taken ↦ rw taken v
          | inr free ↦ rw free (record {
            slugs = v.slugs;
            names = v.names;
            local_parts = v.local_parts;
            aggregates = Distinct-append same_aggregate db.aggregate_reports _ free v.aggregates;
            tls = v.tls;
            address_domains = v.address_domains;
            domain_tenants = v.domain_tenants;
            raw_ids = later_ids db.next_id db.raw_messages v.raw_ids;
          })
        ]

pub insert_tls-IsValid :
    (report : TlsReport) (db : Db) → IsValid db → IsValid (insert_tls report db).1
unfolding insert_tls
insert_tls-IsValid report db v =
    elim (Bool-cases (any (is_tls report.organization_name report.report_id) db.tls_reports)) [
      | inl taken ↦ rw taken v
      | inr free ↦ rw free (record {
        slugs = v.slugs;
        names = v.names;
        local_parts = v.local_parts;
        aggregates = v.aggregates;
        tls = Distinct-append same_tls db.tls_reports _ free v.tls;
        address_domains = v.address_domains;
        domain_tenants = v.domain_tenants;
        raw_ids = later_ids db.next_id db.raw_messages v.raw_ids;
      })
    ]
