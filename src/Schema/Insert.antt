-- ===== src/Schema/Insert.antt =====
-- `session.add` and `session.flush`: a row gets the next id, and the UNIQUE constraints that
-- db/models.py declares are checked. The wording of the database's error is not modelled.
-- What the columns take, NULL, ranges and lengths, is checked where Pipeline/Flush flushes.
use dmarc_service.Base.{ℕ, suc, Bool, [], ◌∷◌, ◌++◌, ◌&&◌, Option, any, if◌then◌else◌}
use dmarc_service.Base.Text.{Text, codes, text_eq}
use dmarc_service.Base.Exec.{Exc, integrity_error, Exec, ok, raised}
use dmarc_service.Schema.{
  User, ApiToken, Tenant, Domain, ReportAddress, RawMessage, AggregateReport, TlsReport, Db,
}

abbrev pub unique_failed : Exc
unique_failed = integrity_error (codes "UNIQUE constraint failed")

abbrev pub has_email : Text → User → Bool
has_email email u = text_eq u.email email

abbrev pub has_hash : Text → ApiToken → Bool
has_hash h t = text_eq t.token_hash h

abbrev pub has_slug : Text → Tenant → Bool
has_slug slug t = text_eq t.slug slug

abbrev pub has_name : Text → Domain → Bool
has_name name d = text_eq d.name name

abbrev pub has_local_part : Text → ReportAddress → Bool
has_local_part local_part a = text_eq a.local_part local_part

-- uq_aggregate_report
abbrev pub is_aggregate : Text → Text → Text → AggregateReport → Bool
is_aggregate org report_id domain r =
    text_eq r.org_name org && text_eq r.report_id report_id && text_eq r.policy_domain domain

-- uq_tls_report
abbrev pub is_tls : Text → Text → TlsReport → Bool
is_tls org report_id r = text_eq r.organization_name org && text_eq r.report_id report_id

unfoldable pub insert_user : Text → Option Text → Bool → Exec Db User
insert_user email password_hash is_admin db =
    let row : User = record {
      id = db.next_id;
      email = email;
      password_hash = password_hash;
      is_admin = is_admin;
    } in
    if any (has_email email) db.users
    then (raised unique_failed, db)
    else (ok row, record db { users = db.users ++ row ∷ []; next_id = suc db.next_id })

unfoldable pub insert_token : ℕ → Text → Text → Text → Exec Db ApiToken
insert_token user_id name token_hash prefix db =
    let row : ApiToken = record {
      id = db.next_id;
      user_id = user_id;
      name = name;
      token_hash = token_hash;
      prefix = prefix;
    } in
    if any (has_hash token_hash) db.api_tokens
    then (raised unique_failed, db)
    else (ok row, record db { api_tokens = db.api_tokens ++ row ∷ []; next_id = suc db.next_id })

unfoldable pub insert_tenant : Text → Text → Exec Db Tenant
insert_tenant slug name db =
    let row : Tenant = record { id = db.next_id; slug = slug; name = name } in
    if any (has_slug slug) db.tenants
    then (raised unique_failed, db)
    else (ok row, record db { tenants = db.tenants ++ row ∷ []; next_id = suc db.next_id })

unfoldable pub insert_domain : ℕ → Text → Exec Db Domain
insert_domain tenant_id name db =
    let row : Domain = record { id = db.next_id; tenant_id = tenant_id; name = name } in
    if any (has_name name) db.domains
    then (raised unique_failed, db)
    else (ok row, record db { domains = db.domains ++ row ∷ []; next_id = suc db.next_id })

unfoldable pub insert_address : ℕ → Text → Bool → Exec Db ReportAddress
insert_address domain_id local_part active db =
    let row : ReportAddress = record {
      id = db.next_id;
      domain_id = domain_id;
      local_part = local_part;
      active = active;
      created_at = db.now;
    } in
    if any (has_local_part local_part) db.addresses
    then (raised unique_failed, db)
    else (ok row, record db { addresses = db.addresses ++ row ∷ []; next_id = suc db.next_id })

-- The row comes with an id that the insertion replaces.
unfoldable pub insert_raw : RawMessage → Exec Db RawMessage
insert_raw raw db =
    let row : RawMessage = record raw { id = db.next_id } in
    (ok row, record db { raw_messages = db.raw_messages ++ row ∷ []; next_id = suc db.next_id })

unfoldable pub insert_aggregate : AggregateReport → Exec Db AggregateReport
insert_aggregate report db =
    let row : AggregateReport = record report { id = db.next_id } in
    if any (is_aggregate row.org_name row.report_id row.policy_domain) db.aggregate_reports
    then (raised unique_failed, db)
    else (
      ok row,
      record db { aggregate_reports = db.aggregate_reports ++ row ∷ []; next_id = suc db.next_id },
    )

unfoldable pub insert_tls : TlsReport → Exec Db TlsReport
insert_tls report db =
    let row : TlsReport = record report { id = db.next_id } in
    if any (is_tls row.organization_name row.report_id) db.tls_reports
    then (raised unique_failed, db)
    else (ok row, record db { tls_reports = db.tls_reports ++ row ∷ []; next_id = suc db.next_id })
