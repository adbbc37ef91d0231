-- ===== src/Pipeline/Arrival.antt =====
-- What becomes of an arriving message: it is never lost, whatever it contains.
use dmarc_service.Base.{
  ℕ, suc, true, false, ◌⊎◌, if◌then◌else◌, ◌≡◌, refl, ◌∙◌, ap, List, [], ◌∷◌, ◌++◌, none, some,
  Option-cases, inl, inr, arith, ◌==◌, update,
}
use dmarc_service.Base.Rows.{
  All, All-map, All-find, find_of_any, update-append, update_none, All-update,
}
use dmarc_service.Base.Text.{Text, Bytes, codes}
use dmarc_service.Base.Exec.{Result, ok, raised}
use dmarc_service.Schema.{
  Domain, ReportAddress, RawMessage, AggregateReport, TlsReport, Db, routed, retired, unrouted,
}
use dmarc_service.Schema.Insert.{insert_raw}
use dmarc_service.Schema.Valid.{IsValid, HasDomain, HasIdBelow, insert_raw-IsValid}
use dmarc_service.ControlPlane.Provision.{resolve_address, resolve_retired_address}
use dmarc_service.Parsers.Decoders.{Decoders}
use dmarc_service.Pipeline.Store.{Owner, Tally, store_reports}
use dmarc_service.Pipeline.Flush.{are_taken, not_taken, flush-pure, taken_or_not}
use dmarc_service.Pipeline.Message.{
  active_for, retired_for, owner_by_address, Route, route, local_part_of, verdict, Verdict,
  with_verdict, has_raw_id, set_verdict, new_raw, process_message, quarantine_of, retired_note,
}
use dmarc_service.Pipeline.Grows.{store_reports-Grows}
use dmarc_service.Pipeline.Unique.{store_reports-IsValid}

-- The domain of a stored address exists.
pub owner_total :
    (db : Db) (a : ReportAddress)
    → HasDomain db.domains a
    → (o : Owner) × (owner_by_address db a ≡ ok o)
unfolding owner_by_address
owner_total db a h =
    let (d, e) = find_of_any (λ (d : Domain). d.id == a.domain_id) db.domains h in
    (
      record { tenant_id = some d.tenant_id; domain_id = some a.domain_id },
      rw (e, owner_by_address),
    )

pub active-HasDomain :
    (db : Db) (local_part : Text) {a : ReportAddress}
    → IsValid db
    → active_for db local_part ≡ some a
    → HasDomain db.domains a
unfolding active_for resolve_address
active-HasDomain db [] v e = cc
active-HasDomain db (c ∷ s) v e = All-find (HasDomain db.domains) _ db.addresses v.address_domains e

pub retired-HasDomain :
    (db : Db) (local_part : Text) {a : ReportAddress}
    → IsValid db
    → active_for db local_part ≡ none
    → retired_for db local_part ≡ some a
    → HasDomain db.domains a
unfolding resolve_retired_address retired_for
retired-HasDomain db [] v n e = cc
retired-HasDomain db (c ∷ s) v n e =
    All-find (HasDomain db.domains) _ db.addresses v.address_domains (rw (n, retired_for) at e)

-- Routing by recipient always gives an answer.
pub route_total : (db : Db) (rcpt_to : Text) → IsValid db → (r : Route) × (route db rcpt_to ≡ ok r)
unfolding route
route_total db rcpt_to v = elim (Option-cases (active_for db (local_part_of rcpt_to))) [
  | inr (a, e) ↦
      let (o, found) = owner_total db a (active-HasDomain db (local_part_of rcpt_to) v e) in
      (record { owner = o; status = routed; error = codes "" }, rw (e, route, found))
  | inl n ↦ elim (Option-cases (retired_for db (local_part_of rcpt_to))) [
    | inr (a, e) ↦
        let (o, found) = owner_total db a (retired-HasDomain db (local_part_of rcpt_to) v n e) in
        (record { owner = o; status = retired; error = retired_note }, rw (n, route, e, found))
    | inl none_retired ↦ (
      record {
        owner = record { tenant_id = quarantine_of db; domain_id = none };
        status = unrouted;
        error = codes "";
      },
      rw (n, route, none_retired),
    )
  ]
]

pub set_verdict-IsValid :
    (id : ℕ) (v : Verdict) (db : Db) → IsValid db → IsValid (set_verdict id v db)
unfolding set_verdict
set_verdict-IsValid id verdict db v = record {
  slugs = v.slugs;
  names = v.names;
  local_parts = v.local_parts;
  aggregates = v.aggregates;
  tls = v.tls;
  address_domains = v.address_domains;
  domain_tenants = v.domain_tenants;
  raw_ids =
      All-update (HasIdBelow db.next_id) (has_raw_id id) (with_verdict verdict) db.raw_messages
        (λ raw h. h) v.raw_ids;
}

-- Only the new row carries the new id.
set_verdict_last :
    (n : ℕ) (v : Verdict) (ms : List RawMessage) (raw : RawMessage)
    → All (HasIdBelow n) ms
    → raw.id ≡ n
    → update (has_raw_id n) (with_verdict v) (ms ++ raw ∷ []) ≡ ms ++ with_verdict v raw ∷ []
set_verdict_last n v ms raw h e =
    update-append (has_raw_id n) (with_verdict v) ms (raw ∷ [])
    ∙ rw (update_none (has_raw_id n) (with_verdict v) ms (All-map ms (λ m k. ground arith) h))
        (ground (arith, e))

module _ (dec : Decoders) (content : Bytes) (source_ip mail_from rcpt_to : Text) (db : Db) where
  abbrev pub arrived : RawMessage
  arrived = record (new_raw content source_ip mail_from rcpt_to) { id = db.next_id }

  abbrev pub with_raw : Db
  with_raw = record db { raw_messages = db.raw_messages ++ arrived ∷ []; next_id = suc db.next_id }

  -- the call of `_store_reports`, once the route is known
  abbrev pub stored_by : Route → Result Tally × Db
  stored_by r = store_reports dec db.next_id r.owner content with_raw

  -- the database before the last flush
  abbrev pub judged : Route → Db
  judged r = set_verdict db.next_id (verdict r (stored_by r).0) (stored_by r).1

  pub process_message_lem :
      (r : Route)
      → route with_raw rcpt_to ≡ ok r
      → process_message dec content source_ip mail_from rcpt_to db ≡ (
        (if are_taken dec db (judged r)
            then ok (with_verdict (verdict r (stored_by r).0) arrived)
            else raised not_taken),
        judged r,
      )
  unfolding process_message
  process_message_lem r e =
      rw e (flush-pure dec db (judged r) (with_verdict (verdict r (stored_by r).0) arrived))

  pub with_raw-IsValid : IsValid db → IsValid with_raw
  unfolding insert_raw
  with_raw-IsValid v = insert_raw-IsValid (new_raw content source_ip mail_from rcpt_to) db v

  pub process_message_total :
      IsValid db
      → let (result, db') = process_message dec content source_ip mail_from rcpt_to db in
        (raw : RawMessage) × (((result ≡ ok raw) × (are_taken dec db db' ≡ true))
          ⊎ ((result ≡ raised not_taken) × (are_taken dec db db' ≡ false)))
        × (db'.raw_messages ≡ db.raw_messages ++ raw ∷ [])
        × (raw.content ≡ content)
        × (raw.mail_from ≡ mail_from)
        × (raw.rcpt_to ≡ rcpt_to)
        × ((rs : List AggregateReport) × (db'.aggregate_reports ≡ db.aggregate_reports ++ rs))
        × ((ts : List TlsReport) × (db'.tls_reports ≡ db.tls_reports ++ ts))
        × IsValid db'
  unfolding set_verdict
  process_message_total v =
      let (r, e) = route_total with_raw rcpt_to (with_raw-IsValid v) in
      let g = store_reports-Grows dec db.next_id r.owner content with_raw in
      let after = stored_by r in
      let word = verdict r after.0 in
      rw (process_message_lem r e) (
        with_verdict word arrived,
        taken_or_not (are_taken dec db (judged r)) (with_verdict word arrived),
        ap (λ (d : Db). update (has_raw_id db.next_id) (with_verdict word) d.raw_messages) g.grown
            ∙ set_verdict_last db.next_id word db.raw_messages arrived v.raw_ids refl,
        refl,
        refl,
        refl,
        (g.aggregates, ap (λ (d : Db). d.aggregate_reports) g.grown),
        (g.tls, ap (λ (d : Db). d.tls_reports) g.grown),
        set_verdict-IsValid db.next_id word after.1
            (store_reports-IsValid dec db.next_id r.owner content with_raw (with_raw-IsValid v)),
      )
