-- ===== src/Pipeline/Filed.antt =====
-- Under which tenant and domain the reports of a message are filed.
use dmarc_service.Base.{
  ℕ, ◌≡◌, refl, sym, ap, List, [], ◌∷◌, ◌++◌, any, Bool-cases, inl, inr, append-nil, append_assoc,
  Option, some, find, ◌==◌,
}
use dmarc_service.Base.Rows.{All, All-append}
use dmarc_service.Base.Text.{Text, Bytes, codes}
use dmarc_service.Base.Exec.{ok}
use dmarc_service.Schema.{Domain, ReportAddress, AggregateReport, TlsReport, Source, Db, routed}
use dmarc_service.Schema.Insert.{is_aggregate, is_tls}
use dmarc_service.Parsers.Types.{ParsedAggregateReport, ParsedTlsReport}
use dmarc_service.Parsers.Decoders.{Decoders}
use dmarc_service.Pipeline.Store.{
  Owner, store_aggregate, store_tlsrpt, store_reports, file_under, file_tls_under, stored_aggregate,
  stored_tls,
}
use dmarc_service.Pipeline.Message.{
  route, local_part_of, active_for, owner_by_address, process_message, set_verdict,
}
use dmarc_service.ControlPlane.Provision.{resolve_address}
use dmarc_service.Pipeline.Induction.{store_reports_keeps}
use dmarc_service.Pipeline.Grows.{
  store_aggregate_old, store_aggregate_new, store_tlsrpt_old, store_tlsrpt_new, aggregate_row,
  tls_row,
}
use dmarc_service.Pipeline.Arrival.{process_message_lem, with_raw}

-- An owner with a domain overrides what a report says of itself.
file_under-known :
    (db : Db) (name : Text) (o : Owner) {id : ℕ} → o.domain_id ≡ some id → file_under db name o ≡ o
unfolding file_under
file_under-known db name o e = simp (file_under, e) refl

pub file_tls_under-known :
    (db : Db) (names : List Text) (o : Owner) {id : ℕ}
    → o.domain_id ≡ some id
    → file_tls_under db names o ≡ o
unfolding file_tls_under
file_tls_under-known db [] o e = refl
file_tls_under-known db (n ∷ names) o e = simp (file_tls_under, e) refl

abbrev pub IsFiledAggregate : Owner → AggregateReport → Type 0
IsFiledAggregate o r = (r.tenant_id ≡ o.tenant_id) × (r.domain_id ≡ o.domain_id)

abbrev pub IsFiledTls : Owner → TlsReport → Type 0
IsFiledTls o r = (r.tenant_id ≡ o.tenant_id) × (r.domain_id ≡ o.domain_id)

-- What `db'` has beyond `db` is filed under one owner.
pub record AddsFor (o : Owner) (db db' : Db) : Type 0 where
  pub aggregates : List AggregateReport
  pub tls : List TlsReport
  pub more_aggregates : db'.aggregate_reports ≡ db.aggregate_reports ++ aggregates
  pub more_tls : db'.tls_reports ≡ db.tls_reports ++ tls
  pub aggregates_filed : All (IsFiledAggregate o) aggregates
  pub tls_filed : All (IsFiledTls o) tls

module _ (o : Owner) {domain_id : ℕ} (known : o.domain_id ≡ some domain_id) (db : Db) where
  store_aggregate-AddsFor :
      (parsed : ParsedAggregateReport) (raw_id : ℕ) (now : Db)
      → AddsFor o db now
      → AddsFor o db (store_aggregate parsed raw_id o now).1
  unfolding stored_aggregate
  store_aggregate-AddsFor parsed raw_id now h =
      elim (Bool-cases (
        any (is_aggregate parsed.org_name parsed.report_id parsed.policy_domain)
          now.aggregate_reports)) [
            | inl old ↦ rw (store_aggregate_old parsed raw_id o now old) h
            | inr new ↦ rw (store_aggregate_new parsed raw_id o now new) (record {
              aggregates = h.aggregates ++ aggregate_row parsed raw_id o now ∷ [];
              tls = h.tls;
              more_aggregates = rw (h.more_aggregates, append_assoc);
              more_tls = rw (append-nil, h.more_tls);
              aggregates_filed = All-append (IsFiledAggregate o) h.aggregates _ h.aggregates_filed (
                (ap (λ (w : Owner). w.tenant_id) filed, ap (λ (w : Owner). w.domain_id) filed),
                tt,
              );
              tls_filed = h.tls_filed;
            })
          ]
    where
      filed : file_under now parsed.policy_domain o ≡ o
      filed = file_under-known now parsed.policy_domain o known

  store_tlsrpt-AddsFor :
      (parsed : ParsedTlsReport) (raw_id : Option ℕ) (source : Source) (now : Db)
      → AddsFor o db now
      → AddsFor o db (store_tlsrpt parsed raw_id o source now).1
  unfolding stored_tls
  store_tlsrpt-AddsFor parsed raw_id source now h =
      elim (Bool-cases (any (is_tls parsed.organization_name parsed.report_id) now.tls_reports)) [
        | inl old ↦ rw (store_tlsrpt_old parsed raw_id o source now old) h
        | inr new ↦ rw (store_tlsrpt_new parsed raw_id o source now new) (record {
          aggregates = h.aggregates;
          tls = h.tls ++ tls_row parsed raw_id o source now ∷ [];
          more_aggregates = rw (append-nil, h.more_aggregates);
          more_tls = rw (h.more_tls, append_assoc);
          aggregates_filed = h.aggregates_filed;
          tls_filed =
              All-append (IsFiledTls o) h.tls _ h.tls_filed (
                (ap (λ (w : Owner). w.tenant_id) filed, ap (λ (w : Owner). w.domain_id) filed),
                tt,
              );
        })
      ]
    where
      filed : file_tls_under now parsed.policy_domains o ≡ o
      filed = file_tls_under-known now parsed.policy_domains o known

  store_reports-AddsFor :
      (dec : Decoders) (raw_id : ℕ) (content : Bytes) (now : Db)
      → AddsFor o db now
      → AddsFor o db (store_reports dec raw_id o content now).1
  store_reports-AddsFor dec =
      store_reports_keeps dec (AddsFor o db) o store_aggregate-AddsFor store_tlsrpt-AddsFor

owner_of_address :
    (db : Db) (a : ReportAddress) (d : Domain)
    → find (λ (e : Domain). e.id == a.domain_id) db.domains ≡ some d
    → owner_by_address db a
      ≡ ok (record { tenant_id = some d.tenant_id; domain_id = some a.domain_id })
unfolding owner_by_address
owner_of_address db a d e = rw (owner_by_address, e) refl

route-active :
    (db : Db) (rcpt_to : Text) (a : ReportAddress) (d : Domain)
    → active_for db (local_part_of rcpt_to) ≡ some a
    → find (λ (e : Domain). e.id == a.domain_id) db.domains ≡ some d
    → route db rcpt_to
      ≡ ok (record {
        owner = record { tenant_id = some d.tenant_id; domain_id = some a.domain_id };
        status = routed;
        error = codes "";
      })
unfolding route
route-active db rcpt_to a d e f = rw (route, e) (rw (owner_of_address db a d f))

-- A message to an active address: every report that it adds is filed under the tenant and the domain
-- of that address, whatever the report says of itself.
pub process_message_filed :
    (dec : Decoders) (content : Bytes) (source_ip mail_from rcpt_to : Text) (db : Db)
    (a : ReportAddress) (d : Domain)
    → active_for db (local_part_of rcpt_to) ≡ some a
    → find (λ (e : Domain). e.id == a.domain_id) db.domains ≡ some d
    → AddsFor
        (record { tenant_id = some d.tenant_id; domain_id = some a.domain_id })
        db
        (process_message dec content source_ip mail_from rcpt_to db).1
unfolding set_verdict active_for resolve_address
process_message_filed dec content source_ip mail_from rcpt_to db a d e f =
    let o : Owner = record { tenant_id = some d.tenant_id; domain_id = some a.domain_id } in
    let start : Db = with_raw dec content source_ip mail_from rcpt_to db in
    let h = store_reports-AddsFor o refl db dec db.next_id content start (record {
      aggregates = [];
      tls = [];
      more_aggregates = sym (append-nil db.aggregate_reports);
      more_tls = sym (append-nil db.tls_reports);
      aggregates_filed = tt;
      tls_filed = tt;
    }) in
    rw
      (process_message_lem dec content source_ip mail_from rcpt_to db
        (record { owner = o; status = routed; error = codes "" })
        (route-active start rcpt_to a d e f))
      (record {
        aggregates = h.aggregates;
        tls = h.tls;
        more_aggregates = h.more_aggregates;
        more_tls = h.more_tls;
        aggregates_filed = h.aggregates_filed;
        tls_filed = h.tls_filed;
      })
