-- ===== src/Pipeline/Twice.antt =====
-- A routed message that is delivered again is recognised as a duplicate.
use dmarc_service.Base.{ℕ, ◌≡◌, ◌≢◌, refl, sym, ◌∙◌, ap, arith, Bool, true, false, if◌then◌else◌}
use dmarc_service.Base.Text.{Text, Bytes, codes}
use dmarc_service.Base.Exec.{Result, ok, raised}
use dmarc_service.Schema.{routed, duplicate, RawMessage, Db}
use dmarc_service.Schema.Valid.{IsValid}
use dmarc_service.Parsers.Decoders.{Decoders}
use dmarc_service.Pipeline.Store.{Tally}
use dmarc_service.ControlPlane.Provision.{resolve_address, resolve_retired_address}
use dmarc_service.Pipeline.Flush.{are_taken_none, not_taken}
use dmarc_service.Pipeline.Message.{
  Route, route, verdict, with_verdict, set_verdict, process_message, active_for, retired_for,
  owner_by_address,
}
use dmarc_service.Pipeline.Again.{Holds, store_reports_again}
use dmarc_service.Pipeline.Arrival.{
  route_total, arrived, with_raw, stored_by, judged, process_message_lem, with_raw-IsValid,
}

-- A message that ends as routed had its reports understood, and stored a new one.
verdict-routed :
    (r : Route) (outcome : Result Tally)
    → (verdict r outcome).0 ≡ routed
    → (parsed : ℕ) × (stored : ℕ) × (outcome ≡ ok (parsed, stored))
      × (r.status ≡ routed)
      × (parsed ≢ 0)
      × (stored ≢ 0)
unfolding verdict
verdict-routed r (raised e) h = cc
verdict-routed r (ok (parsed, stored)) h =
    (parsed, stored, refl, ground arith, ground arith, ground arith)

-- Reports that were understood before, none of them new.
verdict-nothing_new :
    (r : Route) (parsed : ℕ)
    → r.status ≡ routed
    → parsed ≢ 0
    → verdict r (ok (parsed, 0)) ≡ (duplicate, codes "already stored")
unfolding verdict
verdict-nothing_new r parsed s p = rw s (ground arith)

-- The new row of a message does not matter to its route.
route-with_raw :
    (dec : Decoders) (content : Bytes) (source_ip mail_from rcpt_to : Text) (db : Db)
    → route (with_raw dec content source_ip mail_from rcpt_to db) rcpt_to ≡ route db rcpt_to
unfolding route active_for retired_for owner_by_address resolve_address resolve_retired_address
route-with_raw dec content source_ip mail_from rcpt_to db = refl

ok_status :
    (taken : Bool) (a b : RawMessage)
    → (if taken then ok a else raised not_taken) ≡ ok b
    → a.status ≡ b.status
ok_status true a b e = cc
ok_status false a b e = cc

-- A message that was stored as routed is delivered again, by whichever server, while its recipient
-- is routed: the second row says that it is a duplicate, and no report is added, whatever happened in
-- between, as long as the keys of the reports are held.
pub process_message_twice :
    (dec : Decoders) (content : Bytes) (source_ip mail_from rcpt_to : Text) (db : Db)
    (raw : RawMessage) (source_ip' mail_from' : Text) (later : Db) (r : Route)
    → IsValid db
    → (process_message dec content source_ip mail_from rcpt_to db).0 ≡ ok raw
    → raw.status ≡ routed
    → Holds (process_message dec content source_ip mail_from rcpt_to db).1 later
    → route later rcpt_to ≡ ok r
    → r.status ≡ routed
    → let (result, db') = process_message dec content source_ip' mail_from' rcpt_to later in
      (again : RawMessage) × (result ≡ ok again)
      × (again.status ≡ duplicate)
      × (again.error ≡ codes "already stored")
      × (db'.aggregate_reports ≡ later.aggregate_reports)
      × (db'.tls_reports ≡ later.tls_reports)
unfolding set_verdict
process_message_twice dec content source_ip mail_from rcpt_to db raw source_ip' mail_from' later r v
      first stored more routes is_routed =
    let (r0, e0) =
      route_total (with_raw dec content source_ip mail_from rcpt_to db) rcpt_to
        (with_raw-IsValid dec content source_ip mail_from rcpt_to db v) in
    let run = process_message_lem dec content source_ip mail_from rcpt_to db r0 e0 in
    let outcome = stored_by dec content source_ip mail_from rcpt_to db r0 in
    let same = ok_status _ _ raw (sym (ap (λ x. x.0) run) ∙ first) in
    let (parsed, new, done, s0, p, n) = verdict-routed r0 outcome.0 (same ∙ stored) in
    let held : Holds outcome.1 (with_raw dec content source_ip' mail_from' rcpt_to later) =
      let m = rw run at more in record { aggregates = m.aggregates; tls = m.tls } in
    let again =
      store_reports_again dec db.next_id later.next_id r0.owner r.owner content
        (with_raw dec content source_ip mail_from rcpt_to db)
        (with_raw dec content source_ip' mail_from' rcpt_to later) done held in
    let word = verdict-nothing_new r parsed is_routed p in
    let run' =
      process_message_lem dec content source_ip' mail_from' rcpt_to later r
        (route-with_raw dec content source_ip' mail_from' rcpt_to later ∙ routes) in
    let full =
      are_taken_none dec later (judged dec content source_ip' mail_from' rcpt_to later r) in
    let taken = full (rw again refl) (rw again refl) in
    rw run' (
      rw taken (
        rw again (
          rw word (
            with_verdict (duplicate, codes "already stored")
                (arrived dec content source_ip' mail_from' rcpt_to later),
            refl,
            refl,
            refl,
            refl,
            refl,
          ))))
