-- ===== src/Imap/Stored.antt =====
-- Storing one fetched message, in its own session.
use dmarc_service.Base.{Bool, true, false, ◌⊎◌, inl, inr, ◌≡◌, refl, ap, [], ◌∷◌, ◌++◌}
use dmarc_service.Base.Text.{Bytes, codes}
use dmarc_service.Base.Exec.{Exc, ok, raised}
use dmarc_service.Schema.{RawMessage, Db}
use dmarc_service.Schema.Session.{session_scope-ok, session_scope-raised}
use dmarc_service.Schema.Valid.{IsValid}
use dmarc_service.Parsers.Decoders.{Decoders}
use dmarc_service.Pipeline.Flush.{not_taken, TakesAll, TakesAll-are_taken}
use dmarc_service.Pipeline.Message.{process_message, set_verdict}
use dmarc_service.Pipeline.Grows.{store_reports-Grows}
use dmarc_service.Pipeline.Arrival.{
  process_message_total, process_message_lem, route_total, with_raw, with_raw-IsValid,
}
use dmarc_service.Imap.Client.{Server, Mail, Poll}
use dmarc_service.Imap.Fetch.{recipient, sender, is_stored, store, store_committed}

-- The database after a message with this content was stored.
pub record Stores (content : Bytes) (db db' : Db) : Type 0 where
  pub row : RawMessage
  pub appended : db'.raw_messages ≡ db.raw_messages ++ row ∷ []
  pub same_content : row.content ≡ content
  pub valid : IsValid db'
  pub accounts : db'.imap_accounts ≡ db.imap_accounts
  pub clock : db'.now ≡ db.now

process_message_quiet :
    (dec : Decoders) (content mail_from rcpt_to : Bytes) (db : Db)
    → IsValid db
    → let db' = (process_message dec content (codes "") mail_from rcpt_to db).1 in
      (db'.imap_accounts ≡ db.imap_accounts) × (db'.now ≡ db.now)
unfolding set_verdict
process_message_quiet dec content mail_from rcpt_to db v =
    let before = with_raw dec content (codes "") mail_from rcpt_to db in
    let (r, e) =
      route_total before rcpt_to (with_raw-IsValid dec content (codes "") mail_from rcpt_to db v) in
    let g = store_reports-Grows dec db.next_id r.owner content before in
    rw (process_message_lem dec content (codes "") mail_from rcpt_to db r e)
      (ap (λ (d : Db). d.imap_accounts) g.grown, ap (λ (d : Db). d.now) g.grown)

refuse : {b : Bool} → b ≡ false → b ≡ true → ⊥
refuse h k = cc

module _ (server : Server) (mail : Mail) (dec : Decoders) where
  -- The message is stored, or storing it raises and changes nothing.
  pub store_committed_lem :
      (content : Bytes) (p : Poll)
      → IsValid p.db
      → ((good : Bool) × (db' : Db) × (store_committed server mail dec content p
            ≡ (ok good, record p { db = db' }))
          × Stores content p.db db')
        ⊎ ((x : Exc) × (store_committed server mail dec content p ≡ (raised x, p))
            × (TakesAll dec → ⊥))
  unfolding store_committed store
  store_committed_lem content p v =
      let mail_from = sender mail content in
      let rcpt_to = recipient mail content in
      let (raw, returned, appended, same, from, to, rs, ts, valid) =
        process_message_total dec content (codes "") mail_from rcpt_to p.db v in
      let quiet = process_message_quiet dec content mail_from rcpt_to p.db v in
      let done = process_message dec content (codes "") mail_from rcpt_to p.db in
      elim returned [
        | inl (returns, taken) ↦
            (let block : store server mail dec content p.db ≡ (ok (is_stored raw.status), done.1) =
                rw (store, returns) refl in
              inl (
                is_stored raw.status,
                done.1,
                rw
                    (
                      store_committed,
                      session_scope-ok (store server mail dec content) p.db (ap (λ r. r.0) block),
                      block,
                    )
                    refl,
                record {
                  row = raw;
                  appended = appended;
                  same_content = same;
                  valid = valid;
                  accounts = quiet.0;
                  clock = quiet.1;
                },
              ))
        | inr (raises, refused) ↦
            (let block : store server mail dec content p.db ≡ (raised not_taken, done.1) =
                rw (store, raises) refl in
              inr (
                not_taken,
                rw
                    (
                      store_committed,
                      session_scope-raised (store server mail dec content) p.db
                          (ap (λ r. r.0) block),
                    )
                    refl,
                λ all. refuse refused (TakesAll-are_taken dec p.db done.1 all),
              ))
      ]

  -- Where the columns take every report, the message is stored.
  pub store_committed_taken :
      (content : Bytes) (p : Poll)
      → TakesAll dec
      → IsValid p.db
      → (good : Bool) × (db' : Db) × (store_committed server mail dec content p
          ≡ (ok good, record p { db = db' }))
        × Stores content p.db db'
  store_committed_taken content p all v = elim (store_committed_lem content p v) [
    | inl stored ↦ stored
    | inr (x, e, refused) ↦ absurd (refused all)
  ]
