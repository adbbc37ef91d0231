-- ===== src/Imap/Safe.antt =====
-- A message is acknowledged only after it was stored, whatever the server answers.
use dmarc_service.Base.{
  ◌≡◌, refl, ap, Bool, not, ◌&&◌, List, [], ◌∷◌, ◌++◌, Option, none, some, sym, suc, Bool-cases,
  inl, inr,
}
use mathlib.Core.Path.{subst}
use dmarc_service.Base.Text.{Text, Bytes, text_eq_refl, is_empty}
use dmarc_service.Base.Exec.{Exc, Exec, Result, Result-cases, ok, raised, attempt, state-bind}
use dmarc_service.Schema.{RawMessage, Db}
use dmarc_service.Schema.Valid.{IsValid}
use dmarc_service.Parsers.Decoders.{Decoders}
use dmarc_service.Imap.Client.{
  seen, deleted, selected, searched, expunged, fetched, flagged, copied, Log, Server, Mail, Poll,
}
use dmarc_service.Imap.Fetch.{
  Account, FetchCounts, no_counts, issue, search, fetch, hang_up, store_committed, acknowledge,
  process_one, process_all, process_found, process_fetched, finally, poll, fetch_once, body_of,
}
use dmarc_service.Imap.Acknowledged.{
  HasContent, last_body, IsAcknowledged, Polled, sent_now, stored_now, Polled-fresh,
}
use dmarc_service.Imap.Stored.{store_committed_lem}

pub finally-state :
    {S A : Type 0} (block : Exec S A) (cleanup : Exec S (Unit {0})) (s : S)
    → (finally block cleanup s).1 ≡ (cleanup (block s).1).1
finally-state block cleanup s = elim (Result-cases (cleanup (block s).1).0) [
  | inl (a, e) ↦ rw (finally, e) refl
  | inr (x, e) ↦ rw (finally, e) refl
]

not_both :
    {r o : Result Bool} {x : Exc} {good : Bool}
    → r ≡ raised x
    → ◌≡◌ {A = Result (Result Bool)} (ok r) (ok o)
    → o ≡ ok good
    → ⊥
not_both e h k = cc

module _ (server : Server) (mail : Mail) (dec : Decoders) (account : Account) (db : Db) where
  acknowledge-Polled :
      (number : Text) (n : FetchCounts) (r : Result Bool) (p : Poll)
      → Polled db p
      → ((good : Bool)
          → r ≡ ok good
          → (content : Bytes) × (last_body number p.sent ≡ some content)
            × HasContent content p.db.raw_messages)
      → Polled db (acknowledge server mail dec account number n r p).1
  unfolding acknowledge issue IsAcknowledged last_body
  acknowledge-Polled number n (raised x) p k held = k
  acknowledge-Polled number n (ok good) p k held =
      let set = flagged number seen ∷ p.sent in
      let copy = copied number account.processed_folder ∷ set in
      let gone = flagged number deleted ∷ copy in
      let acked : Polled db (record p { sent = set }) =
        sent_now set k (held good refl, k.acknowledged) in
      state-bind (Polled db) (issue server (flagged number seen)) _ p
        (λ _ _. elim (Bool-cases (good && not (is_empty account.processed_folder))) [
          | inr stays ↦ rw stays acked
          | inl moves ↦ rw moves (
              state-bind (Polled db) (issue server (copied number account.processed_folder)) _ _
                (λ _ _.
                  state-bind (Polled db) (issue server (flagged number deleted)) _ _
                    (λ _ _. sent_now gone acked (held good refl, acked.acknowledged))
                    (sent_now gone acked (held good refl, acked.acknowledged)))
                (sent_now copy acked acked.acknowledged))
        ])
        acked

  process_one-Polled :
      (number : Text) (n : FetchCounts) (p : Poll)
      → Polled db p
      → Polled db (process_one server mail dec account number n p).1
  unfolding process_one fetch IsAcknowledged last_body
  process_one-Polled number n p k =
      state-bind (Polled db) (fetch server number) _ p (λ payload e. by_payload payload e) got
    where
      asked : Log
      asked = fetched number (body_of server (server.fetch p.sent number)) ∷ p.sent

      got : Polled db (record p { sent = asked })
      got = sent_now asked k k.acknowledged

      stored : Bytes → Result Bool × Poll
      stored raw = store_committed server mail dec raw (record p { sent = asked })

      by_payload :
          (payload : Option Bytes)
          → server.fetch p.sent number ≡ ok payload
          → Polled db
              (process_fetched server mail dec account number n payload
                (record p { sent = asked })).1
      by_payload none e = got
      by_payload (some raw) e =
          elim (store_committed_lem server mail dec raw (record p { sent = asked }) k.valid) [
            | inr (x, run, refused) ↦
                state-bind (Polled db) (attempt (store_committed server mail dec raw))
                  (acknowledge server mail dec account number (record n { seen = suc n.seen }))
                  (record p { sent = asked })
                  (λ outcome h.
                    acknowledge-Polled number (record n { seen = suc n.seen }) outcome
                      (stored raw).1 (subst (λ r. Polled db r.1) (sym run) got)
                      (λ good e. absurd (not_both (ap (λ r. r.0) run) h e)))
                  (subst (λ r. Polled db r.1) (sym run) got)
            | inl (good, db', run, s) ↦
                (let (kept, held) = stored_now got s in
                  let after : Polled db (stored raw).1
                      × HasContent raw (stored raw).1.db.raw_messages
                      × (last_body number (stored raw).1.sent ≡ some raw) =
                    subst
                      (λ r.
                        Polled db r.1
                        × HasContent raw r.1.db.raw_messages
                        × (last_body number r.1.sent ≡ some raw))
                      (sym run) (kept, held, rw (e, text_eq_refl number) refl) in
                  state-bind (Polled db) (attempt (store_committed server mail dec raw))
                    (acknowledge server mail dec account number (record n { seen = suc n.seen }))
                    (record p { sent = asked })
                    (λ outcome _.
                      acknowledge-Polled number (record n { seen = suc n.seen }) outcome
                        (stored raw).1 after.0 (λ _ _. (raw, after.2, after.1)))
                    after.0)
          ]

  process_all-Polled :
      (numbers : List Text) (n : FetchCounts) (p : Poll)
      → Polled db p
      → Polled db (process_all server mail dec account numbers n p).1
  unfolding process_all
  process_all-Polled [] n p k = k
  process_all-Polled (number ∷ numbers) n p k =
      let first = process_one-Polled number n p k in
      state-bind (Polled db) (process_one server mail dec account number n) _ p
        (λ m _. process_all-Polled numbers m _ first) first

  process_found-Polled :
      (found : Option (List Text)) (p : Poll)
      → Polled db p
      → Polled db (process_found server mail dec account found p).1
  unfolding issue IsAcknowledged
  process_found-Polled none p k = k
  process_found-Polled (some numbers) p k =
      let all_done = process_all-Polled numbers no_counts p k in
      state-bind (Polled db) (process_all server mail dec account numbers no_counts) _ p
        (λ n _. elim (Bool-cases (is_empty account.processed_folder)) [
          | inl stays ↦ rw stays all_done
          | inr moves ↦ rw moves (
              state-bind (Polled db) (issue server expunged) _ _
                (λ _ _. sent_now _ all_done all_done.acknowledged)
                (sent_now _ all_done all_done.acknowledged))
        ])
        all_done

  poll-Polled : (p : Poll) → Polled db p → Polled db (poll server mail dec account p).1
  unfolding poll issue search IsAcknowledged
  poll-Polled p k =
      let opened : Polled db (record p { sent = selected account.folder ∷ p.sent }) =
        sent_now _ k k.acknowledged in
      let asked : Polled db (record p { sent = searched ∷ selected account.folder ∷ p.sent }) =
        sent_now _ k k.acknowledged in
      state-bind (Polled db) (issue server (selected account.folder)) _ p
        (λ _ _.
          state-bind (Polled db) (search server) _ _ (λ found _. process_found-Polled found _ asked)
            asked)
        opened

  pub fetch_once-Polled :
      (p : Poll)
      → Polled db (record p { sent = [] })
      → Polled db (fetch_once server mail dec account p).1
  unfolding fetch_once hang_up issue IsAcknowledged
  fetch_once-Polled p k = elim (Result-cases server.connect) [
    | inr (x, e) ↦ rw e k
    | inl (opened, e) ↦
        let done = poll-Polled (record p { sent = [] }) k in
        rw e (
          subst (Polled db) (sym (finally-state (poll server mail dec account) (hang_up server) _))
            (sent_now _ done done.acknowledged))
  ]

  -- Whatever the server and the decoders do, each message that fetching flags on the server was
  -- fetched on the same connection, and a row holds what was fetched; rows are only added to the stored
  -- messages; and the constraints of the schema still hold.
  pub fetch_once_safe :
      (sent : Log)
      → IsValid db
      → let p' = (fetch_once server mail dec account (record { db = db; sent = sent })).1 in
        IsAcknowledged p'.db.raw_messages p'.sent
        × ((ms : List RawMessage) × (p'.db.raw_messages ≡ db.raw_messages ++ ms))
        × IsValid p'.db
  unfolding IsAcknowledged
  fetch_once_safe sent v =
      let k = fetch_once-Polled (record { db = db; sent = sent }) (Polled-fresh db v) in
      (k.acknowledged, (k.arrived, k.appended), k.valid)
