-- ===== src/Imap/Fetch.antt =====
-- `fetch_once` of ingest/imap.py: the unread messages of one mailbox.
use dmarc_service.Base.{
  ℕ, suc, Bool, true, false, not, ◌&&◌, List, [], ◌∷◌, Option, none, some, if◌then◌else◌,
}
use dmarc_service.Base.Text.{Text, Bytes, codes, is_empty}
use dmarc_service.Base.Exec.{Exec, Result, ok, raised, pure, lift, modify, attempt, ◌>>=◌, ◌>>◌}
use dmarc_service.Schema.{Db, Status, routed, retired, duplicate}
use dmarc_service.Schema.Session.{session_scope}
use dmarc_service.Parsers.Decoders.{Decoders}
use dmarc_service.Pipeline.Message.{process_message}
use dmarc_service.Imap.Client.{
  seen, deleted, Sent, selected, searched, expunged, closed, logged_out, fetched, flagged, copied,
  Server, Mail, Poll,
}

-- `row` is the id of the mailbox in the database, when it came from there
pub record Account : Type 0 where
  pub host : Text
  pub port : ℕ
  pub use_ssl : Bool
  pub username : Text
  pub password : Text
  pub folder : Text
  pub processed_folder : Text
  pub row : Option ℕ

pub record FetchCounts : Type 0 where
  pub seen : ℕ
  pub stored : ℕ
  pub failed : ℕ

abbrev pub no_counts : FetchCounts
no_counts = record { seen = 0; stored = 0; failed = 0 }

abbrev pub recipient_headers : List Text
recipient_headers =
    codes "Delivered-To" ∷ codes "X-Original-To" ∷ codes "X-Envelope-To" ∷ codes "To" ∷ []

abbrev pub or_blank : Option Text → Text
or_blank none = []
or_blank (some t) = t

-- the first header with an address in it
unfoldable pub recipient_in : Mail → List Text → Bytes → Text
recipient_in mail [] raw = []
recipient_in mail (h ∷ hs) raw =
    let rest = recipient_in mail hs raw in
    let value = or_blank (mail.get raw h) in
    let address = mail.address_in value in
    if is_empty value then rest else if is_empty address then rest else address

abbrev pub recipient : Mail → Bytes → Text
recipient mail raw = recipient_in mail recipient_headers raw

abbrev pub sender : Mail → Bytes → Text
sender mail raw = mail.address_in (or_blank (mail.get raw (codes "From")))

-- stored.status in ("routed", "retired", "duplicate")
abbrev pub is_stored : Status → Bool
is_stored routed = true
is_stored retired = true
is_stored duplicate = true
is_stored _ = false

-- one count more, of the messages that were stored or of those that failed
abbrev pub count : Bool → FetchCounts → FetchCounts
count true n = record n { stored = suc n.stored }
count false n = record n { failed = suc n.failed }

-- try: ... finally: an exception of the cleanup takes the place of the block's result
abbrev pub finish_with : {S A : Type 0} → Result A × S → Result (Unit {0}) × S → Result A × S
finish_with ran (ok _, after) = (ran.0, after)
finish_with ran (raised x, after) = (raised x, after)

abbrev pub finally : {S A : Type 0} → Exec S A → Exec S (Unit {0}) → Exec S A
finally block cleanup before = let ran = block before in finish_with ran (cleanup ran.1)

module _ (server : Server) where
  -- a command, which is sent whether or not it raises
  unfoldable pub issue : Sent → Exec Poll (Unit {0})
  issue c p = (server.run p.sent c, record p { sent = c ∷ p.sent })

  unfoldable pub search : Exec Poll (Option (List Text))
  search p = (server.search p.sent, record p { sent = searched ∷ p.sent })

  abbrev pub body_of : Result (Option Bytes) → Option Bytes
  body_of (ok payload) = payload
  body_of (raised x) = none

  unfoldable pub fetch : Text → Exec Poll (Option Bytes)
  fetch number p =
      let payload = server.fetch p.sent number in
      (payload, record p { sent = fetched number (body_of payload) ∷ p.sent })

  unfoldable pub hang_up : Exec Poll (Unit {0})
  unfolding issue
  hang_up = do attempt (issue closed); issue logged_out

  module _ (mail : Mail) (dec : Decoders) where
    -- the block of the session, and what it says of the message
    unfoldable pub store : Bytes → Exec Db Bool
    unfolding process_message recipient_in
    store raw = do
      stored ← process_message dec raw (codes "") (sender mail raw) (recipient mail raw)
      pure (is_stored stored.status)

    unfoldable pub store_committed : Bytes → Exec Poll Bool
    unfolding session_scope store
    store_committed raw p =
        let (r, db) = session_scope (store raw) p.db in (r, record p { db = db })

    module _ (account : Account) where
      -- Only an exception leaves the message unread.
      unfoldable pub acknowledge : Text → FetchCounts → Result Bool → Exec Poll FetchCounts
      unfolding issue
      acknowledge number n (raised x) = pure (count false n)
      acknowledge number n (ok good) = do
        issue (flagged number seen)
        if good && not (is_empty account.processed_folder)
            then (do
              issue (copied number account.processed_folder)
              issue (flagged number deleted)
              pure (count good n))
            else pure (count good n)

      abbrev pub process_fetched : Text → FetchCounts → Option Bytes → Exec Poll FetchCounts
      process_fetched number n none = pure n
      process_fetched number n (some raw) = do
        outcome ← attempt (store_committed raw)
        acknowledge number (record n { seen = suc n.seen }) outcome

      unfoldable pub process_one : Text → FetchCounts → Exec Poll FetchCounts
      unfolding fetch store_committed acknowledge
      process_one number n = fetch number >>= process_fetched number n

      unfoldable pub process_all : List Text → FetchCounts → Exec Poll FetchCounts
      unfolding process_one
      process_all [] n = pure n
      process_all (number ∷ numbers) n = process_one number n >>= process_all numbers

      abbrev pub process_found : Option (List Text) → Exec Poll FetchCounts
      process_found none = pure no_counts
      process_found (some numbers) = do
        n ← process_all numbers no_counts
        if is_empty account.processed_folder then pure n else (issue expunged >> pure n)

      unfoldable pub poll : Exec Poll FetchCounts
      unfolding issue search process_all
      poll = do issue (selected account.folder); found ← search; process_found found

      -- a new connection, on which nothing was sent yet
      unfoldable pub fetch_once : Exec Poll FetchCounts
      unfolding poll hang_up
      fetch_once = do
        modify (λ p. record p { sent = [] })
        lift server.connect
        finally poll hang_up
