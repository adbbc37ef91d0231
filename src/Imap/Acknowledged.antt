-- ===== src/Imap/Acknowledged.antt =====
-- What it means that a message is acknowledged only after it was stored.
use dmarc_service.Base.{
  ◌≡◌, refl, ◌∙◌, ap, true, List, [], ◌∷◌, ◌++◌, Option, none, some, any, any-append,
  any-append_left, append-nil, append_assoc, if◌then◌else◌, arith, sym,
}
use mathlib.Core.Path.{subst}
use dmarc_service.Base.Text.{Text, Bytes, text_eq, text_eq_refl}
use dmarc_service.Schema.{RawMessage, Db}
use dmarc_service.Schema.Valid.{IsValid}
use dmarc_service.Imap.Client.{
  selected, searched, expunged, closed, logged_out, fetched, flagged, copied, Log, Poll,
}
use dmarc_service.Imap.Stored.{Stores}

-- some row has this content
abbrev pub HasContent : Bytes → List RawMessage → Type 0
HasContent content ms = any (λ m. text_eq m.content content) ms ≡ true

-- the body of the message with this number, as it was fetched last
unfoldable pub last_body : Text → Log → Option Bytes
last_body number [] = none
last_body number (fetched n b ∷ log) =
    let earlier = last_body number log in if text_eq n number then b else earlier
last_body number (selected f ∷ log) = last_body number log
last_body number (searched ∷ log) = last_body number log
last_body number (expunged ∷ log) = last_body number log
last_body number (closed ∷ log) = last_body number log
last_body number (logged_out ∷ log) = last_body number log
last_body number (flagged n f ∷ log) = last_body number log
last_body number (copied n f ∷ log) = last_body number log

-- Each message that a flag was set on was fetched before that, and what was fetched is on a row.
unfoldable pub IsAcknowledged : List RawMessage → Log → Type 0
unfolding last_body
IsAcknowledged ms [] = Unit
IsAcknowledged ms (flagged n f ∷ log) =
    ((content : Bytes) × (last_body n log ≡ some content) × HasContent content ms)
    × IsAcknowledged ms log
IsAcknowledged ms (fetched n b ∷ log) = IsAcknowledged ms log
IsAcknowledged ms (selected f ∷ log) = IsAcknowledged ms log
IsAcknowledged ms (searched ∷ log) = IsAcknowledged ms log
IsAcknowledged ms (expunged ∷ log) = IsAcknowledged ms log
IsAcknowledged ms (closed ∷ log) = IsAcknowledged ms log
IsAcknowledged ms (logged_out ∷ log) = IsAcknowledged ms log
IsAcknowledged ms (copied n f ∷ log) = IsAcknowledged ms log

-- More rows keep what was acknowledged.
IsAcknowledged-append :
    (ms new : List RawMessage) (log : Log) → IsAcknowledged ms log → IsAcknowledged (ms ++ new) log
unfolding IsAcknowledged
IsAcknowledged-append ms new [] h = tt
IsAcknowledged-append ms new (flagged n f ∷ log) ((content, body, held), h) = (
  (content, body, any-append_left (λ m. text_eq m.content content) ms new held),
  IsAcknowledged-append ms new log h,
)
IsAcknowledged-append ms new (fetched n b ∷ log) h = IsAcknowledged-append ms new log h
IsAcknowledged-append ms new (selected f ∷ log) h = IsAcknowledged-append ms new log h
IsAcknowledged-append ms new (searched ∷ log) h = IsAcknowledged-append ms new log h
IsAcknowledged-append ms new (expunged ∷ log) h = IsAcknowledged-append ms new log h
IsAcknowledged-append ms new (closed ∷ log) h = IsAcknowledged-append ms new log h
IsAcknowledged-append ms new (logged_out ∷ log) h = IsAcknowledged-append ms new log h
IsAcknowledged-append ms new (copied n f ∷ log) h = IsAcknowledged-append ms new log h

-- How a poll that began with `db` stands.
pub record Polled (db : Db) (p : Poll) : Type 0 where
  pub valid : IsValid p.db
  pub acknowledged : IsAcknowledged p.db.raw_messages p.sent
  pub arrived : List RawMessage
  pub appended : p.db.raw_messages ≡ db.raw_messages ++ arrived
  pub accounts : p.db.imap_accounts ≡ db.imap_accounts
  pub clock : p.db.now ≡ db.now

-- the same with another list of commands
abbrev pub sent_now :
    {db : Db} {p : Poll} (log : Log)
    → Polled db p
    → IsAcknowledged p.db.raw_messages log
    → Polled db (record p { sent = log })
sent_now log k h = record {
  valid = k.valid;
  acknowledged = h;
  arrived = k.arrived;
  appended = k.appended;
  accounts = k.accounts;
  clock = k.clock;
}

pub stored_now :
    {db : Db} {p : Poll} {content : Bytes} {db' : Db}
    → Polled db p
    → Stores content p.db db'
    → Polled db (record p { db = db' }) × HasContent content db'.raw_messages
stored_now {p} {content} {db'} k s = (
  record {
    valid = s.valid;
    acknowledged =
        subst (λ ms. IsAcknowledged ms p.sent) (sym s.appended)
          (IsAcknowledged-append p.db.raw_messages (s.row ∷ []) p.sent k.acknowledged);
    arrived = k.arrived ++ s.row ∷ [];
    appended =
        s.appended ∙ ap (λ ms. ms ++ s.row ∷ []) k.appended ∙ append_assoc _ k.arrived (s.row ∷ []);
    accounts = s.accounts ∙ k.accounts;
    clock = s.clock ∙ k.clock;
  },
  rw (s.appended, any-append)
      (ground (arith, ap (λ c. text_eq c content) s.same_content, text_eq_refl content)),
)

pub Polled-fresh : (db : Db) → IsValid db → Polled db (record { db = db; sent = [] })
unfolding IsAcknowledged
Polled-fresh db v = record {
  valid = v;
  acknowledged = tt;
  arrived = [];
  appended = sym (append-nil db.raw_messages);
  accounts = refl;
  clock = refl;
}
