-- ===== src/Imap/Client.antt =====
-- What ingest/imap.py uses of imaplib and of the email package. Both are libraries: a `Server` is
-- a parameter, which answers each command of a connection as it likes, given the commands that were
-- sent before, and `Mail` reads the headers of a message.
use dmarc_service.Base.{Bool, List, Option}
use dmarc_service.Base.Text.{Text, Bytes}
use dmarc_service.Base.Exec.{Result}
use dmarc_service.Schema.{Db}

pub data Flag : Type 0 where
  seen deleted : Flag

-- What was sent over a connection; for a message that was fetched, with the answer.
pub data Sent : Type 0 where
  selected : Text → Sent
  searched expunged closed logged_out : Sent
  fetched : Text → Option Bytes → Sent
  flagged : Text → Flag → Sent
  copied : Text → Text → Sent

-- what was sent so far, the latest first
abbrev pub Log : Type 0
Log = List Sent

pub record Server : Type 0 where
  -- opening the connection and `login`
  pub connect : Result (Unit {0})
  -- whether selecting the folder, for reading only, answers OK; the first command of a connection
  pub open_readonly : Text → Result Bool
  -- data[0].split() of the unread messages, unless the status is not OK
  pub search : Log → Result (Option (List Text))
  -- payload[0][1], unless the status is not OK or there is no payload
  pub fetch : Log → Text → Result (Option Bytes)
  -- the other commands, which may raise
  pub run : Log → Sent → Result (Unit {0})

pub record Mail : Type 0 where
  -- message_from_bytes(raw).get(header)
  pub get : Bytes → Text → Option Text
  -- parseaddr(value)[1]
  pub address_in : Text → Text

-- the database, and what was sent over the open connection
pub record Poll : Type 0 where
  pub db : Db
  pub sent : Log
