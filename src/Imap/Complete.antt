-- ===== src/Imap/Complete.antt =====
-- With a server that answers, a poll leaves nothing behind.
use dmarc_service.Base.{◌+◌, ◌≡◌, Bool, true, false, List, ◌++◌, some, any, map, length}
use dmarc_service.Base.Rows.{All}
use dmarc_service.Base.Text.{Text, Bytes, text_eq}
use dmarc_service.Base.Exec.{Exec, Result, ok}
use dmarc_service.Schema.{RawMessage, Db}
use dmarc_service.Schema.Valid.{IsValid}
use dmarc_service.Parsers.Decoders.{Decoders}
use dmarc_service.Imap.Client.{seen, Sent, flagged, Log, Server, Mail, Poll}
use dmarc_service.Imap.Fetch.{Account, FetchCounts, search, fetch}
use dmarc_service.Pipeline.Flush.{TakesAll}

-- the command that marks this message as read
abbrev pub is_read_mark : Text → Sent → Bool
is_read_mark number (flagged n seen) = text_eq n number
is_read_mark number _ = false

abbrev pub contents : Db → List Bytes
contents db = map (λ (m : RawMessage). m.content) db.raw_messages

module _ (server : Server) (mail : Mail) (dec : Decoders) (account : Account) (numbers : List Text)
    (body : Text → Bytes) (opens : server.connect ≡ ok tt)
    (lists : (log : Log) → server.search log ≡ ok (some numbers))
    (serves : (log : Log) (n : Text) → server.fetch log n ≡ ok (some (body n)))
    (runs : (log : Log) (c : Sent) → server.run log c ≡ ok tt) (takes : TakesAll dec) where
  -- What the commands for some messages do: each was read and marked.
  abbrev Reads : List Text → (Result FetchCounts × Poll) → FetchCounts → Poll → Type 0
  Reads done run n p =
      (n' : FetchCounts) × (p' : Poll) × (run ≡ (ok n', p'))
      × IsValid p'.db
      × (n'.seen ≡ length done + n.seen)
      × (n'.stored + n'.failed ≡ length done + (n.stored + n.failed))
      × ((new : Log) × (p'.sent ≡ new ++ p.sent)
          × All (λ number. any (is_read_mark number) new ≡ true) done)
      × (contents p'.db ≡ contents p.db ++ map body done)
