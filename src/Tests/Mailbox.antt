-- ===== src/Tests/Mailbox.antt =====
-- Polling a mailbox with one unread message.
use dmarc_service.Base.{◌≡◌, refl, true, false, List, [], ◌∷◌, ◌++◌, some, none}
use dmarc_service.Base.Rows.{All}
use dmarc_service.Base.Text.{codes}
use dmarc_service.Base.Exec.{Result, ok, raised, os_error}
use dmarc_service.Schema.{RawMessage, ImapAccount, Db}
use dmarc_service.Schema.Valid.{IsValid}
use dmarc_service.Imap.Client.{Server, Mail, Poll, Log, Sent, flagged}
use dmarc_service.Imap.Fetch.{Account, fetch_once}
use dmarc_service.Imap.Acknowledged.{IsAcknowledged}
use dmarc_service.Imap.Safe.{fetch_once_safe}
use dmarc_service.Imap.Poll.{accounts, PollTotals, fetch_all}
use dmarc_service.Imap.Polled.{IsPolledAt, fetch_all_lem}
use dmarc_service.Tests.Samples.{sample, sample-IsValid, decoders, xml_report, settings}

abbrev pub server : Server
server = record {
  connect = ok tt;
  open_readonly = λ folder. ok true;
  search = λ log. ok (some (codes "7" ∷ []));
  fetch = λ log n. ok (some xml_report);
  run = λ log c. ok tt;
}

-- a server that breaks off when a message is to be marked
abbrev no_marks : Log → Sent → Result (Unit {0})
no_marks log (flagged n f) = raised (os_error (codes "broken pipe"))
no_marks log _ = ok tt

abbrev broken : Server
broken = record server { run = no_marks }

abbrev pub mail : Mail
mail = record { get = λ raw header. some (codes "aa@d.net"); address_in = λ value. value }

abbrev box : Account
box = record {
  host = codes "mail";
  port = 993;
  use_ssl = true;
  username = codes "u";
  password = codes "p";
  folder = codes "INBOX";
  processed_folder = codes "Done";
  row = some 9;
}

fetch_once_safe_example :
    let p' = (fetch_once broken mail decoders box (record { db = sample; sent = [] })).1 in
    IsAcknowledged p'.db.raw_messages p'.sent
    × ((ms : List RawMessage) × (p'.db.raw_messages ≡ sample.raw_messages ++ ms))
    × IsValid p'.db
fetch_once_safe_example = fetch_once_safe broken mail decoders box sample [] sample-IsValid

abbrev mailbox : ImapAccount
mailbox = record {
  id = 9;
  host = codes "mail";
  port = 993;
  use_ssl = true;
  username = codes "u";
  password_encrypted = codes "p";
  folder = codes "INBOX";
  processed_folder = codes "Done";
  catch_all = false;
  enabled = true;
  last_polled_at = none;
  last_result = [];
}

abbrev with_mailbox : Db
with_mailbox = record sample { imap_accounts = mailbox ∷ [] }

with_mailbox-IsValid : IsValid with_mailbox
with_mailbox-IsValid = record {
  slugs = sample-IsValid.slugs;
  names = sample-IsValid.names;
  local_parts = sample-IsValid.local_parts;
  aggregates = sample-IsValid.aggregates;
  tls = sample-IsValid.tls;
  address_domains = sample-IsValid.address_domains;
  domain_tenants = sample-IsValid.domain_tenants;
  raw_ids = sample-IsValid.raw_ids;
}

fetch_all_lem_example :
    (t : PollTotals) × (db' : Db) × (fetch_all (λ a. broken) mail decoders ok settings with_mailbox
      ≡ (ok t, db'))
    × (t.mailboxes ≡ 1)
    × All (λ (a : Account). IsPolledAt 0 a.row db'.imap_accounts) (box ∷ [])
    × ((ms : List RawMessage) × (db'.raw_messages ≡ sample.raw_messages ++ ms))
    × IsValid db'
unfolding accounts
fetch_all_lem_example =
    fetch_all_lem (λ a. broken) mail decoders ok settings with_mailbox (box ∷ [])
      with_mailbox-IsValid refl
