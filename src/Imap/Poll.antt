-- ===== src/Imap/Poll.antt =====
-- `accounts`, `fetch_all` and `check` of ingest/imap.py: every configured mailbox. The cipher of
-- auth/crypto.py and the servers behind the accounts are parameters.
use dmarc_service.Base.{
  ℕ, suc, ◌+◌, Bool, List, [], ◌∷◌, ◌++◌, Option, none, some, select, update, take, ◌==◌,
  if◌then◌else◌,
}
use dmarc_service.Base.Text.{Text, codes, is_empty, decimal}
use dmarc_service.Base.Exec.{Exec, Result, ok, raised, message, pure, modify, attempt, ◌>>=◌, ◌>>◌}
use dmarc_service.Config.{Settings}
use dmarc_service.Schema.{ImapAccount, Db}
use dmarc_service.Parsers.Decoders.{Decoders}
use dmarc_service.Imap.Client.{selected, closed, logged_out, Server, Mail}
use dmarc_service.Imap.Fetch.{Account, FetchCounts, no_counts, fetch_once}

abbrev pub has_account_id : ℕ → ImapAccount → Bool
has_account_id id row = row.id == id

-- the result of trying to open the folder, unless signing out raises
unfoldable pub check : Server → Account → Result Text
check server account =
    let problem : Result Text = elim (server.open_readonly account.folder) [
      | raised x ↦ raised x
      | ok opened ↦ ok (if opened then [] else (codes "cannot open folder " ++ account.folder))
    ] in
    elim server.connect [
      | raised x ↦ raised x
      | ok _ ↦ elim (server.run (closed ∷ selected account.folder ∷ []) logged_out) [
        | raised x ↦ raised x
        | ok _ ↦ problem
      ]
    ]

unfoldable pub from_settings : Settings → Account
from_settings settings = record {
  host = settings.imap_host;
  port = settings.imap_port;
  use_ssl = settings.imap_ssl;
  username = settings.imap_username;
  password = settings.imap_password;
  folder = settings.imap_folder;
  processed_folder = settings.imap_processed_folder;
  row = none;
}

module _ (decrypt : Text → Result Text) where
  unfoldable pub from_row : ImapAccount → Result Account
  from_row row = elim (decrypt row.password_encrypted) [
    | raised x ↦ raised x
    | ok password ↦ ok (record {
      host = row.host;
      port = row.port;
      use_ssl = row.use_ssl;
      username = row.username;
      password = password;
      folder = row.folder;
      processed_folder = row.processed_folder;
      row = some row.id;
    })
  ]

  unfoldable pub from_rows : List ImapAccount → Result (List Account)
  unfolding from_row
  from_rows [] = ok []
  from_rows (row ∷ rows) = elim (from_row row) [
    | raised x ↦ raised x
    | ok account ↦ elim (from_rows rows) [ raised x ↦ raised x | ok found ↦ ok (account ∷ found) ]
  ]

  unfoldable pub accounts : Settings → Db → Result (List Account)
  unfolding from_rows from_settings
  accounts settings db =
      elim (from_rows (select (λ (row : ImapAccount). row.enabled) db.imap_accounts)) [
        | raised x ↦ raised x
        | ok found ↦
            ok (
              if is_empty settings.imap_host then found else (found ++ from_settings settings ∷ []))
      ]

pub record PollTotals : Type 0 where
  pub seen : ℕ
  pub stored : ℕ
  pub failed : ℕ
  pub mailboxes : ℕ

-- totals["mailboxes"] += 1, and the counts of one mailbox
unfoldable pub add_counts : FetchCounts → PollTotals → PollTotals
add_counts n t = record {
  seen = t.seen + n.seen;
  stored = t.stored + n.stored;
  failed = t.failed + n.failed;
  mailboxes = suc t.mailboxes;
}

unfoldable pub counts_of : Result FetchCounts → FetchCounts
counts_of (ok n) = n
counts_of (raised x) = no_counts

unfoldable pub result_of : Result FetchCounts → Text
unfolding decimal
result_of (ok n) = decimal n.stored ++ (codes " stored, " ++ (decimal n.failed ++ codes " failed"))
result_of (raised x) = take 255 (message x)

abbrev pub with_result : ℕ → Text → ImapAccount → ImapAccount
with_result now result row = record row { last_polled_at = some now; last_result = result }

-- the row is looked up again, and may be gone
unfoldable pub note_result : Option ℕ → Text → Db → Db
note_result none result db = db
note_result (some id) result db = record db {
  imap_accounts = update (has_account_id id) (with_result db.now result) db.imap_accounts;
}

module _ (dial : Account → Server) (mail : Mail) (dec : Decoders) where
  -- what is committed stays, also when fetching raises later
  unfoldable pub fetch_from : Account → Exec Db FetchCounts
  unfolding fetch_once
  fetch_from account db =
      let (r, p) = fetch_once (dial account) mail dec account (record { db = db; sent = [] }) in
      (r, p.db)

  unfoldable pub fetch_account : Account → PollTotals → Exec Db PollTotals
  unfolding fetch_from add_counts counts_of result_of note_result
  fetch_account account t = do
    outcome ← attempt (fetch_from account)
    modify (note_result account.row (result_of outcome))
    pure (add_counts (counts_of outcome) t)

  unfoldable pub fetch_accounts : List Account → PollTotals → Exec Db PollTotals
  unfolding fetch_account
  fetch_accounts [] t = pure t
  fetch_accounts (account ∷ rest) t = fetch_account account t >>= fetch_accounts rest

  unfoldable pub fetch_all : (Text → Result Text) → Settings → Exec Db PollTotals
  unfolding accounts fetch_accounts
  fetch_all decrypt settings db = elim (accounts decrypt settings db) [
    | raised x ↦ (raised x, db)
    | ok configured ↦
        fetch_accounts configured (record { seen = 0; stored = 0; failed = 0; mailboxes = 0 }) db
  ]
