-- ===== src/Imap/Polled.antt =====
-- Polling every configured mailbox: one that fails does not stop the others.
use mathlib.Core.Path.{subst}
use dmarc_service.Base.{
  ℕ, suc, ◌+◌, ◌≡◌, refl, ◌∙◌, ap, sym, true, List, [], ◌∷◌, ◌++◌, Option, none, some, ◌==◌, update,
  length, arith, append-nil, append_assoc, Bool-cases, inl, inr,
}
use dmarc_service.Base.Rows.{All, All-update}
use dmarc_service.Base.Text.{Text}
use dmarc_service.Base.Exec.{Result-cases, Result, ok, bind_of_ok}
use dmarc_service.Config.{Settings}
use dmarc_service.Schema.{ImapAccount, RawMessage, Db}
use dmarc_service.Schema.Valid.{IsValid, IsValid-elsewhere}
use dmarc_service.Parsers.Decoders.{Decoders}
use dmarc_service.Imap.Client.{Server, Mail}
use dmarc_service.Imap.Fetch.{Account}
use dmarc_service.Imap.Acknowledged.{Polled-fresh}
use dmarc_service.Imap.Safe.{fetch_once-Polled}
use dmarc_service.Imap.Poll.{
  has_account_id, accounts, PollTotals, add_counts, counts_of, result_of, with_result, note_result,
  fetch_from, fetch_account, fetch_accounts, fetch_all,
}

-- The row of this mailbox, if it has one, was polled at this time.
abbrev pub IsPolledAt : ℕ → Option ℕ → List ImapAccount → Type 0
IsPolledAt now none rows = Unit
IsPolledAt now (some id) rows =
    All (λ row. has_account_id id row ≡ true → row.last_polled_at ≡ some now) rows

-- How a poll of mailboxes that began with `db` stands.
record Serves (db now : Db) : Type 0 where
  valid : IsValid now
  arrived : List RawMessage
  appended : now.raw_messages ≡ db.raw_messages ++ arrived
  clock : now.now ≡ db.now

noted :
    (at : ℕ) (id : ℕ) (result : Text) (rows : List ImapAccount)
    → IsPolledAt at (some id) (update (has_account_id id) (with_result at result) rows)
noted at id result [] = tt
noted at id result (row ∷ rows) = elim (Bool-cases (row.id == id)) [
  | inl this ↦ rw this ((λ _. refl), noted at id result rows)
  | inr other ↦ rw other ((λ h. cc), noted at id result rows)
]

-- A row that was polled at this time keeps the mark when another result is noted.
noted_keeps :
    (at : ℕ) (id : ℕ) (result : Text) (row : Option ℕ) (rows : List ImapAccount)
    → IsPolledAt at row rows
    → IsPolledAt at row (update (has_account_id id) (with_result at result) rows)
noted_keeps at id result none rows h = tt
noted_keeps at id result (some r) rows h =
    All-update _ (has_account_id id) (with_result at result) rows (λ a k e. refl) h

-- what noting a result does, at the time of the poll
note_result_lem :
    (at : ℕ) (row : Option ℕ) (result : Text) (db : Db)
    → db.now ≡ at
    → IsPolledAt at row (note_result row result db).imap_accounts
      × ((other : Option ℕ)
          → IsPolledAt at other db.imap_accounts
          → IsPolledAt at other (note_result row result db).imap_accounts)
unfolding note_result
note_result_lem at none result db e = (tt, λ other h. h)
note_result_lem at (some id) result db e =
    rw e (
      noted at id result db.imap_accounts,
      λ other. noted_keeps at id result other db.imap_accounts,
    )

note_result-Serves :
    (db : Db) (row : Option ℕ) (result : Text) (now : Db)
    → Serves db now
    → Serves db (note_result row result now)
unfolding note_result
note_result-Serves db none result now s = s
note_result-Serves db (some id) result now s = record {
  valid = IsValid-elsewhere _ _ _ _ _ _ _ now (omega arith) s.valid;
  arrived = s.arrived;
  appended = s.appended;
  clock = s.clock;
}

module _ (dial : Account → Server) (mail : Mail) (dec : Decoders) (db : Db) where
  fetch_from-Serves :
      (account : Account) (now : Db)
      → Serves db now
      → let now' = (fetch_from dial mail dec account now).1 in
        Serves db now' × (now'.imap_accounts ≡ now.imap_accounts)
  unfolding fetch_from
  fetch_from-Serves account now s =
      let k =
        fetch_once-Polled (dial account) mail dec account now (record { db = now; sent = [] })
          (Polled-fresh now s.valid) in
      (
        record {
          valid = k.valid;
          arrived = s.arrived ++ k.arrived;
          appended =
              k.appended
              ∙ ap (λ ms. ms ++ k.arrived) s.appended
              ∙ append_assoc db.raw_messages s.arrived k.arrived;
          clock = k.clock ∙ s.clock;
        },
        k.accounts,
      )

  fetch_account_lem :
      (account : Account) (t : PollTotals) (now : Db)
      → Serves db now
      → (t' : PollTotals) × (now' : Db) × (fetch_account dial mail dec account t now
          ≡ (ok t', now'))
        × (t'.mailboxes ≡ suc t.mailboxes)
        × Serves db now'
        × IsPolledAt db.now account.row now'.imap_accounts
        × ((other : Option ℕ)
            → IsPolledAt db.now other now.imap_accounts
            → IsPolledAt db.now other now'.imap_accounts)
  unfolding fetch_account add_counts
  fetch_account_lem account t now s =
      let outcome = (fetch_from dial mail dec account now).0 in
      let fetched = (fetch_from dial mail dec account now).1 in
      let (s', same) = fetch_from-Serves account now s in
      let result = result_of outcome in
      let (polled, kept) = note_result_lem db.now account.row result fetched s'.clock in
      (
        add_counts (counts_of outcome) t,
        note_result account.row result fetched,
        refl,
        refl,
        note_result-Serves db account.row result fetched s',
        polled,
        λ other h. kept other (subst (IsPolledAt db.now other) (sym same) h),
      )

  fetch_accounts_lem :
      (boxes : List Account) (t : PollTotals) (now : Db)
      → Serves db now
      → (t' : PollTotals) × (now' : Db) × (fetch_accounts dial mail dec boxes t now ≡ (ok t', now'))
        × (t'.mailboxes ≡ length boxes + t.mailboxes)
        × Serves db now'
        × All (λ (a : Account). IsPolledAt db.now a.row now'.imap_accounts) boxes
        × ((other : Option ℕ)
            → IsPolledAt db.now other now.imap_accounts
            → IsPolledAt db.now other now'.imap_accounts)
  unfolding fetch_accounts
  fetch_accounts_lem [] t now s = (t, now, refl, omega arith, s, tt, λ other h. h)
  fetch_accounts_lem (a ∷ boxes) t now s =
      let (t1, now1, run1, n1, s1, polled1, kept1) = fetch_account_lem a t now s in
      let (t2, now2, run2, n2, s2, polled2, kept2) = fetch_accounts_lem boxes t1 now1 s1 in
      (
        t2,
        now2,
        bind_of_ok (fetch_account dial mail dec a t) (fetch_accounts dial mail dec boxes) now now1
              t1 run1
            ∙ run2,
        omega (arith, n1, n2),
        s2,
        (kept2 a.row polled1, polled2),
        λ other h. kept2 other (kept1 other h),
      )

-- Where the passwords of the mailboxes can be read, polling them returns, whatever the servers do:
-- every configured mailbox is counted, the row of each is marked as polled at this time, rows are
-- only added to the stored messages, and the constraints of the schema still hold.
pub fetch_all_lem :
    (dial : Account → Server) (mail : Mail) (dec : Decoders) (decrypt : Text → Result Text)
    (settings : Settings) (db : Db) (configured : List Account)
    → IsValid db
    → accounts decrypt settings db ≡ ok configured
    → (t : PollTotals) × (db' : Db) × (fetch_all dial mail dec decrypt settings db ≡ (ok t, db'))
      × (t.mailboxes ≡ length configured)
      × All (λ (a : Account). IsPolledAt db.now a.row db'.imap_accounts) configured
      × ((ms : List RawMessage) × (db'.raw_messages ≡ db.raw_messages ++ ms))
      × IsValid db'
unfolding fetch_all
fetch_all_lem dial mail dec decrypt settings db configured v e =
    let start : Serves db db = record {
      valid = v;
      arrived = [];
      appended = sym (append-nil db.raw_messages);
      clock = refl;
    } in
    let (t, db', run, n, s, polled, kept) =
      fetch_accounts_lem dial mail dec db configured
        (record { seen = 0; stored = 0; failed = 0; mailboxes = 0 }) db start in
    (t, db', rw (fetch_all, e) run, omega (arith, n), polled, (s.arrived, s.appended), s.valid)

-- Polling keeps the constraints, also where it gives up at a password that cannot be read.
pub fetch_all-IsValid :
    (dial : Account → Server) (mail : Mail) (dec : Decoders) (decrypt : Text → Result Text)
    (settings : Settings) (db : Db)
    → IsValid db
    → IsValid (fetch_all dial mail dec decrypt settings db).1
unfolding fetch_all
fetch_all-IsValid dial mail dec decrypt settings db v =
    elim (Result-cases (accounts decrypt settings db)) [
      | inr (x, e) ↦ rw (fetch_all, e) v
      | inl (configured, e) ↦
          let (t, db', run, n, polled, added, kept) =
            fetch_all_lem dial mail dec decrypt settings db configured v e in
          subst IsValid (sym (ap (λ r. r.1) run)) kept
    ]
