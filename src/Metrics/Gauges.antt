-- ===== src/Metrics/Gauges.antt =====
-- `_freshness`, `_mailboxes` and `_poll_failed` of metrics.py. An instant counts from the year 1, and
-- `_epoch` is a parameter.
use dmarc_service.Base.{
  ℕ, Bool, not, ◌&&◌, List, [], ◌∷◌, Option, none, some, map, select, length, leb, if◌then◌else◌,
}
use dmarc_service.Base.Tally.{tally}
use dmarc_service.Base.Text.{Text, codes, is_empty, occurs, text_eq}
use dmarc_service.Schema.{ImapAccount, AggregateReport, Db}

-- the larger, and the smaller
abbrev pub latest : ℕ → ℕ → ℕ
latest a b = if leb a b then b else a

abbrev pub earliest : ℕ → ℕ → ℕ
earliest a b = if leb a b then a else b

-- GROUP BY policy_domain, with MAX(date_end)
unfoldable pub last_reports : Db → List (Text × ℕ)
unfolding tally text_eq
last_reports db =
    tally text_eq latest 0
      (map (λ (r : AggregateReport). (r.policy_domain, r.date_end)) db.aggregate_reports) []

-- max(..., default=default)
abbrev pub greatest : List ℕ → ℕ
greatest [] = 0
greatest (n ∷ ns) = latest n (greatest ns)

-- min(..., default=0)
abbrev pub smallest : List ℕ → ℕ
smallest [] = 0
smallest (n ∷ []) = n
smallest (n ∷ m ∷ ns) = earliest n (smallest (m ∷ ns))

unfoldable pub poll_failed : ImapAccount → Bool
unfolding occurs
poll_failed account =
    not (is_empty account.last_result) && not (occurs (codes "stored") account.last_result)

abbrev pub enabled_accounts : Db → List ImapAccount
enabled_accounts db = select (λ (a : ImapAccount). a.enabled) db.imap_accounts

module _ (epoch : ℕ → ℕ) where
  -- by domain, or the newest of all where labels are off
  unfoldable pub freshness : Db → Bool → List (Text × ℕ)
  unfolding last_reports
  freshness db labels =
      if labels
      then map (λ row. (row.0, epoch row.1)) (last_reports db)
      else ([], greatest (map (λ row. epoch row.1) (last_reports db))) ∷ []

  -- the time of the last poll, or 0 for a mailbox that was never polled
  abbrev pub polled_or_zero : ImapAccount → ℕ
  polled_or_zero a = elim a.last_polled_at [ none ↦ 0 | some at ↦ epoch at ]

  abbrev pub polled_at : List ImapAccount → List (Text × ℕ)
  polled_at [] = []
  polled_at (a ∷ rest) =
      let later = polled_at rest in
      elim a.last_polled_at [ none ↦ later | some at ↦ (a.username, epoch at) ∷ later ]

  pub record Mailboxes : Type 0 where
    pub total : ℕ
    -- with labels: whether the last poll of each worked, and when it was
    pub poll_ok : List (Text × ℕ)
    pub last_poll : List (Text × ℕ)
    -- without: how many fail, and the oldest poll
    pub failing : Option ℕ
    pub oldest : Option ℕ

  unfoldable pub mailboxes : Db → Bool → Mailboxes
  unfolding poll_failed
  mailboxes db labels =
      let enabled = enabled_accounts db in
      if labels
      then record {
        total = length enabled;
        poll_ok = map (λ a. (a.username, if poll_failed a then 0 else 1)) enabled;
        last_poll = polled_at enabled;
        failing = none;
        oldest = none;
      }
      else record {
        total = length enabled;
        poll_ok = [];
        last_poll = [];
        failing = some (length (select poll_failed enabled));
        oldest = some (smallest (map polled_or_zero enabled));
      }
