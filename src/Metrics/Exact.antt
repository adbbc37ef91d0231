-- ===== src/Metrics/Exact.antt =====
-- The message counters are exact: nothing is lost in the grouping, whatever the reports hold.
use mathlib.Core.Path.{fun_ext}
use dmarc_service.Base.{
  ◌≡◌, refl, ◌∙◌, ap, sym, Bool, true, false, not, ◌&&◌, List, [], ◌∷◌, ◌++◌, map, select,
  Bool-cases, inl, inr, select-append, if◌then◌else◌,
}
use dmarc_service.Base.Int.{ℤ, pos, ◌+ℤ◌, sum, sum_case, +ℤ_assoc, +ℤ_comm, +ℤ_zero, zero_+ℤ}
use dmarc_service.Base.Tally.{
  tally, total_at, plus_all, total_at-tally, plus_all-tally, those-tally,
}
use dmarc_service.Base.Text.{Text, codes, text_eq, text_eq_refl, eq_of_text_eq}
use dmarc_service.Schema.{AggregateRecord, AggregateReport, Db}
use dmarc_service.Reports.Rows.{count_of, is_passed}
use dmarc_service.Reports.Figures.{passed_messages, failed_messages}
use dmarc_service.Metrics.Counts.{
  Group, same_group, group_of, joined, grouped, Labels, same_labels, verdict_labels,
  disposition_labels, relabel, message_counts,
}

and_true : (a b : Bool) → (a && b) ≡ true → (a ≡ true) × (b ≡ true)
and_true true b h = (refl, h)
and_true false b h = cc

labels_eq : (a b : Labels) → same_labels a b ≡ true → a ≡ b
unfolding same_labels
labels_eq a b e =
    let (first, second) = and_true (text_eq a.0 b.0) (text_eq a.1 b.1) e in
    ap (λ x. (x, a.1)) (eq_of_text_eq a.0 b.0 first)
    ∙ ap (λ x. (b.0, x)) (eq_of_text_eq a.1 b.1 second)

labels_self : (k : Labels) → same_labels k k ≡ true
unfolding same_labels
labels_self k = rw (text_eq_refl k.0, text_eq_refl k.1) refl

labels_follow : (j k q : Labels) → same_labels j k ≡ true → same_labels j q ≡ same_labels k q
labels_follow j k q e = ap (λ l. same_labels l q) (labels_eq j k e)

group_eq : (g h : Group) → same_group g h ≡ true → g ≡ h
unfolding same_group
group_eq g h e =
    let (e2, spf) = and_true _ (text_eq g.spf h.spf) e in
    let (e1, dkim) = and_true _ (text_eq g.dkim h.dkim) e2 in
    let (domain, disposition) =
      and_true (text_eq g.domain h.domain) (text_eq g.disposition h.disposition) e1 in
    ap (λ x. record g { domain = x }) (eq_of_text_eq g.domain h.domain domain)
    ∙ ap (λ x. record g { domain = h.domain; disposition = x })
        (eq_of_text_eq g.disposition h.disposition disposition)
    ∙ ap (λ x. record h { dkim = x; spf = g.spf }) (eq_of_text_eq g.dkim h.dkim dkim)
    ∙ ap (λ x. record h { spf = x }) (eq_of_text_eq g.spf h.spf spf)

group_self : (g : Group) → same_group g g ≡ true
unfolding same_group
group_self g =
    rw (text_eq_refl g.domain, text_eq_refl g.disposition, text_eq_refl g.dkim, text_eq_refl g.spf)
      refl

group_follow : (g h q : Group) → same_group g h ≡ true → same_group g q ≡ same_group h q
group_follow g h q e = ap (λ x. same_group x q) (group_eq g h e)

-- all values of some rows
abbrev total_of : {K : Type 0} → List (K × ℤ) → ℤ
total_of rows = sum (λ row. row.1) rows

abbrev plus_rows : {K : Type 0} → (K → K → Bool) → List (K × ℤ) → ℤ
plus_rows same rows = plus_all same ◌+ℤ◌ (pos 0) rows

relabelled :
    (label : Group → Labels) (p : Labels → Bool) (rows : List (Group × ℤ))
    → plus_rows same_labels (select (λ row. p row.0) (map (relabel label) rows))
      ≡ plus_rows same_group (select (λ row. p (label row.0)) rows)
relabelled label p [] = refl
relabelled label p (row ∷ rows) = elim (Bool-cases (p (label row.0))) [
  | inl hit ↦ rw hit (ap (λ s. row.1 +ℤ s) (relabelled label p rows))
  | inr miss ↦ rw miss (relabelled label p rows)
]

relabelled_all :
    (label : Group → Labels) (rows : List (Group × ℤ))
    → plus_rows same_labels (map (relabel label) rows) ≡ plus_rows same_group rows
relabelled_all label [] = refl
relabelled_all label (row ∷ rows) = ap (λ s. row.1 +ℤ s) (relabelled_all label rows)

plus_rows-append :
    (xs ys : List (Group × ℤ))
    → plus_rows same_group (xs ++ ys) ≡ plus_rows same_group xs +ℤ plus_rows same_group ys
plus_rows-append [] ys = sym (zero_+ℤ _)
plus_rows-append (x ∷ xs) ys = ap (λ s. x.1 +ℤ s) (plus_rows-append xs ys) ∙ sym (+ℤ_assoc x.1 _ _)

-- the records of one report whose group has a property
of_report :
    (q : Group → Bool) (domain : Text) (rs : List AggregateRecord)
    → plus_rows same_group (select (λ row. q row.0) (map (group_of domain) rs))
      ≡ sum count_of (select (λ r. q (group_of domain r).0) rs)
of_report q domain [] = refl
of_report q domain (r ∷ rs) = elim (Bool-cases (q (group_of domain r).0)) [
  | inl hit ↦ rw hit (ap (λ s. r.count +ℤ s) (of_report q domain rs))
  | inr miss ↦ rw miss (of_report q domain rs)
]

-- the messages of the records whose group has a property
abbrev messages_where : (Group → Bool) → AggregateReport → ℤ
messages_where q report =
    sum count_of (select (λ r. q (group_of report.policy_domain r).0) report.records)

of_reports :
    (q : Group → Bool) (reports : List AggregateReport)
    → plus_rows same_group (select (λ row. q row.0) (joined reports))
      ≡ sum (messages_where q) reports
of_reports q [] = refl
of_reports q (report ∷ reports) =
    let mine = map (group_of report.policy_domain) report.records in
    ap (plus_rows same_group) (select-append (λ row. q row.0) mine (joined reports))
    ∙ plus_rows-append (select (λ row. q row.0) mine) _
    ∙ ap (λ s. s +ℤ plus_rows same_group (select (λ row. q row.0) (joined reports)))
        (of_report q report.policy_domain report.records)
    ∙ ap (λ s. messages_where q report +ℤ s) (of_reports q reports)

-- a query by group gives the messages with the property
grouped_where :
    (db : Db) (q : Group → Bool)
    → plus_rows same_group (select (λ row. q row.0) (grouped db))
      ≡ sum (messages_where q) db.aggregate_reports
unfolding grouped
grouped_where db q =
    those-tally same_group ◌+ℤ◌ (pos 0) group_follow group_self +ℤ_assoc +ℤ_comm +ℤ_zero q
      (λ j k e. ap q (group_eq j k e)) (joined db.aggregate_reports) []
    ∙ zero_+ℤ _
    ∙ of_reports q db.aggregate_reports

-- one counter
abbrev pub counter : Labels → List (Labels × ℤ) → ℤ
counter l family = total_at same_labels ◌+ℤ◌ (pos 0) l family

counter_lem :
    (db : Db) (label : Group → Labels) (l : Labels)
    → counter l (tally same_labels ◌+ℤ◌ (pos 0) (map (relabel label) (grouped db)) [])
      ≡ sum (messages_where (λ g. same_labels (label g) l)) db.aggregate_reports
counter_lem db label l =
    total_at-tally same_labels ◌+ℤ◌ (pos 0) labels_follow labels_self +ℤ_assoc +ℤ_comm +ℤ_zero l
      (map (relabel label) (grouped db)) []
    ∙ zero_+ℤ _
    ∙ relabelled label (λ k. same_labels k l) (grouped db)
    ∙ grouped_where db (λ g. same_labels (label g) l)

is_text : (b : Bool) → text_eq (if b then codes "pass" else codes "fail") (codes "pass") ≡ b
unfolding text_eq
is_text true = refl
is_text false = refl

is_other : (b : Bool) → text_eq (if b then codes "pass" else codes "fail") (codes "fail") ≡ not b
unfolding text_eq
is_other true = refl
is_other false = refl

select_none : (rs : List AggregateRecord) → select (λ r. false) rs ≡ []
select_none [] = refl
select_none (r ∷ rs) = select_none rs

-- where the counter is for a domain and a test of the records
by_domain :
    (db : Db) (domain : Text) (verdict : Text) (test : AggregateRecord → Bool)
    → ((name : Text) (r : AggregateRecord)
        → same_labels (verdict_labels true (group_of name r).0) (domain, verdict)
          ≡ (text_eq name domain && test r))
    → sum
        (messages_where (λ g. same_labels (verdict_labels true g) (domain, verdict)))
        db.aggregate_reports
      ≡ sum
          (λ (report : AggregateReport). sum count_of (select test report.records))
          (select (λ report. text_eq report.policy_domain domain) db.aggregate_reports)
by_domain db domain verdict test same =
    ap (λ f. sum f db.aggregate_reports) (fun_ext (λ report. one report))
    ∙ sum_case (λ (report : AggregateReport). sum count_of (select test report.records))
        (λ report. text_eq report.policy_domain domain) db.aggregate_reports
  where
    one :
        (report : AggregateReport)
        → messages_where (λ g. same_labels (verdict_labels true g) (domain, verdict)) report ≡ (
            if text_eq report.policy_domain domain
            then sum count_of (select test report.records)
            else pos 0)
    one report =
        ap (λ f. sum count_of (select f report.records))
          (fun_ext (λ r. same report.policy_domain r))
        ∙ elim (Bool-cases (text_eq report.policy_domain domain)) [
          | inl about ↦ rw about refl
          | inr other ↦ rw other (ap (sum count_of) (select_none report.records))
        ]

passes :
    (domain name : Text) (r : AggregateRecord)
    → same_labels (verdict_labels true (group_of name r).0) (domain, codes "pass")
      ≡ (text_eq name domain && is_passed r)
unfolding same_labels verdict_labels is_passed
passes domain name r = ap (λ b. text_eq name domain && b) (is_text (is_passed r))

fails :
    (domain name : Text) (r : AggregateRecord)
    → same_labels (verdict_labels true (group_of name r).0) (domain, codes "fail")
      ≡ (text_eq name domain && not (is_passed r))
unfolding same_labels verdict_labels is_passed
fails domain name r = ap (λ b. text_eq name domain && b) (is_other (is_passed r))

select_every : {A : Type 0} (xs : List A) → select (λ x. true) xs ≡ xs
select_every [] = refl
select_every (x ∷ xs) = ap (λ ys. x ∷ ys) (select_every xs)

all_of :
    (db : Db) (label : Group → Labels)
    → plus_rows same_labels (tally same_labels ◌+ℤ◌ (pos 0) (map (relabel label) (grouped db)) [])
      ≡ sum (λ (r : AggregateReport). sum count_of r.records) db.aggregate_reports
all_of db label =
    plus_all-tally same_labels ◌+ℤ◌ (pos 0) labels_follow labels_self +ℤ_assoc +ℤ_comm +ℤ_zero
      (map (relabel label) (grouped db)) []
    ∙ zero_+ℤ _
    ∙ relabelled_all label (grouped db)
    ∙ ap (plus_rows same_group) (sym (select_every (grouped db)))
    ∙ grouped_where db (λ g. true)
    ∙ ap (λ f. sum f db.aggregate_reports)
        (fun_ext (λ (r : AggregateReport). ap (sum count_of) (select_every r.records)))

-- The counters of a domain are exact: "pass" counts the messages of the records with a DKIM or an SPF
-- pass, "fail" those of the others, among the reports about the domain; and the counters by verdict as
-- well as those by disposition add up to all messages of all reports.
pub message_counts_lem :
    (db : Db) (domain : Text)
    → let (verdicts, dispositions) = message_counts db true in
      let about =
        select (λ (r : AggregateReport). text_eq r.policy_domain domain) db.aggregate_reports in
      (counter (domain, codes "pass") verdicts ≡ sum (λ r. passed_messages r.records) about)
      × (counter (domain, codes "fail") verdicts ≡ sum (λ r. failed_messages r.records) about)
      × (plus_all same_labels ◌+ℤ◌ (pos 0) verdicts
          ≡ sum (λ r. sum count_of r.records) db.aggregate_reports)
      × (plus_all same_labels ◌+ℤ◌ (pos 0) dispositions
          ≡ sum (λ r. sum count_of r.records) db.aggregate_reports)
unfolding message_counts
message_counts_lem db domain = (
  counter_lem db (verdict_labels true) (domain, codes "pass")
      ∙ by_domain db domain (codes "pass") is_passed (passes domain),
  counter_lem db (verdict_labels true) (domain, codes "fail")
      ∙ by_domain db domain (codes "fail") (λ r. not (is_passed r)) (fails domain),
  all_of db (verdict_labels true),
  all_of db (disposition_labels true),
)
