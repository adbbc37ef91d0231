-- ===== src/Metrics/Counts.antt =====
-- What `_collect` and `_message_counts` of metrics.py count in the database. A family is a list of label
-- values with a number for each; the rows of a grouped query are those of a dictionary.
use dmarc_service.Base.{
  ℕ, ◌+◌, Bool, not, ◌&&◌, ◌||◌, List, [], ◌∷◌, ◌++◌, map, select, length, if◌then◌else◌,
}
use dmarc_service.Base.Int.{ℤ, pos, ◌+ℤ◌}
use dmarc_service.Base.Tally.{tally}
use dmarc_service.Base.Text.{Text, codes, text_eq, text_or}
use dmarc_service.Schema.{
  Tenant, RawMessage, Status, routed, retired, unrouted, duplicate, failed, AggregateRecord,
  AggregateReport, Db, unrouted_tenant_slug,
}
use dmarc_service.Schema.Insert.{has_slug}
use dmarc_service.Api.Reports.{is_unrouted}

-- the column `status`, as text
abbrev pub status_text : Status → Text
status_text routed = codes "routed"
status_text retired = codes "retired"
status_text unrouted = codes "unrouted"
status_text duplicate = codes "duplicate"
status_text failed = codes "failed"

unfoldable pub tenant_gauge : Db → ℕ
tenant_gauge db = length (select (λ (t : Tenant). not (has_slug unrouted_tenant_slug t)) db.tenants)

unfoldable pub domain_gauge : Db → ℕ
domain_gauge db = length db.domains

unfoldable pub messages_received : Db → List (Text × ℕ)
unfolding tally text_eq
messages_received db =
    tally text_eq ◌+◌ 0 (map (λ (m : RawMessage). (status_text m.status, 1)) db.raw_messages) []

unfoldable pub unrouted_messages : Db → ℕ
unrouted_messages db = length (select is_unrouted db.raw_messages)

unfoldable pub reports_parsed : Db → List (Text × ℕ)
reports_parsed db =
    (codes "aggregate", length db.aggregate_reports) ∷ (codes "tls", length db.tls_reports) ∷ []

-- the columns that the query of `_message_counts` groups by
pub record Group : Type 0 where
  pub domain : Text
  pub disposition : Text
  pub dkim : Text
  pub spf : Text

unfoldable pub same_group : Group → Group → Bool
unfolding text_eq
same_group g h =
    text_eq g.domain h.domain
    && text_eq g.disposition h.disposition
    && text_eq g.dkim h.dkim
    && text_eq g.spf h.spf

-- the join: each record with the domain of its report
abbrev pub group_of : Text → AggregateRecord → Group × ℤ
group_of domain r = (
  record { domain = domain; disposition = r.disposition; dkim = r.dkim_result; spf = r.spf_result },
  r.count,
)

abbrev pub joined : List AggregateReport → List (Group × ℤ)
joined [] = []
joined (report ∷ reports) = map (group_of report.policy_domain) report.records ++ joined reports

unfoldable pub grouped : Db → List (Group × ℤ)
unfolding tally same_group
grouped db = tally same_group ◌+ℤ◌ (pos 0) (joined db.aggregate_reports) []

-- a domain, or "" where labels are off, and a verdict or a disposition
abbrev pub Labels : Type 0
Labels = Text × Text

unfoldable pub same_labels : Labels → Labels → Bool
unfolding text_eq
same_labels a b = text_eq a.0 b.0 && text_eq a.1 b.1

abbrev pub key_domain : Bool → Text → Text
key_domain labels domain = if labels then domain else []

unfoldable pub verdict_labels : Bool → Group → Labels
unfolding text_eq
verdict_labels labels g = (
  key_domain labels g.domain,
  if text_eq g.dkim (codes "pass") || text_eq g.spf (codes "pass")
      then codes "pass"
      else codes "fail",
)

unfoldable pub disposition_labels : Bool → Group → Labels
disposition_labels labels g = (key_domain labels g.domain, text_or g.disposition (codes "none"))

abbrev pub relabel : (Group → Labels) → Group × ℤ → Labels × ℤ
relabel label row = (label row.0, row.1)

-- the totals by verdict, and by disposition
unfoldable pub message_counts : Db → Bool → List (Labels × ℤ) × List (Labels × ℤ)
unfolding grouped verdict_labels disposition_labels tally same_labels
message_counts db labels = (
  tally same_labels ◌+ℤ◌ (pos 0) (map (relabel (verdict_labels labels)) (grouped db)) [],
  tally same_labels ◌+ℤ◌ (pos 0) (map (relabel (disposition_labels labels)) (grouped db)) [],
)
