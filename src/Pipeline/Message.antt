-- ===== src/Pipeline/Message.antt =====
-- `process_message` of ingest/pipeline.py.
use dmarc_service.Base.{
  ℕ, Bool, true, false, ◌&&◌, Option, none, some, find, update, length, take, ◌==◌, if◌then◌else◌,
}
use dmarc_service.Base.Text.{Text, Bytes, codes, is_empty, lower, before}
use dmarc_service.Base.Exec.{
  Exec, Result, ok, raised, other, message, pure, gets, modify, attempt, ◌>>=◌, ◌>>◌,
}
use dmarc_service.Schema.{
  Domain, ReportAddress, RawMessage, Status, routed, retired, unrouted, duplicate, failed, Db,
  unrouted_tenant_slug,
}
use dmarc_service.Schema.Insert.{has_slug, insert_raw}
use dmarc_service.ControlPlane.Provision.{resolve_address, resolve_retired_address}
use dmarc_service.Parsers.Decoders.{Decoders}
use dmarc_service.Pipeline.Flush.{flush}
use dmarc_service.Pipeline.Store.{Owner, Tally, store_reports}

-- rcpt_to.split("@", 1)[0].lower() if rcpt_to else ""
unfoldable pub local_part_of : Text → Text
unfolding lower before
local_part_of rcpt_to = lower (before b'@' rcpt_to)

-- the active address, if any, and otherwise the retired one
unfoldable pub active_for : Db → Text → Option ReportAddress
unfolding resolve_address
active_for db local_part = if is_empty local_part then none else resolve_address db local_part

unfoldable pub retired_for : Db → Text → Option ReportAddress
unfolding resolve_retired_address active_for
retired_for db local_part = elim (active_for db local_part) [
  | some _ ↦ none
  | none ↦ if is_empty local_part then none else resolve_retired_address db local_part
]

-- `known.domain.tenant_id` and `known.domain_id`
unfoldable pub owner_by_address : Db → ReportAddress → Result Owner
owner_by_address db a = elim (find (λ (d : Domain). d.id == a.domain_id) db.domains) [
  | none ↦ raised (other (codes "'NoneType' object has no attribute 'tenant_id'"))
  | some d ↦ ok (record { tenant_id = some d.tenant_id; domain_id = some a.domain_id })
]

-- what routing by recipient decides
pub record Route : Type 0 where
  pub owner : Owner
  pub status : Status
  pub error : Text

abbrev pub known_route : Status → Text → Result Owner → Result Route
known_route status error (raised e) = raised e
known_route status error (ok o) = ok (record { owner = o; status = status; error = error })

abbrev pub quarantine_of : Db → Option ℕ
quarantine_of db = elim (find (has_slug unrouted_tenant_slug) db.tenants) [
  | none ↦ none
  | some t ↦ some t.id
]

abbrev pub retired_note : Text
retired_note = codes "delivered to a deactivated address; DNS still names it"

unfoldable pub route : Db → Text → Result Route
unfolding active_for retired_for owner_by_address local_part_of
route db rcpt_to =
    let local_part = local_part_of rcpt_to in
    elim (active_for db local_part) [
      | some a ↦ known_route routed (codes "") (owner_by_address db a)
      | none ↦ elim (retired_for db local_part) [
        | some a ↦ known_route retired retired_note (owner_by_address db a)
        | none ↦ ok (record {
          owner = record { tenant_id = quarantine_of db; domain_id = none };
          status = unrouted;
          error = codes "";
        })
      ]
    ]

abbrev pub is_routed : Status → Bool
is_routed routed = true
is_routed _ = false

abbrev pub Verdict : Type 0
Verdict = Status × Text

-- the status and the error after the try block
unfoldable pub verdict : Route → Result Tally → Verdict
verdict r (raised e) = (failed, take 2000 (message e))
verdict r (ok (parsed, stored)) =
    if parsed == 0 && is_routed r.status
    then (failed, codes "no parsable report documents found")
    else if stored == 0 && is_routed r.status
    then (duplicate, codes "already stored")
    else (r.status, r.error)

abbrev pub with_verdict : Verdict → RawMessage → RawMessage
with_verdict v raw = record raw { status = v.0; error = v.1 }

abbrev pub has_raw_id : ℕ → RawMessage → Bool
has_raw_id id raw = raw.id == id

-- the assignments to raw.status and raw.error
unfoldable pub set_verdict : ℕ → Verdict → Db → Db
set_verdict id v db = record db {
  raw_messages = update (has_raw_id id) (with_verdict v) db.raw_messages;
}

abbrev pub new_raw : Bytes → Text → Text → Text → RawMessage
new_raw content source_ip mail_from rcpt_to = record {
  id = 0;
  source_ip = source_ip;
  mail_from = mail_from;
  rcpt_to = rcpt_to;
  size = length content;
  content = content;
  status = routed;
  error = codes "";
}

module _ (dec : Decoders) where
  unfoldable pub process_message : Bytes → Text → Text → Text → Exec Db RawMessage
  unfolding insert_raw route store_reports verdict set_verdict flush
  process_message content source_ip mail_from rcpt_to = do
    before ← gets (λ db. db)
    raw ← insert_raw (new_raw content source_ip mail_from rcpt_to)
    r ← λ db. (route db rcpt_to, db)
    outcome ← attempt (store_reports dec raw.id r.owner content)
    modify (set_verdict raw.id (verdict r outcome))
    flush dec before
    pure (with_verdict (verdict r outcome) raw)
