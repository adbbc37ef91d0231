-- ===== src/Service.antt =====
-- The service as a whole: everything that changes the database, one after the other. What does not
-- open a session of its own runs in a `session_scope`, which commits it or rolls it back.
mod Commands
use dmarc_service.Base.{ℕ, ◌+◌, Bool, List, Bool-cases, inl, inr, is_some, find, arith}
use dmarc_service.Base.Text.{Text, Bytes, codes}
use dmarc_service.Base.Exec.{Result, Exec, state-bind, pure}
use dmarc_service.Config.{TenancyMode}
use dmarc_service.Schema.{IpIntel, Db, empty_db, unrouted_tenant_slug}
use dmarc_service.Schema.Insert.{has_slug, insert_tenant}
use dmarc_service.Schema.Session.{session_scope, session_scope-keeps}
use dmarc_service.Schema.Valid.{IsValid, IsValid-elsewhere, insert_tenant-IsValid}
use dmarc_service.ControlPlane.Provision.{bootstrap, ensure_tenant}
use dmarc_service.Pipeline.Message.{process_message}
use dmarc_service.Pipeline.Reprocess.{reprocess}
use dmarc_service.Pipeline.Batch.{reprocess_lem}
use dmarc_service.Api.Control
use dmarc_service.Api.Handlers
use dmarc_service.Api.Ingest.{Totals, tlsrpt, ingest, upload_files}
use dmarc_service.Api.Incoming.{
  process_message-IsValid, tlsrpt-IsValid, ingest-IsValid, upload_files-IsValid,
}
use dmarc_service.ControlPlane.Check.{World}
use dmarc_service.Imap.Client.{Mail}
use dmarc_service.Imap.Poll.{fetch_all}
use dmarc_service.Imap.Polled.{fetch_all-IsValid}
use dmarc_service.Enrich.Ips.{backfill}
use dmarc_service.Cli.{set_password_command, disable_sso_command}
use dmarc_service.Ui.Visit.{Session}
use dmarc_service.Ui.Submit.{Outside}
use dmarc_service.Ui.View.Screen.{Reader}
use dmarc_service.Ui.Reached
use dmarc_service.Ui.Constrained.{IsValid-Kept}
use dmarc_service.Service.Commands.{
  backfill-IsValid, set_password_command-IsValid, disable_sso_command-IsValid,
}

module _ (out : Outside) (r : Reader) where
  -- One request, or one run of a command. `started` is `bootstrap`, which each start runs.
  pub data Step (db : Db) : Db → Type 0 where
    started : Step db (session_scope (bootstrap out.settings) db).1
    delivered :
        (content : Bytes) (source_ip mail_from rcpt_to : Text)
        → Step db
            (session_scope (process_message out.decoders content source_ip mail_from rcpt_to) db).1
    ingested :
        (authorization : Text) (content : Bytes) (source_ip mail_from rcpt_to : Text)
        → Step db
            (ingest out.decoders out.settings authorization content source_ip mail_from rcpt_to
              db).1
    posted : (body : Bytes) → Step db (tlsrpt out.decoders body db).1
    uploaded :
        (files : List (Text × Bytes)) (t : Totals)
        → Step db (session_scope (upload_files out.decoders files t) db).1
    reprocessed : (limit : ℕ) → Step db (session_scope (reprocess out.decoders limit) db).1
    tenant_created :
        (slug name : Text)
        → Step db (session_scope (Control.create_tenant out.settings slug name) db).1
    domain_added :
        (local_part slug name : Text)
        → Step db (session_scope (Control.add_domain out.settings local_part slug name) db).1
    domain_deleted : (name : Text) → Step db (session_scope (Control.delete_domain name) db).1
    tenant_deleted : (slug : Text) → Step db (session_scope (Control.delete_tenant slug) db).1
    address_rotated :
        (local_part name : Text)
        → Step db (session_scope (Control.rotate_address out.settings local_part name) db).1
    address_deactivated :
        (name local_part : Text)
        → Step db (session_scope (Control.deactivate_address name local_part) db).1
    -- a request to the web interface, by a visitor with any session
    visited :
        {session : Session} {dns : World} {db' : Db}
        → Reached.Step out r db session dns db'
        → Step db db'
    polled :
        (mail : Mail) (decrypt : Text → Result Text)
        → Step db (fetch_all out.dial mail out.decoders decrypt out.settings db).1
    enriched : (lookup : Text → IpIntel) (limit : ℕ) → Step db (backfill lookup limit db).1
    sso_disabled : Step db (disable_sso_command db).1
    password_set :
        (email password : Text) (admin : Bool)
        → Step db (set_password_command out.hash out.verify email password admin db).1
    waited : (seconds : ℕ) → Step db (record db { now = db.now + seconds })

  pub data Reach : Db → Type 0 where
    empty : Reach empty_db
    next : {db db' : Db} → Reach db → Step db db' → Reach db'

  ensure_tenant-IsValid :
      (slug name : Text) (db : Db) → IsValid db → IsValid (ensure_tenant slug name db).1
  unfolding ensure_tenant
  ensure_tenant-IsValid slug name db v =
      elim (Bool-cases (is_some (find (has_slug slug) db.tenants))) [
        | inl known ↦ rw known v
        | inr unknown ↦ rw unknown (
            state-bind IsValid (insert_tenant slug name) _ db
              (λ _ _. insert_tenant-IsValid slug name db v) (insert_tenant-IsValid slug name db v))
      ]

  bootstrap-IsValid : (db : Db) → IsValid db → IsValid (bootstrap out.settings db).1
  unfolding bootstrap
  bootstrap-IsValid db v =
      let first = ensure_tenant-IsValid unrouted_tenant_slug (codes "Unrouted quarantine") db v in
      state-bind IsValid (ensure_tenant unrouted_tenant_slug (codes "Unrouted quarantine")) _ db
        (λ _ _. by_mode out.settings.tenancy_mode _ first) first
    where
      by_mode :
          (m : TenancyMode) (d : Db)
          → IsValid d
          → IsValid
              (elim m as (λ _. Exec Db (Unit {0})) [
                | TenancyMode.single ↦
                    ensure_tenant out.settings.default_tenant out.settings.default_tenant
                | TenancyMode.multi ↦ pure tt
              ]
                d).1
      by_mode TenancyMode.single d w =
          ensure_tenant-IsValid out.settings.default_tenant out.settings.default_tenant d w
      by_mode TenancyMode.multi d w = w

  Step-IsValid : {db db' : Db} → Step db db' → IsValid db → IsValid db'
  Step-IsValid {db} started v = session_scope-keeps IsValid _ db v (bootstrap-IsValid db v)
  Step-IsValid {db} (delivered content source_ip mail_from rcpt_to) v =
      session_scope-keeps IsValid (process_message out.decoders content source_ip mail_from rcpt_to)
        db v (process_message-IsValid out.decoders content source_ip mail_from rcpt_to db v)
  Step-IsValid {db} (ingested authorization content source_ip mail_from rcpt_to) v =
      ingest-IsValid out.decoders out.settings authorization content source_ip mail_from rcpt_to db
        v
  Step-IsValid {db} (posted body) v = tlsrpt-IsValid out.decoders body db v
  Step-IsValid {db} (uploaded files t) v =
      session_scope-keeps IsValid _ db v (upload_files-IsValid out.decoders files t db v)
  Step-IsValid {db} (reprocessed limit) v =
      let (n, run, counted, total, messages, adds, kept) = reprocess_lem out.decoders limit db v in
      session_scope-keeps IsValid _ db v kept
  Step-IsValid {db} (tenant_created slug name) v =
      session_scope-keeps IsValid _ db v
        (Handlers.create_tenant-IsValid out.settings slug name db v)
  Step-IsValid {db} (domain_added local_part slug name) v =
      session_scope-keeps IsValid _ db v
        (Handlers.add_domain-IsValid out.settings local_part slug name db v)
  Step-IsValid {db} (domain_deleted name) v =
      session_scope-keeps IsValid _ db v (Handlers.delete_domain-IsValid name db v)
  Step-IsValid {db} (tenant_deleted slug) v =
      session_scope-keeps IsValid _ db v (Handlers.delete_tenant-IsValid slug db v)
  Step-IsValid {db} (address_rotated local_part name) v =
      session_scope-keeps IsValid _ db v
        (Handlers.rotate_address-IsValid out.settings local_part name db v)
  Step-IsValid {db} (address_deactivated name local_part) v =
      session_scope-keeps IsValid _ db v (Handlers.deactivate_address-IsValid name local_part db v)
  Step-IsValid {db} (visited request) v = Reached.Step-Holds out r IsValid-Kept request v
  Step-IsValid {db} (polled mail decrypt) v =
      fetch_all-IsValid out.dial mail out.decoders decrypt out.settings db v
  Step-IsValid {db} (enriched lookup limit) v = backfill-IsValid lookup limit db v
  Step-IsValid {db} sso_disabled v = disable_sso_command-IsValid db v
  Step-IsValid {db} (password_set email password admin) v =
      set_password_command-IsValid out.hash out.verify email password admin db v
  Step-IsValid {db} (waited seconds) v = IsValid-elsewhere _ _ _ _ _ db.next_id _ db (omega arith) v

  -- In every database that the service reaches from an empty one, by any requests, messages, polls and
  -- commands in any order and at any time: the slugs, domain names, local parts and report keys are
  -- each on one row at most, every address names a domain and every domain a tenant that exist, and
  -- the ids of messages are below the next one. The links of reports are not part of this.
  pub Reach-IsValid : {db : Db} → Reach db → IsValid db
  Reach-IsValid empty = record {
    slugs = tt;
    names = tt;
    local_parts = tt;
    aggregates = tt;
    tls = tt;
    address_domains = tt;
    domain_tenants = tt;
    raw_ids = tt;
  }
  Reach-IsValid (next r s) = Step-IsValid s (Reach-IsValid r)
