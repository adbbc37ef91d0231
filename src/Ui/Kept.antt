-- ===== src/Ui/Kept.antt =====
-- What a property of the database must survive for every request to the web interface to keep it: one
-- law for each operation that a handler calls.
use dmarc_service.Base.{some, ℕ, Bool, true, not, ◌≡◌, List, any, select, ◌==◌}
use dmarc_service.Base.Text.{Text, Bytes}
use dmarc_service.Schema.{IpIntel, User, Tenant, Domain, Db}
use dmarc_service.ControlPlane.Provision
use dmarc_service.Auth.Users.{
  create_user, find_or_provision_sso_user, set_admin, set_password, set_provider, remove_provider,
}
use dmarc_service.Auth.Tokens.{mint_api_token, revoke_api_token}
use dmarc_service.Api.Ingest.{Totals, upload_files}
use dmarc_service.Parsers.Decoders.{Decoders}
use dmarc_service.Imap.Poll.{has_account_id}
use dmarc_service.Ui.Forms.{deactivate_all}
use dmarc_service.Ui.Settings.{MailboxForm, insert_mailbox}
use dmarc_service.Ui.Visit.{Visit}

abbrev pub without_account : ℕ → Db → Db
without_account id db = record db {
  imap_accounts = select (λ row. not (has_account_id id row)) db.imap_accounts;
}

pub record Kept (P : Db → Type 0) : Type 0 where
  pub create_tenant :
      (slug name : Text) (db : Db) → P db → P (Provision.create_tenant slug name db).1
  pub add_domain :
      (local_part : Text) (tenant : Tenant) (name : Text) (db : Db)
      → any (λ (t : Tenant). t.id == tenant.id) db.tenants ≡ true
      → P db
      → P (Provision.add_domain local_part tenant name db).1
  pub mint_address :
      (local_part : Text) (domain : Domain) (db : Db)
      → any (λ (d : Domain). d.id == domain.id) db.domains ≡ true
      → P db
      → P (Provision.mint_address local_part domain db).1
  pub deactivate :
      (domain : Domain) (local_part : Text) (db : Db)
      → P db
      → P (deactivate_all domain local_part db)
  pub delete_domain : (domain : Domain) (db : Db) → P db → P (Provision.delete_domain domain db)
  pub delete_tenant : (tenant : Tenant) (db : Db) → P db → P (Provision.delete_tenant tenant db).1
  pub upload :
      (dec : Decoders) (files : List (Text × Bytes)) (t : Totals) (db : Db)
      → P db
      → P (upload_files dec files t db).1
  pub mint_token :
      (digest : Text → Text) (drawn : Text) (user : User) (name : Text) (db : Db)
      → P db
      → P (mint_api_token digest drawn user name db).1
  pub revoke_token :
      (user : User) (token_id : ℕ) (db : Db) → P db → P (revoke_api_token user token_id db).1
  pub set_password :
      (hash : Text → Text) (verify : Text → Text → Bool) (user : User) (password : Text) (db : Db)
      → P db
      → P (set_password hash verify user password db)
  pub set_role : (user : User) (is_admin : Bool) (db : Db) → P db → P (set_admin user is_admin db).1
  pub create_admin :
      (hash : Text → Text) (verify : Text → Text → Bool) (email password : Text) (db : Db)
      → P db
      → P (create_user hash verify email (some password) true db).1
  pub provision :
      (hash : Text → Text) (verify : Text → Text → Bool) (email : Text) (db : Db)
      → P db
      → P (find_or_provision_sso_user hash verify email db).1
  pub insert_mailbox :
      (form : MailboxForm) (encrypted : Text) (db : Db)
      → P db
      → P (insert_mailbox form encrypted db).1
  pub delete_mailbox : (mailbox_id : ℕ) (db : Db) → P db → P (without_account mailbox_id db)
  pub set_provider :
      (name issuer client_id client_secret : Text) (db : Db)
      → P db
      → P (set_provider name issuer client_id client_secret db).1
  pub remove_provider : (db : Db) → P db → P (remove_provider db)
  pub learn_ips : (ips : List IpIntel) (db : Db) → P db → P (record db { ip_intel = ips })

-- a property of the database, as one of the visit
abbrev pub Holds : (Db → Type 0) → Visit → Type 0
Holds P v = P v.db
