-- ===== src/Ui/Staffed.antt =====
-- The operations of the web interface, and who administers an installation.
use dmarc_service.Base.{true, some, ℕ, any, find, ◌==◌, refl, Bool-cases, Option-cases, inl, inr}
use dmarc_service.Base.Text.{Text}
use dmarc_service.Base.Exec.{state-bind, pure}
use dmarc_service.Schema.{User, Tenant, Domain, Db}
use dmarc_service.Schema.Insert.{insert_domain, insert_token}
use dmarc_service.ControlPlane.Provision
use dmarc_service.ControlPlane.Provision.{normalise}
use dmarc_service.Auth.Users.{set_provider, remove_provider}
use dmarc_service.Auth.Tokens.{mint_api_token, revoke_api_token, has_token_id}
use dmarc_service.Auth.Manned.{
  IsManned, MannedBy-later, set_admin-IsManned, set_password-IsManned, create_user-IsManned,
  find_or_provision_sso_user-IsManned,
}
use dmarc_service.Auth.Quiet.{
  insert_tenant-IsManned, insert_domain-IsManned, insert_address-IsManned, insert_token-IsManned,
  upload_files-IsManned,
}
use dmarc_service.Ui.Forms.{deactivate_all}
use dmarc_service.Ui.Settings.{insert_mailbox}
use dmarc_service.Ui.Kept.{Kept}

revoke_api_token-IsManned :
    (user : User) (token_id : ℕ) (db : Db)
    → IsManned db
    → IsManned (revoke_api_token user token_id db).1
unfolding revoke_api_token
revoke_api_token-IsManned user token_id db m =
    elim (Option-cases (find (has_token_id token_id) db.api_tokens)) [
      | inl unknown ↦ rw (revoke_api_token, unknown) m
      | inr (t, known) ↦ elim (Bool-cases (t.user_id == user.id)) [
        | inl own ↦ rw (revoke_api_token, known) (rw own m)
        | inr other ↦ rw (revoke_api_token, known) (rw other m)
      ]
    ]

add_domain-IsManned :
    (local_part : Text) (tenant : Tenant) (name : Text) (db : Db)
    → IsManned db
    → IsManned (Provision.add_domain local_part tenant name db).1
unfolding Provision.add_domain Provision.mint_address
add_domain-IsManned local_part tenant name db m =
    let first = insert_domain-IsManned tenant.id (normalise name) db m in
    state-bind IsManned (insert_domain tenant.id (normalise name)) _ db
      (λ domain _.
        let after = (insert_domain tenant.id (normalise name) db).1 in
        let second = insert_address-IsManned domain.id local_part true after first in
        state-bind IsManned (Provision.mint_address local_part domain) (λ _. pure domain) after
          (λ _ _. second) second)
      first

delete_tenant-IsManned :
    (tenant : Tenant) (db : Db) → IsManned db → IsManned (Provision.delete_tenant tenant db).1
unfolding Provision.delete_tenant
delete_tenant-IsManned tenant db m =
    elim (Bool-cases (any (λ (d : Domain). d.tenant_id == tenant.id) db.domains)) [
      | inl owns ↦ rw owns m
      | inr empty ↦ rw empty m
    ]

mint_address-IsManned :
    (local_part : Text) (domain : Domain) (db : Db)
    → IsManned db
    → IsManned (Provision.mint_address local_part domain db).1
unfolding Provision.mint_address
mint_address-IsManned local_part domain db m =
    insert_address-IsManned domain.id local_part true db m

mint_api_token-IsManned :
    (digest : Text → Text) (drawn : Text) (user : User) (name : Text) (db : Db)
    → IsManned db
    → IsManned (mint_api_token digest drawn user name db).1
unfolding mint_api_token
mint_api_token-IsManned digest drawn user name db m =
    state-bind IsManned (insert_token user.id _ _ _) _ db
      (λ _ _. insert_token-IsManned user.id _ _ _ db m) (insert_token-IsManned user.id _ _ _ db m)

pub IsManned-Kept : Kept IsManned
unfolding Provision.create_tenant Provision.delete_domain deactivate_all insert_mailbox set_provider
    remove_provider
IsManned-Kept = record {
  create_tenant = insert_tenant-IsManned;
  add_domain = λ local_part tenant name db known m. add_domain-IsManned local_part tenant name db m;
  mint_address = λ local_part domain db known m. mint_address-IsManned local_part domain db m;
  deactivate = λ domain local_part db m. m;
  delete_domain = λ domain db m. m;
  delete_tenant = delete_tenant-IsManned;
  upload = upload_files-IsManned;
  mint_token = mint_api_token-IsManned;
  revoke_token = revoke_api_token-IsManned;
  set_password = set_password-IsManned;
  set_role = set_admin-IsManned;
  create_admin = λ hash verify email password db m.
      create_user-IsManned hash verify email (some password) true db (inl refl) m;
  provision = find_or_provision_sso_user-IsManned;
  insert_mailbox = λ form encrypted db m. MannedBy-later m;
  delete_mailbox = λ mailbox_id db m. m;
  set_provider = λ name issuer client_id client_secret db m. MannedBy-later m;
  remove_provider = λ db m. m;
  learn_ips = λ ips db m. m;
}
