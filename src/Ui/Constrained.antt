-- ===== src/Ui/Constrained.antt =====
-- The operations of the web interface, and the constraints of db/models.py.
use dmarc_service.Base.{
  ℕ, suc, Bool, Option, ◌++◌, true, none, any, find, ◌==◌, refl, Bool-cases, Option-cases, inl, inr,
  arith, not, leb, ◌&&◌, if◌then◌else◌,
}
use dmarc_service.Base.Rows.{Distinct-update, All-update}
use dmarc_service.Base.Text.{Text, codes}
use dmarc_service.Schema.{User, Domain, Db}
use dmarc_service.Schema.Insert.{has_email, has_hash, insert_user, insert_token}
use dmarc_service.Schema.Valid.{
  IsValid, IsValid-elsewhere, same_local_part, HasDomain, insert_tenant-IsValid,
  insert_address-IsValid,
}
use dmarc_service.ControlPlane.Provision
use dmarc_service.ControlPlane.Provision.{belongs_to, deactivate}
use dmarc_service.ControlPlane.Validity
use dmarc_service.Api.Incoming.{upload_files-IsValid}
use dmarc_service.Auth.Users.{
  admin_count, create_user, find_or_provision_sso_user, set_admin, set_password, set_provider,
  remove_provider, plain_email,
}
use dmarc_service.Auth.Tokens.{mint_api_token, revoke_api_token, has_token_id}
use dmarc_service.Ui.Forms.{deactivate_all}
use dmarc_service.Ui.Settings.{insert_mailbox}
use dmarc_service.Ui.Kept.{Kept}

pub insert_user-IsValid :
    (email : Text) (password_hash : Option Text) (is_admin : Bool) (db : Db)
    → IsValid db
    → IsValid (insert_user email password_hash is_admin db).1
unfolding insert_user
insert_user-IsValid email password_hash is_admin db v =
    elim (Bool-cases (any (has_email email) db.users)) [
      | inl taken ↦ rw taken v
      | inr free ↦ rw free (IsValid-elsewhere _ _ _ _ _ (suc db.next_id) _ db (omega arith) v)
    ]

find_or_provision_sso_user-IsValid :
    (hash : Text → Text) (verify : Text → Text → Bool) (email : Text) (db : Db)
    → IsValid db
    → IsValid (find_or_provision_sso_user hash verify email db).1
unfolding find_or_provision_sso_user create_user
find_or_provision_sso_user-IsValid hash verify email db v =
    elim (Option-cases (find (has_email (plain_email email)) db.users)) [
      | inr (u, known) ↦ rw known v
      | inl unknown ↦ rw unknown (insert_user-IsValid _ none _ db v)
    ]

set_admin-IsValid :
    (user : User) (is_admin : Bool) (db : Db) → IsValid db → IsValid (set_admin user is_admin db).1
unfolding set_admin
set_admin-IsValid user is_admin db v =
    elim (Bool-cases (if user.is_admin then is_admin else not is_admin)) [
      | inl same ↦ rw same v
      | inr other ↦ elim (Bool-cases (not is_admin && leb (admin_count db) 1)) [
        | inl last ↦ rw other (rw last v)
        | inr free ↦
            rw other (rw free (IsValid-elsewhere _ _ _ _ _ db.next_id _ db (omega arith) v))
      ]
    ]

mint_api_token-IsValid :
    (digest : Text → Text) (drawn : Text) (user : User) (name : Text) (db : Db)
    → IsValid db
    → IsValid (mint_api_token digest drawn user name db).1
unfolding mint_api_token insert_token
mint_api_token-IsValid digest drawn user name db v =
    elim (Bool-cases (any (has_hash (digest (codes "dmk_" ++ drawn))) db.api_tokens)) [
      | inl taken ↦ rw taken v
      | inr free ↦ rw free (IsValid-elsewhere _ _ _ _ _ (suc db.next_id) _ db (omega arith) v)
    ]

revoke_api_token-IsValid :
    (user : User) (token_id : ℕ) (db : Db)
    → IsValid db
    → IsValid (revoke_api_token user token_id db).1
unfolding revoke_api_token
revoke_api_token-IsValid user token_id db v =
    elim (Option-cases (find (has_token_id token_id) db.api_tokens)) [
      | inl unknown ↦ rw (revoke_api_token, unknown) v
      | inr (t, known) ↦ elim (Bool-cases (t.user_id == user.id)) [
        | inr other ↦ rw (revoke_api_token, known) (rw other v)
        | inl own ↦
            rw (revoke_api_token, known)
              (rw own (IsValid-elsewhere _ _ _ _ _ db.next_id _ db (omega arith) v))
      ]
    ]

deactivate_all-IsValid :
    (domain : Domain) (local_part : Text) (db : Db)
    → IsValid db
    → IsValid (deactivate_all domain local_part db)
unfolding deactivate_all
deactivate_all-IsValid domain local_part db v = record {
  slugs = v.slugs;
  names = v.names;
  local_parts =
      Distinct-update same_local_part _ deactivate db.addresses (λ a b. refl) (λ a b. refl)
        v.local_parts;
  aggregates = v.aggregates;
  tls = v.tls;
  address_domains =
      All-update (HasDomain db.domains) _ deactivate db.addresses (λ a h. h) v.address_domains;
  domain_tenants = v.domain_tenants;
  raw_ids = v.raw_ids;
}

pub IsValid-Kept : Kept IsValid
unfolding Provision.create_tenant Provision.mint_address insert_mailbox set_password create_user
    set_provider remove_provider
IsValid-Kept = record {
  create_tenant = insert_tenant-IsValid;
  add_domain = Validity.add_domain-IsValid;
  mint_address =
      λ local_part domain db known v. insert_address-IsValid domain.id local_part true db known v;
  deactivate = deactivate_all-IsValid;
  delete_domain = Validity.delete_domain-IsValid;
  delete_tenant = Validity.delete_tenant-IsValid;
  upload = upload_files-IsValid;
  mint_token = mint_api_token-IsValid;
  revoke_token = revoke_api_token-IsValid;
  set_password =
      λ hash verify user password db v. IsValid-elsewhere _ _ _ _ _ db.next_id _ db (omega arith) v;
  set_role = set_admin-IsValid;
  create_admin = λ hash verify email password db v. insert_user-IsValid _ _ true db v;
  provision = find_or_provision_sso_user-IsValid;
  insert_mailbox =
      λ form encrypted db v. IsValid-elsewhere _ _ _ _ _ (suc db.next_id) _ db (omega arith) v;
  delete_mailbox = λ mailbox_id db v. IsValid-elsewhere _ _ _ _ _ db.next_id _ db (omega arith) v;
  set_provider = λ name issuer client_id client_secret db v.
      IsValid-elsewhere _ _ _ _ _ (suc db.next_id) _ db (omega arith) v;
  learn_ips = λ ips db v. IsValid-elsewhere _ _ _ _ _ db.next_id _ db (omega arith) v;
  remove_provider = λ db v. IsValid-elsewhere _ _ _ _ _ db.next_id _ db (omega arith) v;
}
