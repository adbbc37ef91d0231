-- ===== src/Ui/Submit.antt =====
-- The routes of api/ui.py that change something and want a user: one constructor for each form, with
-- what the request and the random draws hold.
use dmarc_service.Base.{ℕ, Bool, true, false, List}
use dmarc_service.Base.Text.{Text, Bytes}
use dmarc_service.Base.Exec.{Result}
use dmarc_service.Config.{Settings}
use dmarc_service.Parsers.Decoders.{Decoders}
use dmarc_service.Imap.Client.{Server}
use dmarc_service.Imap.Fetch.{Account}
use dmarc_service.Schema.{User}
use dmarc_service.Ui.Visit.{Handler, in_session, signed_in}
use dmarc_service.Ui.Forms.{
  create_tenant_form, add_domain_form, mint_address_form, deactivate_address_form,
  delete_domain_form, delete_tenant_form, recheck_dns, upload_reports,
}
use dmarc_service.Ui.Settings.{
  create_token, revoke_token, change_password, change_role, MailboxForm, add_mailbox,
  delete_mailbox, save_sso, remove_sso,
}

-- The libraries and the configuration that the handlers use.
pub record Outside : Type 0 where
  pub settings : Settings
  pub decoders : Decoders
  pub top_domain : Text → Text
  pub hash : Text → Text
  pub verify : Text → Text → Bool
  pub digest : Text → Text
  pub encrypt : Text → Result Text
  pub dial : Account → Server

pub data Form : Type 0 where
  create_tenant : (slug name : Text) → Form
  add_domain : (local_part slug name : Text) → Form
  mint_address : (local_part name : Text) → Form
  deactivate_address : (name local_part : Text) → Form
  delete_domain : (name : Text) → Form
  delete_tenant : (slug : Text) → Form
  recheck : (name : Text) → Form
  upload : (files : List (Text × Bytes)) → Form
  mint_token : (drawn name : Text) → Form
  revoke : (token_id : ℕ) → Form
  password : (current new : Text) → Form
  role : (email make_admin : Text) → Form
  mailbox : (form : MailboxForm) → Form
  drop_mailbox : (mailbox_id : ℕ) → Form
  sso : (name issuer client_id client_secret : Text) → Form
  drop_sso : Form

module _ (out : Outside) where
  -- what each handler does for its user
  unfoldable pub handle : Form → User → Handler
  unfolding create_tenant_form add_domain_form mint_address_form deactivate_address_form
      delete_domain_form delete_tenant_form recheck_dns upload_reports create_token revoke_token
      change_password change_role add_mailbox delete_mailbox save_sso remove_sso
  handle (create_tenant slug name) = create_tenant_form slug name
  handle (add_domain local_part slug name) = add_domain_form local_part slug name
  handle (mint_address local_part name) = mint_address_form local_part name
  handle (deactivate_address name local_part) = deactivate_address_form name local_part
  handle (delete_domain name) = delete_domain_form name
  handle (delete_tenant slug) = delete_tenant_form slug
  handle (recheck name) = recheck_dns out.top_domain out.settings name
  handle (upload files) = upload_reports out.decoders files
  handle (mint_token drawn name) = create_token out.digest drawn name
  handle (revoke token_id) = revoke_token token_id
  handle (password current new) = change_password out.hash out.verify current new
  handle (role email make_admin) = change_role email make_admin
  handle (mailbox form) = add_mailbox out.dial out.encrypt form
  handle (drop_mailbox mailbox_id) = delete_mailbox mailbox_id
  handle (sso name issuer client_id client_secret) = save_sso name issuer client_id client_secret
  handle drop_sso = remove_sso

  -- with session_scope() as db: user = _current_user(request, db), and so on, in each of the handlers
  unfoldable pub submit : Form → Handler
  unfolding in_session signed_in create_tenant_form add_domain_form mint_address_form
      deactivate_address_form delete_domain_form delete_tenant_form recheck_dns upload_reports
      create_token revoke_token change_password change_role add_mailbox delete_mailbox save_sso
      remove_sso
  submit (create_tenant slug name) = in_session (signed_in (create_tenant_form slug name))
  submit (add_domain local_part slug name) =
      in_session (signed_in (add_domain_form local_part slug name))
  submit (mint_address local_part name) = in_session (signed_in (mint_address_form local_part name))
  submit (deactivate_address name local_part) =
      in_session (signed_in (deactivate_address_form name local_part))
  submit (delete_domain name) = in_session (signed_in (delete_domain_form name))
  submit (delete_tenant slug) = in_session (signed_in (delete_tenant_form slug))
  submit (recheck name) = in_session (signed_in (recheck_dns out.top_domain out.settings name))
  submit (upload files) = in_session (signed_in (upload_reports out.decoders files))
  submit (mint_token drawn name) = in_session (signed_in (create_token out.digest drawn name))
  submit (revoke token_id) = in_session (signed_in (revoke_token token_id))
  submit (password current new) =
      in_session (signed_in (change_password out.hash out.verify current new))
  submit (role email make_admin) = in_session (signed_in (change_role email make_admin))
  submit (mailbox form) = in_session (signed_in (add_mailbox out.dial out.encrypt form))
  submit (drop_mailbox mailbox_id) = in_session (signed_in (delete_mailbox mailbox_id))
  submit (sso name issuer client_id client_secret) =
      in_session (signed_in (save_sso name issuer client_id client_secret))
  submit drop_sso = in_session (signed_in (remove_sso))

-- the forms of the settings page
unfoldable pub is_for_admins : Form → Bool
is_for_admins (role email make_admin) = true
is_for_admins (mailbox form) = true
is_for_admins (drop_mailbox mailbox_id) = true
is_for_admins (sso name issuer client_id client_secret) = true
is_for_admins drop_sso = true
is_for_admins _ = false
