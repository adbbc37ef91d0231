-- ===== src/Ui/Guarded.antt =====
-- Who may do what: without a user no form does anything, and without an administrator none of the
-- settings changes.
use dmarc_service.Base.{true, false, ◌≡◌, refl, ◌∙◌, none, some}
use dmarc_service.Base.Text.{codes}
use dmarc_service.Base.Exec.{ok, raised, http_exception}
use dmarc_service.Schema.{User}
use dmarc_service.Ui.Visit.{Visit, current_user, login_redirect, signed_in, in_session}
use dmarc_service.Ui.Settings.{change_role, add_mailbox, delete_mailbox, save_sso, remove_sso}
use dmarc_service.Ui.Submit.{Outside, Form, handle, submit, is_for_admins}

-- Each form is guarded by a user of its own.
pub submit-handle :
    (out : Outside) (form : Form) (v : Visit)
    → submit out form v ≡ in_session (signed_in (handle out form)) v
unfolding submit handle
submit-handle out (Form.create_tenant slug name) v = refl
submit-handle out (Form.add_domain local_part slug name) v = refl
submit-handle out (Form.mint_address local_part name) v = refl
submit-handle out (Form.deactivate_address name local_part) v = refl
submit-handle out (Form.delete_domain name) v = refl
submit-handle out (Form.delete_tenant slug) v = refl
submit-handle out (Form.recheck name) v = refl
submit-handle out (Form.upload files) v = refl
submit-handle out (Form.mint_token drawn name) v = refl
submit-handle out (Form.revoke token_id) v = refl
submit-handle out (Form.password current new) v = refl
submit-handle out (Form.role email make_admin) v = refl
submit-handle out (Form.mailbox form) v = refl
submit-handle out (Form.drop_mailbox mailbox_id) v = refl
submit-handle out (Form.sso name issuer client_id client_secret) v = refl
submit-handle out Form.drop_sso v = refl

-- Without a signed-in user every form leads to the sign-in page, or to the setup page where there is no
-- user yet, and changes neither the database nor the session.
pub submit_signed_out :
    (out : Outside) (form : Form) (v : Visit)
    → current_user v ≡ none
    → submit out form v ≡ (ok (login_redirect v.db), v)
unfolding in_session signed_in
submit_signed_out out form v e = submit-handle out form v ∙ rw (in_session, signed_in, e) refl

refused :
    (out : Outside) (form : Form) (v : Visit) (user : User)
    → is_for_admins form ≡ true
    → user.is_admin ≡ false
    → handle out form user v ≡ (raised (http_exception 403 (codes "admin only")), v)
unfolding handle is_for_admins change_role add_mailbox delete_mailbox save_sso remove_sso
refused out (Form.role email make_admin) v user s e = rw (change_role, e) refl
refused out (Form.mailbox form) v user s e = rw (add_mailbox, e) refl
refused out (Form.drop_mailbox mailbox_id) v user s e = rw (delete_mailbox, e) refl
refused out (Form.sso name issuer client_id client_secret) v user s e = rw (save_sso, e) refl
refused out Form.drop_sso v user s e = rw (remove_sso, e) refl
refused out _ v user s e = cc

-- A user who is no administrator is refused every form of the settings page, which then changes neither
-- the database nor the session.
pub submit_not_admin :
    (out : Outside) (form : Form) (v : Visit) (user : User)
    → is_for_admins form ≡ true
    → current_user v ≡ some user
    → user.is_admin ≡ false
    → submit out form v ≡ (raised (http_exception 403 (codes "admin only")), v)
unfolding in_session signed_in
submit_not_admin out form v user s e h =
    submit-handle out form v ∙ rw (in_session, signed_in, e) (rw (refused out form v user s h) refl)
