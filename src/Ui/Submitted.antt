-- ===== src/Ui/Submitted.antt =====
-- All forms of api/ui.py, and a property that the operations keep.
use dmarc_service.Base.{
  ℕ, Bool, not, ◌&&◌, List, find, is_some, length, ltb, Bool-cases, Option-cases, inl, inr, map,
  sym, if◌then◌else◌,
}
use dmarc_service.Base.Text.{Text, codes, is_empty, lower, text_eq}
use dmarc_service.Base.Exec.{lift, modify, state-bind, pure, Result-cases, ◌>>◌}
use dmarc_service.Schema.{User, Db}
use dmarc_service.Schema.Insert.{has_email}
use dmarc_service.ControlPlane.Records.{DnsRecord, required_dns_records}
use dmarc_service.Auth.Users.{set_admin, authenticate}
use dmarc_service.Auth.Tokens.{mint_api_token, revoke_api_token}
use dmarc_service.Api.Control.{or_404}
use dmarc_service.Api.Ingest.{upload_files}
use dmarc_service.Imap.Poll.{check}
use dmarc_service.Ui.Visit.{Visit, Handler, on_db, signed_in, in_session, current_user, show_error}
use dmarc_service.Ui.Forms.{named_domain, recheck, recheck_dns, upload_reports}
use dmarc_service.Ui.Settings.{
  create_token, revoke_token, change_password, has_password, give_role, change_role, MailboxForm,
  add_mailbox, delete_mailbox, save_sso, remove_sso, problem_of, account_of, settings,
}
use dmarc_service.Ui.Submit.{Outside, Form, handle, submit}
use dmarc_service.Ui.Guarded.{submit-handle}
use mathlib.Core.Path.{subst}
use dmarc_service.Ui.Kept.{Kept, Holds}
use dmarc_service.Ui.Handled.{
  create_tenant_form-Holds, add_domain_form-Holds, mint_address_form-Holds,
  deactivate_address_form-Holds, delete_domain_form-Holds, delete_tenant_form-Holds,
}

module _ {P : Db → Type 0} (k : Kept P) where
  pub in_session-Holds :
      (block : Handler) (v : Visit)
      → Holds P v
      → Holds P (block v).1
      → Holds P (in_session block v).1
  unfolding in_session
  in_session-Holds block v m n = elim (Result-cases (block v).0) [
    | inl (reply, e) ↦ rw (in_session, e) n
    | inr (x, e) ↦ rw (in_session, e) m
  ]

  revoke_token-Holds :
      (token_id : ℕ) (user : User) (v : Visit)
      → Holds P v
      → Holds P (revoke_token token_id user v).1
  unfolding revoke_token
  revoke_token-Holds token_id user v m =
      let kept = k.revoke_token user token_id v.db m in
      state-bind (Holds P) (on_db (revoke_api_token user token_id)) _ v (λ _ _. kept) kept

  create_token-Holds :
      (digest : Text → Text) (drawn name : Text) (user : User) (v : Visit)
      → Holds P v
      → Holds P (create_token digest drawn name user v).1
  unfolding create_token
  create_token-Holds digest drawn name user v m =
      let kept = k.mint_token digest drawn user name v.db m in
      state-bind (Holds P) (on_db (mint_api_token digest drawn user name)) _ v (λ _ _. kept) kept

  change_password-Holds :
      (hash : Text → Text) (verify : Text → Text → Bool) (current new : Text) (user : User)
      (v : Visit)
      → Holds P v
      → Holds P (change_password hash verify current new user v).1
  unfolding change_password
  change_password-Holds hash verify current new user v m = elim (Bool-cases (ltb (length new) 8)) [
    | inl short ↦ rw short m
    | inr long ↦
        elim (Bool-cases
          (has_password user && not (is_some (authenticate hash verify v.db user.email current)))) [
            | inl wrong ↦ rw long (rw wrong m)
            | inr right ↦ rw long (rw right (k.set_password hash verify user new v.db m))
          ]
  ]

  give_role-Holds :
      (make_admin : Text) (target : User) (v : Visit)
      → Holds P v
      → Holds P (give_role make_admin target v).1
  unfolding give_role
  give_role-Holds make_admin target v m =
      let kept = k.set_role target (text_eq make_admin (codes "1")) v.db m in
      state-bind (Holds P) (on_db (set_admin target (text_eq make_admin (codes "1"))))
        (λ problem.
          modify (λ w. if is_empty problem then w else show_error problem w) >> pure settings)
        v
        (λ problem _. elim (Bool-cases (is_empty problem)) [
          | inl fine ↦ rw fine kept
          | inr bad ↦ rw bad kept
        ])
        kept

  change_role-Holds :
      (email make_admin : Text) (user : User) (v : Visit)
      → Holds P v
      → Holds P (change_role email make_admin user v).1
  unfolding change_role
  change_role-Holds email make_admin user v m = elim (Bool-cases user.is_admin) [
    | inr other ↦ rw (change_role, other) m
    | inl admin ↦
        rw (change_role, admin)
          (state-bind (Holds P)
            (lift (or_404 "user not found" (find (has_email (lower email)) v.db.users)))
            (give_role make_admin) v (λ target _. give_role-Holds make_admin target v m) m)
  ]

  add_mailbox-Holds :
      (out : Outside) (f : MailboxForm) (user : User) (v : Visit)
      → Holds P v
      → Holds P (add_mailbox out.dial out.encrypt f user v).1
  unfolding add_mailbox
  add_mailbox-Holds out f user v m =
      let account = account_of f in
      elim (Bool-cases user.is_admin) [
        | inr other ↦ rw (add_mailbox, other) m
        | inl admin ↦
            rw (add_mailbox, admin)
              (elim (Bool-cases (is_empty (problem_of (check (out.dial account) account)))) [
                | inl signed ↦ rw signed (
                    state-bind (Holds P) (lift (out.encrypt f.password)) _ v
                      (λ encrypted _. k.insert_mailbox f encrypted v.db m) m)
                | inr failed ↦ rw failed m
              ])
      ]

  upload_reports-Holds :
      (out : Outside) (files : List (Text × Text)) (user : User) (v : Visit)
      → Holds P v
      → Holds P (upload_reports out.decoders files user v).1
  unfolding upload_reports
  upload_reports-Holds out files user v m =
      let kept = k.upload out.decoders files _ v.db m in
      state-bind (Holds P) (on_db (upload_files out.decoders files _)) _ v (λ _ _. kept) kept

  recheck_dns-Holds :
      (out : Outside) (name : Text) (user : User) (v : Visit)
      → Holds P v
      → Holds P (recheck_dns out.top_domain out.settings name user v).1
  unfolding recheck_dns named_domain
  recheck_dns-Holds out name user v m =
      state-bind (Holds P) (named_domain name) _ v
        (λ domain _.
          let required = required_dns_records out.top_domain out.settings v.db domain in
          state-bind (Holds P)
            (recheck out.top_domain out.settings (map (λ (r : DnsRecord). r.name) required)) _ v
            (λ _ _. m) m)
        m

  handle-Holds :
      (out : Outside) (form : Form) (user : User) (v : Visit)
      → Holds P v
      → Holds P (handle out form user v).1
  unfolding handle delete_mailbox save_sso remove_sso
  handle-Holds out (Form.create_tenant slug name) user v m =
      create_tenant_form-Holds k slug name user v m
  handle-Holds out (Form.add_domain local_part slug name) user v m =
      add_domain_form-Holds k local_part slug name user v m
  handle-Holds out (Form.mint_address local_part name) user v m =
      mint_address_form-Holds k local_part name user v m
  handle-Holds out (Form.deactivate_address name local_part) user v m =
      deactivate_address_form-Holds k name local_part user v m
  handle-Holds out (Form.delete_domain name) user v m = delete_domain_form-Holds k name user v m
  handle-Holds out (Form.delete_tenant slug) user v m = delete_tenant_form-Holds k slug user v m
  handle-Holds out (Form.recheck name) user v m = recheck_dns-Holds out name user v m
  handle-Holds out (Form.upload files) user v m = upload_reports-Holds out files user v m
  handle-Holds out (Form.mint_token drawn name) user v m =
      create_token-Holds out.digest drawn name user v m
  handle-Holds out (Form.revoke token_id) user v m = revoke_token-Holds token_id user v m
  handle-Holds out (Form.password current new) user v m =
      change_password-Holds out.hash out.verify current new user v m
  handle-Holds out (Form.role email make_admin) user v m =
      change_role-Holds email make_admin user v m
  handle-Holds out (Form.mailbox form) user v m = add_mailbox-Holds out form user v m
  handle-Holds out (Form.drop_mailbox mailbox_id) user v m = elim (Bool-cases user.is_admin) [
    | inl admin ↦ rw (delete_mailbox, admin) (k.delete_mailbox mailbox_id v.db m)
    | inr other ↦ rw (delete_mailbox, other) m
  ]
  handle-Holds out (Form.sso name issuer client_id client_secret) user v m =
      elim (Bool-cases user.is_admin) [
        | inl admin ↦
            rw (save_sso, admin) (k.set_provider name issuer client_id client_secret v.db m)
        | inr other ↦ rw (save_sso, other) m
      ]
  handle-Holds out Form.drop_sso user v m = elim (Bool-cases user.is_admin) [
    | inl admin ↦ rw (remove_sso, admin) (k.remove_provider v.db m)
    | inr other ↦ rw (remove_sso, other) m
  ]

  pub submit-Holds :
      (out : Outside) (form : Form) (v : Visit) → Holds P v → Holds P (submit out form v).1
  unfolding signed_in
  submit-Holds out form v m =
      subst (λ w. Holds P w.1) (sym (submit-handle out form v))
        (in_session-Holds (signed_in (handle out form)) v m (elim (Option-cases (current_user v)) [
          | inl nobody ↦ rw (signed_in, nobody) m
          | inr (user, known) ↦ rw (signed_in, known) (handle-Holds out form user v m)
        ]))
