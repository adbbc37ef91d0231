-- ===== src/Ui/Entered.antt =====
-- Setting up and signing in, and a property that the operations keep.
use dmarc_service.Base.{true, some, length, ltb, any, ◌==◌, Bool-cases, Option-cases, inl, inr}
use dmarc_service.Base.Text.{Text}
use dmarc_service.Base.Exec.{state-bind, Result, Result-cases}
use dmarc_service.Schema.{AuthProvider, Db}
use dmarc_service.Auth.Users.{
  authenticate, create_user, user_count, get_provider, find_or_provision_sso_user,
}
use dmarc_service.Ui.Visit.{Visit, on_db}
use dmarc_service.Ui.Entry.{
  Claims, claimed_email, set_up, setup, log_in, login, provision, sso_callback,
}
use dmarc_service.Ui.Submit.{Outside}
use dmarc_service.Ui.Kept.{Kept, Holds}
use dmarc_service.Ui.Submitted.{in_session-Holds}

module _ {P : Db → Type 0} (k : Kept P) (out : Outside) where
  pub setup-Holds :
      (email password : Text) (v : Visit)
      → Holds P v
      → Holds P (setup out.hash out.verify email password v).1
  unfolding setup set_up
  setup-Holds email password v m =
      in_session-Holds k (set_up out.hash out.verify email password) v m
        (elim (Bool-cases (user_count v.db == 0)) [
          | inr used ↦ rw (set_up, used) m
          | inl fresh ↦ elim (Bool-cases (ltb (length password) 8)) [
            | inl short ↦ rw (set_up, fresh) (rw short m)
            | inr long ↦
                let kept = k.create_admin out.hash out.verify email password v.db m in
                rw (set_up, fresh)
                  (rw long (
                    state-bind (Holds P)
                      (on_db (create_user out.hash out.verify email (some password) true)) _ v
                      (λ _ _. kept) kept))
          ]
        ])

  pub login-Holds :
      (email password : Text) (v : Visit)
      → Holds P v
      → Holds P (login out.hash out.verify email password v).1
  unfolding login log_in
  login-Holds email password v m =
      in_session-Holds k (log_in out.hash out.verify email password) v m
        (elim (Option-cases (authenticate out.hash out.verify v.db email password)) [
          | inl wrong ↦ rw (log_in, wrong) m
          | inr (user, right) ↦ rw (log_in, right) m
        ])

  pub sso_callback-Holds :
      (authorized : AuthProvider → Result Claims) (v : Visit)
      → Holds P v
      → Holds P (sso_callback out.hash out.verify authorized v).1
  unfolding sso_callback provision
  sso_callback-Holds authorized v m = elim (Option-cases (get_provider v.db)) [
    | inl nothing ↦ rw (sso_callback, nothing) m
    | inr (provider, found) ↦ elim (Result-cases (authorized provider)) [
      | inr (x, e) ↦ rw (sso_callback, found) (rw e m)
      | inl (claims, e) ↦ elim (Bool-cases (any (λ c. c == b'@') (claimed_email claims))) [
        | inr nameless ↦ rw (sso_callback, found) (rw e (rw nameless m))
        | inl named ↦
            let kept = k.provision out.hash out.verify (claimed_email claims) v.db m in
            rw (sso_callback, found)
              (rw e (
                rw named (
                  in_session-Holds k (provision out.hash out.verify (claimed_email claims)) v m (
                    state-bind (Holds P)
                      (on_db
                        (find_or_provision_sso_user out.hash out.verify (claimed_email claims)))
                      _ v (λ _ _. kept) kept))))
      ]
    ]
  ]
