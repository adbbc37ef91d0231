-- ===== src/Ui/Entry.antt =====
-- How a visitor signs in and out: `setup`, `login`, `logout` and the single sign-on of api/ui.py. The
-- password hasher is a parameter, and so is what the provider answers.
use dmarc_service.Base.{Bool, true, [], none, some, any, length, ltb, ◌==◌, if◌then◌else◌}
use dmarc_service.Base.Text.{Text, codes, lower, strip, text_or}
use dmarc_service.Base.Exec.{Result, ok, raised, pure, modify, http_exception, ◌>>=◌, ◌>>◌}
use dmarc_service.Schema.{AuthProvider}
use dmarc_service.Auth.Users.{
  user_count, create_user, authenticate, get_provider, find_or_provision_sso_user,
}
use dmarc_service.Ui.Visit.{
  Reply, redirect, page, Handler, on_db, sign_in, in_session, empty_session,
}

abbrev pub home : Reply
home = redirect (codes "/")

-- what the provider tells of a user
pub record Claims : Type 0 where
  pub email : Text
  pub preferred_username : Text
  pub upn : Text

unfoldable pub claimed_email : Claims → Text
unfolding lower strip
claimed_email c = lower (strip (text_or c.email (text_or c.preferred_username c.upn)))

unfoldable pub logout : Handler
logout v = (ok (redirect (codes "/login")), record v { session = empty_session })

-- whether anybody can set up the installation
unfoldable pub setup_form : Handler
setup_form v =
    if user_count v.db == 0
    then (ok (page 200 (codes "setup.html") []), v)
    else (ok (redirect (codes "/login")), v)

unfoldable pub login_form : Handler
login_form v =
    if user_count v.db == 0
    then (ok (redirect (codes "/setup")), v)
    else (ok (page 200 (codes "login.html") []), v)

module _ (hash : Text → Text) (verify : Text → Text → Bool) where
  -- what the blocks of the sessions do
  unfoldable pub set_up : Text → Text → Handler
  unfolding create_user
  set_up email password v =
      if user_count v.db == 0
      then (if ltb (length password) 8
          then (
            ok (page 400 (codes "setup.html") (codes "Password must be at least 8 characters")),
            v,
          )
          else ((do
            user ← on_db (create_user hash verify email (some password) true)
            modify (sign_in user)
            pure home)
              v))
      else (ok (redirect (codes "/login")), v)

  unfoldable pub setup : Text → Text → Handler
  unfolding set_up in_session
  setup email password = in_session (set_up email password)

  unfoldable pub log_in : Text → Text → Handler
  unfolding authenticate
  log_in email password v = elim (authenticate hash verify v.db email password) [
    | none ↦ (ok (page 401 (codes "login.html") (codes "Wrong email or password")), v)
    | some user ↦ (ok home, sign_in user v)
  ]

  unfoldable pub login : Text → Text → Handler
  unfolding log_in in_session
  login email password = in_session (log_in email password)

  unfoldable pub provision : Text → Handler
  unfolding find_or_provision_sso_user
  provision email = do
    user ← on_db (find_or_provision_sso_user hash verify email)
    modify (sign_in user)
    pure home

  -- `authorized` is what the exchange with the provider gives
  unfoldable pub sso_callback : (AuthProvider → Result Claims) → Handler
  unfolding get_provider provision claimed_email in_session
  sso_callback authorized v = elim (get_provider v.db) [
    | none ↦ (raised (http_exception 404 (codes "SSO not configured")), v)
    | some provider ↦ elim (authorized provider) [
      | raised x ↦ (raised x, v)
      | ok claims ↦
          if any (λ c. c == b'@') (claimed_email claims)
          then in_session (provision (claimed_email claims)) v
          else (
            raised (
                http_exception 400
                  (codes "SSO provider returned no email, preferred_username or upn claim")),
            v,
          )
    ]
  ]
