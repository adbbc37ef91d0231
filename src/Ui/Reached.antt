-- ===== src/Ui/Reached.antt =====
-- The databases that the web interface reaches from an empty one, and who administers them.
use dmarc_service.Base.{◌≢◌, [], refl, sym, inl, inr}
use mathlib.Core.Path.{subst}
use dmarc_service.Base.Text.{Text}
use dmarc_service.Base.Exec.{Result}
use dmarc_service.Schema.{AuthProvider, Db, empty_db}
use dmarc_service.ControlPlane.Check.{World}
use dmarc_service.Auth.Users.{admin_count}
use dmarc_service.Auth.Manned.{IsManned}
use dmarc_service.Ui.Visit.{Session}
use dmarc_service.Ui.Entry.{Claims, setup, login, sso_callback}
use dmarc_service.Ui.View.Screen.{Reader, Screen, view}
use dmarc_service.Ui.View.Private.{view-IsLookedAt}
use dmarc_service.Ui.Submit.{Outside, Form, submit}
use dmarc_service.Ui.Kept.{Kept}
use dmarc_service.Ui.Submitted.{submit-Holds}
use dmarc_service.Ui.Entered.{setup-Holds, login-Holds, sso_callback-Holds}
use dmarc_service.Ui.Staffed.{IsManned-Kept}

module _ (out : Outside) (r : Reader) where
  -- One request, by a visitor with any session, also a forged one.
  pub data Step (db : Db) (session : Session) (dns : World) : Db → Type 0 where
    installed :
        (email password : Text)
        → Step db session dns
            (setup out.hash out.verify email password
              (record { db = db; session = session; dns = dns })).1.db
    logged_in :
        (email password : Text)
        → Step db session dns
            (login out.hash out.verify email password
              (record { db = db; session = session; dns = dns })).1.db
    called_back :
        (authorized : AuthProvider → Result Claims)
        → Step db session dns
            (sso_callback out.hash out.verify authorized
              (record { db = db; session = session; dns = dns })).1.db
    submitted :
        (form : Form)
        → Step db session dns
            (submit out form (record { db = db; session = session; dns = dns })).1.db
    looked_at :
        (s : Screen)
        → Step db session dns (view r s (record { db = db; session = session; dns = dns })).1.db

  pub data Reach : Db → Type 0 where
    empty : Reach empty_db
    next :
        {db db' : Db} {session : Session} {dns : World}
        → Reach db
        → Step db session dns db'
        → Reach db'

  pub Step-Holds :
      {P : Db → Type 0}
      → Kept P
      → {db : Db} {session : Session} {dns : World} {db' : Db} → Step db session dns db'
      → P db
      → P db'
  Step-Holds k (installed email password) m = setup-Holds k out email password _ m
  Step-Holds k (logged_in email password) m = login-Holds k out email password _ m
  Step-Holds k (called_back authorized) m = sso_callback-Holds k out authorized _ m
  Step-Holds k (submitted form) m = submit-Holds k out form _ m
  Step-Holds {P} k {db} {session} {dns} (looked_at s) m =
      subst P
        (sym (view-IsLookedAt r s (record { db = db; session = session; dns = dns })).database)
        (k.learn_ips _ db m)

  Reach-IsManned : {db : Db} → Reach db → IsManned db
  Reach-IsManned empty = record { ids = tt; below = tt; manned = inl refl }
  Reach-IsManned (next r s) = Step-Holds IsManned-Kept s (Reach-IsManned r)

  -- In every database that the web interface reaches from an empty one, by any requests of any
  -- visitors in any order, there is an administrator as soon as there is a user.
  pub reached_has_admin : {db : Db} → Reach db → db.users ≢ [] → admin_count db ≢ 0
  unfolding admin_count
  reached_has_admin r some_user = elim ((Reach-IsManned r).manned) [
    | inl nobody ↦ absurd (some_user nobody)
    | inr admin ↦ admin
  ]
