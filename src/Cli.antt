-- ===== src/Cli.antt =====
-- cli.py: the commands `set-password` and `disable-sso`. Reading the arguments and starting the
-- servers is left out.
use dmarc_service.Base.{Bool, true, none, some, find, update, length, ltb, if◌then◌else◌}
use dmarc_service.Base.Text.{Text, codes, lower}
use dmarc_service.Base.Exec.{Exec, raised, other, pure, gets, modify, ◌>>=◌, ◌>>◌}
use dmarc_service.Schema.{User, Db}
use dmarc_service.Schema.Insert.{has_email}
use dmarc_service.Schema.Session.{session_scope}
use dmarc_service.Auth.Users.{has_user_id, with_role, create_user, set_password, remove_provider}

-- what the command prints about
pub data Done : Type 0 where
  created updated : Done

module _ (hash : Text → Text) (verify : Text → Text → Bool) where
  abbrev pub update_user : Text → Bool → User → Db → Db
  update_user password admin user db =
      let changed = set_password hash verify user password db in
      if admin
      then record changed { users = update (has_user_id user.id) (with_role true) changed.users }
      else changed

  -- what the command does in its session
  unfoldable pub set_or_create : Text → Text → Bool → Exec Db Done
  unfolding create_user set_password lower
  set_or_create email password admin = do
    found ← gets (λ d. find (has_email (lower email)) d.users)
    elim found [
      | none ↦ do create_user hash verify email (some password) admin; pure created
      | some user ↦ do modify (update_user password admin user); pure updated
    ]

  unfoldable pub set_password_command : Text → Text → Bool → Exec Db Done
  unfolding session_scope set_or_create
  set_password_command email password admin db =
      if ltb (length password) 8
      then (raised (other (codes "password must be at least 8 characters")), db)
      else session_scope (set_or_create email password admin) db

unfoldable pub disable_sso_command : Exec Db (Unit {0})
unfolding session_scope remove_provider
disable_sso_command = session_scope (modify remove_provider)
