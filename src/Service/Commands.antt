-- ===== src/Service/Commands.antt =====
-- The commands of cli.py and the enrichment, and the constraints of db/models.py.
use dmarc_service.Base.{
  ℕ, List, Bool, true, false, some, find, length, ltb, arith, Bool-cases, Option-cases, inl, inr,
}
use dmarc_service.Base.Text.{Text, lower}
use dmarc_service.Base.Exec.{state-bind, pure}
use dmarc_service.Schema.{User, IpIntel, Db}
use dmarc_service.Schema.Insert.{has_email}
use dmarc_service.Schema.Session.{session_scope, session_scope-keeps}
use dmarc_service.Schema.Valid.{IsValid, IsValid-elsewhere}
use dmarc_service.Auth.Users.{create_user, set_password, remove_provider}
use dmarc_service.Enrich.Ips.{enrich_ips, backfill_ips, backfill}
use dmarc_service.Cli.{
  created, update_user, set_or_create, set_password_command, disable_sso_command,
}
use dmarc_service.Ui.Constrained.{insert_user-IsValid}

enrich_ips-IsValid :
    (lookup : Text → IpIntel) (ips : List Text) (limit : ℕ) (db : Db)
    → IsValid db
    → IsValid (enrich_ips lookup ips limit db)
unfolding enrich_ips
enrich_ips-IsValid lookup ips limit db v =
    IsValid-elsewhere _ _ _ _ _ db.next_id _ db (omega arith) v

pub backfill-IsValid :
    (lookup : Text → IpIntel) (limit : ℕ) (db : Db)
    → IsValid db
    → IsValid (backfill lookup limit db).1
unfolding backfill
backfill-IsValid lookup limit db v =
    let ips = backfill_ips lookup db limit in enrich_ips-IsValid lookup ips (length ips) db v

pub disable_sso_command-IsValid : (db : Db) → IsValid db → IsValid (disable_sso_command db).1
unfolding disable_sso_command session_scope remove_provider
disable_sso_command-IsValid db v = IsValid-elsewhere _ _ _ _ _ db.next_id _ db (omega arith) v

module _ (hash : Text → Text) (verify : Text → Text → Bool) where
  update_user-IsValid :
      (password : Text) (admin : Bool) (user : User) (db : Db)
      → IsValid db
      → IsValid (update_user hash verify password admin user db)
  unfolding set_password
  update_user-IsValid password true user db v =
      IsValid-elsewhere _ _ _ _ _ db.next_id _ db (omega arith) v
  update_user-IsValid password false user db v =
      IsValid-elsewhere _ _ _ _ _ db.next_id _ db (omega arith) v

  set_or_create-IsValid :
      (email password : Text) (admin : Bool) (db : Db)
      → IsValid db
      → IsValid (set_or_create hash verify email password admin db).1
  unfolding set_or_create create_user
  set_or_create-IsValid email password admin db v =
      elim (Option-cases (find (has_email (lower email)) db.users)) [
        | inr (user, known) ↦ rw known (update_user-IsValid password admin user db v)
        | inl unknown ↦
            let kept : IsValid (create_user hash verify email (some password) admin db).1 =
              insert_user-IsValid _ _ admin db v in
            rw unknown (
              state-bind IsValid (create_user hash verify email (some password) admin)
                (λ _. pure created) db (λ _ _. kept) kept)
      ]

  pub set_password_command-IsValid :
      (email password : Text) (admin : Bool) (db : Db)
      → IsValid db
      → IsValid (set_password_command hash verify email password admin db).1
  unfolding set_password_command
  set_password_command-IsValid email password admin db v =
      elim (Bool-cases (ltb (length password) 8)) [
        | inl short ↦ rw short v
        | inr long ↦ rw long (
            session_scope-keeps IsValid (set_or_create hash verify email password admin) db v
              (set_or_create-IsValid email password admin db v))
      ]
