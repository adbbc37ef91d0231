-- ===== src/Auth/Users.antt =====
-- Users of auth/service.py. The password hasher and its check are parameters: argon2 is a library.
use dmarc_service.Base.{
  ℕ, Bool, true, not, ◌&&◌, [], ◌∷◌, Option, none, some, find, select, update, length, leb, ◌==◌,
  if◌then◌else◌, suc,
}
use dmarc_service.Base.Text.{Text, codes, is_empty, lower, strip, rstrip_by, text_or}
use dmarc_service.Base.Exec.{Exec, ok, pure, gets, ◌>>=◌}
use dmarc_service.Schema.{User, AuthProvider, Db}
use dmarc_service.Schema.Insert.{has_email, insert_user}

-- email.lower().strip()
unfoldable pub plain_email : Text → Text
unfolding lower strip
plain_email email = strip (lower email)

abbrev pub user_count : Db → ℕ
user_count db = length db.users

unfoldable pub admin_count : Db → ℕ
admin_count db = length (select (λ (u : User). u.is_admin) db.users)

abbrev pub has_user_id : ℕ → User → Bool
has_user_id id u = u.id == id

abbrev pub with_role : Bool → User → User
with_role is_admin u = record u { is_admin = is_admin }

abbrev pub with_hash : Option Text → User → User
with_hash password_hash u = record u { password_hash = password_hash }

abbrev pub last_admin : Text
last_admin = codes "the last administrator cannot be demoted"

-- "" on success; `user` is the row as the session holds it
unfoldable pub set_admin : User → Bool → Exec Db Text
unfolding admin_count
set_admin user is_admin db =
    let demoted : Db = record db {
      users = update (has_user_id user.id) (with_role is_admin) db.users;
    } in
    if (if user.is_admin then is_admin else not is_admin)
    then (ok [], db)
    else if not is_admin && leb (admin_count db) 1
    then (ok last_admin, db)
    else (ok [], demoted)

unfoldable pub get_provider : Db → Option AuthProvider
get_provider db = find (λ (p : AuthProvider). p.enabled) db.auth_providers

-- The single provider replaces whatever is configured.
unfoldable pub set_provider : Text → Text → Text → Text → Exec Db AuthProvider
unfolding rstrip_by
set_provider name issuer client_id client_secret db =
    let provider : AuthProvider = record {
      id = db.next_id;
      name = text_or name (codes "SSO");
      issuer = rstrip_by (λ c. c == b'/') issuer;
      client_id = client_id;
      client_secret = client_secret;
      enabled = true;
    } in
    (ok provider, record db { auth_providers = provider ∷ []; next_id = suc db.next_id })

unfoldable pub remove_provider : Db → Db
remove_provider db = record db { auth_providers = [] }

module _ (hash : Text → Text) (verify : Text → Text → Bool) where
  abbrev pub hash_of : Option Text → Option Text
  hash_of none = none
  hash_of (some password) = if is_empty password then none else some (hash password)

  unfoldable pub create_user : Text → Option Text → Bool → Exec Db User
  unfolding plain_email insert_user
  create_user email password is_admin = insert_user (plain_email email) (hash_of password) is_admin

  -- an SSO user has no password hash, and never matches
  abbrev pub checked : User → Text → Option User
  checked user password = elim user.password_hash [
    | none ↦ none
    | some h ↦ if not (is_empty h) && verify h password then some user else none
  ]

  unfoldable pub authenticate : Db → Text → Text → Option User
  unfolding plain_email
  authenticate db email password = elim (find (has_email (plain_email email)) db.users) [
    | none ↦ none
    | some user ↦ checked user password
  ]

  unfoldable pub find_or_provision_sso_user : Text → Exec Db User
  unfolding plain_email create_user
  find_or_provision_sso_user email = do
    found ← gets (λ db. find (has_email (plain_email email)) db.users)
    first ← gets (λ db. user_count db == 0)
    elim found [ some user ↦ pure user | none ↦ create_user email none first ]

  unfoldable pub set_password : User → Text → Db → Db
  set_password user password db = record db {
    users = update (has_user_id user.id) (with_hash (hash_of (some password))) db.users;
  }
