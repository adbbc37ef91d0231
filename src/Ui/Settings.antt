-- ===== src/Ui/Settings.antt =====
-- The forms of api/ui.py for a user's own tokens and password, and for administrators: what a handler
-- does once it has found the user of the session. The password hasher, the digest of tokens, the cipher of mailbox passwords and the mail servers are parameters.
use dmarc_service.Base.{
  ℕ, suc, Bool, true, false, not, ◌&&◌, [], ◌∷◌, ◌++◌, none, some, find, select, is_some, length,
  ltb, if◌then◌else◌, take,
}
use dmarc_service.Base.Text.{Text, codes, is_empty, lower, text_eq}
use dmarc_service.Base.Exec.{
  Exec, Result, ok, raised, message, pure, lift, modify, gets, ◌>>=◌, ◌>>◌,
}
use dmarc_service.Schema.{User, ImapAccount, Db}
use dmarc_service.Schema.Insert.{has_email}
use dmarc_service.Auth.Users.{authenticate, set_password, set_admin, set_provider, remove_provider}
use dmarc_service.Auth.Tokens.{mint_api_token, revoke_api_token}
use dmarc_service.Imap.Client.{Server}
use dmarc_service.Imap.Fetch.{Account}
use dmarc_service.Imap.Poll.{has_account_id, check}
use dmarc_service.Api.Control.{or_404}
use dmarc_service.Ui.Visit.{
  Visit, Reply, redirect, Handler, on_db, admin_only, show_error, show_notice,
}

abbrev pub profile : Reply
profile = redirect (codes "/profile")

abbrev pub settings : Reply
settings = redirect (codes "/settings")

unfoldable pub revoke_token : ℕ → User → Handler
unfolding revoke_api_token
revoke_token token_id user = do on_db (revoke_api_token user token_id); pure profile

abbrev pub note_token : Text → Visit → Visit
note_token token v = record v { session = record v.session { new_token = some token } }

-- `drawn` is what `secrets` drew
unfoldable pub create_token : (Text → Text) → Text → Text → User → Handler
unfolding mint_api_token
create_token digest drawn name user = do
  token ← on_db (mint_api_token digest drawn user name)
  modify (note_token token)
  pure profile

-- user.password_hash, as a condition
abbrev pub has_password : User → Bool
has_password user = elim user.password_hash [ none ↦ false | some h ↦ not (is_empty h) ]

unfoldable pub change_password : (Text → Text) → (Text → Text → Bool) → Text → Text → User → Handler
unfolding authenticate set_password
change_password hash verify current new user = λ v.
    if ltb (length new) 8
    then (ok profile, show_error (codes "password must be at least 8 characters") v)
    else if has_password user && not (is_some (authenticate hash verify v.db user.email current))
    then (ok profile, show_error (codes "current password is wrong") v)
    else (
      ok profile,
      show_notice (codes "password updated")
          (record v { db = set_password hash verify user new v.db }),
    )

-- the change itself, and its problem as a message
unfoldable pub give_role : Text → User → Handler
unfolding set_admin text_eq
give_role make_admin target = do
  problem ← on_db (set_admin target (text_eq make_admin (codes "1")))
  modify (λ v. if is_empty problem then v else show_error problem v)
  pure settings

unfoldable pub change_role : Text → Text → User → Handler
unfolding give_role lower
change_role email make_admin user = admin_only user (do
  found ← on_db (gets (λ db. find (has_email (lower email)) db.users))
  target ← lift (or_404 "user not found" found)
  give_role make_admin target)

-- what the form to add a mailbox holds
pub record MailboxForm : Type 0 where
  pub host : Text
  pub port : ℕ
  pub username : Text
  pub password : Text
  pub folder : Text
  pub processed_folder : Text
  pub use_ssl : Text
  pub catch_all : Text

abbrev is_on : Text → Bool
is_on value = text_eq value (codes "on")

unfoldable pub account_of : MailboxForm → Account
unfolding text_eq
account_of f = record {
  host = f.host;
  port = f.port;
  use_ssl = is_on f.use_ssl;
  username = f.username;
  password = f.password;
  folder = f.folder;
  processed_folder = f.processed_folder;
  row = none;
}

unfoldable pub insert_mailbox : MailboxForm → Text → Exec Db (Unit {0})
unfolding text_eq
insert_mailbox f encrypted db =
    let row : ImapAccount = record {
      id = db.next_id;
      host = f.host;
      port = f.port;
      use_ssl = is_on f.use_ssl;
      username = f.username;
      password_encrypted = encrypted;
      folder = f.folder;
      processed_folder = f.processed_folder;
      catch_all = is_on f.catch_all;
      enabled = true;
      last_polled_at = none;
      last_result = [];
    } in
    (ok tt, record db { imap_accounts = db.imap_accounts ++ row ∷ []; next_id = suc db.next_id })

-- "" where signing in to the mailbox worked
abbrev pub problem_of : Result Text → Text
problem_of (ok problem) = problem
problem_of (raised x) = take 200 (message x)

unfoldable pub add_mailbox :
    (Account → Server) → (Text → Result Text) → MailboxForm → User → Handler
unfolding check account_of insert_mailbox
add_mailbox dial encrypt f user = admin_only user (
    let account = account_of f in
    let problem = problem_of (check (dial account) account) in
    if is_empty problem
    then (do
      encrypted ← lift (encrypt f.password)
      on_db (insert_mailbox f encrypted)
      modify (show_notice (f.username ++ codes " added; it will be polled from now on"))
      pure settings)
    else (do
      modify (show_error (codes "could not sign in to " ++ (f.host ++ (codes ": " ++ problem))))
      pure settings))

unfoldable pub delete_mailbox : ℕ → User → Handler
delete_mailbox mailbox_id user = admin_only user (do
  on_db (
      modify (λ db. record db {
        imap_accounts = select (λ row. not (has_account_id mailbox_id row)) db.imap_accounts;
      }))
  pure settings)

unfoldable pub save_sso : Text → Text → Text → Text → User → Handler
unfolding set_provider
save_sso name issuer client_id client_secret user =
    admin_only user (do on_db (set_provider name issuer client_id client_secret); pure settings)

unfoldable pub remove_sso : User → Handler
unfolding remove_provider
remove_sso user = admin_only user (do on_db (modify remove_provider); pure settings)
