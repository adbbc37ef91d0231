-- ===== src/Ui/View/Personal.antt =====
-- The pages of api/ui.py for a user and for administrators: `upload_page`, `profile_page` and
-- `settings_page`. What the session holds for a page is shown once.
use dmarc_service.Base.{
  ℕ, Bool, true, false, ◌++◌, List, [], Option, none, some, is_some, map, select, length, ◌==◌,
  if◌then◌else◌,
}
use dmarc_service.Base.Int.{ℤ}
use dmarc_service.Base.Order.{ordered}
use dmarc_service.Base.Text.{Text, codes}
use dmarc_service.Base.Exec.{ok}
use dmarc_service.Config.{Settings}
use dmarc_service.Schema.{User, ApiToken, ImapAccount, AuthProvider, Db}
use dmarc_service.Auth.Users.{get_provider}
use dmarc_service.Api.Ingest.{Totals}
use dmarc_service.Ui.Pages.{Pagination, pagination, window}
use dmarc_service.Ui.Visit.{Visit, redirect}
use dmarc_service.Ui.Settings.{has_password}
use dmarc_service.Ui.View.Guard.{View, sent, shown, for_user}

abbrev pub forget_upload : Visit → Visit
forget_upload v = record v { session = record v.session { upload_result = none } }

unfoldable pub upload_page : View (Option Totals)
upload_page = for_user (λ user v. (ok (shown v.session.upload_result), forget_upload v))

pub record TokenLine : Type 0 where
  pub id : ℕ
  pub name : Text
  pub prefix : Text

abbrev pub token_line : ApiToken → TokenLine
token_line t = record { id = t.id; name = t.name; prefix = t.prefix }

abbrev pub is_token_of : User → ApiToken → Bool
is_token_of user t = t.user_id == user.id

pub record ProfilePage : Type 0 where
  pub tokens : List TokenLine
  pub pages : Pagination
  pub new_token : Option Text
  pub settings_error : Text
  pub settings_notice : Text
  pub has_hash : Bool

abbrev pub forget_notes : Visit → Visit
forget_notes v = record v {
  session = record v.session { settings_error = []; settings_notice = [] };
}

abbrev pub forget_token : Visit → Visit
forget_token v = record v { session = record v.session { new_token = none } }

module _ (link : ℕ → Text) where
  -- what the template is given
  unfoldable pub profile_shown : ℤ → User → Visit → ProfilePage
  unfolding pagination
  profile_shown wanted user v =
      let tokens = map token_line (select (is_token_of user) v.db.api_tokens) in
      let pages = pagination link wanted (length tokens) in
      record {
        tokens = window link pages tokens;
        pages = pages;
        new_token = v.session.new_token;
        settings_error = v.session.settings_error;
        settings_notice = v.session.settings_notice;
        has_hash = is_some user.password_hash;
      }

  unfoldable pub profile_page : ℤ → View ProfilePage
  unfolding profile_shown
  profile_page wanted =
      for_user (λ user v. (ok (shown (profile_shown wanted user v)), forget_notes (forget_token v)))

pub record UserLine : Type 0 where
  pub email : Text
  pub is_admin : Bool
  pub is_self : Bool
  pub methods : Text

-- ", ".join(filter(None, ["password" if ... else "", "SSO" if ... else ""])) or "none"
abbrev pub methods_of : Bool → User → Text
methods_of sso u =
    if has_password u
    then (if sso then codes "password, SSO" else codes "password")
    else (if sso then codes "SSO" else codes "none")

unfoldable pub user_line : User → Bool → User → UserLine
user_line user sso u = record {
  email = u.email;
  is_admin = u.is_admin;
  is_self = u.id == user.id;
  methods = methods_of sso u;
}

pub record MailboxLine : Type 0 where
  pub id : ℕ
  pub host : Text
  pub username : Text
  pub folder : Text
  pub catch_all : Bool
  pub enabled : Bool
  pub last_polled_at : Option ℕ
  pub last_result : Text

unfoldable pub mailbox_line : ImapAccount → MailboxLine
mailbox_line row = record {
  id = row.id;
  host = row.host;
  username = row.username;
  folder = row.folder;
  catch_all = row.catch_all;
  enabled = row.enabled;
  last_polled_at = row.last_polled_at;
  last_result = row.last_result;
}

-- the fields of `sso` on the page
pub record SsoLine : Type 0 where
  pub configured : Bool
  pub name : Text
  pub issuer : Text
  pub client_id : Text

abbrev pub sso_line : Option AuthProvider → SsoLine
sso_line none = record { configured = false; name = []; issuer = []; client_id = [] }
sso_line (some p) = record {
  configured = true;
  name = p.name;
  issuer = p.issuer;
  client_id = p.client_id;
}

pub record SettingsPage : Type 0 where
  pub settings_error : Text
  pub settings_notice : Text
  pub mailboxes : List MailboxLine
  pub users : List UserLine
  pub pages : Pagination
  pub sso : SsoLine
  pub callback_url : Text

module _ (settings : Settings) (before : Text → Text → Bool) (link : ℕ → Text) where
  -- the users by email
  abbrev pub user_lines : Db → User → List UserLine
  user_lines db user =
      map (user_line user (is_some (get_provider db)))
        (ordered (λ (a b : User). before a.email b.email) db.users)

  -- if not user.is_admin: return RedirectResponse("/profile", status_code=303)
  unfoldable pub show_settings : User → ℤ → View SettingsPage
  unfolding pagination get_provider ordered user_line mailbox_line
  show_settings user wanted v =
      let users = user_lines v.db user in
      let pages = pagination link wanted (length users) in
      if user.is_admin
      then (
        ok (
            shown (record {
              settings_error = v.session.settings_error;
              settings_notice = v.session.settings_notice;
              mailboxes = map mailbox_line v.db.imap_accounts;
              users = window link pages users;
              pages = pages;
              sso = sso_line (get_provider v.db);
              callback_url = settings.external_url ++ codes "/auth/sso/callback";
            })),
        forget_notes v,
      )
      else (ok (sent (redirect (codes "/profile"))), v)

  unfoldable pub settings_page : ℤ → View SettingsPage
  unfolding show_settings
  settings_page wanted = for_user (λ user. show_settings user wanted)
