-- ===== src/Ui/Visit.antt =====
-- One request to the web interface: the session cookie, `_current_user` and `_login_redirect` of
-- api/ui.py, and the guards that its handlers begin with. A page is told by its status, its template
-- and the message on it.
use dmarc_service.Base.{ℕ, Bool, false, [], Option, none, some, find, ◌==◌, if◌then◌else◌}
use dmarc_service.Base.Text.{Text, codes}
use dmarc_service.Base.Exec.{Exec, Result, ok, raised, http_exception}
use dmarc_service.Schema.{User, Db}
use dmarc_service.ControlPlane.Check.{World}
use dmarc_service.Auth.Users.{has_user_id, user_count}
use dmarc_service.Api.Ingest.{Totals}

pub record Session : Type 0 where
  pub user_id : Option ℕ
  pub new_token : Option Text
  pub settings_error : Text
  pub settings_notice : Text
  pub dns_rechecked : Bool
  pub upload_result : Option Totals

abbrev pub empty_session : Session
empty_session = record {
  user_id = none;
  new_token = none;
  settings_error = [];
  settings_notice = [];
  dns_rechecked = false;
  upload_result = none;
}

-- the database, the session of the request, and the DNS cache
pub record Visit : Type 0 where
  pub db : Db
  pub session : Session
  pub dns : World

pub data Reply : Type 0 where
  redirect : Text → Reply
  page : ℕ → Text → Text → Reply

abbrev pub Handler : Type 0
Handler = Exec Visit Reply

unfoldable pub current_user : Visit → Option User
current_user v = elim v.session.user_id [
  | none ↦ none
  | some id ↦ if id == 0 then none else find (has_user_id id) v.db.users
]

unfoldable pub login_redirect : Db → Reply
login_redirect db =
    if user_count db == 0 then redirect (codes "/setup") else redirect (codes "/login")

abbrev pub on_db : {A : Type 0} → Exec Db A → Exec Visit A
on_db m v = let done = m v.db in (done.0, record v { db = done.1 })

abbrev pub sign_in : User → Visit → Visit
sign_in user v = record v { session = record v.session { user_id = some user.id } }

abbrev pub show_error : Text → Visit → Visit
show_error text v = record v { session = record v.session { settings_error = text } }

abbrev pub show_notice : Text → Visit → Visit
show_notice text v = record v { session = record v.session { settings_notice = text } }

abbrev committed : {A : Type 0} → Db → Result A × Visit → Result A × Visit
committed before (ok reply, v) = (ok reply, v)
committed before (raised x, v) = (raised x, record v { db = before })

-- with session_scope() as db: an exception rolls back the database, and leaves the cookie
unfoldable pub in_session : {A : Type 0} → Exec Visit A → Exec Visit A
in_session block v = committed v.db (block v)

-- if user is None: return _login_redirect(db)
abbrev pub with_user : Visit → (User → Handler) → Option User → Result Reply × Visit
with_user v next none = (ok (login_redirect v.db), v)
with_user v next (some user) = next user v

unfoldable pub signed_in : (User → Handler) → Handler
unfolding current_user login_redirect
signed_in next v = with_user v next (current_user v)

-- if not user.is_admin: raise HTTPException(403)
abbrev pub admin_only : User → Handler → Handler
admin_only user next v =
    if user.is_admin then next v else (raised (http_exception 403 (codes "admin only")), v)
