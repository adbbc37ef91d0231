-- ===== src/Auth/Tokens.antt =====
-- The API tokens of auth/service.py, and who may call the API. The digest and the random text are
-- parameters.
use dmarc_service.Base.{
  ℕ, Bool, true, false, not, ◌&&◌, ◌++◌, Option, none, some, find, select, is_some, take, ◌==◌,
  if◌then◌else◌,
}
use dmarc_service.Base.Text.{Text, codes, is_empty, text_eq, text_or, strip, remove_prefix}
use dmarc_service.Base.Exec.{http_exception, Exec, Result, ok, raised, pure, ◌>>◌}
use dmarc_service.Config.{Settings}
use dmarc_service.Schema.{User, ApiToken, Db}
use dmarc_service.Schema.Insert.{has_hash, insert_token}
use dmarc_service.Auth.Users.{has_user_id, user_count}

abbrev pub has_token_id : ℕ → ApiToken → Bool
has_token_id id t = t.id == id

unfoldable pub revoke_api_token : User → ℕ → Exec Db Bool
revoke_api_token user token_id db = elim (find (has_token_id token_id) db.api_tokens) [
  | none ↦ (ok false, db)
  | some t ↦
      if t.user_id == user.id
      then (
        ok true,
        record db { api_tokens = select (λ s. not (has_token_id token_id s)) db.api_tokens },
      )
      else (ok false, db)
]

module _ (digest : Text → Text) where
  -- the cleartext token, which is built from what `secrets` drew
  unfoldable pub mint_api_token : Text → User → Text → Exec Db Text
  unfolding insert_token
  mint_api_token drawn user name = do
    let token = codes "dmk_" ++ drawn
    insert_token user.id (text_or name (codes "token")) (digest token) (take 12 token)
    pure token

  unfoldable pub resolve_api_token : Db → Text → Option User
  resolve_api_token db token = elim (find (has_hash (digest token)) db.api_tokens) [
    | none ↦ none
    | some row ↦ find (has_user_id row.user_id) db.users
  ]

  -- authorization.removeprefix("Bearer ").strip()
  abbrev pub bearer_of : Text → Text
  bearer_of authorization = strip (remove_prefix authorization (codes "Bearer "))

  unfoldable pub require_api_token : Settings → Text → Db → Result (Unit {0})
  unfolding text_eq resolve_api_token strip remove_prefix
  require_api_token settings authorization db =
      let bearer = bearer_of authorization in
      if not (is_empty settings.api_token) && text_eq bearer settings.api_token
      then ok tt
      else if not (is_empty bearer) && is_some (resolve_api_token db bearer)
      then ok tt
      else if is_empty settings.api_token && user_count db == 0
      then ok tt
      else raised (http_exception 401 (codes "invalid or missing API token"))
