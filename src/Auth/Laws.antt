-- ===== src/Auth/Laws.antt =====
-- Roles and tokens: the last administrator stays, a minted token opens the API, nothing else does.
use dmarc_service.Base.{
  ℕ, suc, ◌≤◌, ◌≡◌, ◌≢◌, refl, sym, ◌∙◌, Bool, true, false, not, ◌&&◌, List, [], ◌∷◌, ◌++◌, none,
  some, any, find, select, update, length, ◌==◌, Bool-cases, Option-cases, inl, inr, ◌⊎◌, arith,
  find-append_miss, find-append_hit, take,
}
use dmarc_service.Base.Rows.{Distinct}
use dmarc_service.Base.Text.{Text, codes, is_empty, text_eq, text_eq_refl, text_eq_iff, text_or}
use dmarc_service.Base.Exec.{ok}
use dmarc_service.Config.{Settings}
use dmarc_service.Schema.{User, ApiToken, Db}
use dmarc_service.Schema.Insert.{has_hash}
use dmarc_service.Auth.Users.{has_user_id, with_role, admin_count, set_admin, user_count}
use dmarc_service.Auth.Tokens.{mint_api_token, resolve_api_token, bearer_of, require_api_token}

abbrev pub same_user_id : User → User → Bool
same_user_id u v = has_user_id v.id u

abbrev admins : List User → ℕ
admins us = length (select (λ (u : User). u.is_admin) us)

promoted :
    (id : ℕ) (us : List User) → admins us ≤ admins (update (has_user_id id) (with_role true) us)
promoted id [] = omega arith
promoted id (u ∷ us) = ground (arith, promoted id us)

untouched :
    (id : ℕ) (u : User) (us : List User)
    → u.id ≡ id
    → any (same_user_id u) us ≡ false
    → admins (update (has_user_id id) (with_role false) us) ≡ admins us
untouched id u [] e h = refl
untouched id u (v ∷ us) e h = ground (arith, untouched id u us e)

demoted :
    (id : ℕ) (us : List User)
    → Distinct same_user_id us
    → admins us ≤ suc (admins (update (has_user_id id) (with_role false) us))
demoted id [] d = omega arith
demoted id (u ∷ us) d = elim (Bool-cases (u.id == id)) [
  | inl hit ↦ ground (arith, untouched id u us (ground arith) d.0)
  | inr miss ↦ ground (arith, demoted id us d.1)
]

-- An installation that has an administrator keeps one, whatever role is given to whom.
pub set_admin-admin_count :
    (user : User) (is_admin : Bool) (db : Db)
    → Distinct same_user_id db.users
    → admin_count db ≢ 0
    → admin_count (set_admin user is_admin db).1 ≢ 0
unfolding set_admin admin_count
set_admin-admin_count user true db d some_admin = ground (arith, promoted user.id db.users)
set_admin-admin_count user false db d some_admin = ground (arith, demoted user.id db.users d)

resolve_found :
    (digest : Text → Text) (db : Db) (token : Text) {row : ApiToken}
    → find (has_hash (digest token)) db.api_tokens ≡ some row
    → resolve_api_token digest db token ≡ find (has_user_id row.user_id) db.users
unfolding resolve_api_token
resolve_found digest db token e = rw (resolve_api_token, e) refl

row_of_resolved :
    (digest : Text → Text) (db : Db) (token : Text) {u : User}
    → resolve_api_token digest db token ≡ some u
    → (row : ApiToken) × (find (has_hash (digest token)) db.api_tokens ≡ some row)
unfolding resolve_api_token
row_of_resolved digest db token e =
    elim (Option-cases (find (has_hash (digest token)) db.api_tokens)) [
      | inr found ↦ found
      | inl missing ↦ cc (rw (resolve_api_token, missing) at e)
    ]

abbrev token_row : (Text → Text) → Text → User → Text → Db → ApiToken
token_row digest drawn user name db = record {
  id = db.next_id;
  user_id = user.id;
  name = text_or name (codes "token");
  token_hash = digest (codes "dmk_" ++ drawn);
  prefix = take 12 (codes "dmk_" ++ drawn);
}

abbrev with_token : ApiToken → Db → Db
with_token row db = record db { api_tokens = db.api_tokens ++ row ∷ []; next_id = suc db.next_id }

minted :
    (digest : Text → Text) (drawn : Text) (user : User) (name : Text) (db : Db)
    → any (has_hash (digest (codes "dmk_" ++ drawn))) db.api_tokens ≡ false
    → mint_api_token digest drawn user name db
      ≡ (ok (codes "dmk_" ++ drawn), with_token (token_row digest drawn user name db) db)
unfolding mint_api_token
minted digest drawn user name db fresh = rw fresh refl

find-append_skip :
    {A : Type 0} (p : A → Bool) (xs : List A) (x : A)
    → p x ≡ false
    → find p (xs ++ x ∷ []) ≡ find p xs
find-append_skip p [] x e = rw e refl
find-append_skip p (y ∷ ys) x e = ground (arith, find-append_skip p ys x e)

same_answer :
    (digest : Text → Text) (db : Db) (row : ApiToken) (other : Text)
    → has_hash (digest other) row ≡ false
    → resolve_api_token digest (with_token row db) other ≡ resolve_api_token digest db other
unfolding resolve_api_token
same_answer digest db row other e =
    rw (resolve_api_token, find-append_skip (has_hash (digest other)) db.api_tokens row e) refl

-- A token that is minted with a hash that no row has is the user's who minted it. A token that resolves
-- to a user before still resolves to the same user, and every token whose hash is not the minted one's
-- resolves as before, to nobody where it did not resolve.
pub resolve_api_token-mint_api_token :
    (digest : Text → Text) (drawn : Text) (user : User) (name : Text) (db : Db)
    → any (has_hash (digest (codes "dmk_" ++ drawn))) db.api_tokens ≡ false
    → find (has_user_id user.id) db.users ≡ some user
    → let (result, db') = mint_api_token digest drawn user name db in
      (result ≡ ok (codes "dmk_" ++ drawn))
      × (resolve_api_token digest db' (codes "dmk_" ++ drawn) ≡ some user)
      × ((other : Text) (u : User)
          → resolve_api_token digest db other ≡ some u
          → resolve_api_token digest db' other ≡ some u)
      × ((other : Text)
          → text_eq (digest (codes "dmk_" ++ drawn)) (digest other) ≡ false
          → resolve_api_token digest db' other ≡ resolve_api_token digest db other)
resolve_api_token-mint_api_token digest drawn user name db fresh known =
    let token = codes "dmk_" ++ drawn in
    let row = token_row digest drawn user name db in
    let db' = with_token row db in
    let own : find (has_hash (digest token)) (db.api_tokens ++ row ∷ []) ≡ some row =
      find-append_miss (has_hash (digest token)) db.api_tokens (row ∷ []) fresh
      ∙ rw (text_eq_refl (digest token)) refl in
    rw (minted digest drawn user name db fresh) (
      refl,
      resolve_found digest db' token own ∙ known,
      λ other u e.
          let (r, found) = row_of_resolved digest db other e in
          resolve_found digest db' other
            (find-append_hit (has_hash (digest other)) db.api_tokens (row ∷ []) found)
          ∙ sym (resolve_found digest db other found)
          ∙ e,
      λ other differs. same_answer digest db row other differs,
    )

-- Who gets past the token check has the configured token, or a token of a user, or comes to an
-- installation that has neither a configured token nor a user.
pub require_api_token_lem :
    (digest : Text → Text) (settings : Settings) (authorization : Text) (db : Db)
    → require_api_token digest settings authorization db ≡ ok tt
    → ((settings.api_token ≢ []) × (bearer_of digest authorization ≡ settings.api_token))
      ⊎ (((u : User) × (resolve_api_token digest db (bearer_of digest authorization) ≡ some u))
          ⊎ ((settings.api_token ≡ []) × (user_count db ≡ 0)))
unfolding require_api_token
require_api_token_lem digest settings authorization db h =
    elim (Bool-cases (not (is_empty settings.api_token) && text_eq bearer settings.api_token)) [
      | inl configured ↦ inl (
        nonempty settings.api_token (ground arith),
        ground (arith, text_eq_iff bearer settings.api_token),
      )
      | inr other ↦ elim (Option-cases (resolve_api_token digest db bearer)) [
        | inr (u, e) ↦ inr (inl (u, e))
        | inl unknown ↦ elim (Bool-cases (is_empty settings.api_token && user_count db == 0)) [
          | inl fresh ↦ inr (inr (empty_of settings.api_token (ground arith), ground arith))
          | inr used ↦ absurd (refused other unknown used)
        ]
      ]
    ]
  where
    bearer : Text
    bearer = bearer_of digest authorization

    nonempty : (s : Text) → not (is_empty s) ≡ true → s ≢ []
    nonempty [] e = cc
    nonempty (c ∷ s) e = λ k. cc

    empty_of : (s : Text) → is_empty s ≡ true → s ≡ []
    empty_of [] e = refl
    empty_of (c ∷ s) e = cc

    refused :
        (not (is_empty settings.api_token) && text_eq bearer settings.api_token) ≡ false
        → resolve_api_token digest db bearer ≡ none
        → (is_empty settings.api_token && user_count db == 0) ≡ false
        → ⊥
    refused other unknown used = ground (arith, h)
