-- ===== src/Tests/Auth.antt =====
-- Users and tokens on a small database.
use dmarc_service.Base.{◌≡◌, ◌≢◌, ◌⊎◌, refl, true, false, [], ◌∷◌, ◌++◌, some, none}
use dmarc_service.Base.Text.{Text, codes, text_eq}
use dmarc_service.Base.Exec.{ok}
use dmarc_service.Schema.{User, Db, empty_db}
use dmarc_service.Auth.Users.{user_count}
use dmarc_service.Auth.Tokens.{mint_api_token, resolve_api_token, require_api_token, bearer_of}
use dmarc_service.Auth.Laws.{resolve_api_token-mint_api_token, require_api_token_lem}
use dmarc_service.Tests.Samples.{settings}

abbrev alice : User
alice = record { id = 1; email = codes "a@a.com"; password_hash = none; is_admin = true }

abbrev bob : User
bob = record { id = 2; email = codes "b@a.com"; password_hash = none; is_admin = true }

abbrev staffed : Db
staffed = record empty_db { users = alice ∷ bob ∷ []; next_id = 3 }

abbrev digest : Text → Text
digest token = codes "#" ++ token

resolve_api_token-mint_api_token_example :
    let (result, db') = mint_api_token digest (codes "x") bob [] staffed in
    (result ≡ ok (codes "dmk_x"))
    × (resolve_api_token digest db' (codes "dmk_x") ≡ some bob)
    × ((other : Text) (u : User)
        → resolve_api_token digest staffed other ≡ some u
        → resolve_api_token digest db' other ≡ some u)
    × ((other : Text)
        → text_eq (digest (codes "dmk_x")) (digest other) ≡ false
        → resolve_api_token digest db' other ≡ resolve_api_token digest staffed other)
resolve_api_token-mint_api_token_example =
    resolve_api_token-mint_api_token digest (codes "x") bob [] staffed refl refl

require_api_token_lem_example :
    ((settings.api_token ≢ []) × (bearer_of digest (codes "Bearer dmk_x") ≡ settings.api_token))
    ⊎ (((u : User) × (resolve_api_token digest
              (mint_api_token digest (codes "x") bob [] staffed).1
              (bearer_of digest (codes "Bearer dmk_x"))
            ≡ some u))
        ⊎ ((settings.api_token ≡ [])
            × (user_count (mint_api_token digest (codes "x") bob [] staffed).1 ≡ 0)))
unfolding require_api_token mint_api_token text_eq
require_api_token_lem_example =
    require_api_token_lem digest settings (codes "Bearer dmk_x")
      (mint_api_token digest (codes "x") bob [] staffed).1 refl
