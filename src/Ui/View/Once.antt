-- ===== src/Ui/View/Once.antt =====
-- A new API token on its way from the form to the page that shows it.
use dmarc_service.Base.{◌≡◌, refl, ap, false, [], ◌∷◌, ◌++◌, some, none, any, take, suc}
use dmarc_service.Base.Int.{ℤ}
use dmarc_service.Base.Text.{Text, codes, text_or}
use dmarc_service.Base.Exec.{ok}
use dmarc_service.Schema.{User, Db}
use dmarc_service.Schema.Insert.{has_hash, insert_token}
use dmarc_service.Auth.Tokens.{mint_api_token}
use dmarc_service.Ui.Visit.{Visit, current_user, in_session, signed_in}
use dmarc_service.Ui.Settings.{note_token, profile, create_token}
use dmarc_service.Ui.Submit.{Outside, Form, handle, submit}
use dmarc_service.Ui.View.Guard.{shown}
use dmarc_service.Ui.View.Personal.{
  ProfilePage, profile_shown, profile_page, forget_notes, forget_token,
}
use dmarc_service.Ui.View.Screen.{Reader, Screen, of_profile, tag, view}
use dmarc_service.Ui.View.Private.{for_user_ok}

-- the database with the row of the new token
abbrev with_token : (Text → Text) → Text → User → Text → Db → Db
with_token digest token user name db = record db {
  api_tokens =
      db.api_tokens
      ++ record {
        id = db.next_id;
        user_id = user.id;
        name = text_or name (codes "token");
        token_hash = digest token;
        prefix = take 12 token;
      }
        ∷ [];
  next_id = suc db.next_id;
}

submit_mint_token :
    (out : Outside) (drawn name : Text) (v : Visit) (user : User)
    → current_user v ≡ some user
    → any (has_hash (out.digest (codes "dmk_" ++ drawn))) v.db.api_tokens ≡ false
    → submit out (Form.mint_token drawn name) v ≡ (
      ok profile,
      note_token
          (codes "dmk_" ++ drawn)
          (record v { db = with_token out.digest (codes "dmk_" ++ drawn) user name v.db }),
    )
unfolding submit handle in_session signed_in create_token mint_api_token insert_token
submit_mint_token out drawn name v user e fresh = rw (submit, signed_in, e) (rw fresh refl)

profile_opened :
    (r : Reader) (page : ℤ) (v : Visit) (user : User)
    → current_user v ≡ some user
    → view r (Screen.profile page) v
      ≡ (ok (shown (of_profile (profile_shown r.link page user v))), forget_notes (forget_token v))
unfolding view profile_page
profile_opened r page v user e =
    ap (λ m. tag of_profile (λ w. m) v)
      (for_user_ok _ v user (shown (profile_shown r.link page user v)) _ e refl)

-- Where the drawn token is new, the next profile page shows it to the user who asked for it, and the one
-- after that does not; in between the database does not change.
pub new_token_shown_once :
    (out : Outside) (r : Reader) (drawn name : Text) (first second : ℤ) (v : Visit) (user : User)
    → current_user v ≡ some user
    → any (has_hash (out.digest (codes "dmk_" ++ drawn))) v.db.api_tokens ≡ false
    → let minted = submit out (Form.mint_token drawn name) v in
      let looked = view r (Screen.profile first) minted.1 in
      let again = view r (Screen.profile second) looked.1 in
      (p q : ProfilePage) × (minted.0 ≡ ok profile)
      × (looked.0 ≡ ok (shown (of_profile p)))
      × (p.new_token ≡ some (codes "dmk_" ++ drawn))
      × (again.0 ≡ ok (shown (of_profile q)))
      × (q.new_token ≡ none)
      × (again.1.db ≡ minted.1.db)
unfolding current_user profile_shown
new_token_shown_once out r drawn name first second v user e fresh =
    let token = codes "dmk_" ++ drawn in
    let w : Visit = record v { db = with_token out.digest token user name v.db } in
    let w1 : Visit = note_token token w in
    let w2 : Visit = forget_notes (forget_token w1) in
    let run = submit_mint_token out drawn name v user e fresh in
    rw run (
      rw (profile_opened r first w1 user e) (
        rw (profile_opened r second w2 user e) (
          profile_shown r.link first user w1,
          profile_shown r.link second user w2,
          refl,
          refl,
          refl,
          refl,
          refl,
          refl,
        )))
