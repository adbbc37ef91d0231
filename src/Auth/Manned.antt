-- ===== src/Auth/Manned.antt =====
-- An installation that has users has an administrator. What the operations on users do to that.
use dmarc_service.Base.{
  ◌+◌, ℕ, suc, ◌<◌, ◌≡◌, ◌≢◌, refl, ◌∙◌, ap, sym, Bool, true, false, not, ◌&&◌, List, [], ◌∷◌, ◌++◌,
  Option, none, any, find, select, update, length, ◌==◌, Bool-cases, Option-cases, inl, inr, ◌⊎◌,
  arith, leb, if◌then◌else◌, List-cases,
}
use dmarc_service.Base.Rows.{
  All, All-append, All-map, All-update, Distinct, Distinct-append, Distinct-update,
}
use dmarc_service.Base.Text.{Text}
use dmarc_service.Schema.{User, Db}
use dmarc_service.Schema.Insert.{has_email, insert_user}
use dmarc_service.Auth.Users.{
  has_user_id, with_role, with_hash, hash_of, admin_count, user_count, set_admin, create_user,
  plain_email, find_or_provision_sso_user, set_password,
}
use dmarc_service.Auth.Laws.{same_user_id, set_admin-admin_count}

abbrev pub admins : List User → ℕ
admins us = length (select (λ (u : User). u.is_admin) us)

abbrev HasUserIdBelow : ℕ → User → Type 0
HasUserIdBelow n u = u.id < n

-- The ids of the users are distinct and below the next id, and where there are users, one of them is
-- an administrator.
pub record MannedBy (us : List User) (n : ℕ) : Type 0 where
  pub ids : Distinct same_user_id us
  pub below : All (HasUserIdBelow n) us
  pub manned : (us ≡ []) ⊎ (admins us ≢ 0)

abbrev pub IsManned : Db → Type 0
IsManned db = MannedBy db.users db.next_id

pub MannedBy-later : {us : List User} {n : ℕ} → MannedBy us n → MannedBy us (suc n)
MannedBy-later {us} m = record {
  ids = m.ids;
  below = All-map us (λ u h. omega (arith, h)) m.below;
  manned = m.manned;
}

fresh_id :
    (us : List User) (n : ℕ) (u : User)
    → u.id ≡ n
    → All (HasUserIdBelow n) us
    → any (λ v. same_user_id v u) us ≡ false
fresh_id [] n u e h = refl
fresh_id (v ∷ us) n u e h =
    let rest = fresh_id us n u e h.1 in let lower = h.0 in ground (arith, rest, lower, e)

admins-append_one :
    (us : List User) (u : User) → admins (us ++ u ∷ []) ≡ admins us + (if u.is_admin then 1 else 0)
admins-append_one [] u = ground arith
admins-append_one (v ∷ us) u = ground (arith, admins-append_one us u)

still_manned :
    (us : List User) (u : User)
    → (u.is_admin ≡ true) ⊎ (us ≢ [])
    → (us ≡ []) ⊎ (admins us ≢ 0)
    → admins (us ++ u ∷ []) ≢ 0
still_manned us u (inl new) m = ground (arith, admins-append_one us u, new)
still_manned us u (inr some_user) (inl empty) = absurd (some_user empty)
still_manned us u (inr some_user) (inr some_admin) = ground (arith, admins-append_one us u)

admins-update_hash :
    (p : User → Bool) (h : Option Text) (us : List User)
    → admins (update p (with_hash h) us) ≡ admins us
admins-update_hash p h [] = refl
admins-update_hash p h (u ∷ us) = ground (arith, admins-update_hash p h us)

-- A new user keeps it who is an administrator, or comes to an installation that has users.
pub insert_user-IsManned :
    (email : Text) (password_hash : Option Text) (is_admin : Bool) (db : Db)
    → (is_admin ≡ true) ⊎ (db.users ≢ [])
    → IsManned db
    → IsManned (insert_user email password_hash is_admin db).1
unfolding insert_user
insert_user-IsManned email password_hash is_admin db who m =
    let row : User = record {
      id = db.next_id;
      email = email;
      password_hash = password_hash;
      is_admin = is_admin;
    } in
    elim (Bool-cases (any (has_email email) db.users)) [
      | inl taken ↦ rw taken m
      | inr free ↦ rw free (record {
        ids =
            Distinct-append same_user_id db.users row
              (fresh_id db.users db.next_id row refl m.below) m.ids;
        below =
            All-append (HasUserIdBelow (suc db.next_id)) db.users (row ∷ [])
              (All-map db.users (λ u h. omega (arith, h)) m.below) (omega arith, tt);
        manned = inr (still_manned db.users row who m.manned);
      })
    ]

-- Changes of one user's password keep the ids and the roles.
pub set_password-IsManned :
    (hash : Text → Text) (verify : Text → Text → Bool) (user : User) (password : Text) (db : Db)
    → IsManned db
    → IsManned (set_password hash verify user password db)
unfolding set_password
set_password-IsManned hash verify user password db m = record {
  ids = Distinct-update same_user_id _ _ db.users (λ x y. refl) (λ x y. refl) m.ids;
  below = All-update _ _ _ db.users (λ u h. h) m.below;
  manned = elim m.manned [
    | inl none_yet ↦ inl (ap (update (has_user_id user.id) _) none_yet)
    | inr some_admin ↦
        inr (λ e. some_admin (sym (admins-update_hash (has_user_id user.id) _ db.users) ∙ e))
  ];
}

pub set_admin-IsManned :
    (user : User) (is_admin : Bool) (db : Db)
    → IsManned db
    → IsManned (set_admin user is_admin db).1
unfolding set_admin admin_count
set_admin-IsManned user is_admin db m =
    elim (Bool-cases (if user.is_admin then is_admin else not is_admin)) [
      | inl same ↦ rw same m
      | inr other ↦ elim (Bool-cases (not is_admin && leb (admin_count db) 1)) [
        | inl last ↦ rw other (rw last m)
        | inr free ↦ rw other (
            rw free (record {
              ids = Distinct-update same_user_id _ _ db.users (λ x y. refl) (λ x y. refl) m.ids;
              below = All-update _ _ _ db.users (λ u h. h) m.below;
              manned = elim m.manned [
                | inl none_yet ↦
                    inl (ap (update (has_user_id user.id) (with_role is_admin)) none_yet)
                | inr some_admin ↦
                    let kept = set_admin-admin_count user is_admin db m.ids some_admin in
                    inr (rw free at (rw other at kept))
              ];
            }))
      ]
    ]

pub create_user-IsManned :
    (hash : Text → Text) (verify : Text → Text → Bool) (email : Text) (password : Option Text)
    (is_admin : Bool) (db : Db)
    → (is_admin ≡ true) ⊎ (db.users ≢ [])
    → IsManned db
    → IsManned (create_user hash verify email password is_admin db).1
unfolding create_user
create_user-IsManned hash verify email password is_admin db who m =
    insert_user-IsManned (plain_email email) (hash_of hash verify password) is_admin db who m

-- Whoever comes through single sign-on first is an administrator.
pub find_or_provision_sso_user-IsManned :
    (hash : Text → Text) (verify : Text → Text → Bool) (email : Text) (db : Db)
    → IsManned db
    → IsManned (find_or_provision_sso_user hash verify email db).1
unfolding find_or_provision_sso_user
find_or_provision_sso_user-IsManned hash verify email db m =
    elim (Option-cases (find (has_email (plain_email email)) db.users)) [
      | inr (u, known) ↦ rw known m
      | inl unknown ↦ rw unknown (
          create_user-IsManned hash verify email none (user_count db == 0) db
            (elim (List-cases db.users) [
              | inl empty ↦ inl (rw empty refl)
              | inr (u, us, some_users) ↦ inr (λ e. cc (rw some_users at e))
            ])
            m)
    ]
