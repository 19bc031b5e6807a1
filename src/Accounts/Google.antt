-- ===== src/Accounts/Google.antt =====
-- The callback of the Google strategy of apps/backend/src/routes/auth.ts. The profile comes from
-- passport, the suffix from nanoid.
use ipl_auction_app.Base.{ℕ, ◌==◌, if◌then◌else◌, [], ◌∷◌, ◌++◌, take, Option, none, some}
use ipl_auction_app.Accounts.Text.{Text, trim, is_empty, starts_with, split_head, or_text}
use ipl_auction_app.Accounts.Users.{
  UserRow, Users, Written, find_user_by_email, find_user_by_username, create_user, update_username,
}

pub record Profile : Type 0 where
  pub email : Option Text
  pub display_name : Option Text

-- "User" and "google_".
abbrev pub anonymous : Text
anonymous = 85 ∷ 115 ∷ 101 ∷ 114 ∷ []

abbrev pub legacy_prefix : Text
legacy_prefix = 103 ∷ 111 ∷ 111 ∷ 103 ∷ 108 ∷ 101 ∷ 95 ∷ []

abbrev pub trimmed : Option Text → Option Text
trimmed none = none
trimmed (some t) = some (trim t)

-- The display name, the part of the address before the @, or "User".
unfoldable pub base_username : Option Text → Text → Text
base_username display email =
    or_text (trimmed display) (or_text (some (split_head 64 email)) anonymous)

-- The first 15 characters and the suffix that nanoid drew.
abbrev pub suffixed : Text → Text → Text
suffixed suffix base = take 15 base ++ 95 ∷ suffix

unfoldable pub created : Written UserRow × Users → Option UserRow × Users
created (Written.written u, users) = (some u, users)
created (Written.unique_violation, users) = (none, users)
created (Written.refused, users) = (none, users)

unfoldable pub first_sign_in : ℕ → Text → Text → Text → Users → Option UserRow × Users
unfolding created
first_sign_in id suffix email base users = elim (find_user_by_username base users) [
  | none ↦ created (create_user id email base none users)
  | some other ↦ created (create_user id email (suffixed suffix base) none users)
]

unfoldable pub free_name : Text → UserRow → Text → Option UserRow → Text
free_name suffix u base none = base
free_name suffix u base (some other) = if other.id == u.id then base else suffixed suffix base

-- A failure of the update is only logged.
unfoldable pub upgrade : Text → UserRow → Text → Users → Option UserRow × Users
unfolding free_name
upgrade suffix u base users =
    let name = free_name suffix u base (find_user_by_username base users) in
    let (ok, users') = update_username u.id name users in
    (some (if ok then record u { username = name } else u), users')

-- `none` where `done` is given an error.
unfoldable pub sign_in_google : ℕ → Text → Profile → Users → Option UserRow × Users
unfolding base_username first_sign_in upgrade
sign_in_google id suffix profile users = elim profile.email [
  | none ↦ (none, users)
  | some email ↦ if is_empty email then (none, users) else elim (find_user_by_email email users) [
    | none ↦ first_sign_in id suffix email (base_username profile.display_name email) users
    | some u ↦
        if starts_with legacy_prefix u.username
        then upgrade suffix u (base_username profile.display_name email) users
        else (some u, users)
  ]
]
