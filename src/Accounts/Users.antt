-- ===== src/Accounts/Users.antt =====
-- apps/backend/src/db/queries/users.ts, with the constraints of
-- packages/database/migrations/001_initial_schema.sql. The id is what `gen_random_uuid` drew.
use ipl_auction_app.Base.{
  ℕ, ◌==◌, leb, Bool, not, is_some, ◌&&◌, ◌||◌, if◌then◌else◌, List, [], ◌∷◌, find, length, Option,
}
use ipl_auction_app.Accounts.Text.{Text, same_text, to_lower_case, trim, includes}

pub record UserRow : Type 0 where
  pub id : ℕ
  pub email : Text
  pub username : Text
  pub password_hash : Option Text

abbrev pub Users : Type 0
Users = List UserRow

-- What an INSERT or an UPDATE comes to: code 23505, or any other error.
pub data Written (A : Type 0) : Type 0 where
  written : A → Written A
  unique_violation : Written A
  refused : Written A

-- `email.toLowerCase().trim()`.
abbrev pub normal_email : Text → Text
normal_email email = trim (to_lower_case email)

abbrev pub has_email : Text → UserRow → Bool
has_email email u = same_text u.email email

abbrev pub has_user_id : ℕ → UserRow → Bool
has_user_id id u = u.id == id

unfoldable pub find_user_by_email : Text → Users → Option UserRow
find_user_by_email email = find (has_email (normal_email email))

unfoldable pub find_user_by_id : ℕ → Users → Option UserRow
find_user_by_id id = find (has_user_id id)

unfoldable pub is_email_taken : Text → Users → Bool
is_email_taken email users = is_some (find (has_email (normal_email email)) users)

abbrev pub has_username : Text → UserRow → Bool
has_username name u = same_text (to_lower_case u.username) (to_lower_case name)

unfoldable pub find_user_by_username : Text → Users → Option UserRow
find_user_by_username name = find (has_username (trim name))

-- The CHECKs of a row and the lengths of its columns.
abbrev pub is_valid_name : Text → Bool
is_valid_name name = leb 3 (length name) && leb (length name) 50

abbrev pub is_valid_row : UserRow → Bool
is_valid_row u = is_valid_name u.username && includes 64 u.email && leb (length u.email) 255

insert_user : UserRow → Users → Written UserRow × Users
insert_user u users =
    if not (is_valid_row u)
    then (Written.refused, users)
    else if is_some (find (has_user_id u.id) users) || is_some (find (has_email u.email) users)
    then (Written.unique_violation, users)
    else (Written.written u, u ∷ users)

unfoldable pub create_user : ℕ → Text → Text → Option Text → Users → Written UserRow × Users
unfolding insert_user
create_user id email username hash =
    insert_user (record {
      id = id;
      email = normal_email email;
      username = trim username;
      password_hash = hash;
    })

unfoldable pub rename : ℕ → Text → Users → Users
rename id name [] = []
rename id name (u ∷ us) =
    let rest = rename id name us in
    if u.id == id then record u { username = name } ∷ rest else u ∷ rest

-- Whether the UPDATE went through, and the table.
unfoldable pub update_username : ℕ → Text → Users → Bool × Users
unfolding rename
update_username id username users =
    if is_some (find (has_user_id id) users) && not (is_valid_name (trim username))
    then (Bool.false, users)
    else (Bool.true, rename id (trim username) users)
