-- ===== src/Accounts/Register.antt =====
-- POST /auth/register and POST /auth/login of apps/backend/src/routes/auth.ts. bcryptjs is a parameter.
use ipl_auction_app.Base.{
  ℕ, ltb, Bool, not, ◌&&◌, if◌then◌else◌, [], length, Option, none, some, or_else,
}
use ipl_auction_app.Accounts.Text.{Text, trim, includes, is_empty}
use ipl_auction_app.Accounts.Users.{
  UserRow, Users, Written, is_email_taken, create_user, find_user_by_email,
}
use ipl_auction_app.Accounts.Session.{Jwt, sign_jwt}

-- `hash` at the salt that it drew.
pub record Bcrypt : Type 0 where
  pub hash : Text → Text → Text
  pub compare : Text → Text → Bool

-- A field of a body is `none` if it is no string.
pub record RegisterBody : Type 0 where
  pub email : Option Text
  pub username : Option Text
  pub password : Option Text

pub data Registration : Type 0 where
  bad_email : Registration
  bad_username : Registration
  bad_password : Registration
  email_exists : Registration
  failed : Registration
  registered : Text → UserRow → Registration

unfoldable pub answer_written :
    Jwt → Option Text → ℕ → Written UserRow × Users → Registration × Users
answer_written jwt secret now (Written.written u, users) =
    (elim (sign_jwt jwt secret now u) [ none ↦ failed | some t ↦ registered t u ], users)
answer_written jwt secret now (Written.unique_violation, users) = (email_exists, users)
answer_written jwt secret now (Written.refused, users) = (failed, users)

pub data LoginAnswer : Type 0 where
  missing_fields : LoginAnswer
  use_google : LoginAnswer
  invalid_credentials : LoginAnswer
  login_failed : LoginAnswer
  logged_in : Text → UserRow → LoginAnswer

module _ (jwt : Jwt) (bcrypt : Bcrypt) (secret : Option Text) (now : ℕ) where
  -- With the id and the salt that are drawn.
  unfoldable pub register_with : ℕ → Text → Text → Text → Text → Users → Registration × Users
  unfolding answer_written
  register_with id salt email username password users =
      if is_email_taken email users
      then (email_exists, users)
      else answer_written jwt secret now
          (create_user id email username (some (bcrypt.hash salt password)) users)

  unfoldable pub register : ℕ → Text → RegisterBody → Users → Registration × Users
  unfolding register_with
  register id salt body users = elim body.email [
    | none ↦ (bad_email, users)
    | some email ↦
        if not (includes 64 email && includes 46 email)
        then (bad_email, users)
        else elim body.username [
          | none ↦ (bad_username, users)
          | some username ↦
              if ltb (length (trim username)) 3 then (bad_username, users) else elim body.password [
                | none ↦ (bad_password, users)
                | some password ↦
                    if ltb (length password) 6
                    then (bad_password, users)
                    else register_with id salt email username password users
              ]
        ]
  ]

  check_password : Text → Option UserRow → LoginAnswer
  check_password password none = invalid_credentials
  check_password password (some u) =
      if is_empty (or_else u.password_hash [])
      then use_google
      else if bcrypt.compare password (or_else u.password_hash [])
      then elim (sign_jwt jwt secret now u) [ none ↦ login_failed | some t ↦ logged_in t u ]
      else invalid_credentials

  -- The comparison with the dummy hash for an unknown address has no effect but its time.
  unfoldable pub login : Option Text → Option Text → Users → LoginAnswer
  unfolding check_password
  login email password users = elim email [
    | none ↦ missing_fields
    | some e ↦ elim password [
      | none ↦ missing_fields
      | some p ↦ check_password p (find_user_by_email e users)
    ]
  ]
