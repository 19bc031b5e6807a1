-- ===== src/Accounts/Session.antt =====
-- Tokens: `signJwt` of apps/backend/src/routes/auth.ts, `jwtAuth` of apps/backend/src/middleware/auth.ts
-- and `socketAuthMiddleware` of apps/backend/src/socket/middleware/socketAuth.ts. jsonwebtoken is a
-- parameter; times are its seconds.
use ipl_auction_app.Base.{ℕ, ◌*◌, not, if◌then◌else◌, [], ◌∷◌, Option, none, some}
use ipl_auction_app.Accounts.Text.{Text, is_empty, starts_with, slice_from}
use ipl_auction_app.Accounts.Users.{UserRow}

-- `JwtPayload` without its times.
pub record Claims : Type 0 where
  pub sub : ℕ
  pub email : Text
  pub username : Text

-- What `jwt.verify` returns or throws.
pub data Verified : Type 0 where
  decoded : Claims → Verified
  token_expired : Verified
  web_token_error : Verified
  other_error : Verified

-- `sign` takes the secret, the payload, the seconds of `expiresIn` and the time.
pub record Jwt : Type 0 where
  pub sign : Text → Claims → ℕ → ℕ → Text
  pub verify : Text → Text → ℕ → Verified

abbrev pub week_seconds : ℕ
week_seconds = 7 * 24 * 60 * 60

-- `!secret`.
abbrev pub configured : Option Text → Option Text
configured none = none
configured (some secret) = if is_empty secret then none else some secret

-- `none` if it throws.
unfoldable pub sign_jwt : Jwt → Option Text → ℕ → UserRow → Option Text
sign_jwt jwt secret now u = elim (configured secret) [
  | none ↦ none
  | some s ↦
      some (
        jwt.sign s (record { sub = u.id; email = u.email; username = u.username }) week_seconds now)
]

pub data Admission : Type 0 where
  admitted : Claims → Admission
  missing_token : Admission
  session_expired : Admission
  invalid_token : Admission
  service_error : Admission

abbrev pub admission : Verified → Admission
admission (decoded c) = admitted c
admission token_expired = session_expired
admission web_token_error = invalid_token
admission other_error = service_error

unfoldable pub verify_token : Jwt → Option Text → ℕ → Text → Admission
verify_token jwt secret now token = elim (configured secret) [
  | none ↦ service_error
  | some s ↦ admission (jwt.verify s token now)
]

-- "Bearer ".
abbrev pub bearer : Text
bearer = 66 ∷ 101 ∷ 97 ∷ 114 ∷ 101 ∷ 114 ∷ 32 ∷ []

unfoldable pub jwt_auth : Jwt → Option Text → ℕ → Option Text → Admission
unfolding verify_token
jwt_auth jwt secret now none = missing_token
jwt_auth jwt secret now (some header) =
    if is_empty header
    then missing_token
    else if not (starts_with bearer header)
    then missing_token
    else verify_token jwt secret now (slice_from 7 header)

unfoldable pub socket_auth : Jwt → Option Text → ℕ → Option Text → Admission
unfolding verify_token
socket_auth jwt secret now none = missing_token
socket_auth jwt secret now (some token) =
    if is_empty token then missing_token else verify_token jwt secret now token
