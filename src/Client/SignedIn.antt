-- ===== src/Client/SignedIn.antt =====
-- The session in the browser: apps/frontend/src/lib/api.ts, lib/socketClient.ts and hooks/useAuth.ts.
-- `atob` with `JSON.parse` is a parameter; times are milliseconds, and the claims' end is seconds.
pub mod Admitted
use ipl_auction_app.Base.{
  ℕ, ◌+◌, ◌*◌, ◌==◌, ltb, Bool, true, false, not, ◌&&◌, if◌then◌else◌, List, [], ◌∷◌, ◌++◌, map,
  Option, none, some, or_else,
}
use ipl_auction_app.Accounts.Text.{Text, is_empty, starts_with, split_head, upper}
use ipl_auction_app.Accounts.Session.{Claims, bearer, week_seconds}
use ipl_auction_app.Accounts.Google.{legacy_prefix}

-- localStorage, the cookie with its end, and the token of the singleton socket, if there is one.
pub record Browser : Type 0 where
  pub stored : Option Text
  pub cookie : Option (Text × ℕ)
  pub socket : Option Text

unfoldable pub store_jwt : Text → ℕ → Browser → Browser
store_jwt token now b = record b {
  stored = some token;
  cookie = some (token, now + week_seconds * 1000);
}

unfoldable pub clear_jwt : Browser → Browser
clear_jwt b = record b { stored = none; cookie = none }

-- `fetchApi`: the Authorization header.
unfoldable pub authorization : Browser → Option Text
authorization b = elim b.stored [
  | none ↦ none
  | some token ↦ if is_empty token then none else some (bearer ++ token)
]

-- `getSocket`: the token of the handshake.
unfoldable pub get_socket : Browser → Text × Browser
get_socket b = elim b.socket [
  | some token ↦ (token, b)
  | none ↦ let token = or_else b.stored [] in (token, record b { socket = some token })
]

unfoldable pub destroy_socket : Browser → Browser
destroy_socket b = record b { socket = none }

abbrev pub with_head : ℕ → List Text → List Text
with_head c [] = (c ∷ []) ∷ []
with_head c (p ∷ ps) = (c ∷ p) ∷ ps

-- `t.split(c)`.
unfoldable pub split_on : ℕ → Text → List Text
split_on c [] = [] ∷ []
split_on c (d ∷ ds) = let rest = split_on c ds in if d == c then [] ∷ rest else with_head d rest

-- '-' becomes '+' and '_' becomes '/'.
abbrev pub to_base64 : Text → Text
to_base64 = map (λ c. if c == 45 then 43 else if c == 95 then 47 else c)

-- What `atob` and `JSON.parse` give: the claims and their end, or nothing.
abbrev pub Parser : Type 0
Parser = Text → Option (Claims × ℕ)

abbrev pub payload_of : Parser → List Text → Option (Claims × ℕ)
payload_of parse (header ∷ payload ∷ signature ∷ []) = parse (to_base64 payload)
payload_of parse _ = none

unfoldable pub decode_jwt_payload : Parser → Text → Option (Claims × ℕ)
unfolding split_on
decode_jwt_payload parse token = payload_of parse (split_on 46 token)

abbrev pub capitalised : Text → Text
capitalised [] = []
capitalised (c ∷ cs) = upper c ∷ cs

-- The name that is shown: that of a first sign-in with Google is made from the address.
unfoldable pub display_name : Claims → Text
display_name c =
    if starts_with legacy_prefix c.username && not (is_empty c.email)
    then capitalised (split_head 64 c.email)
    else c.username

-- The user of `useAuth`, `none` if nobody is signed in.
abbrev pub AuthState : Type 0
AuthState = Option Claims

unfoldable pub use_auth : Parser → ℕ → Browser → AuthState × Browser
unfolding decode_jwt_payload display_name clear_jwt
use_auth parse now b = elim b.stored [
  | none ↦ (none, b)
  | some token ↦ if is_empty token then (none, b) else elim (decode_jwt_payload parse token) [
    | none ↦ (none, clear_jwt b)
    | some (c, end) ↦
        if ltb (end * 1000) now
        then (none, clear_jwt b)
        else (some (record c { username = display_name c }), b)
  ]
]

unfoldable pub logout : Browser → AuthState × Browser
unfolding clear_jwt
logout b = (none, clear_jwt b)

-- apps/frontend/src/app/auth/callback/page.tsx: whether the user gets to the dashboard.
unfoldable pub oauth_callback : Option Text → ℕ → Browser → Bool × Browser
unfolding store_jwt
oauth_callback token now b = elim token [
  | none ↦ (false, b)
  | some t ↦ if is_empty t then (false, b) else (true, store_jwt t now b)
]

-- components/AuthGuard.tsx behind `useAuth`: whether the page is shown.
abbrev pub auth_guard : AuthState → Bool
auth_guard none = false
auth_guard (some c) = true
