-- ===== src/Tests/Sessions.antt =====
-- A browser with a token that nobody has signed. Its payload is written out with every unit moved past
-- the letters, so that it has no dots.
use ipl_auction_app.Base.{
  ℕ, ◌+◌, ◌-◌, ◌≡◌, refl, ap, ◌∙◌, arith, ltb, false, if◌then◌else◌, [], ◌∷◌, ◌++◌, map, length,
  take, Option, none, some,
}
use ipl_auction_app.Accounts.Text.{Text, includes, slice_from}
use ipl_auction_app.Accounts.Users.{UserRow}
use ipl_auction_app.Accounts.Session.{
  Claims, Verified, decoded, token_expired, web_token_error, Jwt, week_seconds, sign_jwt, admitted,
  jwt_auth, socket_auth,
}
use ipl_auction_app.Accounts.Laws.{IsJwt, claims_of}
use ipl_auction_app.Client.SignedIn.{
  Browser, store_jwt, authorization, get_socket, destroy_socket, to_base64, Parser, display_name,
  use_auth,
}
use ipl_auction_app.Client.SignedIn.Admitted.{IsCompact, store_jwt-admitted}

abbrev moved : Text → Text
moved = map (λ c. c + 200)

abbrev back : Text → Text
back = map (λ c. c - 200)

abbrev written_out : Claims → ℕ → Text
written_out c end = end ∷ c.sub ∷ length c.email ∷ (c.email ++ c.username)

abbrev read_claims : Text → Option (Claims × ℕ)
read_claims (end ∷ sub ∷ n ∷ rest) =
    some (record { sub = sub; email = take n rest; username = slice_from n rest }, end)
read_claims _ = none

abbrev plain_parse : Parser
plain_parse t = read_claims (back t)

abbrev sealed : Claims → ℕ → Text
sealed c end = moved (written_out c end)

-- "h", a dot, the payload, a dot, "s".
abbrev token_of : Claims → ℕ → Text
token_of c end = 104 ∷ 46 ∷ (sealed c end ++ 46 ∷ 115 ∷ [])

abbrev checked_claims : Option (Claims × ℕ) → ℕ → Verified
checked_claims none now = web_token_error
checked_claims (some (c, end)) now = if ltb now end then decoded c else token_expired

abbrev dotted_jwt : Jwt
dotted_jwt = record {
  sign = λ secret c seconds now. token_of c (now + seconds);
  verify = λ secret token now.
      checked_claims (plain_parse (take (length token - 4) (slice_from 2 token))) now;
}

back-moved : (t : Text) → back (moved t) ≡ t
back-moved [] = refl
back-moved (c ∷ cs) = let e : c + 200 - 200 ≡ c = omega arith in ground (arith, e, back-moved cs)

to_base64-moved : (t : Text) → to_base64 (moved t) ≡ moved t
to_base64-moved [] = refl
to_base64-moved (c ∷ cs) = ground (arith, to_base64-moved cs)

no_dot-moved : (t : Text) → includes 46 (moved t) ≡ false
unfolding includes
no_dot-moved [] = refl
no_dot-moved (c ∷ cs) = ground (arith, no_dot-moved cs)

take-append : (xs ys : Text) → take (length xs) (xs ++ ys) ≡ xs
take-append [] ys = refl
take-append (x ∷ xs) ys = ap (λ t. x ∷ t) (take-append xs ys)

slice-append : (xs ys : Text) → slice_from (length xs) (xs ++ ys) ≡ ys
unfolding slice_from
slice-append [] ys = refl
slice-append (x ∷ xs) ys = slice-append xs ys

length-append : (xs ys : Text) → length (xs ++ ys) ≡ length xs + length ys
length-append [] ys = omega arith
length-append (x ∷ xs) ys = omega (arith, length-append xs ys)

read-written : (c : Claims) (end : ℕ) → read_claims (written_out c end) ≡ some (c, end)
read-written c end = ground (arith, take-append c.email c.username, slice-append c.email c.username)

parse-sealed : (c : Claims) (end : ℕ) → plain_parse (sealed c end) ≡ some (c, end)
parse-sealed c end = ap read_claims (back-moved (written_out c end)) ∙ read-written c end

inside :
    (c : Claims) (end : ℕ)
    → take (length (token_of c end) - 4) (slice_from 2 (token_of c end)) ≡ sealed c end
unfolding slice_from
inside c end =
    let n : length (token_of c end) - 4 ≡ length (sealed c end) =
      omega (arith, length-append (sealed c end) (46 ∷ 115 ∷ [])) in
    ap (λ k. take k (sealed c end ++ 46 ∷ 115 ∷ [])) n ∙ take-append (sealed c end) (46 ∷ 115 ∷ [])

dotted_jwt-IsJwt : IsJwt dotted_jwt
dotted_jwt-IsJwt = record {
  valid = λ secret c seconds issued now h.
      let end = issued + seconds in
      ap (λ t. checked_claims (plain_parse t) now) (inside c end)
      ∙ ap (λ v. checked_claims v now) (parse-sealed c end)
      ∙ ground (arith, h);
  token = λ secret c seconds issued. refl;
}

dotted_jwt-IsCompact : IsCompact dotted_jwt plain_parse
unfolding includes
dotted_jwt-IsCompact = record {
  header = λ secret c seconds issued. 104 ∷ [];
  payload = λ secret c seconds issued. sealed c (issued + seconds);
  signature = λ secret c seconds issued. 115 ∷ [];
  form = λ secret c seconds issued. refl;
  no_dots =
      λ secret c seconds issued. (refl, no_dot-moved (written_out c (issued + seconds)), refl);
  reads = λ secret c seconds issued.
      let end = issued + seconds in
      ap plain_parse (to_base64-moved (written_out c end)) ∙ parse-sealed c end;
}

abbrev al : UserRow
al = record { id = 7; email = 97 ∷ 64 ∷ []; username = 65 ∷ 108 ∷ []; password_hash = none }

abbrev secret_key : Option Text
secret_key = some (83 ∷ [])

abbrev al_token : Text
al_token = token_of (claims_of al) (1000 + week_seconds)

abbrev new_browser : Browser
new_browser = record { stored = none; cookie = none; socket = none }

store_jwt-admitted_example :
    let v = store_jwt al_token 1000000 new_browser in
    (jwt_auth dotted_jwt secret_key 5000 (authorization v) ≡ admitted (claims_of al))
    × (socket_auth dotted_jwt secret_key 5000 (some (get_socket (destroy_socket v)).0)
        ≡ admitted (claims_of al))
    × (use_auth plain_parse 5000000 v
        ≡ (some (record (claims_of al) { username = display_name (claims_of al) }), v))
unfolding sign_jwt
store_jwt-admitted_example =
    store_jwt-admitted dotted_jwt plain_parse secret_key 1000 5000 5000000 1000000 al al_token
      new_browser dotted_jwt-IsJwt dotted_jwt-IsCompact refl (omega arith) (omega arith)
