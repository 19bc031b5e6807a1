-- ===== src/Accounts/Laws.antt =====
-- An account from its registration through the login to the guards, and what a login gives away.
use ipl_auction_app.Base.{
  ℕ, ◌+◌, ◌≡◌, ◌<◌, refl, sym, ◌∙◌, subst, arith, true, false, [], ◌∷◌, ◌++◌, find, Option, none,
  some, or_else, Option-cases, inl, inr, ==-refl,
}
use ipl_auction_app.Accounts.Text.{Text, same_text, is_empty, starts_with, slice_from}
use ipl_auction_app.Accounts.Users.{
  UserRow, Users, normal_email, has_email, find_user_by_email, create_user,
}
use ipl_auction_app.Accounts.Session.{
  Claims, Jwt, decoded, week_seconds, configured, sign_jwt, admitted, bearer, verify_token,
  jwt_auth, socket_auth,
}
use ipl_auction_app.Accounts.Register.{
  Bcrypt, RegisterBody, registered, register_with, answer_written, register, use_google,
  invalid_credentials, logged_in, login,
}

pub same_text_refl : (t : Text) → same_text t t ≡ true
same_text_refl [] = refl
same_text_refl (c ∷ cs) = ground (arith, ==-refl c, same_text_refl cs)

-- What bcryptjs documents: a password matches its own hash, which is no empty string.
pub record IsBcrypt (bcrypt : Bcrypt) : Type 0 where
  pub matches : (salt password : Text) → bcrypt.compare password (bcrypt.hash salt password) ≡ true
  pub nonempty : (salt password : Text) → is_empty (bcrypt.hash salt password) ≡ false

-- What jsonwebtoken documents: a token gives its payload back until it expires.
pub record IsJwt (jwt : Jwt) : Type 0 where
  pub valid :
      (secret : Text) (c : Claims) (seconds issued now : ℕ)
      → now < issued + seconds
      → jwt.verify secret (jwt.sign secret c seconds issued) now ≡ decoded c
  pub token :
      (secret : Text) (c : Claims) (seconds issued : ℕ)
      → is_empty (jwt.sign secret c seconds issued) ≡ false

abbrev pub claims_of : UserRow → Claims
claims_of u = record { sub = u.id; email = u.email; username = u.username }

module _ (jwt : Jwt) (bcrypt : Bcrypt) (secret : Option Text) (now id : ℕ) (salt : Text) where
  register_with-row :
      (email username password t : Text) (u : UserRow) (users : Users)
      → (register_with jwt bcrypt secret now id salt email username password users).0
        ≡ registered t u
      → (u.email ≡ normal_email email)
        × (u.password_hash ≡ some (bcrypt.hash salt password))
        × ((register_with jwt bcrypt secret now id salt email username password users).1
            ≡ u ∷ users)
        × (sign_jwt jwt secret now u ≡ some t)
  unfolding register_with answer_written create_user
  register_with-row email username password t u users h = ground (arith, h)

  pub register-row :
      (body : RegisterBody) (email password t : Text) (u : UserRow) (users : Users)
      → body.email ≡ some email
      → body.password ≡ some password
      → (register jwt bcrypt secret now id salt body users).0 ≡ registered t u
      → (u.email ≡ normal_email email)
        × (u.password_hash ≡ some (bcrypt.hash salt password))
        × ((register jwt bcrypt secret now id salt body users).1 ≡ u ∷ users)
        × (sign_jwt jwt secret now u ≡ some t)
  unfolding register
  register-row body email password t u users e p h = go body.username refl
    where
      go :
          (o : Option Text)
          → body.username ≡ o
          → (u.email ≡ normal_email email)
            × (u.password_hash ≡ some (bcrypt.hash salt password))
            × ((register jwt bcrypt secret now id salt body users).1 ≡ u ∷ users)
            × (sign_jwt jwt secret now u ≡ some t)
      go none n = absurd (ground (arith, e, p, n, h))
      go (some username) n =
          ground (arith, e, p, n, h, register_with-row email username password t u users)

pub sign-verify :
    (jwt : Jwt) (secret : Option Text) (issued now : ℕ) (u : UserRow) (t : Text)
    → IsJwt jwt
    → now < issued + week_seconds
    → sign_jwt jwt secret issued u ≡ some t
    → (verify_token jwt secret now t ≡ admitted (claims_of u)) × (is_empty t ≡ false)
unfolding sign_jwt verify_token
sign-verify jwt secret issued now u t j l h = go (configured secret) refl
  where
    go :
        (o : Option Text)
        → configured secret ≡ o
        → (verify_token jwt secret now t ≡ admitted (claims_of u)) × (is_empty t ≡ false)
    go none e = absurd (ground (arith, e, h))
    go (some s) e = ground (
      arith,
      e,
      h,
      j.valid s (claims_of u) week_seconds issued now l,
      j.token s (claims_of u) week_seconds issued,
    )

-- Both guards admit the user of a token.
pub guards-admit :
    (jwt : Jwt) (secret : Option Text) (issued now : ℕ) (u : UserRow) (t : Text)
    → IsJwt jwt
    → now < issued + week_seconds
    → sign_jwt jwt secret issued u ≡ some t
    → (jwt_auth jwt secret now (some (bearer ++ t)) ≡ admitted (claims_of u))
      × (socket_auth jwt secret now (some t) ≡ admitted (claims_of u))
unfolding jwt_auth socket_auth starts_with slice_from
guards-admit jwt secret issued now u t j l h =
    let (valid, full) = sign-verify jwt secret issued now u t j l h in
    (valid, ground (arith, valid, full))

sign-again :
    (jwt : Jwt) (secret : Option Text) (now later : ℕ) (u : UserRow) (t : Text)
    → sign_jwt jwt secret now u ≡ some t
    → (t' : Text) × (sign_jwt jwt secret later u ≡ some t')
unfolding sign_jwt
sign-again jwt secret now later u t h = elim (Option-cases (configured secret)) [
  | inl missing ↦ absurd (ground (arith, missing, h))
  | inr (s, e) ↦ (jwt.sign s (claims_of u) week_seconds later, ground (arith, e))
]

find-first :
    (email : Text) (u : UserRow) (users : Users)
    → u.email ≡ email
    → find (has_email email) (u ∷ users) ≡ some u
find-first email u users e = ground (arith, same_text_refl email, e)

-- Where bcrypt matches a password with its hash and a signed token verifies until it expires: after a
-- registration that went through, the login with the same password, at any time and with the address in
-- any case and with any spaces around it, answers with the new user and a token that both guards admit
-- for a week, as that user.
pub register-login :
    (jwt : Jwt) (bcrypt : Bcrypt) (secret : Option Text) (now id : ℕ) (salt : Text)
    (body : RegisterBody) (email typed password t : Text) (u : UserRow) (users : Users)
    (later used : ℕ)
    → IsBcrypt bcrypt
    → IsJwt jwt
    → body.email ≡ some email
    → body.password ≡ some password
    → (register jwt bcrypt secret now id salt body users).0 ≡ registered t u
    → normal_email typed ≡ normal_email email
    → used < later + week_seconds
    → (t' : Text) × (login jwt bcrypt secret later
          (some typed)
          (some password)
          (register jwt bcrypt secret now id salt body users).1
        ≡ logged_in t' u)
      × (jwt_auth jwt secret used (some (bearer ++ t')) ≡ admitted (claims_of u))
      × (socket_auth jwt secret used (some t') ≡ admitted (claims_of u))
unfolding login find_user_by_email
register-login jwt bcrypt secret now id salt body email typed password t u users later used b j e p
      h same l =
    let (address, hashed, rows, signed) =
      register-row jwt bcrypt secret now id salt body email password t u users e p h in
    let found : find (has_email (normal_email typed))
          (register jwt bcrypt secret now id salt body users).1
        ≡ some u =
      subst (λ us. find (has_email (normal_email typed)) us ≡ some u) (sym rows)
        (find-first (normal_email typed) u users (address ∙ sym same)) in
    let (t', again) = sign-again jwt secret now later u t signed in
    let fits = b.matches salt password in
    let full = b.nonempty salt password in
    let (by_header, by_socket) = guards-admit jwt secret later used u t' j l again in
    (t', ground (arith, found, hashed, again, fits, full), by_header, by_socket)

-- A login with an unknown address and one with a wrong password get the same answer. That of an account
-- made by Google is another, whatever the password is, so it tells that the address is registered.
pub login-reveals :
    (jwt : Jwt) (bcrypt : Bcrypt) (secret : Option Text) (now : ℕ)
    (email other third password : Text) (u g : UserRow) (users : Users)
    → find_user_by_email email users ≡ none
    → find_user_by_email other users ≡ some u
    → is_empty (or_else u.password_hash []) ≡ false
    → bcrypt.compare password (or_else u.password_hash []) ≡ false
    → find_user_by_email third users ≡ some g
    → g.password_hash ≡ none
    → (login jwt bcrypt secret now (some email) (some password) users ≡ invalid_credentials)
      × (login jwt bcrypt secret now (some other) (some password) users ≡ invalid_credentials)
      × (login jwt bcrypt secret now (some third) (some password) users ≡ use_google)
unfolding login
login-reveals jwt bcrypt secret now email other third password u g users unknown known hashed wrong
      found none_set =
    (ground (arith, unknown), ground (arith, known, hashed, wrong), ground (arith, found, none_set))
