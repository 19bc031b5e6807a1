-- ===== src/Client/SignedIn/Admitted.antt =====
-- A stored token in the browser and at the server.
use ipl_auction_app.Base.{
  ℕ, ◌+◌, ◌*◌, ◌<◌, ◌≡◌, refl, ap, ◌∙◌, arith, false, [], ◌∷◌, ◌++◌, Option, some, ==-refl,
  Option-cases, inl, inr,
}
use ipl_auction_app.Accounts.Text.{Text, includes}
use ipl_auction_app.Accounts.Users.{UserRow}
use ipl_auction_app.Accounts.Session.{
  Claims, Jwt, week_seconds, configured, sign_jwt, admitted, jwt_auth, socket_auth,
}
use ipl_auction_app.Accounts.Laws.{IsJwt, claims_of, guards-admit, sign-verify}
use ipl_auction_app.Client.SignedIn.{
  Browser, store_jwt, authorization, get_socket, destroy_socket, split_on, to_base64, Parser,
  payload_of, decode_jwt_payload, display_name, use_auth,
}

-- What jsonwebtoken documents of a token's form: three parts between dots, the second of which is the
-- payload with its end in base64url.
pub record IsCompact (jwt : Jwt) (parse : Parser) : Type 0 where
  pub header : Text → Claims → ℕ → ℕ → Text
  pub payload : Text → Claims → ℕ → ℕ → Text
  pub signature : Text → Claims → ℕ → ℕ → Text
  pub form :
      (secret : Text) (c : Claims) (seconds issued : ℕ)
      → jwt.sign secret c seconds issued
        ≡ header secret c seconds issued
          ++ 46 ∷ (payload secret c seconds issued ++ 46 ∷ signature secret c seconds issued)
  pub no_dots :
      (secret : Text) (c : Claims) (seconds issued : ℕ)
      → (includes 46 (header secret c seconds issued) ≡ false)
        × (includes 46 (payload secret c seconds issued) ≡ false)
        × (includes 46 (signature secret c seconds issued) ≡ false)
  pub reads :
      (secret : Text) (c : Claims) (seconds issued : ℕ)
      → parse (to_base64 (payload secret c seconds issued)) ≡ some (c, issued + seconds)

split_on-dot :
    (d : ℕ) (xs ys : Text) → includes d xs ≡ false → split_on d (xs ++ d ∷ ys) ≡ xs ∷ split_on d ys
unfolding split_on includes
split_on-dot d [] ys h = ground (arith, ==-refl d)
split_on-dot d (x ∷ xs) ys h = ground (arith, h, split_on-dot d xs ys)

split_on-end : (d : ℕ) (xs : Text) → includes d xs ≡ false → split_on d xs ≡ xs ∷ []
unfolding split_on includes
split_on-end d [] h = refl
split_on-end d (x ∷ xs) h = ground (arith, h, split_on-end d xs)

decode-sign :
    (jwt : Jwt) (parse : Parser) (secret : Text) (c : Claims) (seconds issued : ℕ)
    → IsCompact jwt parse
    → decode_jwt_payload parse (jwt.sign secret c seconds issued) ≡ some (c, issued + seconds)
unfolding decode_jwt_payload
decode-sign jwt parse secret c seconds issued k =
    let h = k.header secret c seconds issued in
    let p = k.payload secret c seconds issued in
    let s = k.signature secret c seconds issued in
    let (dh, dp, ds) = k.no_dots secret c seconds issued in
    let parts : split_on 46 (jwt.sign secret c seconds issued) ≡ h ∷ p ∷ s ∷ [] =
      ap (split_on 46) (k.form secret c seconds issued)
      ∙ split_on-dot 46 h (p ++ 46 ∷ s) dh
      ∙ ap (λ t. h ∷ t) (split_on-dot 46 p s dp ∙ ap (λ t. p ∷ t) (split_on-end 46 s ds)) in
    ap (payload_of parse) parts ∙ k.reads secret c seconds issued

signed_payload :
    (jwt : Jwt) (parse : Parser) (secret : Option Text) (issued : ℕ) (u : UserRow) (t : Text)
    → IsCompact jwt parse
    → sign_jwt jwt secret issued u ≡ some t
    → decode_jwt_payload parse t ≡ some (claims_of u, issued + week_seconds)
unfolding sign_jwt
signed_payload jwt parse secret issued u t k h = elim (Option-cases (configured secret)) [
  | inl missing ↦ absurd (ground (arith, missing, h))
  | inr (s, e) ↦ ground (arith, e, h, decode-sign jwt parse s (claims_of u) week_seconds issued k)
]

-- Where a signed token verifies until it expires and has jsonwebtoken's form: a browser that stores the
-- token of a user sends, for a week, requests and handshakes of new sockets that both guards admit as
-- that user, and its pages show the user as signed in during all of that time.
pub store_jwt-admitted :
    (jwt : Jwt) (parse : Parser) (secret : Option Text) (issued used ms stored_at : ℕ) (u : UserRow)
    (t : Text) (b : Browser)
    → IsJwt jwt
    → IsCompact jwt parse
    → sign_jwt jwt secret issued u ≡ some t
    → used < issued + week_seconds
    → ms < (used + 1) * 1000
    → let v = store_jwt t stored_at b in
      (jwt_auth jwt secret used (authorization v) ≡ admitted (claims_of u))
      × (socket_auth jwt secret used (some (get_socket (destroy_socket v)).0)
          ≡ admitted (claims_of u))
      × (use_auth parse ms v
          ≡ (some (record (claims_of u) { username = display_name (claims_of u) }), v))
unfolding store_jwt authorization get_socket destroy_socket use_auth
store_jwt-admitted jwt parse secret issued used ms stored_at u t b j k h l m =
    let (by_header, by_socket) = guards-admit jwt secret issued used u t j l h in
    let (valid, full) = sign-verify jwt secret issued used u t j l h in
    let read : decode_jwt_payload parse t ≡ some (claims_of u, issued + week_seconds) =
      signed_payload jwt parse secret issued u t k h in
    (ground (arith, full, by_header), by_socket, ground (arith, full, read, l, m))
