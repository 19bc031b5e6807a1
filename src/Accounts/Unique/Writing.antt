-- ===== src/Accounts/Unique/Writing.antt =====
-- What registrations and sign-ins do to the table of users.
use ipl_auction_app.Base.{
  ℕ, ltb, not, ◌&&◌, ◌≡◌, ◌⊎◌, refl, sym, subst, arith, Option, none, some, Option-cases,
  Bool-cases, inl, inr, length,
}
use ipl_auction_app.Accounts.Text.{Text, trim, includes, is_empty, starts_with}
use ipl_auction_app.Accounts.Users.{
  UserRow, Users, Written, find_user_by_email, is_email_taken, create_user, update_username,
  find_user_by_username,
}
use ipl_auction_app.Accounts.Session.{Jwt}
use ipl_auction_app.Accounts.Register.{
  Bcrypt, RegisterBody, register_with, answer_written, register,
}
use ipl_auction_app.Accounts.Google.{
  Profile, legacy_prefix, created, first_sign_in, suffixed, base_username, free_name, upgrade,
  sign_in_google,
}

-- What an operation does to the table: nothing, an insertion or a new username.
abbrev pub Touches : Users → Users → Type 0
Touches users after =
    (after ≡ users)
    ⊎ (((id : ℕ) × (email : Text) × (name : Text) × (hash : Option Text) × (after
            ≡ (create_user id email name hash users).1))
        ⊎ ((id : ℕ) × (name : Text) × (after ≡ (update_username id name users).1)))

register_with-Touches :
    (jwt : Jwt) (bcrypt : Bcrypt) (secret : Option Text) (now id : ℕ)
    (salt email name password : Text) (users : Users)
    → Touches users (register_with jwt bcrypt secret now id salt email name password users).1
unfolding register_with
register_with-Touches jwt bcrypt secret now id salt email name password users =
    elim (Bool-cases (is_email_taken email users)) [
      | inl taken ↦ inl (ground (arith, taken))
      | inr free ↦
          let hash = some (bcrypt.hash salt password) in
          let made = create_user id email name hash users in
          inr (inl (id, email, name, hash, ground (arith, free, answered jwt secret now made)))
    ]
  where
    answered :
        (jwt : Jwt) (secret : Option Text) (now : ℕ) (r : Written UserRow × Users)
        → (answer_written jwt secret now r).1 ≡ r.1
    answered jwt secret now r = ground arith

register-Touches :
    (jwt : Jwt) (bcrypt : Bcrypt) (secret : Option Text) (now id : ℕ) (salt : Text)
    (body : RegisterBody) (users : Users)
    → Touches users (register jwt bcrypt secret now id salt body users).1
unfolding register
register-Touches jwt bcrypt secret now id salt body users = elim (checked body) [
  | inl refused ↦ inl refused
  | inr (email, name, password, e) ↦
      subst (λ us. Touches users us) (sym e)
        (register_with-Touches jwt bcrypt secret now id salt email name password users)
]
  where
    checked :
        (body : RegisterBody)
        → ((register jwt bcrypt secret now id salt body users).1 ≡ users)
          ⊎ ((email : Text) × (name : Text) × (password : Text) × ((register jwt bcrypt secret now
                  id salt body users).1
                ≡ (register_with jwt bcrypt secret now id salt email name password users).1))
    checked b = go b.email b.username b.password refl refl refl
      where
        go :
            (e n p : Option Text)
            → b.email ≡ e
            → b.username ≡ n
            → b.password ≡ p
            → ((register jwt bcrypt secret now id salt b users).1 ≡ users)
              ⊎ ((email : Text) × (name : Text) × (password : Text) × ((register jwt bcrypt secret
                      now id salt b users).1
                    ≡ (register_with jwt bcrypt secret now id salt email name password users).1))
        go none n p he hn hp = inl (ground (arith, he))
        go (some e) none p he hn hp = inl (ground (arith, he, hn))
        go (some e) (some n) none he hn hp = inl (ground (arith, he, hn, hp))
        go (some e) (some n) (some p) he hn hp =
            elim (Bool-cases (
              includes 64 e
              && includes 46 e
              && not (ltb (length (trim n)) 3)
              && not (ltb (length p) 6))) [
                | inl good ↦ inr (e, n, p, ground (arith, he, hn, hp, good))
                | inr bad ↦ inl (ground (arith, he, hn, hp, bad))
              ]

created-table : (r : Written UserRow × Users) → (created r).1 ≡ r.1
unfolding created
created-table (Written.written u, users) = refl
created-table (Written.unique_violation, users) = refl
created-table (Written.refused, users) = refl

first_sign_in-Touches :
    (id : ℕ) (suffix email base : Text) (users : Users)
    → Touches users (first_sign_in id suffix email base users).1
unfolding first_sign_in
first_sign_in-Touches id suffix email base users =
    elim (Option-cases (find_user_by_username base users)) [
      | inl free ↦
          let made = create_user id email base none users in
          inr (inl (id, email, base, none, ground (arith, free, created-table made)))
      | inr (u, taken) ↦
          let name = suffixed suffix base in
          let made = create_user id email name none users in
          inr (inl (id, email, name, none, ground (arith, taken, created-table made)))
    ]

upgrade-Touches :
    (suffix base : Text) (u : UserRow) (users : Users)
    → Touches users (upgrade suffix u base users).1
unfolding upgrade
upgrade-Touches suffix base u users =
    inr (inr (u.id, free_name suffix u base (find_user_by_username base users), refl))

sign_in_google-Touches :
    (id : ℕ) (suffix : Text) (profile : Profile) (users : Users)
    → Touches users (sign_in_google id suffix profile users).1
unfolding sign_in_google
sign_in_google-Touches id suffix profile users = elim (Option-cases profile.email) [
  | inl missing ↦ inl (ground (arith, missing))
  | inr (email, given) ↦
      let base = base_username profile.display_name email in
      elim (Bool-cases (is_empty email)) [
        | inl empty ↦ inl (ground (arith, given, empty))
        | inr full ↦ elim (Option-cases (find_user_by_email email users)) [
          | inl new ↦
              let e : (sign_in_google id suffix profile users).1
                  ≡ (first_sign_in id suffix email base users).1 =
                ground (arith, given, full, new) in
              subst (λ us. Touches users us) (sym e)
                (first_sign_in-Touches id suffix email base users)
          | inr (u, known) ↦ elim (Bool-cases (starts_with legacy_prefix u.username)) [
            | inr kept ↦ inl (ground (arith, given, full, known, kept))
            | inl legacy ↦
                let e : (sign_in_google id suffix profile users).1
                    ≡ (upgrade suffix u base users).1 =
                  ground (arith, given, full, known, legacy) in
                subst (λ us. Touches users us) (sym e) (upgrade-Touches suffix base u users)
          ]
        ]
      ]
]

-- What writes the table: registrations and sign-ins by Google, and, for two requests that were checked at
-- the same time, an insertion by itself.
pub data Writes : Users → Users → Type 0 where
  registers :
      (jwt : Jwt) (bcrypt : Bcrypt) (secret : Option Text) (now id : ℕ) (salt : Text)
      (body : RegisterBody) (users : Users)
      → Writes users (register jwt bcrypt secret now id salt body users).1
  signs_in :
      (id : ℕ) (suffix : Text) (profile : Profile) (users : Users)
      → Writes users (sign_in_google id suffix profile users).1
  inserts :
      (id : ℕ) (email username : Text) (hash : Option Text) (users : Users)
      → Writes users (create_user id email username hash users).1

pub data History (users : Users) : Users → Type 0 where
  here : History users users
  more : {a b : Users} → History users a → Writes a b → History users b

pub Writes-Touches : {a b : Users} → Writes a b → Touches a b
Writes-Touches (registers jwt bcrypt secret now id salt body users) =
    register-Touches jwt bcrypt secret now id salt body users
Writes-Touches (signs_in id suffix profile users) = sign_in_google-Touches id suffix profile users
Writes-Touches (inserts id email username hash users) = inr (inl (id, email, username, hash, refl))
