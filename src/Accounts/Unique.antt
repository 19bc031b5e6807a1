-- ===== src/Accounts/Unique.antt =====
-- The account of an address through everything that writes the table.
pub mod Writing
use ipl_auction_app.Accounts.Unique.Writing.{Touches, History, here, more, Writes-Touches}
use ipl_auction_app.Base.{
  ℕ, ◌<◌, ◌==◌, ltb, not, ◌&&◌, ◌≤◌, ◌≡◌, ◌⊎◌, refl, sym, ap, subst, arith, true, false,
  if◌then◌else◌, [], ◌∷◌, find, Option, none, some, Option-cases, Bool-cases, inl, inr, length,
}
use ipl_auction_app.Accounts.Text.{Text, same_text, trim, includes, is_empty, starts_with}
use ipl_auction_app.Accounts.Users.{
  UserRow, Users, Written, normal_email, has_email, find_user_by_email, is_email_taken, create_user,
  is_valid_row, has_user_id, rename, update_username, find_user_by_username,
}
use ipl_auction_app.Accounts.Session.{Jwt}
use ipl_auction_app.Accounts.Register.{
  Bcrypt, RegisterBody, registered, email_exists, register_with, answer_written, register,
}
use ipl_auction_app.Accounts.Google.{
  Profile, legacy_prefix, created, first_sign_in, suffixed, base_username, free_name, upgrade,
  sign_in_google,
}
use ipl_auction_app.Accounts.Laws.{same_text_refl, register-row}

same_text-eq : (s t : Text) → same_text s t ≡ true → s ≡ t
same_text-eq [] [] h = refl
same_text-eq [] (d ∷ ds) h = cc
same_text-eq (c ∷ cs) [] h = cc
same_text-eq (c ∷ cs) (d ∷ ds) h =
    let tails : same_text cs ds ≡ true = ground (arith, h) in
    let heads : c ≡ d = ground (arith, h) in
    let rest = same_text-eq cs ds tails in λ k. heads k ∷ rest k

-- The table finds an account with this id and this hash under the address.
abbrev pub Owns : Text → ℕ → Option Text → Users → Type 0
Owns email id hash users =
    (v : UserRow) × (find (has_email email) users ≡ some v) × (v.id ≡ id) × (v.password_hash ≡ hash)

created-rows :
    (id : ℕ) (email username : Text) (hash : Option Text) (users : Users)
    → ((create_user id email username hash users).1 ≡ users)
      ⊎ ((u : UserRow) × (find (has_email u.email) users ≡ none)
          × ((create_user id email username hash users).1 ≡ u ∷ users))
unfolding create_user
created-rows id email username hash users = elim (Option-cases (find (has_email row.email) users)) [
  | inr (v, known) ↦ inl (ground (arith, known))
  | inl fresh ↦ elim (Bool-cases (is_valid_row row)) [
    | inr bad ↦ inl (ground (arith, bad))
    | inl good ↦ elim (Option-cases (find (has_user_id id) users)) [
      | inr (v, twice) ↦ inl (ground (arith, twice, good))
      | inl free ↦ inr (row, fresh, ground (arith, fresh, good, free))
    ]
  ]
]
  where
    row : UserRow
    row = record {
      id = id;
      email = normal_email email;
      username = trim username;
      password_hash = hash;
    }

renamed :
    (id : ℕ) (name : Text) (users : Users)
    → ((update_username id name users).1 ≡ users)
      ⊎ ((update_username id name users).1 ≡ rename id (trim name) users)
unfolding update_username
renamed id name users = ground arith

module _ (e : Text) (i : ℕ) (h : Option Text) where
  insert-Owns :
      (u : UserRow) (users : Users)
      → find (has_email u.email) users ≡ none
      → Owns e i h users
      → Owns e i h (u ∷ users)
  insert-Owns u users fresh (v, found, same, hash) = elim (Bool-cases (has_email e u)) [
    | inr other ↦ (v, ground (arith, other, found), same, hash)
    | inl own ↦
        let absent : find (has_email e) users ≡ none =
          subst (λ t. find (has_email t) users ≡ none) (same_text-eq u.email e own) fresh in
        absurd (ground (arith, absent, found))
  ]

  create_user-Owns :
      (id : ℕ) (email username : Text) (hash : Option Text) (users : Users)
      → Owns e i h users
      → Owns e i h (create_user id email username hash users).1
  create_user-Owns id email username hash users o =
      elim (created-rows id email username hash users) [
        | inl e' ↦ rw (e') o
        | inr (u, fresh, e') ↦ rw (e') (insert-Owns u users fresh o)
      ]

  rename-Owns :
      (id : ℕ) (name : Text) (users : Users) → Owns e i h users → Owns e i h (rename id name users)
  unfolding rename
  rename-Owns id name [] (v, found, same, hash) = absurd (ground (arith, found))
  rename-Owns id name (u ∷ us) (v, found, same, hash) = elim (Bool-cases (has_email e u)) [
    | inl own ↦
        let first : u ≡ v = ground (arith, found, own) in
        (
          if u.id == id then record u { username = name } else u,
          ground (arith, own),
          ground (arith, first, same, ap (λ (x : UserRow). x.id) first),
          ground (arith, first, hash, ap (λ (x : UserRow). x.password_hash) first),
        )
    | inr other ↦
        let later : find (has_email e) us ≡ some v = ground (arith, found, other) in
        let (v', found', same', hash') = rename-Owns id name us (v, later, same, hash) in
        (v', ground (arith, other, found'), same', hash')
  ]

  update_username-Owns :
      (id : ℕ) (name : Text) (users : Users)
      → Owns e i h users
      → Owns e i h (update_username id name users).1
  update_username-Owns id name users o = elim (renamed id name users) [
    | inl e' ↦ rw (e') o
    | inr e' ↦ rw (e') (rename-Owns id (trim name) users o)
  ]

Touches-Owns :
    (e : Text) (i : ℕ) (h : Option Text) (users after : Users)
    → Touches users after
    → Owns e i h users
    → Owns e i h after
Touches-Owns e i h users after (inl same) o = rw (same) o
Touches-Owns e i h users after (inr (inl (id, email, name, hash, made))) o =
    rw (made) (create_user-Owns e i h id email name hash users o)
Touches-Owns e i h users after (inr (inr (id, name, made))) o =
    rw (made) (update_username-Owns e i h id name users o)

History-Owns :
    (e : Text) (i : ℕ) (h : Option Text) {a b : Users} → History a b → Owns e i h a → Owns e i h b
History-Owns e i h here o = o
History-Owns e i h (more {a} {b} hs w) o =
    Touches-Owns e i h a b (Writes-Touches w) (History-Owns e i h hs o)

refused-again :
    (jwt : Jwt) (bcrypt : Bcrypt) (secret : Option Text) (now id : ℕ) (salt : Text)
    (body : RegisterBody) (email name password : Text) (v : UserRow) (users : Users)
    → find (has_email (normal_email email)) users ≡ some v
    → body.email ≡ some email
    → body.username ≡ some name
    → body.password ≡ some password
    → includes 64 email && includes 46 email ≡ true
    → 3 ≤ length (trim name)
    → 6 ≤ length password
    → register jwt bcrypt secret now id salt body users ≡ (email_exists, users)
unfolding register register_with is_email_taken
refused-again jwt bcrypt secret now id salt body email name password v users found e n p good long
      strong =
    ground (arith, found, e, n, p, good, long, strong)

-- After a registration that went through, and whatever registrations, sign-ins by Google and insertions of
-- requests that were checked before come then: the address, in any case and with any spaces around it,
-- finds the account that was registered, with its id and its password's hash, and another registration
-- of it with a body that passes the checks is answered with EMAIL_EXISTS and writes nothing.
pub register-again :
    (jwt : Jwt) (bcrypt : Bcrypt) (secret : Option Text) (now id : ℕ) (salt : Text)
    (body : RegisterBody) (email password t : Text) (u : UserRow) (users after : Users)
    (later id' : ℕ) (salt' : Text) (body' : RegisterBody) (typed name' password' : Text)
    → body.email ≡ some email
    → body.password ≡ some password
    → (register jwt bcrypt secret now id salt body users).0 ≡ registered t u
    → History (register jwt bcrypt secret now id salt body users).1 after
    → normal_email typed ≡ normal_email email
    → body'.email ≡ some typed
    → body'.username ≡ some name'
    → body'.password ≡ some password'
    → includes 64 typed && includes 46 typed ≡ true
    → 3 ≤ length (trim name')
    → 6 ≤ length password'
    → ((v : UserRow) × (find_user_by_email typed after ≡ some v)
        × (v.id ≡ u.id)
        × (v.password_hash ≡ some (bcrypt.hash salt password)))
      × (register jwt bcrypt secret later id' salt' body' after ≡ (email_exists, after))
unfolding find_user_by_email
register-again jwt bcrypt secret now id salt body email password t u users after later id' salt'
      body' typed name' password' e p went hs same e' n' p' good long strong =
    let (address, hashed, rows, signed) =
      register-row jwt bcrypt secret now id salt body email password t u users e p went in
    let hash = some (bcrypt.hash salt password) in
    let first : Owns (normal_email typed) u.id hash
        (register jwt bcrypt secret now id salt body users).1 =
      subst (λ us. Owns (normal_email typed) u.id hash us) (sym rows)
        (u, ground (arith, address, same, same_text_refl (normal_email typed)), refl, hashed) in
    let (v, found, id_of, hash_of) = History-Owns (normal_email typed) u.id hash hs first in
    (
      (v, found, id_of, hash_of),
      refused-again jwt bcrypt secret later id' salt' body' typed name' password' v after found e'
          n' p' good long strong,
    )
