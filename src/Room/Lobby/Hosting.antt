-- ===== src/Room/Lobby/Hosting.antt =====
-- The host of a room through departures.
use ipl_auction_app.Base.{
  ℕ, ◌≡◌, refl, ◌⊎◌, inl, inr, arith, true, false, not, Bool-cases, List, [], ◌∷◌, find, filter,
  Option, none, some, Option-cases, is_some, ◌==◌, ==-refl,
}
use ipl_auction_app.Room.State.{Member, Room, Db}
use ipl_auction_app.Room.Rows.{of_user, is_lobby, first_user, remove_found, remove_member_from_room}

-- The host is one of the members.
abbrev pub IsHosted : Db → Type 0
IsHosted db =
    (r : Room) → db.room ≡ some r → is_some (find (of_user r.host_user_id) db.members) ≡ true

first-found :
    (ms : List Member) (user : ℕ)
    → first_user ms ≡ some user
    → is_some (find (of_user user) ms) ≡ true
first-found [] user h = cc
first-found (m ∷ ms) user h = ground (arith, ==-refl m.user_id)

first-none : (ms : List Member) → first_user ms ≡ none → ms ≡ []
first-none [] h = refl
first-none (m ∷ ms) h = cc

find-others :
    (user host : ℕ) (ms : List Member)
    → (host == user) ≡ false
    → is_some (find (of_user host) ms) ≡ true
    → is_some (find (of_user host) (filter (λ x. not (of_user user x)) ms)) ≡ true
find-others user host [] n h = h
find-others user host (m ∷ ms) n h = ground (arith, find-others user host ms n)

removed-db :
    (user : ℕ) (db : Db)
    → ((remove_member_from_room user db).1 ≡ db)
      ⊎ ((r : Room) × (m : Member) × (db.room ≡ some r)
          × ((remove_member_from_room user db).1 ≡ (remove_found user r m db).1))
unfolding remove_member_from_room
removed-db user db = go db.room refl (find (of_user user) db.members) refl
  where
    go :
        (o : Option Room)
        → db.room ≡ o
        → (f : Option Member) → find (of_user user) db.members ≡ f
        → ((remove_member_from_room user db).1 ≡ db)
          ⊎ ((r : Room) × (m : Member) × (db.room ≡ some r)
              × ((remove_member_from_room user db).1 ≡ (remove_found user r m db).1))
    go none e f k = inl (ground arith)
    go (some r) e none k = inl (ground arith)
    go (some r) e (some m) k = inr (r, m, e, ground arith)

found-IsHosted :
    (user : ℕ) (r : Room) (m : Member) (db : Db)
    → is_some (find (of_user r.host_user_id) db.members) ≡ true
    → ((remove_found user r m db).1.members ≡ []) ⊎ IsHosted (remove_found user r m db).1
unfolding remove_found
found-IsHosted user r m db h = elim (Bool-cases (is_lobby r.status)) [
  | inr auction ↦ inr (λ x q. ground (arith, h))
  | inl lobby ↦ elim (Bool-cases (r.host_user_id == user)) [
    | inr other ↦ inr (λ x q. ground (arith, find-others user r.host_user_id db.members other h))
    | inl host ↦ elim (Option-cases (first_user (filter (λ x. not (of_user user x)) db.members))) [
      | inl nobody ↦
          inl (ground (arith, first-none (filter (λ x. not (of_user user x)) db.members) nobody))
      | inr (heir, e) ↦ inr (λ x q.
          ground (arith, first-found (filter (λ x. not (of_user user x)) db.members) heir e))
    ]
  ]
]

-- Where the host is one of the members, the departure of any user leaves a host who is one of the
-- members, or a room without members.
pub remove_member-IsHosted :
    (user : ℕ) (db : Db)
    → IsHosted db
    → ((remove_member_from_room user db).1.members ≡ [])
      ⊎ IsHosted (remove_member_from_room user db).1
remove_member-IsHosted user db h = elim (removed-db user db) [
  | inl e ↦ inr (rw (e) h)
  | inr (r, m, room, e) ↦ rw (e) (found-IsHosted user r m db (h r room))
]
