-- ===== src/Invites/Joining.antt =====
-- Who has joined a room by its code sees it, and joins it again without effect.
use ipl_auction_app.Base.{
  pos, ℕ, ◌≡◌, refl, ◌∙◌, ap, subst, arith, Bool, true, List, [], ◌∷◌, ◌++◌, find, map, none, some,
  ◌&&◌, Option-cases, Bool-cases, inl, inr, ==-refl, is_some, length, ◌==◌,
}
use ipl_auction_app.Room.State.{Room, Member, Db}
use ipl_auction_app.Rules.Eligibility.{wallet_total_lakhs}
use ipl_auction_app.Room.Rows.{
  is_room_member, FranchiseConstraint, nulls_clash, add_member_to_room, of_user, is_lobby,
  is_unselected,
}
use ipl_auction_app.Accounts.Text.{Text, to_upper_case, trim}
use ipl_auction_app.Invites.Codes.{Entry, Directory, has_code, get_room_by_code}
use ipl_auction_app.Invites.Routes.{
  joined, join_lobby, join_entry, join_by_code, put_db, Shown, get_room, participant,
}

find-put_db :
    (code : Text) (db : Db) (e : Entry) (dir : Directory)
    → find (has_code code) dir ≡ some e
    → find (has_code code) (put_db e.id db dir) ≡ some (record e { db = db })
unfolding put_db
find-put_db code db e [] h = absurd (ground (arith, h))
find-put_db code db e (x ∷ xs) h = elim (Bool-cases (has_code code x)) [
  | inl hit ↦
      let same : x ≡ e = ground (arith, hit, h) in
      ground (arith, hit, ap (λ (y : Entry). y.id) same, same, ==-refl x.id)
  | inr miss ↦ ground (arith, miss, h, find-put_db code db e xs)
]

find-added :
    (user : ℕ) (m : Member) (ms : List Member)
    → m.user_id ≡ user
    → is_some (find (of_user user) (ms ++ m ∷ [])) ≡ true
find-added user m [] h = ground (arith, h, ==-refl user)
find-added user m (x ∷ xs) h = ground (arith, find-added user m xs h)

added-member :
    (k : FranchiseConstraint) (id user : ℕ) (db db' : Db)
    → add_member_to_room k id user db ≡ some db'
    → (is_room_member user db' ≡ true) × (db'.room ≡ db.room)
unfolding add_member_to_room is_room_member
added-member k id user db db' h = elim (Option-cases (find (of_user user) db.members)) [
  | inr (m, known) ↦ ground (arith, h, known)
  | inl new ↦ elim (Bool-cases (nulls_clash k && is_some (find is_unselected db.members))) [
    | inl blocked ↦ absurd (ground (arith, h, new, blocked))
    | inr free ↦
        let m : Member = record {
          id = id;
          user_id = user;
          franchise = none;
          wallet_remaining_lakhs = pos wallet_total_lakhs;
        } in
        ground (arith, h, new, free, find-added user m db.members refl)
  ]
]

-- A user who has joined: the code gives the room, in its lobby, with the user among its members.
record IsInside (user : ℕ) (code : Text) (room : Room) (id : ℕ) (dir : Directory) : Type 0 where
  entry : Entry
  found : get_room_by_code code dir ≡ some entry
  at : entry.db.room ≡ some room
  member : is_room_member user entry.db ≡ true
  open_lobby : is_lobby room.status ≡ true
  id_of : entry.id ≡ id
  full : (length (trim code) == 6) ≡ true

join_lobby-IsInside :
    (k : FranchiseConstraint) (member_id user id : ℕ) (code : Text) (e : Entry) (room room' : Room)
    (already : Bool) (dir : Directory)
    → get_room_by_code code dir ≡ some e
    → e.db.room ≡ some room
    → is_lobby room.status ≡ true
    → (length (trim code) == 6) ≡ true
    → (join_lobby k member_id user e room dir).0 ≡ joined id room' already
    → IsInside user code room' id (join_lobby k member_id user e room dir).1
unfolding join_lobby get_room_by_code
join_lobby-IsInside k member_id user id code e room room' already dir found at lobby full h =
    elim (Bool-cases (is_room_member user e.db)) [
      | inl inside ↦ record {
        entry = e;
        found = ground (arith, inside, found);
        at = ground (arith, inside, at, h);
        member = inside;
        open_lobby = ground (arith, inside, h, lobby);
        id_of = ground (arith, inside, h);
        full = full;
      }
      | inr outside ↦ elim (Option-cases (add_member_to_room k member_id user e.db)) [
        | inl refused ↦ absurd (ground (arith, outside, refused, h))
        | inr (db, added) ↦
            let (inside, same) = added-member k member_id user e.db db added in
            let put = find-put_db (trim (to_upper_case code)) db e dir found in
            record {
              entry = record e { db = db };
              found = ground (arith, outside, added, put);
              at = ground (arith, outside, added, same, at, h);
              member = inside;
              open_lobby = ground (arith, outside, added, h, lobby);
              id_of = ground (arith, outside, added, h);
              full = full;
            }
      ]
    ]

join_by_code-IsInside :
    (k : FranchiseConstraint) (member_id user id : ℕ) (code : Text) (room : Room) (already : Bool)
    (dir : Directory)
    → (join_by_code k member_id user (some code) dir).0 ≡ joined id room already
    → IsInside user code room id (join_by_code k member_id user (some code) dir).1
unfolding join_by_code join_entry
join_by_code-IsInside k member_id user id code room already dir h =
    elim (Bool-cases (length (trim code) == 6)) [
      | inr short ↦ absurd (ground (arith, short, h))
      | inl full ↦ elim (Option-cases (get_room_by_code code dir)) [
        | inl missing ↦ absurd (ground (arith, full, missing, h))
        | inr (e, found) ↦ elim (Option-cases e.db.room) [
          | inl roomless ↦ absurd (ground (arith, full, found, roomless, h))
          | inr (r, at) ↦ elim (Bool-cases (is_lobby r.status)) [
            | inr closed ↦ absurd (ground (arith, full, found, at, closed, h))
            | inl lobby ↦
                let same : join_lobby k member_id user e r dir
                    ≡ join_by_code k member_id user (some code) dir =
                  ground (arith, full, found, at, lobby) in
                subst (λ x. IsInside user code room id x.1) same
                  (join_lobby-IsInside k member_id user id code e r room already dir found at lobby
                    full (ap (λ x. x.0) same ∙ h))
          ]
        ]
      ]
    ]

-- Under either constraint on franchises: after a join that went through, the room is shown to the user under that code, with everybody in it,
-- and joining it again answers that the user is a member already and writes nothing.
pub join_by_code-again :
    (k : FranchiseConstraint) (member_id again user id : ℕ) (code : Text) (room : Room)
    (already : Bool) (dir : Directory)
    → (join_by_code k member_id user (some code) dir).0 ≡ joined id room already
    → (let after = (join_by_code k member_id user (some code) dir).1 in
        (join_by_code k again user (some code) after ≡ (joined id room true, after))
        × ((e : Entry) × (get_room_by_code code after ≡ some e)
            × (get_room user code after
                ≡ Shown.shown (room, map (participant room.host_user_id) e.db.members))
            × (is_room_member user e.db ≡ true)))
unfolding join_by_code join_entry join_lobby get_room
join_by_code-again k member_id again user id code room already dir h =
    inside (join_by_code k member_id user (some code) dir).1
      (join_by_code-IsInside k member_id user id code room already dir h)
  where
    inside :
        (after : Directory)
        → IsInside user code room id after
        → (join_by_code k again user (some code) after ≡ (joined id room true, after))
          × ((e : Entry) × (get_room_by_code code after ≡ some e)
              × (get_room user code after
                  ≡ Shown.shown (room, map (participant room.host_user_id) e.db.members))
              × (is_room_member user e.db ≡ true))
    inside after i = (
      ground (arith, i.full, i.found, i.at, i.open_lobby, i.member, i.id_of),
      (i.entry, i.found, ground (arith, i.found, i.at, i.member), i.member),
    )
