-- ===== src/Invites/Routes.antt =====
-- POST /rooms/join, GET /rooms/:code and GET /rooms/:code/squads of apps/backend/src/routes/rooms.ts,
-- behind `jwtAuth`, which gives the user.
use ipl_auction_app.Base.{
  ℕ, ◌==◌, Bool, true, false, if◌then◌else◌, List, [], ◌∷◌, map, length, Option, none, some,
}
use ipl_auction_app.Rules.Types.{FranchiseName}
use ipl_auction_app.Room.State.{RoomStatus, Room, Member, Db}
use ipl_auction_app.Room.Rows.{is_room_member, FranchiseConstraint, add_member_to_room, is_lobby}
use ipl_auction_app.Accounts.Text.{Text, trim}
use ipl_auction_app.Invites.Codes.{Entry, Directory, get_room_by_code}

pub data Joining : Type 0 where
  bad_code : Joining
  no_such_room : Joining
  not_in_lobby : RoomStatus → Joining
  failed : Joining
  -- The room and whether the user was a member already.
  joined : ℕ → Room → Bool → Joining

-- The rows of one room are written.
unfoldable pub put_db : ℕ → Db → Directory → Directory
put_db id db [] = []
put_db id db (e ∷ es) =
    let rest = put_db id db es in if e.id == id then record e { db = db } ∷ rest else e ∷ rest

unfoldable pub join_lobby :
    FranchiseConstraint → ℕ → ℕ → Entry → Room → Directory → Joining × Directory
unfolding put_db
join_lobby k member_id user e room dir =
    if is_room_member user e.db
    then (joined e.id room true, dir)
    else elim (add_member_to_room k member_id user e.db) [
      | none ↦ (failed, dir)
      | some db ↦ (joined e.id room false, put_db e.id db dir)
    ]

unfoldable pub join_entry : FranchiseConstraint → ℕ → ℕ → Entry → Directory → Joining × Directory
unfolding join_lobby
join_entry k member_id user e dir = elim e.db.room [
  | none ↦ (no_such_room, dir)
  | some room ↦
      if is_lobby room.status
      then join_lobby k member_id user e room dir
      else (not_in_lobby room.status, dir)
]

-- The code of the body is `none` if it is no string.
unfoldable pub join_by_code :
    FranchiseConstraint → ℕ → ℕ → Option Text → Directory → Joining × Directory
unfolding join_entry
join_by_code k member_id user code dir = elim code [
  | none ↦ (bad_code, dir)
  | some c ↦
      if length (trim c) == 6
      then elim (get_room_by_code c dir) [
        | none ↦ (no_such_room, dir)
        | some e ↦ join_entry k member_id user e dir
      ]
      else (bad_code, dir)
]

pub data Shown (A : Type 0) : Type 0 where
  not_found : Shown A
  forbidden : Shown A
  shown : A → Shown A

-- `LobbyParticipant` without the display name.
pub record LobbyParticipant : Type 0 where
  pub user_id : ℕ
  pub franchise : Option FranchiseName
  pub is_host : Bool

abbrev pub participant : ℕ → Member → LobbyParticipant
participant host m = record {
  user_id = m.user_id;
  franchise = m.franchise;
  is_host = m.user_id == host;
}

unfoldable pub get_room : ℕ → Text → Directory → Shown (Room × List LobbyParticipant)
get_room user code dir = elim (get_room_by_code code dir) [
  | none ↦ Shown.not_found
  | some e ↦ elim e.db.room [
    | none ↦ Shown.not_found
    | some room ↦
        if is_room_member user e.db
        then Shown.shown (room, map (participant room.host_user_id) e.db.members)
        else Shown.forbidden
  ]
]
