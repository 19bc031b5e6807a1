-- ===== src/Invites/Recent.antt =====
-- GET /rooms/my/recent: `getUserRooms` of apps/backend/src/db/queries/rooms.ts. The newest room stands
-- first in the directory, which is the order of the query.
use ipl_auction_app.Base.{
  ℕ, ◌==◌, ◌≡◌, arith, Bool, List, [], ◌∷◌, find, length, take, max, Option, none, some, ==-refl,
}
use ipl_auction_app.Rules.Types.{FranchiseName}
use ipl_auction_app.Room.State.{RoomStatus, Room, Member}
use ipl_auction_app.Room.Rows.{of_user}
use ipl_auction_app.Accounts.Text.{Text}
use ipl_auction_app.Invites.Codes.{Entry, Directory, new_entry}

pub record UserRoomSummary : Type 0 where
  pub id : ℕ
  pub room_code : Text
  pub status : RoomStatus
  pub host_user_id : ℕ
  pub franchise : Option FranchiseName
  pub is_host : Bool
  pub member_count : ℕ

-- A count that is 0 or no number is shown as 1.
abbrev pub summary : ℕ → Entry → Room → Member → UserRoomSummary
summary user e room m = record {
  id = e.id;
  room_code = e.invite_code;
  status = room.status;
  host_user_id = room.host_user_id;
  franchise = m.franchise;
  is_host = room.host_user_id == user;
  member_count = max 1 (length e.db.members);
}

joined_rooms : ℕ → Directory → List UserRoomSummary
joined_rooms user [] = []
joined_rooms user (e ∷ es) =
    let rest = joined_rooms user es in
    elim e.db.room [
      | none ↦ rest
      | some room ↦ elim (find (of_user user) e.db.members) [
        | none ↦ rest
        | some m ↦ summary user e room m ∷ rest
      ]
    ]

unfoldable pub get_user_rooms : ℕ → Directory → List UserRoomSummary
unfolding joined_rooms
get_user_rooms user dir = take 10 (joined_rooms user dir)

-- A new room is the first that its host is shown, as the host and the only member, in its lobby.
pub get_user_rooms-new :
    (id member_id host : ℕ) (code : Text) (dir : Directory)
    → find (λ s. s.id == id) (get_user_rooms host (new_entry id member_id code host ∷ dir))
      ≡ some (record {
        id = id;
        room_code = code;
        status = RoomStatus.lobby;
        host_user_id = host;
        franchise = none;
        is_host = Bool.true;
        member_count = 1;
      })
unfolding get_user_rooms
get_user_rooms-new id member_id host code dir = ground (arith, ==-refl id, ==-refl host)
