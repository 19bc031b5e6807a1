-- ===== src/Tests/Invites.antt =====
-- A server with one room, a new one, and a guest.
use ipl_auction_app.Base.{
  ℕ, zero, suc, ◌≡◌, ◌<◌, ◌⊎◌, refl, arith, true, false, [], ◌∷◌, map, none, some,
}
use ipl_auction_app.Room.State.{RoomStatus, Room}
use ipl_auction_app.Room.Rows.{is_room_member, migrated, add_member_to_room}
use ipl_auction_app.Accounts.Text.{Text, to_upper_case, trim_start, trim_end}
use ipl_auction_app.Invites.Codes.{
  Entry, Directory, Draws, generate_invite_code, is_taken, create_room, get_room_by_code,
}
use ipl_auction_app.Invites.Routes.{
  join_by_code, joined, get_room, Shown, participant, join_entry, join_lobby,
}
use ipl_auction_app.Invites.Laws.{IsCreated, create_room-outcome}
use ipl_auction_app.Invites.Joining.{join_by_code-again}
use ipl_auction_app.Tests.Fixtures.{db_of, host_member}

abbrev lobby_room : Room
lobby_room = record { host_user_id = 1; status = RoomStatus.lobby; current_queue_position = 0 }

-- The code AAAAAA; its host has a franchise.
abbrev first_room : Entry
first_room = record {
  id = 20;
  invite_code = 65 ∷ 65 ∷ 65 ∷ 65 ∷ 65 ∷ 65 ∷ [];
  db = record (db_of lobby_room) { members = host_member ∷ [] };
}

abbrev server : Directory
server = first_room ∷ []

-- The first attempt draws AAAAAA again, the others BBBBBB.
abbrev index_at : ℕ → ℕ
index_at zero = 0
index_at (suc j) = 1

abbrev drawn : Draws
drawn = record { room_id = λ k. 30; member_id = λ k. 31; char_index = λ k i. index_at k }

create_room-outcome_example :
    IsCreated 2 server (create_room drawn 2 server)
    ⊎ ((create_room drawn 2 server ≡ (none, server))
        × ((j : ℕ)
            → j < 3
            → is_taken (drawn.room_id j) (generate_invite_code (drawn.char_index j)) server ≡ true))
create_room-outcome_example = create_room-outcome drawn 2 server (λ k i. below k)
  where
    below : (k : ℕ) → index_at k < 32
    below zero = omega arith
    below (suc j) = omega arith

-- "aaaaaa".
abbrev typed_code : Text
typed_code = 97 ∷ 97 ∷ 97 ∷ 97 ∷ 97 ∷ 97 ∷ []

join_by_code-again_example :
    let after = (join_by_code migrated 12 2 (some typed_code) server).1 in
    (join_by_code migrated 13 2 (some typed_code) after ≡ (joined 20 lobby_room true, after))
    × ((e : Entry) × (get_room_by_code typed_code after ≡ some e)
        × (get_room 2 typed_code after
            ≡ Shown.shown (lobby_room, map (participant lobby_room.host_user_id) e.db.members))
        × (is_room_member 2 e.db ≡ true))
unfolding join_by_code get_room_by_code to_upper_case trim_start trim_end join_entry join_lobby
    is_room_member add_member_to_room
join_by_code-again_example =
    join_by_code-again migrated 12 13 2 20 typed_code lobby_room false server refl
