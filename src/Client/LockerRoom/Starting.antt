-- ===== src/Client/LockerRoom/Starting.antt =====
-- The start button and the server's answer.
use ipl_auction_app.Base.{ℕ, ◌==◌, ◌≡◌, arith, true, List, [], ◌∷◌, map, some, count}
use ipl_auction_app.Room.State.{Room, RoomStatus, Member, World, Task, Message, emit, spawn, set_db}
use ipl_auction_app.Room.Rows.{is_unselected, all_members_have_franchise, update_room_status}
use ipl_auction_app.Room.Lobby.{request_start}
use ipl_auction_app.Invites.Routes.{participant}
use ipl_auction_app.Client.LockerRoom.{LobbyPage, all_have_franchise, can_start}
use ipl_auction_app.Client.LockerRoom.Follows.{Shows}

all_have_franchise-count :
    (host : ℕ) (ms : List Member)
    → all_have_franchise (map (participant host) ms) ≡ (count is_unselected ms == 0)
unfolding all_have_franchise
all_have_franchise-count host [] = ground arith
all_have_franchise-count host (m ∷ ms) = ground (arith, all_have_franchise-count host ms)

-- Where the page shows the room's host and members, a start that its button allows is accepted by the
-- server of a lobby: the room becomes active, the start is announced, and the engine's start is due.
pub can_start-accepted :
    (user : ℕ) (r : Room) (page : LobbyPage) (w : World)
    → w.db.room ≡ some r
    → r.status ≡ RoomStatus.lobby
    → Shows page w
    → can_start user true page ≡ true
    → let v = request_start user w in
      (v.db.room ≡ some (record r { status = RoomStatus.active }))
      × (v.messages ≡ Message.auction_starting ∷ w.messages)
      × (v.tasks ≡ Task.start ∷ w.tasks)
unfolding can_start request_start all_members_have_franchise update_room_status emit spawn set_db
can_start-accepted user r page w h lobby s ok =
    let (host, members) = s r h in
    ground
      (arith, h, lobby, host, members, ok, all_have_franchise-count r.host_user_id w.db.members)
