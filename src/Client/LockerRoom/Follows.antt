-- ===== src/Client/LockerRoom/Follows.antt =====
-- The lobby page keeps up with the room.
use ipl_auction_app.Base.{
  ℕ, ◌≡◌, refl, sym, ap, arith, List, [], ◌∷◌, map, none, some, or_else, Option-cases, inl, inr,
  subst,
}
use ipl_auction_app.Rules.Types.{FranchiseName}
use ipl_auction_app.Room.State.{Room, RoomStatus, Member, World, emit, set_redis}
use ipl_auction_app.Room.Rows.{remove_member_from_room, remove_found, claim_franchise}
use ipl_auction_app.Room.Lobby.{
  teardown_manager, run_teardown, hand_in_auction, announce_departure, join_room, select_franchise,
  after_claim,
}
use ipl_auction_app.Invites.Routes.{participant}
use ipl_auction_app.Client.LockerRoom.{
  LobbyPage, on_user_left, on_lobby_event, heard, hear, listed_participant,
}

-- The page shows the room's host and members.
abbrev pub Shows : LobbyPage → World → Type 0
Shows page w =
    (r : Room)
    → w.db.room ≡ some r
    → (page.host_user_id ≡ r.host_user_id)
      × (page.participants ≡ map (participant r.host_user_id) w.db.members)

-- What users do in a lobby.
pub data LobbyMove : Type 0 where
  enters : ℕ → LobbyMove
  chooses : ℕ → FranchiseName → LobbyMove
  departs : ℕ → ℕ → LobbyMove

unfoldable pub move : LobbyMove → World → World
move (enters user) w = join_room user w
move (chooses user f) w = select_franchise user f w
move (departs token user) w = (teardown_manager token user w).1

-- The page after a move on an empty outbox.
unfoldable pub after_move : LobbyMove → Room → World → LobbyPage → LobbyPage
unfolding move hear
after_move m r w page =
    let w' = move m (record w { messages = [] }) in hear r.host_user_id w'.db w'.messages page

listed-participants :
    (host : ℕ) (ms : List Member)
    → map (listed_participant host) (map (λ (m : Member). (m.user_id, m.franchise)) ms)
      ≡ map (participant host) ms
listed-participants host [] = refl
listed-participants host (m ∷ ms) = ap (λ t. participant host m ∷ t) (listed-participants host ms)

enters-Shows :
    (user : ℕ) (r : Room) (w : World) (page : LobbyPage)
    → w.db.room ≡ some r
    → r.status ≡ RoomStatus.lobby
    → Shows page w
    → Shows (after_move (enters user) r w page) (move (enters user) (record w { messages = [] }))
unfolding after_move move join_room hear heard on_lobby_event emit set_redis
enters-Shows user r w page h lobby s = λ r' h'. ground (arith, h, lobby, s r h, h')

chooses-Shows :
    (user : ℕ) (f : FranchiseName) (r : Room) (w : World) (page : LobbyPage)
    → w.db.room ≡ some r
    → r.status ≡ RoomStatus.lobby
    → Shows page w
    → Shows
        (after_move (chooses user f) r w page)
        (move (chooses user f) (record w { messages = [] }))
unfolding after_move move select_franchise after_claim claim_franchise hear heard on_lobby_event
    emit
chooses-Shows user f r w page h lobby s = λ r' h'. ground (arith, h, lobby, s r h, h')

departs-Shows :
    (token user : ℕ) (r : Room) (w : World) (page : LobbyPage)
    → w.db.room ≡ some r
    → r.status ≡ RoomStatus.lobby
    → Shows page w
    → Shows
        (after_move (departs token user) r w page)
        (move (departs token user) (record w { messages = [] }))
unfolding after_move move teardown_manager run_teardown hand_in_auction announce_departure
    remove_member_from_room remove_found hear heard on_lobby_event on_user_left emit set_redis
departs-Shows token user r w page h lobby s =
    let left = remove_member_from_room user w.db in
    λ r' h'. ground (
      arith,
      h,
      lobby,
      s r h,
      h',
      listed-participants (or_else left.0.new_host_user_id r.host_user_id) left.1.members,
    )

-- The room and the page, move by move; the page hears each move's messages.
unfoldable pub watch : List LobbyMove → World → LobbyPage → World × LobbyPage
unfolding move after_move
watch [] w page = (w, page)
watch (m ∷ ms) w page = elim w.db.room [
  | none ↦ watch ms w page
  | some r ↦ watch ms (move m (record w { messages = [] })) (after_move m r w page)
]

-- The room is in its lobby.
abbrev pub InLobby : World → Type 0
InLobby w = (r : Room) × (w.db.room ≡ some r) × (r.status ≡ RoomStatus.lobby)

move-InLobby :
    (m : LobbyMove) (w : World) → InLobby w → InLobby (move m (record w { messages = [] }))
unfolding move join_room select_franchise after_claim claim_franchise teardown_manager run_teardown
    hand_in_auction announce_departure remove_member_from_room remove_found emit set_redis
move-InLobby (enters user) w (r, h, lobby) = (r, ground (arith, h, lobby), lobby)
move-InLobby (chooses user f) w (r, h, lobby) = (r, ground (arith, h, lobby), lobby)
move-InLobby (departs token user) w (r, h, lobby) =
    let w' = move (departs token user) (record w { messages = [] }) in
    elim (Option-cases w'.db.room) [
      | inl gone ↦ ground (arith, h, lobby, gone)
      | inr (r', e) ↦ (r', e, ground (arith, h, lobby, e))
    ]

move-Shows :
    (m : LobbyMove) (r : Room) (w : World) (page : LobbyPage)
    → w.db.room ≡ some r
    → r.status ≡ RoomStatus.lobby
    → Shows page w
    → Shows (after_move m r w page) (move m (record w { messages = [] }))
move-Shows (enters user) r w page h lobby s = enters-Shows user r w page h lobby s
move-Shows (chooses user f) r w page h lobby s = chooses-Shows user f r w page h lobby s
move-Shows (departs token user) r w page h lobby s = departs-Shows token user r w page h lobby s

-- A page that shows a lobby's host and members shows them after any sequence of socket joins,
-- franchise choices and departures whose messages it hears.
pub watch-Shows :
    (ms : List LobbyMove) (w : World) (page : LobbyPage)
    → InLobby w
    → Shows page w
    → Shows (watch ms w page).1 (watch ms w page).0
unfolding watch
watch-Shows [] w page l s = s
watch-Shows (m ∷ ms) w page (r, h, lobby) s =
    let w' = move m (record w { messages = [] }) in
    let page' = after_move m r w page in
    let rest =
      watch-Shows ms w' page' (move-InLobby m w (r, h, lobby)) (move-Shows m r w page h lobby s) in
    let e : watch (m ∷ ms) w page ≡ watch ms w' page' = ground (arith, h) in
    subst (λ (v : World × LobbyPage). Shows v.1 v.0) (sym e) rest
