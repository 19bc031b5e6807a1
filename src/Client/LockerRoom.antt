-- ===== src/Client/LockerRoom.antt =====
-- apps/frontend/src/app/room/[roomCode]/lobby/page.tsx: the lobby that a member sees, from the server's
-- messages. The ready hash of a room is a function of the user.
pub mod Follows
pub mod Starting
use ipl_auction_app.Base.{
  ℕ, ◌-◌, ◌==◌, leb, Bool, true, false, not, is_some, ◌&&◌, if◌then◌else◌, List, [], ◌∷◌, map,
  filter, find, Option, none, some, or_else,
}
use ipl_auction_app.Rules.Types.{FranchiseName}
use ipl_auction_app.Room.State.{Room, Db, World, Message}
use ipl_auction_app.Invites.Routes.{LobbyParticipant, participant}

-- `Record<string, string>` with '1' and '0'.
abbrev pub ReadyMap : Type 0
ReadyMap = ℕ → Option Bool

pub record LobbyPage : Type 0 where
  pub host_user_id : ℕ
  pub participants : List LobbyParticipant
  pub ready_map : ReadyMap
  pub is_starting : Bool
  pub countdown : Option ℕ
  -- `currentSeconds` of the interval that the last start has set up.
  pub interval_seconds : Option ℕ
  pub has_error : Bool
  -- `router.push` to the auction.
  pub has_moved_on : Bool

-- The payloads that the page listens to.
pub data LobbyEvent : Type 0 where
  joined : List LobbyParticipant → LobbyEvent
  left : ℕ → Option ℕ → LobbyEvent
  state_sync : ℕ → List LobbyParticipant → LobbyEvent
  claimed : List LobbyParticipant → LobbyEvent
  ready_update : ℕ → Bool → Option ReadyMap → LobbyEvent
  starting : Option ℕ → LobbyEvent
  failed : LobbyEvent

abbrev pub is_user : ℕ → LobbyParticipant → Bool
is_user user p = p.user_id == user

abbrev pub with_host : ℕ → LobbyParticipant → LobbyParticipant
with_host host p = record p { is_host = p.user_id == host }

abbrev pub set_ready : ℕ → Bool → ReadyMap → ReadyMap
set_ready user v ready u = if u == user then some v else ready u

unfoldable pub on_user_left : ℕ → Option ℕ → LobbyPage → LobbyPage
on_user_left user new_host page =
    let next = filter (λ p. not (is_user user p)) page.participants in
    elim new_host [
      | none ↦ record page { participants = next }
      | some host ↦ record page { participants = map (with_host host) next; host_user_id = host }
    ]

unfoldable pub on_lobby_event : LobbyEvent → LobbyPage → LobbyPage
unfolding on_user_left
on_lobby_event (joined ps) page = record page { participants = ps }
on_lobby_event (left user new_host) page = on_user_left user new_host page
on_lobby_event (state_sync host ps) page = record page { participants = ps; host_user_id = host }
on_lobby_event (claimed ps) page = record page { participants = ps }
on_lobby_event (ready_update user v all_ready) page = record page {
  ready_map = or_else all_ready (set_ready user v page.ready_map);
}
on_lobby_event (starting seconds) page = record page {
  countdown = some (or_else seconds 3);
  interval_seconds = some (or_else seconds 3);
  is_starting = true;
}
on_lobby_event failed page = record page { has_error = true; is_starting = false; countdown = none }

-- One second of the interval, which goes on whatever else the page has heard.
unfoldable pub count_down : LobbyPage → LobbyPage
count_down page = elim page.interval_seconds [
  | none ↦ page
  | some seconds ↦
      if leb seconds 1
      then record page { countdown = none; interval_seconds = none; has_moved_on = true }
      else record page { countdown = some (seconds - 1); interval_seconds = some (seconds - 1) }
]

-- `toggleReady` up to its message, whose value is the second part.
unfoldable pub toggle_ready : ℕ → LobbyPage → LobbyPage × Bool
toggle_ready user page =
    let next_state = not (or_else (page.ready_map user) false) in
    (record page { ready_map = set_ready user next_state page.ready_map }, next_state)

unfoldable pub all_have_franchise : List LobbyParticipant → Bool
all_have_franchise [] = true
all_have_franchise (p ∷ ps) = is_some p.franchise && all_have_franchise ps

abbrev pub is_empty_list : List LobbyParticipant → Bool
is_empty_list [] = true
is_empty_list (p ∷ ps) = false

-- The button of the host: `!allHaveFranchise || isStarting || !isConnected` disables it.
unfoldable pub can_start : ℕ → Bool → LobbyPage → Bool
unfolding all_have_franchise
can_start user is_connected page =
    (user == page.host_user_id)
    && (not (is_empty_list page.participants) && all_have_franchise page.participants)
    && not page.is_starting
    && is_connected

-- `buildParticipantList` of apps/backend/src/socket/handlers/roomHandler.ts.
abbrev pub build_participant_list : ℕ → Db → List LobbyParticipant
build_participant_list host db = map (participant host) db.members

abbrev pub listed_participant : ℕ → ℕ × Option FranchiseName → LobbyParticipant
listed_participant host (user, f) = record { user_id = user; franchise = f; is_host = user == host }

-- What the other sockets of the lobby hear of a message; the lists are built from the rows.
unfoldable pub heard : ℕ → Db → Message → Option LobbyEvent
heard host db (Message.user_joined user) = some (joined (build_participant_list host db))
heard host db (Message.franchise_claimed user f) = some (claimed (build_participant_list host db))
heard host db (Message.user_left user f new_host number) = some (left user new_host)
heard host db (Message.room_state_sync new_host ps) =
    some (state_sync new_host (map (listed_participant new_host) ps))
heard host db Message.auction_starting = some (starting (some 3))
heard host db _ = none

-- The messages of an operation on the page of a member who looks on; the newest stands first.
unfoldable pub hear : ℕ → Db → List Message → LobbyPage → LobbyPage
unfolding heard on_lobby_event
hear host db [] page = page
hear host db (m ∷ ms) page =
    let before = hear host db ms page in
    elim (heard host db m) [ none ↦ before | some e ↦ on_lobby_event e before ]

-- `room:ready_toggle` of roomHandler.ts: the hash is written, read back and sent to all.
unfoldable pub ready_toggle : ℕ → Bool → ReadyMap → LobbyEvent × ReadyMap
ready_toggle user v stored =
    let all_ready = set_ready user v stored in (ready_update user v (some all_ready), all_ready)
