-- ===== src/Room/Lobby.antt =====
-- Joining, leaving and starting: apps/backend/src/socket/handlers/roomHandler.ts and
-- disconnectHandler.ts, and apps/backend/src/services/teardownService.ts.
pub mod Counts
pub mod Roster
pub mod Members
pub mod Hosting
use ipl_auction_app.Base.{
  ℕ, ◌==◌, Bool, not, ◌||◌, ◌&&◌, if◌then◌else◌, List, Option, none, some, or_else, map,
}
use ipl_auction_app.Rules.Types.{FranchiseName}
use ipl_auction_app.Room.State.{
  RoomStatus, Room, Db, World, Task, emit, spawn, set_redis, set_db, Message,
}
use ipl_auction_app.Room.Rows.{
  Removal, is_lobby, is_room_member, remove_member_from_room, Claim, claimed, refused,
  unique_violation, claim_franchise, all_members_have_franchise, update_room_status,
}
use ipl_auction_app.Room.Host.{is_active, is_waiting, handle_host_disconnect, handle_host_reconnect}

pub record TeardownResult : Type 0 where
  pub success : Bool
  pub was_removed : Bool
  pub was_host : Bool
  pub new_host_user_id : Option ℕ
  pub remaining_member_count : ℕ

abbrev set_presence : ℕ → Option Bool → World → World
set_presence user v =
    set_redis λ r. record r { presence = λ u. if user == u then v else r.presence u }

-- Step 6: the recovery window for a host, and for anyone else the room's bid lock is deleted.
unfoldable pub hand_in_auction : ℕ → ℕ → Room → Bool → World → World
unfolding set_redis
hand_in_auction token user room was_host w =
    if is_active room.status || is_waiting room.status
    then (if was_host
        then handle_host_disconnect token user w
        else set_redis (λ r. record r { bid_lock = none }) w)
    else w

abbrev pub participants : Db → List (ℕ × Option FranchiseName)
participants db = map (λ m. (m.user_id, m.franchise)) db.members

-- Steps 7 and 8: the broadcasts.
unfoldable pub announce_departure : ℕ → Room → Removal → World → World
unfolding emit
announce_departure user room r w =
    let w' =
      emit (Message.user_left user r.franchise r.new_host_user_id r.remaining_member_count) w in
    if is_lobby room.status
    then emit
        (Message.room_state_sync (or_else r.new_host_user_id room.host_user_id)
          (participants w'.db))
        w'
    else w'

-- `teardownManager` under its lock, which it deletes at the end.
unfoldable pub run_teardown : ℕ → ℕ → Room → World → TeardownResult × World
unfolding set_redis hand_in_auction announce_departure
run_teardown token user room w =
    let (r, db) = remove_member_from_room user w.db in
    let w' = set_presence user none (record w { db = db }) in
    let w'' = announce_departure user room r (hand_in_auction token user room r.was_host w') in
    (
      record {
        success = Bool.true;
        was_removed = r.was_removed;
        was_host = r.was_host;
        new_host_user_id = r.new_host_user_id;
        remaining_member_count = r.remaining_member_count;
      },
      set_redis
          (λ s. record s {
            teardown_lock = λ u. if user == u then Bool.false else s.teardown_lock u;
          })
          w'',
    )

-- The token is that of a recovery window, should one start.
unfoldable pub teardown_manager : ℕ → ℕ → World → TeardownResult × World
teardown_manager token user w = elim w.db.room [
  | none ↦ (
    record {
      success = Bool.false;
      was_removed = Bool.false;
      was_host = Bool.false;
      new_host_user_id = none;
      remaining_member_count = 0;
    },
    w,
  )
  | some room ↦
      if w.redis.teardown_lock user
      then (
        record {
          success = Bool.true;
          was_removed = Bool.false;
          was_host = room.host_user_id == user;
          new_host_user_id = none;
          remaining_member_count = 0;
        },
        w,
      )
      else run_teardown token user room w
]

-- `room:join`.
unfoldable pub join_room : ℕ → World → World
unfolding emit set_redis
join_room user w = elim w.db.room [
  | none ↦ emit Message.room_error w
  | some room ↦
      if not (is_room_member user w.db)
      then emit Message.room_error w
      else emit (Message.user_joined user) (
          set_presence user (some Bool.true) (
            if is_waiting room.status && room.host_user_id == user
            then (handle_host_reconnect user w).1
            else w))
]

unfoldable pub after_claim : ℕ → FranchiseName → Claim → World → World
unfolding emit
after_claim user f (claimed db) w = emit (Message.franchise_claimed user f) (record w { db = db })
after_claim user f refused w = emit Message.franchise_claimed_error w
after_claim user f unique_violation w = emit Message.franchise_claimed_error w

-- `room:franchise_select`.
unfoldable pub select_franchise : ℕ → FranchiseName → World → World
unfolding emit after_claim
select_franchise user f w = elim w.db.room [
  | none ↦ emit Message.room_error w
  | some room ↦
      if not (is_lobby room.status)
      then emit Message.room_error w
      else after_claim user f (claim_franchise user f w.db) w
]

abbrev pub is_completed : RoomStatus → Bool
is_completed RoomStatus.completed = Bool.true
is_completed _ = Bool.false

-- `room:start_auction` up to its countdown.
unfoldable pub request_start : ℕ → World → World
unfolding emit spawn set_db
request_start user w = elim w.db.room [
  | none ↦ emit Message.room_error w
  | some room ↦
      if not (room.host_user_id == user)
      then emit Message.room_error w
      else if is_completed room.status
      then emit Message.room_error w
      else if not (all_members_have_franchise w.db)
      then emit Message.room_error w
      else spawn Task.start (
          emit Message.auction_starting
            (if is_lobby room.status then set_db (update_room_status RoomStatus.active) w else w))
]

-- The `disconnect` handler of a socket that has joined the room; without the room's row it returns
-- before the check is scheduled.
unfoldable pub disconnect : ℕ → ℕ → World → World
unfolding emit spawn set_redis
disconnect token user w =
    let w' = emit (Message.presence_alert user) (set_presence user (some Bool.false) w) in
    elim w.db.room [
      | none ↦ w'
      | some room ↦ spawn (Task.check_gone user) (
          if room.host_user_id == user && is_active room.status
          then handle_host_disconnect token user w'
          else w')
    ]

-- The check after the grace period.
unfoldable pub check_offline : ℕ → ℕ → World → World
check_offline token user w = elim (w.redis.presence user) [
  | none ↦ w
  | some online ↦ if online then w else (teardown_manager token user w).1
]
