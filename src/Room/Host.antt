-- ===== src/Room/Host.antt =====
-- The `host:control` handler of apps/backend/src/socket/handlers/auctionHandler.ts and
-- apps/backend/src/services/hostDeadManService.ts.
pub mod Laws
use ipl_auction_app.Base.{ℕ, ◌+◌, ◌==◌, Bool, not, if◌then◌else◌, none, some}
use ipl_auction_app.Room.State.{
  AuctionState, RoomStatus, BidEvent, World, refetch, emit, set_redis, set_db, Message,
}
use ipl_auction_app.Room.Rows.{update_room_status}
use ipl_auction_app.Room.Wallets.{load_all_franchise_states}
use ipl_auction_app.Room.Timer.{
  clear_timer, set_auction_state, pause_timer, resume_timer, extend_timer, get_remaining_seconds,
}
use ipl_auction_app.Room.Engine.{end_auction, run_expiry, log_event}

pub data HostAction : Type 0 where
  pause resume skip extend end : HostAction

-- Both keys of the timer are deleted.
unfoldable pub forget_timer : World → World
unfolding clear_timer set_redis
forget_timer w =
    set_redis (λ r. record r { timer_deadline = none; timer_paused = none }) (clear_timer w)

unfoldable pub announce_end : World → World
unfolding emit
announce_end w =
    let (states, w') = load_all_franchise_states w in emit (Message.auction_complete states) w'

-- An action of the host.
unfoldable pub run_action : HostAction → World → World
unfolding forget_timer announce_end
run_action pause w = (pause_timer w).1
run_action resume w = resume_timer refetch w
run_action skip w = run_expiry refetch (forget_timer w)
run_action extend w = (extend_timer 15 refetch w).1
run_action end w = announce_end (end_auction (forget_timer w))

unfoldable pub host_control : ℕ → HostAction → World → World
unfolding emit
host_control user action w = elim w.db.room [
  | none ↦ emit Message.room_error w
  | some room ↦
      if not (room.host_user_id == user) then emit Message.room_error w else run_action action w
]

abbrev pub is_active : RoomStatus → Bool
is_active RoomStatus.active = Bool.true
is_active _ = Bool.false

abbrev pub is_waiting : RoomStatus → Bool
is_waiting RoomStatus.waiting_host = Bool.true
is_waiting _ = Bool.false

abbrev pub recovery_window_ms : ℕ
recovery_window_ms = 60000

-- `handleHostDisconnect` behind its guards.
unfoldable pub start_recovery : ℕ → World → World
unfolding emit set_redis set_db set_auction_state
start_recovery token w =
    let (frozen, w') = pause_timer w in
    let deadline = w'.now + recovery_window_ms in
    let w'' = emit (Message.auction_waiting_host deadline frozen) (
      set_redis
        (λ r. record r { host_deadman_token = some token; host_deadman_deadline = some deadline })
        (set_auction_state AuctionState.waiting_host
          (set_db (update_room_status RoomStatus.waiting_host) w'))) in
    record w'' { dead_man_timer = some token }

unfoldable pub handle_host_disconnect : ℕ → ℕ → World → World
handle_host_disconnect token user w = elim w.db.room [
  | none ↦ w
  | some room ↦
      if not (room.host_user_id == user)
      then w
      else if not (is_active room.status)
      then w
      else start_recovery token w
]

-- `handleHostReconnect` behind its guards.
unfoldable pub recover : World → World
unfolding emit set_redis set_db
recover w =
    let w' = resume_timer refetch (
      set_db (update_room_status RoomStatus.active) (
        set_redis (λ r. record r { host_deadman_token = none; host_deadman_deadline = none })
          (record w { dead_man_timer = none }))) in
    emit (Message.host_resumed (get_remaining_seconds w')) w'

unfoldable pub handle_host_reconnect : ℕ → World → Bool × World
handle_host_reconnect user w = elim w.db.room [
  | none ↦ (Bool.false, w)
  | some room ↦
      if not (room.host_user_id == user)
      then (Bool.false, w)
      else if not (is_waiting room.status)
      then (Bool.false, w)
      else (Bool.true, recover w)
]

-- `handleHostTimeout` once the token is found to be current.
unfoldable pub terminate : World → World
unfolding emit set_redis set_db set_auction_state forget_timer
terminate w = emit Message.auction_terminated (
    log_event BidEvent.auction_completed (
      forget_timer (
        set_auction_state AuctionState.complete (
          set_db (update_room_status RoomStatus.terminated) (
            set_redis (λ r. record r { host_deadman_token = none; host_deadman_deadline = none })
              w)))))

unfoldable pub handle_host_timeout : ℕ → World → World
handle_host_timeout expected w = elim w.redis.host_deadman_token [
  | none ↦ w
  | some current ↦ if current == expected then terminate w else w
]

-- The `setTimeout` of the recovery window.
unfoldable pub fire_dead_man : World → World
fire_dead_man w = elim w.dead_man_timer [
  | none ↦ w
  | some token ↦ handle_host_timeout token (record w { dead_man_timer = none })
]
