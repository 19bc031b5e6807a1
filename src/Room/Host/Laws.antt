-- ===== src/Room/Host/Laws.antt =====
-- The dead man's switch: its races, and who may use the controls.
use ipl_auction_app.Base.{ℕ, ◌+◌, ◌≡◌, ◌≢◌, none, some, arith}
use ipl_auction_app.Room.State.{AuctionState, RoomStatus, Room, World, Message, emit}
use ipl_auction_app.Room.Rows.{update_room_status}
use ipl_auction_app.Room.Timer.{pause_timer, resume_timer}
use ipl_auction_app.Room.Host.{
  HostAction, host_control, handle_host_disconnect, start_recovery, handle_host_reconnect, recover,
  handle_host_timeout, fire_dead_man,
}

-- A control by anyone but the room's host sends an error message, and nothing else happens.
pub host_control-guest :
    (user : ℕ) (a : HostAction) (r : Room) (w : World)
    → w.db.room ≡ some r
    → r.host_user_id ≢ user
    → host_control user a w ≡ emit Message.room_error w
unfolding host_control
host_control-guest user a r w e h = ground arith

-- When the host of an active room is lost, the room waits: its timer is off, the status and the
-- auction's state say so, and a token and a deadline a minute ahead are stored.
pub disconnect-waits :
    (token : ℕ) (r : Room) (w : World)
    → w.db.room ≡ some r
    → r.status ≡ RoomStatus.active
    → let v = handle_host_disconnect token r.host_user_id w in
      (v.timer ≡ none)
      × (v.redis.auction_state ≡ some AuctionState.waiting_host)
      × (v.redis.host_deadman_token ≡ some token)
      × (v.redis.host_deadman_deadline ≡ some (w.now + 60000))
      × (v.dead_man_timer ≡ some token)
      × (v.db.room ≡ some (record r { status = RoomStatus.waiting_host }))
unfolding handle_host_disconnect start_recovery pause_timer update_room_status
disconnect-waits token r w e a = ground arith

-- The timeout of a recovery window whose token is not the stored one changes nothing.
pub timeout-stale :
    (token : ℕ) (w : World)
    → w.redis.host_deadman_token ≢ some token
    → handle_host_timeout token w ≡ w
unfolding handle_host_timeout
timeout-stale token w h = ground arith

-- When the host returns to a room that waits for it, the room is active again, and the timeout of any
-- window and the dead man's timer change nothing.
pub reconnect-timeout :
    (token : ℕ) (r : Room) (w : World)
    → w.db.room ≡ some r
    → r.status ≡ RoomStatus.waiting_host
    → let v = (handle_host_reconnect r.host_user_id w).1 in
      (handle_host_timeout token v ≡ v)
      × (fire_dead_man v ≡ v)
      × (v.db.room ≡ some (record r { status = RoomStatus.active }))
unfolding handle_host_reconnect recover resume_timer handle_host_timeout fire_dead_man
    update_room_status
reconnect-timeout token r w e a = ground arith
