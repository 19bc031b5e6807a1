-- ===== src/Client/Feed/Astray.antt =====
-- An absence of the host between two players.
use ipl_auction_app.Base.{ℕ, ◌≡◌, arith, some, []}
use ipl_auction_app.Room.State.{AuctionState, RoomStatus, Room, World}
use ipl_auction_app.Room.Timer.{start_timer, pause_timer, resume_timer, get_remaining_seconds}
use ipl_auction_app.Room.Host.{
  start_recovery, handle_host_disconnect, recover, handle_host_reconnect,
}
use ipl_auction_app.Room.Rows.{update_room_status}
use ipl_auction_app.Client.{AuctionStore}
use ipl_auction_app.Client.Feed.{on_message, play}
use ipl_auction_app.Client.Feed.Live.{absence}

-- In an active room with no seconds remaining: an absence of the host, from the loss of the connection to
-- the return, leaves the room active and Redis in the state waiting_host, while a browser that receives
-- every message in order shows bidding.
pub absence-astray :
    (token t : ℕ) (r : Room) (w : World) (s : AuctionStore)
    → w.db.room ≡ some r
    → r.status ≡ RoomStatus.active
    → w.messages ≡ []
    → get_remaining_seconds w ≡ 0
    → let v = absence token t r.host_user_id w in
      (v.db.room ≡ some r)
      × (v.redis.auction_state ≡ some AuctionState.waiting_host)
      × ((play v.messages s).auction_state ≡ AuctionState.bidding)
unfolding handle_host_disconnect handle_host_reconnect update_room_status recover start_recovery
    pause_timer resume_timer start_timer get_remaining_seconds play on_message
absence-astray token t r w s room active none_yet over =
    ground (arith, room, active, none_yet, over)
