-- ===== src/Tests/Rooms.antt =====
-- The timer, the host, the queue and the wallets in a room with a keeper on the block.
use ipl_auction_app.Base.{◌+◌, ◌*◌, ◌≡◌, refl, arith, [], none, some, get_elem?}
use ipl_auction_app.Rules.Types.{mumbai_indians, same}
use ipl_auction_app.Franchise.{rebuilt, deducted}
use ipl_auction_app.Room.State.{AuctionState, QueueStatus, Sale, refetch}
use ipl_auction_app.Room.Rows.{record_player_sold, get_room_member_by_franchise, current_position}
use ipl_auction_app.Room.Wallets.{rebuild_franchise_state}
use ipl_auction_app.Room.Wallets.Laws.{rebuild_after_sale}
use ipl_auction_app.Room.Queue.{queue_entries, get_next_player, advance_queue, rebuild_queue}
use ipl_auction_app.Room.Queue.Mirror.{IsMirrored, advance_queue-IsMirrored}
use ipl_auction_app.Room.Queue.Order.{advance_queue-next}
use ipl_auction_app.Room.Timer.{seconds_until, get_remaining_seconds, pause_timer, resume_timer}
use ipl_auction_app.Room.Timer.Laws.{IsRunning, pause-resume}
use ipl_auction_app.Room.Host.{handle_host_reconnect, handle_host_timeout, fire_dead_man}
use ipl_auction_app.Room.Host.Laws.{reconnect-timeout}
use ipl_auction_app.Tests.Fixtures.{
  keeper, ordered, first_entry, host_member, active_room, waiting_room, open_world, waiting_world,
}

open_world-IsRunning : IsRunning open_world
open_world-IsRunning = record { not_paused = refl; not_frozen = refl }

pause-resume_example :
    let p = (pause_timer open_world).1 in
    let later = record p { now = 61000 } in
    let v = resume_timer refetch later in
    (p.timer ≡ none)
    × (p.redis.auction_state ≡ some AuctionState.paused)
    × (get_remaining_seconds later ≡ get_remaining_seconds open_world)
    × (get_remaining_seconds v ≡ get_remaining_seconds open_world)
    × (v.redis.auction_state ≡ some AuctionState.bidding)
    × (v.timer
        ≡ some (record {
          deadline_ms = 61000 + get_remaining_seconds open_world * 1000;
          on_expiry = refetch;
        }))
unfolding get_remaining_seconds seconds_until
pause-resume_example = pause-resume 60000 refetch open_world refl (omega arith)

reconnect-timeout_example :
    let v = (handle_host_reconnect 1 waiting_world).1 in
    (handle_host_timeout 7 v ≡ v) × (fire_dead_man v ≡ v) × (v.db.room ≡ some active_room)
reconnect-timeout_example = reconnect-timeout 7 waiting_room waiting_world refl refl

open_world-IsMirrored : IsMirrored open_world
unfolding rebuild_queue
open_world-IsMirrored = refl

advance_queue-IsMirrored_example : IsMirrored (advance_queue 0 QueueStatus.sold open_world)
advance_queue-IsMirrored_example =
    advance_queue-IsMirrored 0 QueueStatus.sold open_world open_world-IsMirrored

advance_queue-next_example :
    (get_next_player (advance_queue 0 QueueStatus.unsold open_world)).0
    ≡ get_elem? (queue_entries 0 ordered) 1
unfolding queue_entries get_next_player current_position
advance_queue-next_example =
    advance_queue-next ordered first_entry QueueStatus.unsold active_room open_world refl refl refl

abbrev keeper_sale : Sale
keeper_sale = record { room_member_id = 11; player = keeper; price_lakhs = 70 }

rebuild_after_sale_example :
    rebuild_franchise_state mumbai_indians (record_player_sold keeper_sale open_world.db)
    ≡ some (deducted (rebuilt mumbai_indians host_member.wallet_remaining_lakhs []) 70 keeper)
unfolding get_room_member_by_franchise rebuild_franchise_state same
rebuild_after_sale_example =
    rebuild_after_sale mumbai_indians keeper_sale host_member open_world.db refl refl (omega arith)
      (omega arith) refl (rebuilt mumbai_indians host_member.wallet_remaining_lakhs []) refl
