-- ===== src/Client/Feed.antt =====
-- apps/frontend/src/hooks/useAuction.ts: the server's messages played into the store.
pub mod Live
pub mod Astray
use ipl_auction_app.Base.{ℕ, Option, none, some, List, [], ◌∷◌}
use ipl_auction_app.Room.State.{Message, World}
use ipl_auction_app.Client.{
  AuctionStore, set_player_up, update_bid, set_timer_tick, mark_player_sold, mark_player_unsold,
  mark_auction_complete, set_auction_paused, set_auction_resumed,
}

-- The listeners; the other messages have none here. Both resumptions are `auction:resumed`, that of the
-- timer and that of the host's return.
unfoldable pub on_message : Message → AuctionStore → AuctionStore
unfolding set_player_up update_bid set_timer_tick mark_player_sold mark_player_unsold
    mark_auction_complete set_auction_paused set_auction_resumed
on_message (Message.player_up p position total phase seconds) = set_player_up (record {
  player = p;
  queue_position = position;
  queue_total = total;
  phase = phase;
  timer_seconds = seconds;
})
on_message (Message.bid_update player amount f) = update_bid amount f
on_message (Message.timer_tick seconds) = set_timer_tick seconds
on_message (Message.player_sold p price f count wallet) = mark_player_sold (record {
  player = p;
  winning_franchise = some f;
  final_price_lakhs = price;
  updated_squad = record { total_players_acquired = count; wallet_remaining_lakhs = wallet };
})
on_message (Message.player_unsold p) = mark_player_unsold
on_message (Message.auction_complete states) = mark_auction_complete
on_message (Message.auction_paused seconds) = set_auction_paused seconds
on_message (Message.auction_resumed seconds) = set_auction_resumed seconds
on_message (Message.host_resumed seconds) = set_auction_resumed seconds
on_message (Message.auction_extended seconds) = set_timer_tick seconds
on_message _ = λ s. s

-- The newest message stands first.
unfoldable pub play : List Message → AuctionStore → AuctionStore
unfolding on_message
play [] s = s
play (m ∷ ms) s = on_message m (play ms s)
