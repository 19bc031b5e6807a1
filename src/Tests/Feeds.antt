-- ===== src/Tests/Feeds.antt =====
-- A browser beside the room, and an auction of two players to its end.
use ipl_auction_app.Base.{◌≡◌, refl, arith, Bool, none, some, [], pos}
use ipl_auction_app.Rules.Types.{chennai_super_kings, mumbai_indians}
use ipl_auction_app.Room.State.{AuctionState, Phase, World}
use ipl_auction_app.Room.Wallets.{load_franchise_state}
use ipl_auction_app.Room.Timer.{get_remaining_seconds}
use ipl_auction_app.Room.Bids.{place_bid}
use ipl_auction_app.Client.{AuctionStore, StateSync, sync_state}
use ipl_auction_app.Client.Feed.{play}
use ipl_auction_app.Client.Feed.Live.{
  IsInStep, delivered, absence, here, more, bids, returns, live-IsInStep,
}
use ipl_auction_app.Client.Feed.Astray.{absence-astray}
use ipl_auction_app.Client.Sync.{request_sync, request_sync-IsInStep}
use ipl_auction_app.Tests.Fixtures.{keeper, active_room, open_world, host_bid}

abbrev shown : AuctionStore
shown = record {
  current_player = some keeper;
  current_bid_lakhs = 60;
  current_bidder = some chennai_super_kings;
  seconds_left = 8;
  auction_phase = Phase.marquee;
  auction_state = AuctionState.bidding;
  queue_position = 1;
  queue_total = 2;
  my_franchise_state = none;
  is_host = Bool.false;
  my_franchise = some mumbai_indians;
  bid_history = [];
  squad_summaries = λ f. record { total_players_acquired = 0; wallet_remaining_lakhs = pos 12000 };
  squad_players = λ f. [];
}

shown-IsInStep : IsInStep open_world shown
shown-IsInStep = record { player = refl; bid = refl; bidder = refl; state = refl }

abbrev back : World
back = absence 4 3000 1 open_world

abbrev back_shown : AuctionStore
back_shown = play back.messages shown

abbrev outbid : World
outbid = place_bid 5 host_bid (delivered back)

-- The host is away for two seconds, and then bids.
live-IsInStep_example : IsInStep (delivered outbid) (play outbid.messages back_shown)
unfolding get_remaining_seconds
live-IsInStep_example = live-IsInStep shown-IsInStep refl (
    more (more here (returns 4 3000 active_room open_world refl refl (omega arith)))
      (bids 5 host_bid (delivered back)))

-- The host leaves and returns after the deadline of 9 seconds.
abbrev expired_world : World
expired_world = record open_world { now = 12000 }

absence-astray_example :
    let v = absence 4 20000 1 expired_world in
    (v.db.room ≡ some active_room)
    × (v.redis.auction_state ≡ some AuctionState.waiting_host)
    × ((play v.messages shown).auction_state ≡ AuctionState.bidding)
unfolding get_remaining_seconds
absence-astray_example = absence-astray 4 20000 active_room expired_world shown refl refl refl refl

abbrev empty_screen : AuctionStore
empty_screen = record shown { current_player = none; current_bid_lakhs = 0; current_bidder = none }

request_sync-IsInStep_example :
    (payload : StateSync) × ((request_sync 2 (some mumbai_indians) open_world).0 ≡ some payload)
    × IsInStep (request_sync 2 (some mumbai_indians) open_world).1 (sync_state payload empty_screen)
unfolding request_sync load_franchise_state
request_sync-IsInStep_example =
    request_sync-IsInStep 2 60 (some mumbai_indians) active_room AuctionState.bidding open_world
      empty_screen refl refl refl
