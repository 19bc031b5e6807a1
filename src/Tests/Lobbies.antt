-- ===== src/Tests/Lobbies.antt =====
-- Members, the teardown and the browser at concrete rooms.
use ipl_auction_app.Base.{◌≡◌, refl, arith, some, pos}
use ipl_auction_app.Rules.Types.{mumbai_indians, chennai_super_kings, same}
use ipl_auction_app.Franchise.{initial_state, deducted}
use ipl_auction_app.Room.State.{AuctionState}
use ipl_auction_app.Room.Rows.{remove_member_from_room, remove_found}
use ipl_auction_app.Room.Lobby.Members.{IsOrdered, start, more, leaves, members-IsOrdered}
use ipl_auction_app.Client.{AuctionStore, initial_store, PlayerSoldPayload, mark_player_sold}
use ipl_auction_app.Client.Laws.{mark_player_sold-deducted}
use ipl_auction_app.Tests.Fixtures.{keeper, open_world}

open_world-IsOrdered : IsOrdered open_world.db
unfolding same
open_world-IsOrdered = record {
  roster = record { users = λ u. ground arith; teams = λ f. ground arith };
  hosted = λ r e. ground (arith, e);
}

members-IsOrdered_example : IsOrdered (remove_member_from_room 2 open_world.db).1
unfolding remove_member_from_room remove_found
members-IsOrdered_example =
    members-IsOrdered {db = open_world.db} open_world-IsOrdered
      (more start (leaves 2 open_world.db (λ h. ground (arith, h))))

abbrev bidding_store : AuctionStore
bidding_store = record initial_store {
  current_player = some keeper;
  current_bid_lakhs = 60;
  current_bidder = some chennai_super_kings;
  auction_state = AuctionState.bidding;
  my_franchise_state = some (initial_state mumbai_indians);
}

abbrev keeper_payload : PlayerSoldPayload
keeper_payload = record {
  player = keeper;
  winning_franchise = some mumbai_indians;
  final_price_lakhs = 65;
  updated_squad = record { total_players_acquired = 1; wallet_remaining_lakhs = pos 11935 };
}

mark_player_sold-deducted_example :
    (mark_player_sold keeper_payload bidding_store).my_franchise_state
    ≡ some (deducted (initial_state mumbai_indians) 65 keeper)
unfolding initial_state deducted
mark_player_sold-deducted_example =
    mark_player_sold-deducted keeper_payload (initial_state mumbai_indians) bidding_store refl refl
      refl
