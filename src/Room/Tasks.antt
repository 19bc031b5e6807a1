-- ===== src/Room/Tasks.antt =====
-- The continuations of a room: what runs behind a `sleep`, behind the countdown and the grace period,
-- and the writes of the audit trail that nobody awaits.
use ipl_auction_app.Base.{ℕ, List}
use ipl_auction_app.Rules.Types.{Player}
use ipl_auction_app.Room.State.{
  World, Task, advance, present, start, check_gone, record_sale, record_bid, set_db,
}
use ipl_auction_app.Room.Rows.{record_player_sold}
use ipl_auction_app.Room.Engine.{advance_to_next_player, present_player, start_auction}
use ipl_auction_app.Room.Bids.{record_bid_row}
use ipl_auction_app.Room.Lobby.{check_offline}

-- The shuffles' draws and the players of the database serve a start, the token a recovery window.
unfoldable pub run_task : (ℕ → ℕ → ℕ) → List Player → List Player → ℕ → Task → World → World
unfolding set_db
run_task draw marquees generals token advance w = advance_to_next_player w
run_task draw marquees generals token (present e) w = present_player e w
run_task draw marquees generals token start w = start_auction draw marquees generals w
run_task draw marquees generals token (check_gone user) w = check_offline token user w
run_task draw marquees generals token (record_sale s) w = set_db (record_player_sold s) w
run_task draw marquees generals token (record_bid f player amount) w =
    record_bid_row f player amount w
