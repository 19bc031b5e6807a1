-- ===== src/Tests/Pages.antt =====
-- A lobby, its page, its grid of franchises and the bid button.
use ipl_auction_app.Base.{
  ℕ, ℤ, ◌≡◌, ◌↔◌, refl, ap, eq_of_some, ◌==◌, if◌then◌else◌, arith, true, false, [], ◌∷◌, map,
  get_elem?, none, some,
}
use ipl_auction_app.Rules.Types.{mumbai_indians, chennai_super_kings, punjab_kings, same, valid}
use ipl_auction_app.Rules.Eligibility.{can_bid, get_bid_increment}
use ipl_auction_app.Franchise.{initial_state}
use ipl_auction_app.Room.State.{
  AuctionState, RoomStatus, Room, Member, Db, World, Task, Message, emit,
}
use ipl_auction_app.Room.Rows.{claim}
use ipl_auction_app.Room.Bids.{validate_bid}
use ipl_auction_app.Room.Lobby.{request_start, select_franchise}
use ipl_auction_app.Invites.Routes.{participant}
use ipl_auction_app.Client.{AuctionStore, initial_store}
use ipl_auction_app.Client.Eligibility.{bid_eligibility, next_bid_amount}
use ipl_auction_app.Client.BidButton.{
  BidButton, handle_click, is_highest_bidder, handle_click-validate_bid, Click, sent_times,
  spaced_from, sent_times-spaced,
}
use ipl_auction_app.Client.LockerRoom.{LobbyPage, can_start}
use ipl_auction_app.Client.LockerRoom.Follows.{Shows, enters, departs, watch, watch-Shows}
use ipl_auction_app.Client.LockerRoom.Starting.{can_start-accepted}
use ipl_auction_app.Client.FranchisePicker.{FranchisePage, click_franchise}
use ipl_auction_app.Client.FranchisePicker.Claims.{click_franchise-select}
use ipl_auction_app.Players.Grid.{Floats, Row, GridPlayer, grid_player, parse_rows}
use ipl_auction_app.Players.Grid.Sections.{IsListed, parse_rows_iff}
use ipl_auction_app.Tests.Fixtures.{
  keeper, host_member, guest_member, db_of, open_redis, open_world,
}

abbrev lobby_room : Room
lobby_room = record { host_user_id = 1; status = RoomStatus.lobby; current_queue_position = 0 }

abbrev lobby_world : World
lobby_world = record open_world { db = db_of lobby_room }

abbrev lobby_page : LobbyPage
lobby_page = record {
  host_user_id = 1;
  participants = map (participant 1) (host_member ∷ guest_member ∷ []);
  ready_map = λ u. none;
  is_starting = false;
  countdown = none;
  interval_seconds = none;
  has_error = false;
  has_moved_on = false;
}

lobby_page-Shows : Shows lobby_page lobby_world
lobby_page-Shows r h = (
  ap (λ (x : Room). x.host_user_id) (eq_of_some h),
  ap (λ (x : Room). map (participant x.host_user_id) (host_member ∷ guest_member ∷ []))
      (eq_of_some h),
)

-- The host leaves.
watch-Shows_example :
    let v = watch (enters 2 ∷ departs 7 1 ∷ []) lobby_world lobby_page in Shows v.1 v.0
watch-Shows_example =
    watch-Shows (enters 2 ∷ departs 7 1 ∷ []) lobby_world lobby_page (lobby_room, refl, refl)
      lobby_page-Shows

can_start-accepted_example :
    let v = request_start 1 lobby_world in
    (v.db.room ≡ some (record lobby_room { status = RoomStatus.active }))
    × (v.messages ≡ Message.auction_starting ∷ [])
    × (v.tasks ≡ Task.start ∷ [])
unfolding can_start
can_start-accepted_example =
    can_start-accepted 1 lobby_room lobby_page lobby_world refl refl lobby_page-Shows refl

abbrev newcomer_member : Member
newcomer_member = record guest_member { franchise = none }

abbrev newcomer_db : Db
newcomer_db = record (db_of lobby_room) { members = host_member ∷ newcomer_member ∷ [] }

abbrev picker_page : FranchisePage
picker_page = record {
  participants = map (participant 1) newcomer_db.members;
  is_pending = false;
  is_locking = false;
  has_error = false;
  has_moved_on = false;
}

abbrev newcomer_world : World
newcomer_world = record lobby_world { db = newcomer_db }

click_franchise-select_example :
    ((click_franchise 2 true punjab_kings picker_page).0 ≡ true
      → select_franchise 2 punjab_kings newcomer_world
        ≡ emit (Message.franchise_claimed 2 punjab_kings) (record newcomer_world {
          db = record newcomer_db { members = claim 2 punjab_kings newcomer_db.members };
        }))
    × ((click_franchise 2 true punjab_kings picker_page).0 ≡ false
        → select_franchise 2 punjab_kings newcomer_world
          ≡ emit Message.franchise_claimed_error newcomer_world)
click_franchise-select_example =
    click_franchise-select 2 1 punjab_kings newcomer_member lobby_room picker_page newcomer_world
      refl refl refl refl refl refl (omega arith)

abbrev bidding_store : AuctionStore
bidding_store = record initial_store {
  current_player = some keeper;
  current_bid_lakhs = 60;
  current_bidder = some chennai_super_kings;
  auction_state = AuctionState.bidding;
  my_franchise_state = some (initial_state mumbai_indians);
}

abbrev idle_button : BidButton
idle_button = record { throttled_until = none }

handle_click-validate_bid_example :
    (◌≡◌ {A = ℕ} 2 keeper.id)
    × (is_highest_bidder bidding_store ≡ false)
    × ((rest : ℤ) × (validate_bid 2 65 (initial_state mumbai_indians) keeper open_redis
          ≡ valid rest))
unfolding handle_click bid_eligibility can_bid initial_state next_bid_amount get_bid_increment same
handle_click-validate_bid_example =
    handle_click-validate_bid 1000 bidding_store idle_button open_redis keeper
      (initial_state mumbai_indians) 2 65 (record { bid = refl; state = refl }) refl refl
      (omega arith) (λ h. omega arith) refl

-- Every price is 20.
abbrev plain_floats : Floats
plain_floats = record {
  Float = ℕ;
  parse_float = λ t. 20;
  is_nan = λ x. false;
  hundredfold = λ x. x;
  below_ten = λ x. false;
  whole = λ n. n;
}

-- "wicket" in the name column heads the name below it.
abbrev head_row : Row
head_row key = if key == 0 then some (119 ∷ 105 ∷ 99 ∷ 107 ∷ 101 ∷ 116 ∷ []) else none

abbrev name_row : Row
name_row key = if key == 0 then some (65 ∷ 98 ∷ []) else none

abbrev al_player : GridPlayer ℕ
al_player = grid_player plain_floats (119 ∷ 105 ∷ 99 ∷ 107 ∷ 101 ∷ 116 ∷ []) (65 ∷ 98 ∷ []) []

parse_rows_iff_example :
    ((i : ℕ) × (get_elem? (parse_rows plain_floats 0 1 [] (head_row ∷ name_row ∷ [])) i
        ≡ some al_player))
    ↔ IsListed plain_floats 0 1 [] (head_row ∷ name_row ∷ []) al_player
parse_rows_iff_example = parse_rows_iff plain_floats 0 1 (head_row ∷ name_row ∷ []) al_player

abbrev click_at : ℕ → Click
click_at now = record { now = now; is_connected = true; store = bidding_store }

sent_times-spaced_example :
    spaced_from 0 (sent_times (click_at 0 ∷ click_at 200 ∷ click_at 400 ∷ []) idle_button) ≡ true
sent_times-spaced_example =
    sent_times-spaced (click_at 0 ∷ click_at 200 ∷ click_at 400 ∷ []) idle_button
