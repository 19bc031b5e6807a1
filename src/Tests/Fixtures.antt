-- ===== src/Tests/Fixtures.antt =====
-- Two users, two franchises and two players.
use ipl_auction_app.Base.{Bool, List, [], ◌∷◌, none, some, pos}
use ipl_auction_app.Rules.Types.{
  mumbai_indians, chennai_super_kings, Player, batter, wk, indian, overseas,
}
use ipl_auction_app.Franchise.{initial_state}
use ipl_auction_app.Room.State.{
  AuctionState, RoomStatus, general, marquee, Phase, QueueStatus, QueueEntry, Redis, Room, Member,
  QueueRow, Db, World,
}
use ipl_auction_app.Room.Bids.{BidRequest}

abbrev pub opener : Player
opener = record {
  id = 1;
  name = "Opener";
  category = "A";
  role = batter;
  nationality = indian;
  is_marquee = Bool.false;
  is_capped = Bool.true;
  base_price_lakhs = 20;
}

abbrev pub keeper : Player
keeper = record {
  id = 2;
  name = "Keeper";
  category = "A";
  role = wk;
  nationality = overseas;
  is_marquee = Bool.true;
  is_capped = Bool.true;
  base_price_lakhs = 50;
}

abbrev pub ordered : List (Player × Phase)
ordered = (keeper, marquee) ∷ (opener, general) ∷ []

abbrev pub first_entry : QueueEntry
first_entry = record { player = keeper; phase = marquee; position = 1 }

abbrev pub second_entry : QueueEntry
second_entry = record { player = opener; phase = general; position = 2 }

abbrev pub queue : List QueueEntry
queue = first_entry ∷ second_entry ∷ []

abbrev pub rows : List QueueRow
rows =
    record { player = keeper; position = 1; phase = marquee; status = QueueStatus.active }
    ∷ record { player = opener; position = 2; phase = general; status = QueueStatus.pending }
    ∷ []

abbrev pub host_member : Member
host_member = record {
  id = 11;
  user_id = 1;
  franchise = some mumbai_indians;
  wallet_remaining_lakhs = pos 12000;
}

abbrev pub guest_member : Member
guest_member = record {
  id = 12;
  user_id = 2;
  franchise = some chennai_super_kings;
  wallet_remaining_lakhs = pos 12000;
}

abbrev pub active_room : Room
active_room = record { host_user_id = 1; status = RoomStatus.active; current_queue_position = 0 }

abbrev pub waiting_room : Room
waiting_room = record {
  host_user_id = 1;
  status = RoomStatus.waiting_host;
  current_queue_position = 0;
}

abbrev pub db_of : Room → Db
db_of r = record {
  room = some r;
  members = host_member ∷ guest_member ∷ [];
  auction_queue = rows;
  squad_players = [];
  bids = [];
  bid_events = [];
}

abbrev pub empty_redis : Redis
empty_redis = record {
  auction_state = none;
  current_player = none;
  current_bid = none;
  current_bidder = none;
  auction_queue = none;
  timer_deadline = none;
  timer_paused = none;
  frozen_time = none;
  bid_lock = none;
  franchise_state = λ f. none;
  host_deadman_token = none;
  host_deadman_deadline = none;
  teardown_lock = λ u. Bool.false;
  presence = λ u. none;
}

-- A room with nothing in Redis yet.
abbrev pub untouched : World
untouched = record {
  redis = empty_redis;
  db = record (db_of active_room) { auction_queue = [] };
  timer = none;
  dead_man_timer = none;
  tasks = [];
  messages = [];
  now = 1000;
}

-- The keeper is on the block with a bid of the guest's.
abbrev pub open_redis : Redis
open_redis = record empty_redis {
  auction_state = some AuctionState.bidding;
  current_player = some keeper;
  current_bid = some 60;
  current_bidder = some chennai_super_kings;
  auction_queue = some queue;
  timer_deadline = some 9000;
  franchise_state = λ f. some (initial_state f);
}

abbrev pub open_world : World
open_world = record untouched { redis = open_redis; db = db_of active_room }

abbrev pub waiting_world : World
waiting_world = record open_world { db = db_of waiting_room }

abbrev pub host_bid : BidRequest
host_bid = record { user_id = 1; franchise = some mumbai_indians; player_id = 2; amount_lakhs = 70 }
