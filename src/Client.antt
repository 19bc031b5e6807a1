-- ===== src/Client.antt =====
-- apps/frontend/src/stores/auctionStore.ts: the browser's copy of the auction and of the user's own
-- franchise.
pub mod Eligibility
pub mod Laws
pub mod Feed
pub mod Sync
pub mod LockerRoom
pub mod BidButton
pub mod Rosters
pub mod Presence
pub mod FranchisePicker
pub mod SignedIn
use ipl_auction_app.Base.{
  ℕ, ◌+◌, ◌==◌, leb, ltb, Bool, not, ◌&&◌, if◌then◌else◌, List, [], ◌∷◌, ◌++◌, Option, none, some,
  ℤ, pos, or_else,
}
use ipl_auction_app.Rules.Types.{
  FranchiseName, same, FranchiseState, Player, BidRejectionReason, BidValidationResult, valid,
  invalid, auction_not_active,
}
use ipl_auction_app.Rules.Eligibility.{
  wallet_total_lakhs, get_bid_increment, can_bid, is_overseas, is_wk,
}
use ipl_auction_app.Franchise.{is_batter, is_bowler, is_all_rounder, bump}
use ipl_auction_app.Room.State.{AuctionState, Phase}

pub record BidHistoryEntry : Type 0 where
  pub bidder : FranchiseName
  pub amount_lakhs : ℕ

pub record SquadSummaryState : Type 0 where
  pub total_players_acquired : ℕ
  pub wallet_remaining_lakhs : ℤ

pub record SquadPlayerState : Type 0 where
  pub player : Player
  pub price_paid_lakhs : ℕ

-- The store's state; the two objects by franchise are functions.
pub record AuctionStore : Type 0 where
  pub current_player : Option Player
  pub current_bid_lakhs : ℕ
  pub current_bidder : Option FranchiseName
  pub seconds_left : ℕ
  pub auction_phase : Phase
  pub auction_state : AuctionState
  pub queue_position : ℕ
  pub queue_total : ℕ
  pub my_franchise_state : Option FranchiseState
  pub is_host : Bool
  pub my_franchise : Option FranchiseName
  pub bid_history : List BidHistoryEntry
  pub squad_summaries : FranchiseName → SquadSummaryState
  pub squad_players : FranchiseName → List SquadPlayerState

unfoldable pub initial_store : AuctionStore
initial_store = record {
  current_player = none;
  current_bid_lakhs = 0;
  current_bidder = none;
  seconds_left = 30;
  auction_phase = Phase.marquee;
  auction_state = AuctionState.idle;
  queue_position = 0;
  queue_total = 0;
  my_franchise_state = none;
  is_host = Bool.false;
  my_franchise = none;
  bid_history = [];
  squad_summaries =
      λ f. record { total_players_acquired = 0; wallet_remaining_lakhs = pos wallet_total_lakhs };
  squad_players = λ f. [];
}

pub record PlayerUpPayload : Type 0 where
  pub player : Player
  pub queue_position : ℕ
  pub queue_total : ℕ
  pub phase : Phase
  pub timer_seconds : ℕ

unfoldable pub set_player_up : PlayerUpPayload → AuctionStore → AuctionStore
set_player_up payload s = record s {
  current_player = some payload.player;
  current_bid_lakhs = 0;
  current_bidder = none;
  seconds_left = payload.timer_seconds;
  queue_position = payload.queue_position;
  queue_total = payload.queue_total;
  auction_phase = payload.phase;
  auction_state = AuctionState.player_up;
  bid_history = [];
}

unfoldable pub update_bid : ℕ → FranchiseName → AuctionStore → AuctionStore
update_bid new_bid new_bidder s = record s {
  current_bid_lakhs = new_bid;
  current_bidder = some new_bidder;
  auction_state = AuctionState.bidding;
  bid_history = record { bidder = new_bidder; amount_lakhs = new_bid } ∷ s.bid_history;
}

unfoldable pub set_is_host : Bool → AuctionStore → AuctionStore
set_is_host is_host s = record s { is_host = is_host }

unfoldable pub set_my_franchise : Option FranchiseName → AuctionStore → AuctionStore
set_my_franchise f s = record s { my_franchise = f }

unfoldable pub set_timer_tick : ℕ → AuctionStore → AuctionStore
set_timer_tick seconds s = record s { seconds_left = seconds }

unfoldable pub set_squad_players :
    (FranchiseName → List SquadPlayerState) → AuctionStore → AuctionStore
set_squad_players squads s = record s { squad_players = squads }

unfoldable pub reset_store : AuctionStore → AuctionStore
unfolding initial_store
reset_store s = initial_store

-- What `markPlayerSold` reads of the payload.
pub record PlayerSoldPayload : Type 0 where
  pub player : Player
  pub winning_franchise : Option FranchiseName
  pub final_price_lakhs : ℕ
  pub updated_squad : SquadSummaryState

abbrev pub is_winner : FranchiseName → Option FranchiseName → Bool
is_winner f none = Bool.false
is_winner f (some g) = same f g

-- The user's own franchise state after a sale to it.
unfoldable pub won : PlayerSoldPayload → FranchiseState → FranchiseState
won payload mine = record {
  franchise = mine.franchise;
  wallet_remaining_lakhs = payload.updated_squad.wallet_remaining_lakhs;
  squad_count = payload.updated_squad.total_players_acquired;
  tier25_plus_count = bump (leb 2500 payload.final_price_lakhs) mine.tier25_plus_count;
  tier20to25_count =
      bump (leb 2000 payload.final_price_lakhs && ltb payload.final_price_lakhs 2500)
        mine.tier20to25_count;
  tier15to20_count =
      bump (leb 1500 payload.final_price_lakhs && ltb payload.final_price_lakhs 2000)
        mine.tier15to20_count;
  overseas_count = bump (is_overseas payload.player.nationality) mine.overseas_count;
  uncapped_count = bump (not payload.player.is_capped) mine.uncapped_count;
  wk_count = bump (is_wk payload.player.role) mine.wk_count;
  batter_count = bump (is_batter payload.player.role) mine.batter_count;
  bowler_count = bump (is_bowler payload.player.role) mine.bowler_count;
  all_rounder_count = bump (is_all_rounder payload.player.role) mine.all_rounder_count;
}

mine_after : PlayerSoldPayload → Option FranchiseState → Option FranchiseState
unfolding won
mine_after payload none = none
mine_after payload (some mine) =
    if is_winner mine.franchise payload.winning_franchise
    then some (won payload mine)
    else some mine

unfoldable pub mark_player_sold : PlayerSoldPayload → AuctionStore → AuctionStore
unfolding mine_after
mark_player_sold payload s = record s {
  auction_state = AuctionState.sold;
  squad_summaries = λ f.
      if is_winner f payload.winning_franchise then payload.updated_squad else s.squad_summaries f;
  squad_players = λ f.
      if is_winner f payload.winning_franchise
      then s.squad_players f
        ++ record { player = payload.player; price_paid_lakhs = payload.final_price_lakhs } ∷ []
      else s.squad_players f;
  my_franchise_state = mine_after payload s.my_franchise_state;
}

unfoldable pub mark_player_unsold : AuctionStore → AuctionStore
mark_player_unsold s = record s { auction_state = AuctionState.unsold }

unfoldable pub mark_auction_complete : AuctionStore → AuctionStore
mark_auction_complete s = record s {
  auction_state = AuctionState.complete;
  current_player = none;
  seconds_left = 0;
}

unfoldable pub set_auction_paused : ℕ → AuctionStore → AuctionStore
set_auction_paused seconds s = record s {
  auction_state = AuctionState.paused;
  seconds_left = seconds;
}

unfoldable pub set_auction_resumed : ℕ → AuctionStore → AuctionStore
set_auction_resumed seconds s = record s {
  auction_state = AuctionState.bidding;
  seconds_left = seconds;
}

-- `StateSyncPayload`.
pub record StateSync : Type 0 where
  pub current_player : Option Player
  pub current_bid_lakhs : ℕ
  pub current_bidder : Option FranchiseName
  pub seconds_left : ℕ
  pub auction_phase : Phase
  pub auction_state : AuctionState
  pub my_franchise_state : Option FranchiseState
  pub queue_position : ℕ
  pub queue_total : ℕ

summary_of : FranchiseState → SquadSummaryState
summary_of mine = record {
  total_players_acquired = mine.squad_count;
  wallet_remaining_lakhs = mine.wallet_remaining_lakhs;
}

synced :
    Option FranchiseState → (FranchiseName → SquadSummaryState) → FranchiseName → SquadSummaryState
unfolding summary_of
synced none summaries f = summaries f
synced (some mine) summaries f = if same f mine.franchise then summary_of mine else summaries f

synced_franchise : Option FranchiseState → Option FranchiseName → Option FranchiseName
synced_franchise none f = f
synced_franchise (some mine) f = some mine.franchise

unfoldable pub sync_state : StateSync → AuctionStore → AuctionStore
unfolding synced synced_franchise
sync_state payload s = record s {
  current_player = payload.current_player;
  current_bid_lakhs = payload.current_bid_lakhs;
  current_bidder = payload.current_bidder;
  seconds_left = payload.seconds_left;
  auction_phase = payload.auction_phase;
  auction_state = payload.auction_state;
  my_franchise_state = payload.my_franchise_state;
  my_franchise = synced_franchise payload.my_franchise_state s.my_franchise;
  queue_position = payload.queue_position;
  queue_total = payload.queue_total;
  squad_summaries = synced payload.my_franchise_state s.squad_summaries;
}
