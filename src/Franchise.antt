-- ===== src/Franchise.antt =====
-- The pure part of apps/backend/src/services/franchiseStateService.ts: the state that a franchise
-- starts from, its update when a player is won, and its reconstruction from the squad rows.
-- The reads and writes of Redis and PostgreSQL around it are in Room/Wallets.antt.
pub mod Laws
use ipl_auction_app.Base.{
  ℕ, ◌+◌, Bool, not, ◌&&◌, ◌||◌, leb, ltb, List, length, count, ℤ, pos, ◌-ℤ◌, if◌then◌else◌,
}
use ipl_auction_app.Rules.Types.{
  FranchiseName, FranchiseState, Player, PlayerRole, batter, pacer, spinner, allrounder, wk,
}
use ipl_auction_app.Rules.Eligibility.{
  wallet_total_lakhs, BidTier, tier25_plus, tier20to25, tier15to20, below15, is_tier25_plus,
  is_tier20to25, is_tier15to20, is_overseas, is_wk,
}

abbrev pub is_batter : PlayerRole → Bool
is_batter batter = Bool.true
is_batter _ = Bool.false

abbrev pub is_bowler : PlayerRole → Bool
is_bowler pacer = Bool.true
is_bowler spinner = Bool.true
is_bowler _ = Bool.false

abbrev pub is_all_rounder : PlayerRole → Bool
is_all_rounder allrounder = Bool.true
is_all_rounder _ = Bool.false

unfoldable pub initial_state : FranchiseName → FranchiseState
initial_state name = record {
  franchise = name;
  wallet_remaining_lakhs = pos wallet_total_lakhs;
  squad_count = 0;
  tier25_plus_count = 0;
  tier20to25_count = 0;
  tier15to20_count = 0;
  overseas_count = 0;
  uncapped_count = 0;
  wk_count = 0;
  batter_count = 0;
  bowler_count = 0;
  all_rounder_count = 0;
}

-- The tier of a winning price, by `deductFromFranchiseState`'s own tests.
unfoldable pub price_tier : ℕ → BidTier
price_tier price =
    if leb 2500 price
    then tier25_plus
    else if leb 2000 price
    then tier20to25
    else if leb 1500 price
    then tier15to20
    else below15

-- `cond ? n + 1 : n`.
abbrev pub bump : Bool → ℕ → ℕ
bump c n = if c then n + 1 else n

-- `updated` of `deductFromFranchiseState`.
unfoldable pub deducted : FranchiseState → ℕ → Player → FranchiseState
unfolding price_tier
deducted current price player = record {
  franchise = current.franchise;
  wallet_remaining_lakhs = current.wallet_remaining_lakhs -ℤ pos price;
  squad_count = current.squad_count + 1;
  tier25_plus_count = bump (is_tier25_plus (price_tier price)) current.tier25_plus_count;
  tier20to25_count = bump (is_tier20to25 (price_tier price)) current.tier20to25_count;
  tier15to20_count = bump (is_tier15to20 (price_tier price)) current.tier15to20_count;
  overseas_count = bump (is_overseas player.nationality) current.overseas_count;
  uncapped_count = bump (not player.is_capped) current.uncapped_count;
  wk_count = bump (is_wk player.role) current.wk_count;
  batter_count = bump (is_batter player.role) current.batter_count;
  bowler_count = bump (is_bowler player.role) current.bowler_count;
  all_rounder_count = bump (is_all_rounder player.role) current.all_rounder_count;
}

-- A row of `squad_players` joined with its player.
pub record SquadRow : Type 0 where
  pub room_member_id : ℕ
  pub player : Player
  pub price_paid_lakhs : ℕ

-- The state that `rebuildFranchiseStateFromDB` computes from a member's wallet and squad rows.
unfoldable pub rebuilt : FranchiseName → ℤ → List SquadRow → FranchiseState
rebuilt name wallet rows = record {
  franchise = name;
  wallet_remaining_lakhs = wallet;
  squad_count = length rows;
  tier25_plus_count = count (λ r. leb 2500 r.price_paid_lakhs) rows;
  tier20to25_count = count (λ r. leb 2000 r.price_paid_lakhs && ltb r.price_paid_lakhs 2500) rows;
  tier15to20_count = count (λ r. leb 1500 r.price_paid_lakhs && ltb r.price_paid_lakhs 2000) rows;
  overseas_count = count (λ r. is_overseas r.player.nationality) rows;
  uncapped_count = count (λ r. not r.player.is_capped) rows;
  wk_count = count (λ r. is_wk r.player.role) rows;
  batter_count = count (λ r. is_batter r.player.role) rows;
  bowler_count = count (λ r. is_bowler r.player.role) rows;
  all_rounder_count = count (λ r. is_all_rounder r.player.role) rows;
}
