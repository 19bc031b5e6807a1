-- ===== src/Franchise/Laws.antt =====
-- The squad rules as an invariant of the franchise state, and the two ways to compute that state.
use ipl_auction_app.Base.{ℕ, ◌+◌, ◌-◌, ◌*◌, ◌≤◌, ◌≡◌, List, ◌∷◌, ℤ, pos, ◌-ℤ◌, ◌≤ℤ◌, arith}
use ipl_auction_app.Rules.Types.{Player, FranchiseName, FranchiseState}
use ipl_auction_app.Rules.Eligibility.{get_bid_tier}
use ipl_auction_app.Rules.Caps.{IsAllowed}
use ipl_auction_app.Franchise.{initial_state, price_tier, deducted, SquadRow, rebuilt}

-- The squad rules of the tournament, with the purse that the open slots need.
pub record IsLegal (s : FranchiseState) : Type 0 where
  pub size : s.squad_count ≤ 25
  pub top_tier : s.tier25_plus_count ≤ 1
  pub second_tier : s.tier20to25_count ≤ 2
  pub third_tier : s.tier15to20_count ≤ 3
  pub foreign : s.overseas_count ≤ 8
  pub keepers : s.wk_count ≤ 4
  pub purse : pos ((25 - s.squad_count) * 20) ≤ℤ s.wallet_remaining_lakhs
  pub roles : s.batter_count + s.bowler_count + s.all_rounder_count + s.wk_count ≡ s.squad_count

-- Every franchise starts within the rules.
pub initial_state-IsLegal : (f : FranchiseName) → IsLegal (initial_state f)
unfolding initial_state
initial_state-IsLegal f = ground arith

-- A purchase that the rules allow keeps every squad rule: the sizes and caps, a wallet that still
-- pays for the open slots, and role counts that add up to the squad.
pub deducted-IsLegal :
    (s : FranchiseState) (p : Player) (price : ℕ)
    → IsLegal s
    → IsAllowed s p price
    → IsLegal (deducted s price p)
unfolding deducted
deducted-IsLegal s p price l a = ground arith

-- The service sorts a price into the tier by which `canBid` has checked it.
pub price_tier-get_bid_tier : (price : ℕ) → price_tier price ≡ get_bid_tier price
unfolding price_tier get_bid_tier
price_tier-get_bid_tier price = ground arith

-- Rebuilding with one more squad row, and its price off the wallet, is the update that the cache
-- made at the sale.
pub rebuilt-cons :
    (f : FranchiseName) (wallet : ℤ) (r : SquadRow) (rows : List SquadRow)
    → rebuilt f (wallet -ℤ pos r.price_paid_lakhs) (r ∷ rows)
      ≡ deducted (rebuilt f wallet rows) r.price_paid_lakhs r.player
unfolding rebuilt deducted
rebuilt-cons f wallet r rows = ground arith
