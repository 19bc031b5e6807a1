-- ===== src/Rules/Types.antt =====
-- packages/shared/src/types: player.types.ts, squad.types.ts, bid.types.ts and room.types.ts.
use ipl_auction_app.Base.{ℕ, ℤ, ◌≡◌, Bool, String, ◌==◌, arith, true}

pub data FranchiseName : Type 0 where
  mumbai_indians chennai_super_kings royal_challengers_bengaluru kolkata_knight_riders
        sunrisers_hyderabad delhi_capitals rajasthan_royals punjab_kings lucknow_super_giants
        gujarat_titans :
      FranchiseName

-- The place of a name in the source's union, by which names are compared.
code : FranchiseName → ℕ
code mumbai_indians = 0
code chennai_super_kings = 1
code royal_challengers_bengaluru = 2
code kolkata_knight_riders = 3
code sunrisers_hyderabad = 4
code delhi_capitals = 5
code rajasthan_royals = 6
code punjab_kings = 7
code lucknow_super_giants = 8
code gujarat_titans = 9

-- `===` on franchise names.
unfoldable pub same : FranchiseName → FranchiseName → Bool
unfolding code
same f g = code f == code g

pub same_refl : (f : FranchiseName) → same f f ≡ true
unfolding same
same_refl f = ground arith

pub same_comm : (f g : FranchiseName) → same f g ≡ same g f
unfolding same
same_comm f g = ground arith

pub data PlayerRole : Type 0 where
  batter pacer spinner allrounder wk : PlayerRole

pub data PlayerNationality : Type 0 where
  indian overseas : PlayerNationality

pub record Player : Type 0 where
  pub id : ℕ
  pub name : String
  pub category : String
  pub role : PlayerRole
  pub nationality : PlayerNationality
  pub is_marquee : Bool
  pub is_capped : Bool
  pub base_price_lakhs : ℕ

pub record FranchiseState : Type 0 where
  pub franchise : FranchiseName
  pub wallet_remaining_lakhs : ℤ
  pub squad_count : ℕ
  pub tier25_plus_count : ℕ
  pub tier20to25_count : ℕ
  pub tier15to20_count : ℕ
  pub overseas_count : ℕ
  pub uncapped_count : ℕ
  pub wk_count : ℕ
  pub batter_count : ℕ
  pub bowler_count : ℕ
  pub all_rounder_count : ℕ

pub data BidRejectionReason : Type 0 where
  wallet_exhausted tier_25_plus_limit_reached tier_20_25_limit_reached tier_15_20_limit_reached
        overseas_limit_reached squad_full wk_limit_reached cannot_complete_valid_squad bid_too_low
        auction_not_active rate_limited :
      BidRejectionReason

-- `{ valid: true, remainingAfterBid }` or `{ valid: false, reason }`.
pub data BidValidationResult : Type 0 where
  valid : ℤ → BidValidationResult
  invalid : BidRejectionReason → BidValidationResult
