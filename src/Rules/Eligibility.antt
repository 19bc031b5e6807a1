-- ===== src/Rules/Eligibility.antt =====
-- packages/shared/src/constants/auction.ts and validators/bidEligibility.ts.
use ipl_auction_app.Base.{
  ℕ, ◌-◌, ◌*◌, ◌&&◌, Bool, true, false, ltb, leb, ℤ, pos, ◌-ℤ◌, ltb_ℤ, if◌then◌else◌,
}
use ipl_auction_app.Rules.Types.{
  Player, PlayerRole, wk, PlayerNationality, overseas, FranchiseState, BidValidationResult, valid,
  invalid, squad_full, wallet_exhausted, tier_25_plus_limit_reached, tier_20_25_limit_reached,
  tier_15_20_limit_reached, overseas_limit_reached, wk_limit_reached, cannot_complete_valid_squad,
}

abbrev pub wallet_total_lakhs : ℕ
wallet_total_lakhs = 12000

abbrev pub squad_max_size : ℕ
squad_max_size = 25

abbrev pub overseas_max : ℕ
overseas_max = 8

abbrev pub wk_max : ℕ
wk_max = 4

abbrev pub tier_25_plus_threshold_lakhs : ℕ
tier_25_plus_threshold_lakhs = 2500

abbrev pub tier_25_plus_max : ℕ
tier_25_plus_max = 1

abbrev pub tier_20_25_upper_lakhs : ℕ
tier_20_25_upper_lakhs = 2499

abbrev pub tier_20_25_lower_lakhs : ℕ
tier_20_25_lower_lakhs = 2000

abbrev pub tier_20_25_max : ℕ
tier_20_25_max = 2

abbrev pub tier_15_20_upper_lakhs : ℕ
tier_15_20_upper_lakhs = 1999

abbrev pub tier_15_20_lower_lakhs : ℕ
tier_15_20_lower_lakhs = 1500

abbrev pub tier_15_20_max : ℕ
tier_15_20_max = 3

-- `minimumBasePriceLakhs` of rule 5.
abbrev pub minimum_base_price_lakhs : ℕ
minimum_base_price_lakhs = 20

pub data BidTier : Type 0 where
  tier25_plus tier20to25 tier15to20 below15 : BidTier

unfoldable pub get_bid_tier : ℕ → BidTier
get_bid_tier amount =
    if leb tier_25_plus_threshold_lakhs amount
    then tier25_plus
    else if leb tier_20_25_lower_lakhs amount && leb amount tier_20_25_upper_lakhs
    then tier20to25
    else if leb tier_15_20_lower_lakhs amount && leb amount tier_15_20_upper_lakhs
    then tier15to20
    else below15

unfoldable pub get_bid_increment : ℕ → ℕ
get_bid_increment current =
    if ltb current 50 then 2 else if ltb current 100 then 5 else if ltb current 200 then 10 else 20

abbrev pub is_tier25_plus : BidTier → Bool
is_tier25_plus tier25_plus = true
is_tier25_plus _ = false

abbrev pub is_tier20to25 : BidTier → Bool
is_tier20to25 tier20to25 = true
is_tier20to25 _ = false

abbrev pub is_tier15to20 : BidTier → Bool
is_tier15to20 tier15to20 = true
is_tier15to20 _ = false

abbrev pub is_overseas : PlayerNationality → Bool
is_overseas overseas = true
is_overseas _ = false

abbrev pub is_wk : PlayerRole → Bool
is_wk wk = true
is_wk _ = false

-- Rule 5, on what the bid leaves.
unfoldable pub complete_squad : ℤ → ℕ → BidValidationResult
complete_squad wallet_after_bid squad_count =
    let remaining_slots = squad_max_size - squad_count - 1 in
    if ltb 0 remaining_slots
      && ltb_ℤ wallet_after_bid (pos (remaining_slots * minimum_base_price_lakhs))
    then invalid cannot_complete_valid_squad
    else valid wallet_after_bid

unfoldable pub can_bid : FranchiseState → Player → ℕ → BidValidationResult
unfolding complete_squad get_bid_tier
can_bid state player amount =
    let tier = get_bid_tier amount in
    if leb squad_max_size state.squad_count
    then invalid squad_full
    else if ltb_ℤ state.wallet_remaining_lakhs (pos amount)
    then invalid wallet_exhausted
    else if is_tier25_plus tier && leb tier_25_plus_max state.tier25_plus_count
    then invalid tier_25_plus_limit_reached
    else if is_tier20to25 tier && leb tier_20_25_max state.tier20to25_count
    then invalid tier_20_25_limit_reached
    else if is_tier15to20 tier && leb tier_15_20_max state.tier15to20_count
    then invalid tier_15_20_limit_reached
    else if is_overseas player.nationality && leb overseas_max state.overseas_count
    then invalid overseas_limit_reached
    else if is_wk player.role && leb wk_max state.wk_count
    then invalid wk_limit_reached
    else complete_squad (state.wallet_remaining_lakhs -ℤ pos amount) state.squad_count
