-- ===== src/Tests/Rules.antt =====
-- The squad rules at concrete states.
use ipl_auction_app.Base.{◌≡◌, refl, ◌↔◌, pos, ◌-ℤ◌}
use ipl_auction_app.Rules.Types.{mumbai_indians, wallet_exhausted, valid}
use ipl_auction_app.Rules.Eligibility.{can_bid}
use ipl_auction_app.Rules.Caps.{IsAllowed, HasSlot, HasFunds, can_bid_iff, can_bid-Refused}
use ipl_auction_app.Franchise.{initial_state}
use ipl_auction_app.Tests.Fixtures.{opener, keeper}

can_bid_iff_example : (can_bid (initial_state mumbai_indians) keeper 2600 ≡ valid (pos 9400)) ↔ (
    IsAllowed (initial_state mumbai_indians) keeper 2600
    × (pos 9400 ≡ (initial_state mumbai_indians).wallet_remaining_lakhs -ℤ pos 2600))
can_bid_iff_example = can_bid_iff (initial_state mumbai_indians) keeper 2600 (pos 9400)

can_bid-Refused_example :
    HasSlot (initial_state mumbai_indians) × ¬ HasFunds (initial_state mumbai_indians) 12001
unfolding can_bid initial_state
can_bid-Refused_example =
    can_bid-Refused (initial_state mumbai_indians) opener 12001 wallet_exhausted refl
