-- ===== src/Rules/Caps.antt =====
-- What `canBid` promises, stated by the rules of the tournament.
use ipl_auction_app.Base.{ℕ, ◌+◌, ◌-◌, ◌*◌, ◌≤◌, ◌<◌, ◌≡◌, ◌↔◌, ℤ, pos, ◌-ℤ◌, ◌≤ℤ◌, arith}
use ipl_auction_app.Rules.Types.{
  Player, wk, overseas, FranchiseState, BidRejectionReason, valid, invalid, squad_full,
  wallet_exhausted, tier_25_plus_limit_reached, tier_20_25_limit_reached, tier_15_20_limit_reached,
  overseas_limit_reached, wk_limit_reached, cannot_complete_valid_squad,
}
use ipl_auction_app.Rules.Eligibility.{can_bid}

-- Each rule on its own, at a purchase for `amount`.
abbrev pub HasSlot : FranchiseState → Type 0
HasSlot s = s.squad_count < 25

abbrev pub HasFunds : FranchiseState → ℕ → Type 0
HasFunds s amount = pos amount ≤ℤ s.wallet_remaining_lakhs

abbrev pub WithinTopTier : FranchiseState → ℕ → Type 0
WithinTopTier s amount = 2500 ≤ amount → s.tier25_plus_count < 1

abbrev pub WithinSecondTier : FranchiseState → ℕ → Type 0
WithinSecondTier s amount = 2000 ≤ amount → amount < 2500 → s.tier20to25_count < 2

abbrev pub WithinThirdTier : FranchiseState → ℕ → Type 0
WithinThirdTier s amount = 1500 ≤ amount → amount < 2000 → s.tier15to20_count < 3

abbrev pub WithinOverseas : FranchiseState → Player → Type 0
WithinOverseas s p = p.nationality ≡ overseas → s.overseas_count < 8

abbrev pub WithinKeepers : FranchiseState → Player → Type 0
WithinKeepers s p = p.role ≡ wk → s.wk_count < 4

-- What is left buys a player at 20 lakhs for every slot that stays open.
abbrev pub KeepsReserve : FranchiseState → ℕ → Type 0
KeepsReserve s amount = pos (amount + (24 - s.squad_count) * 20) ≤ℤ s.wallet_remaining_lakhs

pub record IsAllowed (s : FranchiseState) (p : Player) (amount : ℕ) : Type 0 where
  pub slot : HasSlot s
  pub funds : HasFunds s amount
  pub top_tier : WithinTopTier s amount
  pub second_tier : WithinSecondTier s amount
  pub third_tier : WithinThirdTier s amount
  pub foreign : WithinOverseas s p
  pub keeper : WithinKeepers s p
  pub reserve : KeepsReserve s amount

pub can_bid-IsAllowed :
    (s : FranchiseState) (p : Player) (amount : ℕ) {rest : ℤ}
    → can_bid s p amount ≡ valid rest
    → IsAllowed s p amount
unfolding can_bid
can_bid-IsAllowed s p amount h = ground arith

pub can_bid_of_IsAllowed :
    (s : FranchiseState) (p : Player) (amount : ℕ)
    → IsAllowed s p amount
    → can_bid s p amount ≡ valid (s.wallet_remaining_lakhs -ℤ pos amount)
unfolding can_bid
can_bid_of_IsAllowed s p amount h = ground arith

-- `canBid` accepts a bid exactly when the purchase satisfies every rule, and then reports the
-- wallet less the amount.
pub can_bid_iff :
    (s : FranchiseState) (p : Player) (amount : ℕ) (rest : ℤ)
    → (can_bid s p amount ≡ valid rest)
      ↔ (IsAllowed s p amount × (rest ≡ s.wallet_remaining_lakhs -ℤ pos amount))
can_bid_iff s p amount rest = (
  λ h. (
    can_bid-IsAllowed s p amount h,
    cc (can_bid_of_IsAllowed s p amount (can_bid-IsAllowed s p amount h)),
  ),
  λ h. cc (can_bid_of_IsAllowed s p amount h.0, h.1),
)

-- Why a bid is refused: the rule that the reason names is broken, and those before it hold.
abbrev pub Refused : FranchiseState → Player → ℕ → BidRejectionReason → Type 0
Refused s p a squad_full = ¬ HasSlot s
Refused s p a wallet_exhausted = HasSlot s × ¬ HasFunds s a
Refused s p a tier_25_plus_limit_reached =
    HasSlot s × HasFunds s a × (2500 ≤ a) × (1 ≤ s.tier25_plus_count)
Refused s p a tier_20_25_limit_reached =
    HasSlot s × HasFunds s a × (2000 ≤ a) × (a < 2500) × (2 ≤ s.tier20to25_count)
Refused s p a tier_15_20_limit_reached =
    HasSlot s × HasFunds s a × (1500 ≤ a) × (a < 2000) × (3 ≤ s.tier15to20_count)
Refused s p a overseas_limit_reached =
    HasSlot s
    × HasFunds s a
    × WithinTopTier s a
    × WithinSecondTier s a
    × WithinThirdTier s a
    × (p.nationality ≡ overseas)
    × (8 ≤ s.overseas_count)
Refused s p a wk_limit_reached =
    HasSlot s
    × HasFunds s a
    × WithinTopTier s a
    × WithinSecondTier s a
    × WithinThirdTier s a
    × WithinOverseas s p
    × (p.role ≡ wk)
    × (4 ≤ s.wk_count)
Refused s p a cannot_complete_valid_squad =
    HasSlot s
    × HasFunds s a
    × WithinTopTier s a
    × WithinSecondTier s a
    × WithinThirdTier s a
    × WithinOverseas s p
    × WithinKeepers s p
    × ¬ KeepsReserve s a
Refused s p a _ = ⊥

-- A refusal names the first rule, in the source's order, that the purchase breaks, and `canBid`
-- gives no other reason.
pub can_bid-Refused :
    (s : FranchiseState) (p : Player) (amount : ℕ) (r : BidRejectionReason)
    → can_bid s p amount ≡ invalid r
    → Refused s p amount r
unfolding can_bid
can_bid-Refused s p amount squad_full h = ground arith
can_bid-Refused s p amount r h = ground arith
