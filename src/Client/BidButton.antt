-- ===== src/Client/BidButton.antt =====
-- apps/frontend/src/components/auction/BidButton.tsx with `handlePlaceBid` of
-- apps/frontend/src/app/room/[roomCode]/auction/page.tsx: what a click sends, and how often.
use ipl_auction_app.Base.{
  ℕ, ℤ, ◌⊎◌, ◌+◌, ◌==◌, ◌≤◌, ◌≡◌, refl, arith, leb, ltb, Bool, true, false, not, ◌&&◌, ◌||◌,
  if◌then◌else◌, List, [], ◌∷◌, Option, none, some, inl, inr,
}
use ipl_auction_app.Rules.Types.{same, FranchiseState, Player, BidValidationResult, valid, invalid}
use ipl_auction_app.Room.State.{Redis}
use ipl_auction_app.Room.Bids.{validate_bid}
use ipl_auction_app.Client.{AuctionStore}
use ipl_auction_app.Client.Eligibility.{bid_eligibility, next_bid_amount}
use ipl_auction_app.Client.Laws.{IsInSync, bid_eligibility-validate_bid}

-- The end of the pending timeout: at `none`, or once it is over, the button is not throttled.
pub record BidButton : Type 0 where
  pub throttled_until : Option ℕ

abbrev pub is_throttled : ℕ → BidButton → Bool
is_throttled now b = elim b.throttled_until [ none ↦ false | some until ↦ ltb now until ]

abbrev pub is_highest_bidder : AuctionStore → Bool
is_highest_bidder s = elim s.my_franchise_state [
  | none ↦ false
  | some mine ↦ elim s.current_bidder [ none ↦ false | some f ↦ same f mine.franchise ]
]

abbrev pub is_valid : BidValidationResult → Bool
is_valid (valid rest) = true
is_valid (invalid reason) = false

-- The guard of `handleClick`.
abbrev pub lets_through : ℕ → AuctionStore → BidButton → Bool
lets_through now s b = not (
    not (is_valid (bid_eligibility s))
    || is_highest_bidder s
    || is_throttled now b
    || (next_bid_amount s == 0))

-- The player and the amount of `auction:bid_placed`.
abbrev pub Placed : Type 0
Placed = ℕ × ℕ

unfoldable pub handle_place_bid : Bool → ℕ → AuctionStore → Option Placed
handle_place_bid is_connected amount s =
    if is_connected
    then elim s.current_player [ none ↦ none | some p ↦ some (p.id, amount) ]
    else none

unfoldable pub handle_click : ℕ → Bool → AuctionStore → BidButton → Option Placed × BidButton
unfolding handle_place_bid
handle_click now is_connected s b =
    if lets_through now s b
    then (
      handle_place_bid is_connected (next_bid_amount s) s,
      record { throttled_until = some (now + 300) },
    )
    else (none, b)

-- A click with the store that it meets.
pub record Click : Type 0 where
  pub now : ℕ
  pub is_connected : Bool
  pub store : AuctionStore

abbrev pub noted : ℕ → Option Placed → List ℕ → List ℕ
noted now none times = times
noted now (some p) times = now ∷ times

-- The times of the bids that a series of clicks sends.
unfoldable pub sent_times : List Click → BidButton → List ℕ
unfolding handle_click
sent_times [] b = []
sent_times (c ∷ cs) b =
    let (bid, b') = handle_click c.now c.is_connected c.store b in
    noted c.now bid (sent_times cs b')

-- Every time is at least 300 above the one before, and the first is not below the bound.
unfoldable pub spaced_from : ℕ → List ℕ → Bool
spaced_from bound [] = true
spaced_from bound (t ∷ ts) = leb bound t && spaced_from (t + 300) ts

abbrev bound_of : BidButton → ℕ
bound_of b = elim b.throttled_until [ none ↦ 0 | some until ↦ until ]

spaced-weaken : (a b : ℕ) (ts : List ℕ) → a ≤ b → spaced_from b ts ≡ true → spaced_from a ts ≡ true
unfolding spaced_from
spaced-weaken a b [] h s = refl
spaced-weaken a b (t ∷ ts) h s = ground (arith, h, s)

sent_times-from :
    (cs : List Click) (b : BidButton) → spaced_from (bound_of b) (sent_times cs b) ≡ true
unfolding sent_times spaced_from handle_click handle_place_bid
sent_times-from [] b = refl
sent_times-from (c ∷ cs) b =
    let next = (handle_click c.now c.is_connected c.store b).1 in
    ground (
      arith,
      sent_times-from cs next,
      spaced-weaken (bound_of b) (c.now + 300) (sent_times cs next),
    )

-- However often the button is clicked and whatever the store holds, two bids that it sends are at least
-- 300 milliseconds apart.
pub sent_times-spaced : (cs : List Click) (b : BidButton) → spaced_from 0 (sent_times cs b) ≡ true
sent_times-spaced cs b =
    spaced-weaken 0 (bound_of b) (sent_times cs b) (omega arith) (sent_times-from cs b)

validity-cases : (v : BidValidationResult) → ((rest : ℤ) × (v ≡ valid rest)) ⊎ (is_valid v ≡ false)
validity-cases (valid rest) = inl (rest, refl)
validity-cases (invalid reason) = inr refl

-- Where the store is in sync with Redis and shows a player whose base price is above zero and not above
-- the current bid, if there is one: a bid that a click sends is for the player on the block, its
-- franchise does not hold the highest bid, and the server's validator accepts it.
pub handle_click-validate_bid :
    (now : ℕ) (s : AuctionStore) (b : BidButton) (r : Redis) (p : Player) (mine : FranchiseState)
    (player_id amount : ℕ)
    → IsInSync s r
    → s.current_player ≡ some p
    → s.my_franchise_state ≡ some mine
    → 1 ≤ p.base_price_lakhs
    → (1 ≤ s.current_bid_lakhs → p.base_price_lakhs ≤ s.current_bid_lakhs)
    → (handle_click now true s b).0 ≡ some (player_id, amount)
    → (player_id ≡ p.id)
      × (is_highest_bidder s ≡ false)
      × ((rest : ℤ) × (validate_bid player_id amount mine p r ≡ valid rest))
unfolding handle_click handle_place_bid
handle_click-validate_bid now s b r p mine player_id amount i hp hm base ge h =
    let through : lets_through now s b ≡ true = ground (arith, h) in
    elim (validity-cases (bid_eligibility s)) [
      | inl (rest, e) ↦
          let accepted = bid_eligibility-validate_bid s r p mine rest i hp hm base ge e in
          let ids : (player_id ≡ p.id) × (amount ≡ next_bid_amount s) =
            ground (arith, h, hp, through) in
          (ids.0, ground (arith, through), (rest, rw (ids.0, ids.1) accepted))
      | inr refused ↦ ground (arith, through, refused)
    ]
