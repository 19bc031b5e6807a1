-- ===== src/Room/Safety/Sales.antt =====
-- A sale keeps every franchise within the rules.
use ipl_auction_app.Base.{
  ℕ, ◌-◌, ◌≡◌, refl, subst, inl, inr, Option, none, some, or_else, Option-cases, Bool-cases, leb,
  arith, if◌then◌else◌,
}
use ipl_auction_app.Rules.Types.{FranchiseName, FranchiseState, same}
use ipl_auction_app.Rules.Caps.{IsAllowed}
use ipl_auction_app.Franchise.{deducted}
use ipl_auction_app.Franchise.Laws.{IsLegal, deducted-IsLegal}
use ipl_auction_app.Room.State.{
  AuctionState, QueueEntry, QueueStatus, Redis, Member, World, set_redis,
}
use ipl_auction_app.Room.Rows.{
  get_room_member_by_franchise, advance_queue_position, update_queue_entry, append_bid_event,
}
use ipl_auction_app.Room.Wallets.{set_franchise_state, deduct_from_franchise_state}
use ipl_auction_app.Room.Queue.{advance_queue, get_next_player}
use ipl_auction_app.Room.Timer.{set_auction_state}
use ipl_auction_app.Room.Engine.{process_player_sold, process_player_unsold, handle_timer_expiry}
use ipl_auction_app.Room.Safety.Invariant.{AllLegal, IsCached, LeaderFits, IsResting, IsSafe}
use ipl_auction_app.Room.Safety.Loads.{load_cached}

-- The part of the room that a resolution of the player leaves alone.
pub record Same (w v : World) : Type 0 where
  pub states : (f : FranchiseName) → v.redis.franchise_state f ≡ w.redis.franchise_state f
  pub members : v.db.members ≡ w.db.members
  pub auction : v.redis.auction_state ≡ w.redis.auction_state
  pub timers : v.timer ≡ w.timer
  pub bid : v.redis.current_bid ≡ w.redis.current_bid
  pub bidder : v.redis.current_bidder ≡ w.redis.current_bidder

pub advance_queue-Same : (n : ℕ) (o : QueueStatus) (w : World) → Same w (advance_queue n o w)
unfolding advance_queue get_next_player advance_queue_position update_queue_entry
advance_queue-Same n o w = ground arith

unsold-Same :
    (e : QueueEntry) (w : World)
    → Same (set_auction_state AuctionState.unsold w) (process_player_unsold e w)
unfolding process_player_unsold append_bid_event
unsold-Same e w = ground (
  arith,
  advance_queue-Same (e.position - 1) QueueStatus.unsold (set_auction_state AuctionState.unsold w),
)

-- What a player's resolution leaves: a room at rest, within the rules.
pub record IsResolved (w : World) : Type 0 where
  pub legal : AllLegal w.redis
  pub is_cached : IsCached w
  pub resting : IsResting w

pub IsResolved→IsSafe : {w : World} → IsResolved w → IsSafe w
IsResolved→IsSafe r = record { legal = r.legal; is_cached = r.is_cached; round = inr r.resting }

-- An unsold player leaves every franchise as it was.
pub unsold-IsResolved :
    (e : QueueEntry) (w : World)
    → AllLegal w.redis
    → IsCached w
    → w.timer ≡ none
    → IsResolved (process_player_unsold e w)
unfolding set_auction_state set_redis get_room_member_by_franchise
unsold-IsResolved e w l c t = record {
  legal = λ f s h. l f s (ground (arith, (unsold-Same e w).states f));
  is_cached = λ f h. ground (arith, unsold-Same e w, (unsold-Same e w).states f, c f);
  resting = ground (arith, unsold-Same e w);
}

-- The update of one franchise's state.
update-AllLegal :
    (r v : Redis) (f : FranchiseName) (s : FranchiseState)
    → ((g : FranchiseName)
        → v.franchise_state g ≡ (if same g f then some s else r.franchise_state g))
    → AllLegal r
    → IsLegal s
    → AllLegal v
update-AllLegal r v f s e l k g t h = elim (Bool-cases (same g f)) [
  | inl hit ↦ subst IsLegal (ground (arith, e g)) k
  | inr miss ↦ l g t (ground (arith, e g))
]

abbrev pub after_sale : QueueEntry → ℕ → FranchiseName → FranchiseState → World → World
after_sale e price f s w =
    set_franchise_state f (deducted s price e.player) (set_auction_state AuctionState.sold w)

pub sold-Same :
    (e : QueueEntry) (price : ℕ) (f : FranchiseName) (s : FranchiseState) (m : Member) (w : World)
    → IsCached w
    → w.redis.franchise_state f ≡ some s
    → get_room_member_by_franchise f w.db ≡ some m
    → Same (after_sale e price f s w) (process_player_sold e price f w)
unfolding process_player_sold deduct_from_franchise_state set_auction_state set_redis
sold-Same e price f s m w c h k = ground (
  arith,
  load_cached f (set_auction_state AuctionState.sold w) c,
  advance_queue-Same (e.position - 1) QueueStatus.sold (after_sale e price f s w),
)

pub sold_unclaimed :
    (e : QueueEntry) (price : ℕ) (f : FranchiseName) (w : World)
    → get_room_member_by_franchise f w.db ≡ none
    → process_player_sold e price f w
      ≡ process_player_unsold e (set_auction_state AuctionState.sold w)
unfolding process_player_sold
sold_unclaimed e price f w h = ground arith

-- A sale at a price that the rules allow keeps every franchise within them.
pub sold-IsResolved :
    (e : QueueEntry) (price : ℕ) (f : FranchiseName) (s : FranchiseState) (w : World)
    → AllLegal w.redis
    → IsCached w
    → w.timer ≡ none
    → w.redis.franchise_state f ≡ some s
    → IsAllowed s e.player price
    → IsResolved (process_player_sold e price f w)
unfolding set_auction_state set_redis set_franchise_state get_room_member_by_franchise
sold-IsResolved e price f s w l c t h a =
    elim (Option-cases (get_room_member_by_franchise f w.db)) [
      | inl unclaimed ↦
          rw (sold_unclaimed e price f w unclaimed)
            (unsold-IsResolved e (set_auction_state AuctionState.sold w) l c t)
      | inr (m, k) ↦ record {
        legal =
            update-AllLegal w.redis (process_player_sold e price f w).redis f
              (deducted s price e.player) (λ g. (sold-Same e price f s m w c h k).states g) l
              (deducted-IsLegal s e.player price (l f s h) a);
        is_cached = λ g q. ground (
          arith,
          sold-Same e price f s m w c h k,
          (sold-Same e price f s m w c h k).states g,
          c g,
        );
        resting = ground (arith, sold-Same e price f s m w c h k);
      }
    ]

-- The expiry of the time resolves the player: sold to the standing bid, or unsold.
pub expiry-IsResolved :
    (e : QueueEntry) (w : World)
    → AllLegal w.redis
    → IsCached w
    → w.timer ≡ none
    → LeaderFits w.redis e.player
    → IsResolved (handle_timer_expiry e w)
unfolding handle_timer_expiry
expiry-IsResolved e w l c t k = go w.redis.current_bidder refl
  where
    go :
        (o : Option FranchiseName)
        → w.redis.current_bidder ≡ o
        → IsResolved (handle_timer_expiry e w)
    go none q = rw (q, handle_timer_expiry) (unsold-IsResolved e w l c t)
    go (some f) q =
        let (s, h, a) = k f q in
        elim (Bool-cases (leb e.player.base_price_lakhs (or_else w.redis.current_bid 0))) [
          | inl met ↦ rw (q, met, handle_timer_expiry) (sold-IsResolved e _ f s w l c t h a)
          | inr low ↦ rw (q, low, handle_timer_expiry) (unsold-IsResolved e w l c t)
        ]
