-- ===== src/Room/Safety/Invariant.antt =====
-- The invariant of a room with an auction: every franchise obeys the squad rules, and the standing
-- bid is one that its franchise may still pay.
use ipl_auction_app.Base.{◌≡◌, ◌⊎◌, false, none, some, or_else}
use ipl_auction_app.Rules.Types.{FranchiseName, FranchiseState, Player}
use ipl_auction_app.Rules.Caps.{IsAllowed}
use ipl_auction_app.Franchise.Laws.{IsLegal}
use ipl_auction_app.Room.State.{QueueEntry, Redis, World, TimerHandle, OnExpiry, captured, refetch}
use ipl_auction_app.Room.Rows.{get_room_member_by_franchise}
use ipl_auction_app.Room.Queue.{get_next_player}
use ipl_auction_app.Room.Bids.{accepts_bids}

-- Every franchise state in Redis obeys the squad rules.
abbrev pub AllLegal : Redis → Type 0
AllLegal r = (f : FranchiseName) (s : FranchiseState) → r.franchise_state f ≡ some s → IsLegal s

-- Redis holds a state for every franchise that a member has.
abbrev pub IsCached : World → Type 0
IsCached w =
    (f : FranchiseName)
    → w.redis.franchise_state f ≡ none
    → get_room_member_by_franchise f w.db ≡ none

-- The standing bid for `p` is one that the rules allow its franchise.
abbrev pub LeaderFits : Redis → Player → Type 0
LeaderFits r p =
    (f : FranchiseName)
    → r.current_bidder ≡ some f
    → (s : FranchiseState) × (r.franchise_state f ≡ some s)
      × IsAllowed s p (or_else r.current_bid 0)

-- The queue's next entry is the player on the block, by the cache and by a fresh read.
abbrev pub HeadFits : World → Player → Type 0
HeadFits w p = (e : QueueEntry) → (get_next_player w).0 ≡ some e → e.player ≡ p

abbrev pub CallbackFits : OnExpiry → Player → Type 0
CallbackFits (captured e) p = e.player ≡ p
CallbackFits refetch p = Unit {0}

-- A player is on the block.
pub record IsOpen (w : World) : Type 0 where
  pub player : Player
  pub up : w.redis.current_player ≡ some player
  pub leader : LeaderFits w.redis player
  pub head : HeadFits w player
  pub callback : (h : TimerHandle) → w.timer ≡ some h → CallbackFits h.on_expiry player

-- Between two players, and behind the last: no bids are accepted and no timer runs.
pub record IsResting (w : World) : Type 0 where
  pub closed : accepts_bids w.redis.auction_state ≡ false
  pub stopped : w.timer ≡ none

pub record IsSafe (w : World) : Type 0 where
  pub legal : AllLegal w.redis
  pub is_cached : IsCached w
  pub round : IsOpen w ⊎ IsResting w
