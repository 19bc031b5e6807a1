-- ===== src/Room/Safety/Frame.antt =====
-- What a step leaves alone, and the parts of the invariant that this carries over.
use ipl_auction_app.Base.{
  ◌≡◌, sym, ◌∙◌, ap, subst, ◌⊎◌, inl, inr, Option, none, some, or_else, arith,
}
use ipl_auction_app.Rules.Types.{FranchiseName, Player}
use ipl_auction_app.Rules.Caps.{IsAllowed}
use ipl_auction_app.Room.State.{QueueEntry, World, TimerHandle, captured, refetch, set_redis}
use ipl_auction_app.Room.Rows.{get_room_member_by_franchise}
use ipl_auction_app.Room.Queue.{get_next_player}
use ipl_auction_app.Room.Bids.{accepts_bids}
use ipl_auction_app.Room.Safety.Invariant.{
  AllLegal, IsCached, LeaderFits, HeadFits, CallbackFits, IsOpen, IsResting, IsSafe,
}

-- The franchises and the players.
pub record KeepsTeams (w v : World) : Type 0 where
  pub states : (f : FranchiseName) → v.redis.franchise_state f ≡ w.redis.franchise_state f
  pub members :
      (f : FranchiseName)
      → get_room_member_by_franchise f w.db ≡ none
      → get_room_member_by_franchise f v.db ≡ none

-- The block as well: the player, the standing bid and the head of the queue.
pub record KeepsBlock (w v : World) : Type 0 where
  pub teams : KeepsTeams w v
  pub player : v.redis.current_player ≡ w.redis.current_player
  pub bid : v.redis.current_bid ≡ w.redis.current_bid
  pub bidder : v.redis.current_bidder ≡ w.redis.current_bidder
  pub next : (get_next_player v).0 ≡ (get_next_player w).0

module _ {w v : World} where
  pub Keeps-AllLegal : KeepsTeams w v → AllLegal w.redis → AllLegal v.redis
  Keeps-AllLegal k l f s h = l f s (sym (k.states f) ∙ h)

  pub Keeps-IsCached : KeepsTeams w v → IsCached w → IsCached v
  Keeps-IsCached k c f h = k.members f (c f (sym (k.states f) ∙ h))

  pub Keeps-LeaderFits : (p : Player) → KeepsBlock w v → LeaderFits w.redis p → LeaderFits v.redis p
  Keeps-LeaderFits p k l f h =
      let (s, found, a) = l f (sym k.bidder ∙ h) in
      (s, k.teams.states f ∙ found, subst (λ b. IsAllowed s p (or_else b 0)) (sym k.bid) a)

  pub Keeps-HeadFits : (p : Player) → KeepsBlock w v → HeadFits w p → HeadFits v p
  Keeps-HeadFits p k h e q = h e (sym k.next ∙ q)

  -- A step that leaves the block alone keeps a player there, if the timer's callback still fits.
  pub Keeps-IsOpen :
      KeepsBlock w v
      → (o : IsOpen w) → ((h : TimerHandle) → v.timer ≡ some h → CallbackFits h.on_expiry o.player)
      → IsOpen v
  Keeps-IsOpen k o c = record {
    player = o.player;
    up = k.player ∙ o.up;
    leader = Keeps-LeaderFits o.player k o.leader;
    head = Keeps-HeadFits o.player k o.head;
    callback = c;
  }

  pub Keeps-IsSafe : KeepsTeams w v → IsSafe w → (IsOpen v ⊎ IsResting v) → IsSafe v
  Keeps-IsSafe k s r = record {
    legal = Keeps-AllLegal k s.legal;
    is_cached = Keeps-IsCached k s.is_cached;
    round = r;
  }

-- A timer that is off, that is left alone, or that reads the queue afresh.
pub callback_none :
    (t : Option TimerHandle) (p : Player)
    → t ≡ none
    → (h : TimerHandle) → t ≡ some h
    → CallbackFits h.on_expiry p
callback_none t p e h q = cc

pub callback_refetch :
    (t : Option TimerHandle) (p : Player) (g : TimerHandle)
    → t ≡ some g
    → g.on_expiry ≡ refetch
    → (h : TimerHandle) → t ≡ some h
    → CallbackFits h.on_expiry p
callback_refetch t p g e r h q = subst (λ x. CallbackFits x p) {x = refetch} (ground arith) tt

pub callback_captured :
    (t : Option TimerHandle) (p : Player) (g : TimerHandle) (x : QueueEntry)
    → t ≡ some g
    → g.on_expiry ≡ captured x
    → x.player ≡ p
    → (h : TimerHandle) → t ≡ some h
    → CallbackFits h.on_expiry p
callback_captured t p g x e r f h q =
    subst (λ y. CallbackFits y p) {x = captured x} (ground arith) f

pub get_next_twice : (w : World) → (get_next_player (get_next_player w).1).0 ≡ (get_next_player w).0
unfolding get_next_player set_redis
get_next_twice w = ground arith

pub get_next-KeepsBlock : (w : World) → KeepsBlock w (get_next_player w).1
unfolding get_next_player set_redis
get_next-KeepsBlock w = record {
  teams = record { states = λ f. ground arith; members = λ f h. ground arith };
  player = ground arith;
  bid = ground arith;
  bidder = ground arith;
  next = get_next_twice w;
}

pub get_next_timer : (w : World) → (get_next_player w).1.timer ≡ w.timer
unfolding get_next_player set_redis
get_next_timer w = ground arith

-- A step that leaves the block, the timer and the auction's state alone keeps the invariant.
pub quiet-IsSafe :
    {w v : World}
    → KeepsBlock w v
    → v.timer ≡ w.timer
    → v.redis.auction_state ≡ w.redis.auction_state
    → IsSafe w
    → IsSafe v
quiet-IsSafe k t a s = Keeps-IsSafe k.teams s (elim s.round [
  | inl o ↦ inl (Keeps-IsOpen k o (λ h q. o.callback h (sym t ∙ q)))
  | inr r ↦ inr (record { closed = ap accepts_bids a ∙ r.closed; stopped = t ∙ r.stopped })
])

pub get_next_state : (w : World) → (get_next_player w).1.redis.auction_state ≡ w.redis.auction_state
unfolding get_next_player set_redis
get_next_state w = ground arith

pub next_same :
    (w v : World)
    → v.redis.auction_queue ≡ w.redis.auction_queue
    → v.db ≡ w.db
    → (get_next_player v).0 ≡ (get_next_player w).0
unfolding get_next_player set_redis
next_same w v a d = ground arith

pub get_next_db : (w : World) → (get_next_player w).1.db ≡ w.db
unfolding get_next_player set_redis
get_next_db w = ground arith
