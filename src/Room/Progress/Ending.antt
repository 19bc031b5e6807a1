-- ===== src/Room/Progress/Ending.antt =====
-- The rounds of a queue, with any bids in between.
use ipl_auction_app.Base.{
  ℕ, zero, suc, ◌+◌, ◌≡◌, refl, ◌∙◌, ap, subst, inl, inr, arith, List, find, length,
}
use ipl_auction_app.Room.State.{QueueEntry, Room, Redis, Db, World}
use ipl_auction_app.Room.Bids.{BidRequest, place_bid}
use ipl_auction_app.Room.Safety.Accepting.{place_bid-IsSafe, place_bid-Outcome}
use ipl_auction_app.Room.Progress.{is_engine, round}
use ipl_auction_app.Room.Progress.Expiry.{moved}
use ipl_auction_app.Room.Progress.Rounds.{IsUnderWay, IsOver, round-IsUnderWay, round-IsOver}

-- `n` rounds, each behind any number of bids.
pub data Course : ℕ → World → World → Type 0 where
  ended : (w : World) → Course zero w w
  bid :
      {n : ℕ} {v : World} (token : ℕ) (q : BidRequest) (w : World)
      → Course (suc n) (place_bid token q w) v
      → Course (suc n) w v
  passes : {n : ℕ} {v : World} (w : World) → Course n (round w) v → Course (suc n) w v

bid-IsUnderWay :
    (queue : List QueueEntry) (r : Room) (token : ℕ) (q : BidRequest) (w : World)
    → IsUnderWay queue r w
    → IsUnderWay queue r (place_bid token q w)
bid-IsUnderWay queue r token q w g = elim (place_bid-Outcome token q w g.safe.is_cached) [
  | inl (f, fits, free, a) ↦ record {
    safe = place_bid-IsSafe token q w g.safe;
    place = record {
      room = ap (λ (db : Db). db.room) a.db ∙ g.place.room;
      cached = ap (λ (x : Redis). x.auction_queue) a.redis ∙ g.place.cached;
    };
    below = g.below;
    handle = _;
    ticking = a.timer;
    quiet = ap (λ ts. find is_engine ts) a.tasks ∙ g.quiet;
  }
  | inr u ↦ record {
    safe = place_bid-IsSafe token q w g.safe;
    place = record {
      room = ap (λ (db : Db). db.room) u.db ∙ g.place.room;
      cached = ap (λ (x : Redis). x.auction_queue) u.redis ∙ g.place.cached;
    };
    below = g.below;
    handle = g.handle;
    ticking = u.timer ∙ g.ticking;
    quiet = ap (λ ts. find is_engine ts) u.tasks ∙ g.quiet;
  }
]

Course-same : {w v : World} → Course zero w v → w ≡ v
Course-same (ended _) = refl

-- An auction comes to its end: with a player of the queue on the block under a running timer in a room
-- that keeps the invariant, no other task of the engine to come, and `n` players of the queue left,
-- after `n` rounds, in each of which the time runs out and the engine's pauses pass, the auction is
-- complete and no timer runs, whatever bids were made before each of them.
pub Course-IsOver :
    (n : ℕ) (queue : List QueueEntry) (r : Room) (w v : World)
    → IsUnderWay queue r w
    → n + r.current_queue_position ≡ length queue
    → Course n w v
    → IsOver v
Course-IsOver n queue r w v g left (ended _) = absurd (omega (arith, g.below, left))
Course-IsOver n queue r w v g left (bid token q _ c) =
    Course-IsOver n queue r (place_bid token q w) v (bid-IsUnderWay queue r token q w g) left c
Course-IsOver (suc zero) queue r w v g left (passes _ c) =
    subst (λ x. IsOver x) (Course-same c) (round-IsOver queue r w g (omega (arith, left)))
Course-IsOver (suc (suc n)) queue r w v g left (passes _ c) =
    Course-IsOver (suc n) queue (moved r) (round w) v
      (round-IsUnderWay queue r w g (omega (arith, left))) (omega (arith, left)) c
