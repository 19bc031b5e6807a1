-- ===== src/Room/Safety/Accepting.antt =====
-- The bid handler as a whole: what an accepted bid writes, that a refused one changes nothing, and
-- that either keeps the invariant.
use mathlib.Core.Path.{subst₂}
use mathlib.Core.Bool.{false≢true}
use ipl_auction_app.Base.{
  ℕ, ◌+◌, ◌<◌, ◌≡◌, refl, sym, ◌∙◌, ap, subst, ◌⊎◌, inl, inr, false, none, some, or_else, ◌∷◌,
  Option-cases, arith, leb, eq_of_some,
}
use ipl_auction_app.Rules.Types.{Player, FranchiseName, BidRejectionReason}
use ipl_auction_app.Rules.Caps.{IsAllowed}
use ipl_auction_app.Room.State.{
  AuctionState, Redis, World, refetch, record_bid, Message, emit, spawn, set_redis,
}
use ipl_auction_app.Room.Rows.{get_room_member_by_franchise}
use ipl_auction_app.Room.Timer.{reset_timer, start_timer, clear_timer}
use ipl_auction_app.Room.Bids.{
  BidRequest, BidCheck, passed, rejected, ignored, check_bid, acquire_bid_lock, release_bid_lock,
  write_bid, commit_bid, unlocked, place_bid, after_check,
}
use ipl_auction_app.Room.Safety.Invariant.{IsCached, LeaderFits, IsSafe}
use ipl_auction_app.Room.Safety.Frame.{
  KeepsTeams, Keeps-IsSafe, quiet-IsSafe, next_same, callback_refetch,
}
use ipl_auction_app.Room.Safety.Bidding.{BidFits, check_bid-BidFits, check_bid-stays}

-- The bid stands, the timer runs for ten seconds more, and the lock is free again.
pub record Accepted (q : BidRequest) (f : FranchiseName) (w v : World) : Type 0 where
  pub redis : v.redis ≡ record (w.redis) {
    current_bid = some q.amount_lakhs;
    current_bidder = some f;
    auction_state = some AuctionState.bidding;
    timer_deadline = some (w.now + 10000);
  }
  pub timer : v.timer ≡ some (record { deadline_ms = w.now + 10000; on_expiry = refetch })
  pub db : v.db ≡ w.db
  pub tasks : v.tasks ≡ record_bid f q.player_id q.amount_lakhs ∷ w.tasks

-- Only a message was sent.
pub record Unchanged (w v : World) : Type 0 where
  pub redis : v.redis ≡ w.redis
  pub timer : v.timer ≡ w.timer
  pub db : v.db ≡ w.db
  pub tasks : v.tasks ≡ w.tasks

abbrev locked : ℕ → World → World
locked token = set_redis (λ r. record r { bid_lock = some token })

-- The high branch of `writeBid`.
abbrev written : ℕ → BidRequest → FranchiseName → World → World
written token q f w = spawn (record_bid f q.player_id q.amount_lakhs) (
    reset_timer refetch (
      emit (Message.bid_update q.player_id q.amount_lakhs f) (
        release_bid_lock token (
          set_redis
            (λ r. record r {
              current_bid = some q.amount_lakhs;
              current_bidder = some f;
              auction_state = some AuctionState.bidding;
            })
            w))))

commit_written :
    (token : ℕ) (q : BidRequest) (f : FranchiseName) (w : World)
    → w.redis.bid_lock ≡ none
    → or_else w.redis.current_bid 0 < q.amount_lakhs
    → commit_bid token q f w ≡ written token q f (locked token w)
unfolding commit_bid write_bid set_redis
commit_written token q f w free higher =
    let above : leb q.amount_lakhs (or_else w.redis.current_bid 0) ≡ false = ground arith in
    rw (free, commit_bid, acquire_bid_lock) (rw above)

unlocked_own : (token : ℕ) → unlocked token (some token) ≡ none
unlocked_own token = ground arith

pub commit-Accepted :
    (token : ℕ) (q : BidRequest) (f : FranchiseName) (w : World)
    → w.redis.bid_lock ≡ none
    → or_else w.redis.current_bid 0 < q.amount_lakhs
    → Accepted q f w (commit_bid token q f w)
unfolding release_bid_lock reset_timer set_redis emit spawn start_timer clear_timer
commit-Accepted token q f w free higher =
    let e = commit_written token q f w free higher in
    record {
      redis = ap (λ (v : World). v.redis) e ∙ (λ i. record (w.redis) {
        current_bid = some q.amount_lakhs;
        current_bidder = some f;
        auction_state = some AuctionState.bidding;
        timer_deadline = some (w.now + 10000);
        bid_lock = (unlocked_own token ∙ sym free) i;
      });
      timer = ap (λ (v : World). v.timer) e;
      db = ap (λ (v : World). v.db) e;
      tasks = ap (λ (v : World). v.tasks) e;
    }

commit-Unchanged :
    (token other : ℕ) (q : BidRequest) (f : FranchiseName) (w : World)
    → w.redis.bid_lock ≡ some other
    → Unchanged w (commit_bid token q f w)
unfolding commit_bid
commit-Unchanged token other q f w held = ground arith

-- The outcome of a bid: accepted, with the lock free and every check passed, or without effect.
abbrev pub Outcome : BidRequest → World → World → Type 0
Outcome q w v =
    ((f : FranchiseName) × BidFits q f w × (w.redis.bid_lock ≡ none) × Accepted q f w v)
    ⊎ Unchanged w v

commit-Outcome :
    (token : ℕ) (q : BidRequest) (f : FranchiseName) (w : World)
    → BidFits q f w
    → Outcome q w (commit_bid token q f w)
commit-Outcome token q f w fits = elim (Option-cases w.redis.bid_lock) [
  | inl free ↦ inl (f, fits, free, commit-Accepted token q f w free fits.higher)
  | inr (other, held) ↦ inr (commit-Unchanged token other q f w held)
]

refused : (r : BidRejectionReason) (w : World) → Unchanged w (emit (Message.bid_rejected r) w)
unfolding emit
refused r w = record { redis = refl; timer = refl; db = refl; tasks = refl }

-- Where Redis holds the state of every member's franchise, a bid is either accepted, and then it
-- passed every check and found the lock free, and Redis and the timer hold its amount, its franchise
-- and ten fresh seconds, with the lock free, the rows unchanged and the write of the bid's row to come;
-- or it changes neither Redis, the
-- rows, the timer nor the tasks.
pub place_bid-Outcome :
    (token : ℕ) (q : BidRequest) (w : World) → IsCached w → Outcome q w (place_bid token q w)
unfolding place_bid
place_bid-Outcome token q w c = go (check_bid q w).0 (check_bid q w).1 refl (check_bid-stays q w c)
  where
    go :
        (b : BidCheck) (v : World)
        → (check_bid q w).0 ≡ b
        → v ≡ w
        → Outcome q w (after_check token q (b, v))
    go (passed f) v e s =
        subst (λ x. Outcome q w (commit_bid token q f x)) (sym s)
          (commit-Outcome token q f w (check_bid-BidFits q f w c e))
    go (rejected r) v e s =
        subst (λ x. Outcome q w (emit (Message.bid_rejected r) x)) (sym s) (inr (refused r w))
    go ignored v e s =
        subst (λ x. Outcome q w x) (sym s)
          (inr (record { redis = refl; timer = refl; db = refl; tasks = refl }))

Unchanged-IsSafe : {w v : World} → Unchanged w v → IsSafe w → IsSafe v
Unchanged-IsSafe {w} {v} u s =
    quiet-IsSafe
      (record {
        teams = record {
          states = λ f. ap (λ (r : Redis). r.franchise_state f) u.redis;
          members = λ f h. ap (get_room_member_by_franchise f) u.db ∙ h;
        };
        player = ap (λ (r : Redis). r.current_player) u.redis;
        bid = ap (λ (r : Redis). r.current_bid) u.redis;
        bidder = ap (λ (r : Redis). r.current_bidder) u.redis;
        next = next_same w v (ap (λ (r : Redis). r.auction_queue) u.redis) u.db;
      })
      u.timer (ap (λ (r : Redis). r.auction_state) u.redis) s

Accepted-LeaderFits :
    {q : BidRequest} {f : FranchiseName} {w v : World} (p : Player)
    → BidFits q f w
    → Accepted q f w v
    → w.redis.current_player ≡ some p
    → LeaderFits v.redis p
Accepted-LeaderFits {q} {f} {w} {v} p b a up g h =
    let f≡g : f ≡ g = eq_of_some (sym (ap (λ (r : Redis). r.current_bidder) a.redis) ∙ h) in
    let p≡ : b.player ≡ p = eq_of_some (sym b.up ∙ up) in
    (
      b.state,
      subst (λ x. v.redis.franchise_state x ≡ some b.state) f≡g
          (ap (λ (r : Redis). r.franchise_state f) a.redis ∙ b.stored),
      subst₂ (λ x n. IsAllowed b.state x (or_else n 0)) p≡
          (sym (ap (λ (r : Redis). r.current_bid) a.redis)) b.allowed,
    )

Accepted-IsSafe :
    {q : BidRequest} {f : FranchiseName} {w v : World}
    → BidFits q f w
    → Accepted q f w v
    → IsSafe w
    → IsSafe v
Accepted-IsSafe {q} {f} {w} {v} b a s = Keeps-IsSafe teams s (elim s.round [
  | inl o ↦ inl (record {
    player = o.player;
    up = ap (λ (r : Redis). r.current_player) a.redis ∙ o.up;
    leader = Accepted-LeaderFits o.player b a o.up;
    head = λ e h.
        o.head e (sym (next_same w v (ap (λ (r : Redis). r.auction_queue) a.redis) a.db) ∙ h);
    callback =
        callback_refetch v.timer o.player
          (record { deadline_ms = w.now + 10000; on_expiry = refetch }) a.timer refl;
  })
  | inr r ↦ absurd (false≢true (sym r.closed ∙ b.accepting))
])
  where
    teams : KeepsTeams w v
    teams = record {
      states = λ g. ap (λ (r : Redis). r.franchise_state g) a.redis;
      members = λ g h. ap (get_room_member_by_franchise g) a.db ∙ h;
    }

-- Any bid keeps the invariant.
pub place_bid-IsSafe :
    (token : ℕ) (q : BidRequest) (w : World) → IsSafe w → IsSafe (place_bid token q w)
place_bid-IsSafe token q w s = elim (place_bid-Outcome token q w s.is_cached) [
  | inl (f, b, free, a) ↦ Accepted-IsSafe b a s
  | inr u ↦ Unchanged-IsSafe u s
]
