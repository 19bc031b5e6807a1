-- ===== src/Room/Safety/Start.antt =====
-- The start of an auction establishes the invariant.
use ipl_auction_app.Base.{
  ℕ, ◌≡◌, refl, ◌∙◌, ap, subst, inl, inr, Bool-cases, none, some, Option-cases, arith, List, [],
  ◌∷◌, find,
}
use ipl_auction_app.Rules.Types.{Player, FranchiseName, same, same_comm}
use ipl_auction_app.Franchise.{initial_state}
use ipl_auction_app.Franchise.Laws.{IsLegal, initial_state-IsLegal}
use ipl_auction_app.Room.State.{AuctionState, BidEvent, Member, Db, World, set_redis, set_db}
use ipl_auction_app.Room.Rows.{get_room_member_by_franchise, has_franchise, append_bid_event}
use ipl_auction_app.Room.Wallets.{set_franchise_state, init_states, init_all_franchise_states}
use ipl_auction_app.Room.Queue.{initialize_queue}
use ipl_auction_app.Room.Engine.{start_auction, log_event}
use ipl_auction_app.Room.Safety.Invariant.{AllLegal, IsSafe}
use ipl_auction_app.Room.Safety.Rounds.{advance-IsSafe}

set_initial-AllLegal :
    (f : FranchiseName) (w : World)
    → AllLegal w.redis
    → AllLegal (set_franchise_state f (initial_state f) w).redis
unfolding set_franchise_state
set_initial-AllLegal f w l g s h = elim (Bool-cases (same g f)) [
  | inl hit ↦ subst IsLegal {x = initial_state f} (ground arith) (initial_state-IsLegal f)
  | inr miss ↦ l g s (ground arith)
]

init_states-AllLegal :
    (ms : List Member) (w : World) → AllLegal w.redis → AllLegal (init_states ms w).redis
unfolding init_states
init_states-AllLegal [] w l = l
init_states-AllLegal (m ∷ ms) w l = elim (Option-cases m.franchise) [
  | inl unselected ↦ rw unselected (init_states-AllLegal ms w l)
  | inr (f, e) ↦ rw e (
      init_states-AllLegal ms (set_franchise_state f (initial_state f) w)
        (set_initial-AllLegal f w l))
]

-- A state that is missing afterwards was missing before, and belongs to no member of the list.
init_states-none :
    (f : FranchiseName) (ms : List Member) (w : World)
    → (init_states ms w).redis.franchise_state f ≡ none
    → (w.redis.franchise_state f ≡ none) × (find (has_franchise f) ms ≡ none)
unfolding init_states set_franchise_state
init_states-none f [] w h = (h, refl)
init_states-none f (m ∷ ms) w h = elim (Option-cases m.franchise) [
  | inl unselected ↦ ground (arith, init_states-none f ms w)
  | inr (g, e) ↦
      ground
        (arith, same_comm f g, init_states-none f ms (set_franchise_state g (initial_state g) w))
]

pub init_states-keeps :
    (ms : List Member) (w : World)
    → ((init_states ms w).tasks ≡ w.tasks)
      × ((init_states ms w).redis.auction_queue ≡ w.redis.auction_queue)
unfolding init_states set_franchise_state
init_states-keeps [] w = (refl, refl)
init_states-keeps (m ∷ ms) w = elim (Option-cases m.franchise) [
  | inl unselected ↦ ground (arith, init_states-keeps ms w)
  | inr (g, e) ↦ ground (arith, init_states-keeps ms (set_franchise_state g (initial_state g) w))
]

pub init_states-rest :
    (ms : List Member) (w : World)
    → ((init_states ms w).db ≡ w.db)
      × ((init_states ms w).timer ≡ w.timer)
      × ((init_states ms w).redis.auction_state ≡ w.redis.auction_state)
unfolding init_states set_franchise_state
init_states-rest [] w = (refl, refl, refl)
init_states-rest (m ∷ ms) w = elim (Option-cases m.franchise) [
  | inl unselected ↦ ground (arith, init_states-rest ms w)
  | inr (g, e) ↦ ground (arith, init_states-rest ms (set_franchise_state g (initial_state g) w))
]

-- A room that no auction has touched.
pub record IsFresh (w : World) : Type 0 where
  pub no_states : (f : FranchiseName) → w.redis.franchise_state f ≡ none
  pub no_timer : w.timer ≡ none

module _ (draw : ℕ → ℕ → ℕ) (marquees generals : List Player) where
  queued-rest :
      (w : World)
      → ((initialize_queue draw marquees generals w).redis.franchise_state
          ≡ w.redis.franchise_state)
        × ((initialize_queue draw marquees generals w).timer ≡ w.timer)
  unfolding initialize_queue set_redis set_db
  queued-rest w = (refl, refl)

  -- The room in which `startAuction` turns to the first player.
  abbrev pub prepared : World → World
  prepared w = log_event BidEvent.auction_started (
      set_redis
        (λ r. record r {
          auction_state = some AuctionState.idle;
          current_bid = some 0;
          current_bidder = none;
          current_player = none;
        })
        (init_all_franchise_states (initialize_queue draw marquees generals w)))

  pub prepared-IsSafe : (w : World) → IsFresh w → IsSafe (prepared w)
  unfolding init_all_franchise_states set_redis set_db append_bid_event get_room_member_by_franchise
  prepared-IsSafe w h =
      let v = initialize_queue draw marquees generals w in
      let (d, t, a) = init_states-rest v.db.members v in
      record {
        legal =
            init_states-AllLegal v.db.members v
              (λ f s e. absurd (ground (arith, ap (λ g. g f) (queued-rest w).0, h.no_states f)));
        is_cached = λ f e.
            ap (λ (x : Db). find (has_franchise f) x.members) d
            ∙ (init_states-none f v.db.members v e).1;
        round = inr (record { closed = refl; stopped = t ∙ (queued-rest w).1 ∙ h.no_timer });
      }

  -- The start of an auction in a fresh room.
  pub start_auction-IsSafe :
      (w : World) → IsFresh w → IsSafe (start_auction draw marquees generals w)
  unfolding start_auction
  start_auction-IsSafe w h = advance-IsSafe (prepared w) (prepared-IsSafe w h)
