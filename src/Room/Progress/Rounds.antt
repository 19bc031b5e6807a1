-- ===== src/Room/Progress/Rounds.antt =====
-- A round resolves one player and puts the next on the block, and the last round ends the auction.
use ipl_auction_app.Base.{
  ℕ, ◌+◌, ◌≡◌, ◌≤◌, ◌<◌, refl, sym, ◌∙◌, ap, subst, inl, inr, arith, List, [], ◌∷◌, find, length,
  get_elem?, Option, none, some, Bool-cases,
}
use ipl_auction_app.Room.State.{
  AuctionState, QueueEntry, Room, Task, World, TimerHandle, advance, present, start, check_gone,
  record_sale, record_bid, set_redis, set_db, emit, spawn,
}
use ipl_auction_app.Room.Rows.{append_bid_event, current_position}
use ipl_auction_app.Room.Queue.{get_next_player, detect_phase_transition}
use ipl_auction_app.Room.Queue.Order.{get_next_player-cached}
use ipl_auction_app.Room.Timer.{set_auction_state, start_timer, clear_timer}
use ipl_auction_app.Room.Engine.{
  tick, end_auction, next_up, advance_to_next_player, present_player, emit_phase_transition,
}
use ipl_auction_app.Room.Safety.Invariant.{IsCached, IsSafe}
use ipl_auction_app.Room.Safety.Frame.{quiet-IsSafe}
use ipl_auction_app.Room.Safety.Control.{timer_keys-KeepsBlock, tick-IsSafe}
use ipl_auction_app.Room.Safety.Rounds.{
  present_player-IsSafe, phase_transition-IsSafe, completing-loads,
}
use ipl_auction_app.Room.Progress.{is_engine, expire, wake, resume, round}
use ipl_auction_app.Room.Progress.Expiry.{
  get_elem?-below, get_elem?-past, IsAt, moved, expire-IsMoved,
}

-- A player of the queue is on the block, with the timer on and nothing else of the engine to come.
pub record IsUnderWay (queue : List QueueEntry) (r : Room) (w : World) : Type 0 where
  pub safe : IsSafe w
  pub place : IsAt queue r w
  pub below : r.current_queue_position < length queue
  pub handle : TimerHandle
  pub ticking : w.timer ≡ some handle
  pub quiet : find is_engine w.tasks ≡ none

-- The auction is complete, and no timer runs.
pub record IsOver (w : World) : Type 0 where
  pub complete : w.redis.auction_state ≡ some AuctionState.complete
  pub stopped : w.timer ≡ none

retask-IsSafe : (ts : List Task) (w : World) → IsSafe w → IsSafe (record w { tasks = ts })
retask-IsSafe ts w =
    quiet-IsSafe (timer_keys-KeepsBlock w _ refl refl refl refl refl refl) refl refl

reclock-IsSafe : (t : ℕ) (w : World) → IsSafe w → IsSafe (record w { now = t })
reclock-IsSafe t w =
    quiet-IsSafe (timer_keys-KeepsBlock w _ refl refl refl refl refl refl) refl refl

expire-IsSafe : (w : World) → IsSafe w → IsSafe (expire w)
unfolding expire
expire-IsSafe w s = go w.timer refl
  where
    go : (o : Option TimerHandle) → w.timer ≡ o → IsSafe (expire w)
    go none e = subst (λ v. IsSafe v) (ground (arith, e)) s
    go (some h) e =
        let at_deadline = record w { now = h.deadline_ms } in
        let same : tick at_deadline ≡ expire w = ground (arith, e) in
        subst (λ v. IsSafe v) same (tick-IsSafe at_deadline (reclock-IsSafe h.deadline_ms w s))

wake-quiet : (w : World) → find is_engine w.tasks ≡ none → wake w ≡ w
unfolding wake resume
wake-quiet w quiet = go w.tasks quiet refl
  where
    go : (ts : List Task) → find is_engine ts ≡ none → w.tasks ≡ ts → resume ts w ≡ w
    go [] q e = refl
    go (advance ∷ ts) q e = absurd (ground (arith, q))
    go (present x ∷ ts) q e = absurd (ground (arith, q))
    go (start ∷ ts) q e = absurd (ground (arith, q))
    go (check_gone n ∷ ts) q e = refl
    go (record_sale x ∷ ts) q e = refl
    go (record_bid f n m ∷ ts) q e = refl

end-IsOver :
    (w : World)
    → IsCached w
    → w.timer ≡ none
    → IsOver (end_auction w) × ((end_auction w).tasks ≡ w.tasks)
unfolding end_auction set_auction_state set_redis set_db emit append_bid_event
end-IsOver w c t = (
  record {
    complete = ground (arith, completing-loads w c);
    stopped = ground (arith, completing-loads w c, t);
  },
  ground (arith, completing-loads w c),
)

module _ (queue : List QueueEntry) where
  -- Nothing runs, the engine has no task, and `r` tells the place in the queue.
  pub record IsBetween (r : Room) (u : World) : Type 0 where
    pub safe : IsSafe u
    pub place : IsAt queue r u
    pub stopped : u.timer ≡ none
    pub quiet : find is_engine u.tasks ≡ none

  pub next_as :
      (r : Room) (u : World)
      → IsAt queue r u
      → get_next_player u ≡ (get_elem? queue r.current_queue_position, u)
  unfolding current_position
  next_as r u a =
      let at : current_position u.db ≡ r.current_queue_position = ground (arith, a.room) in
      subst (λ n. get_next_player u ≡ (get_elem? queue n, u)) at
        (get_next_player-cached queue u a.cached)

  pub presented-IsUnderWay :
      (e : QueueEntry) (r : Room) (u : World)
      → IsBetween r u
      → get_elem? queue r.current_queue_position ≡ some e
      → r.current_queue_position < length queue
      → IsUnderWay queue r (present_player e u)
  unfolding present_player start_timer set_redis set_db emit append_bid_event
  presented-IsUnderWay e r u b up below = record {
    safe =
        present_player-IsSafe e u b.safe.legal b.safe.is_cached
          (ap (λ x. x.0) (next_as r u b.place) ∙ up);
    place = record { room = b.place.room; cached = b.place.cached };
    below = below;
    handle = _;
    ticking = refl;
    quiet = b.quiet;
  }

  -- The pause behind the interstitial.
  interstitial-IsUnderWay :
      (e : QueueEntry) (r : Room) (u : World)
      → IsBetween r u
      → get_elem? queue r.current_queue_position ≡ some e
      → r.current_queue_position < length queue
      → IsSafe (spawn (present e) (emit_phase_transition u))
      → IsUnderWay queue r (wake (spawn (present e) (emit_phase_transition u)))
  unfolding wake resume spawn emit_phase_transition emit set_db append_bid_event
  interstitial-IsUnderWay e r u b up below s =
      presented-IsUnderWay e r _
        (record {
          safe = retask-IsSafe u.tasks _ s;
          place = record { room = b.place.room; cached = b.place.cached };
          stopped = b.stopped;
          quiet = b.quiet;
        })
        up below

  -- What `advance_to_next_player` makes of the next entry, after the interstitial.
  up_next :
      (e : QueueEntry) (r : Room) (u : World)
      → IsBetween r u
      → get_elem? queue r.current_queue_position ≡ some e
      → r.current_queue_position < length queue
      → IsUnderWay queue r (wake (next_up (some e, u)))
  unfolding next_up
  up_next e r u b up below = elim (Bool-cases (detect_phase_transition u)) [
    | inl crossing ↦
        let same : spawn (present e) (emit_phase_transition u) ≡ next_up (some e, u) =
          ground (arith, crossing) in
        subst (λ v. IsUnderWay queue r (wake v)) same
          (interstitial-IsUnderWay e r u b up below (phase_transition-IsSafe e u b.safe))
    | inr same_phase ↦
        let same : present_player e u ≡ next_up (some e, u) = ground (arith, same_phase) in
        let under_way = presented-IsUnderWay e r u b up below in
        subst (λ v. IsUnderWay queue r (wake v)) same
          (subst (λ v. IsUnderWay queue r v) (sym (wake-quiet (present_player e u) under_way.quiet))
            under_way)
  ]

  next-IsUnderWay :
      (r : Room) (u : World)
      → IsBetween r u
      → r.current_queue_position < length queue
      → IsUnderWay queue r (wake (advance_to_next_player u))
  unfolding advance_to_next_player
  next-IsUnderWay r u b below =
      let (e, k) = get_elem?-below queue r.current_queue_position below in
      let same = next_as r u b.place ∙ ap (λ o. (o, u)) k in
      subst (λ x. IsUnderWay queue r (wake (next_up x))) (sym same) (up_next e r u b k below)

  last-IsOver :
      (r : Room) (u : World)
      → IsBetween r u
      → length queue ≤ r.current_queue_position
      → IsOver (wake (advance_to_next_player u))
  unfolding advance_to_next_player next_up
  last-IsOver r u b past =
      let same =
        next_as r u b.place
        ∙ ap (λ o. (o, u)) (get_elem?-past queue r.current_queue_position past) in
      let (over, kept) = end-IsOver u b.safe.is_cached b.stopped in
      let quiet = ap (λ ts. find is_engine ts) kept ∙ b.quiet in
      subst (λ x. IsOver (wake (next_up x))) (sym same)
        (subst (λ v. IsOver v) (sym (wake-quiet (end_auction u) quiet)) over)

  round_cases :
      (r : Room) (w : World)
      → IsUnderWay queue r w
      → (u : World) × (round w ≡ wake (advance_to_next_player u)) × IsBetween (moved r) u
  unfolding round wake resume set_redis clear_timer
  round_cases r w g =
      let m =
        expire-IsMoved queue r w g.handle g.safe.is_cached g.place g.quiet g.below g.ticking in
      let u = record (expire w) { tasks = m.later } in
      (
        u,
        ap (λ ts. wake (resume ts (expire w))) m.tasks,
        record {
          safe = retask-IsSafe m.later (expire w) (expire-IsSafe w g.safe);
          place = record { room = m.place.room; cached = m.place.cached };
          stopped = m.timer;
          quiet = m.quiet;
        },
      )

  -- A round moves to the next player, or ends the auction with the last.
  pub round-IsUnderWay :
      (r : Room) (w : World)
      → IsUnderWay queue r w
      → r.current_queue_position + 1 < length queue
      → IsUnderWay queue (moved r) (round w)
  round-IsUnderWay r w g more =
      let (u, same, b) = round_cases r w g in
      subst (λ v. IsUnderWay queue (moved r) v) (sym same) (next-IsUnderWay (moved r) u b more)

  pub round-IsOver :
      (r : Room) (w : World)
      → IsUnderWay queue r w
      → length queue ≤ r.current_queue_position + 1
      → IsOver (round w)
  round-IsOver r w g last =
      let (u, same, b) = round_cases r w g in
      subst (λ v. IsOver v) (sym same) (last-IsOver (moved r) u b last)
