-- ===== src/Room/Queue/Order.antt =====
-- The order of the queue: the positions, the move to the next player and the two phases.
use ipl_auction_app.Base.{
  ℕ, zero, suc, ◌+◌, ◌-◌, ◌≡◌, refl, sym, ◌∙◌, ap, arith, ◌&&◌, leb, ltb, ◌==◌, List, [], ◌∷◌, ◌++◌,
  map, length, Option, none, some, get_elem?,
}
use ipl_auction_app.Rules.Types.{Player}
use ipl_auction_app.Room.State.{
  Phase, marquee, general, QueueStatus, QueueEntry, Room, Db, World, set_db,
}
use ipl_auction_app.Room.Rows.{update_queue_entry, advance_queue_position, current_position}
use ipl_auction_app.Room.Queue.{
  queue_entries, get_next_player, mark_active, advance_queue, is_phase, crosses,
  detect_phase_transition,
}

-- The entry at an index carries the index plus one, counted on from where the list begins.
entry-position :
    (ordered : List (Player × Phase)) (from n : ℕ) (e : QueueEntry)
    → get_elem? (queue_entries from ordered) n ≡ some e
    → e.position ≡ from + n + 1
unfolding queue_entries
entry-position [] from n e h = cc
entry-position ((p, phase) ∷ rest) from zero e h = ground (arith, h)
entry-position ((p, phase) ∷ rest) from (suc n) e h =
    ground (arith, entry-position rest (from + 1) n e)

-- With the queue cached, asking for the next player reads it at the pointer and changes nothing.
pub get_next_player-cached :
    (queue : List QueueEntry) (w : World)
    → w.redis.auction_queue ≡ some queue
    → get_next_player w ≡ (get_elem? queue (current_position w.db), w)
unfolding get_next_player
get_next_player-cached queue w c = rw (c) refl

mark_active-cached :
    (queue : List QueueEntry) (o : Option QueueEntry) (w : World)
    → w.redis.auction_queue ≡ some queue
    → (get_next_player (mark_active (o, w))).0 ≡ get_elem? queue (current_position w.db)
unfolding mark_active set_db update_queue_entry current_position
mark_active-cached queue none w c = ap (λ r. r.0) (get_next_player-cached queue w c)
mark_active-cached queue (some e) w c =
    ap (λ r. r.0)
      (get_next_player-cached queue (set_db (update_queue_entry QueueStatus.active e.position) w) c)

advance-position :
    (outcome : QueueStatus) (position : ℕ) (room : Room) (db : Db)
    → db.room ≡ some room
    → current_position (advance_queue_position (update_queue_entry outcome position db))
      ≡ current_position db + 1
unfolding current_position advance_queue_position update_queue_entry
advance-position outcome position room db r = rw (r) refl

-- While the room is there and the drawn queue is cached, resolving the entry that is up hands out the
-- entry after it, whatever the outcome.
pub advance_queue-next :
    (ordered : List (Player × Phase)) (e : QueueEntry) (outcome : QueueStatus) (room : Room)
    (w : World)
    → w.redis.auction_queue ≡ some (queue_entries 0 ordered)
    → w.db.room ≡ some room
    → (get_next_player w).0 ≡ some e
    → (get_next_player (advance_queue (e.position - 1) outcome w)).0
      ≡ get_elem? (queue_entries 0 ordered) e.position
unfolding advance_queue set_db
advance_queue-next ordered e outcome room w c r h =
    let queue = queue_entries 0 ordered in
    let moved =
      set_db (λ db. advance_queue_position (update_queue_entry outcome (e.position - 1 + 1) db))
        w in
    let here = sym (ap (λ x. x.0) (get_next_player-cached queue w c)) ∙ h in
    ap (λ x. (get_next_player (mark_active x)).0) (get_next_player-cached queue moved c)
    ∙ mark_active-cached queue (get_elem? queue (current_position moved.db)) moved c
    ∙ ap (get_elem? queue) (
        omega (
          arith,
          advance-position outcome (e.position - 1 + 1) room w.db r,
          entry-position ordered 0 (current_position w.db) e here,
        ))

phase-marquee :
    (ms gs : List Player) (from n : ℕ)
    → is_phase marquee (
        get_elem? (queue_entries from (map (λ p. (p, marquee)) ms ++ map (λ p. (p, general)) gs)) n)
      ≡ ltb n (length ms)
unfolding is_phase queue_entries
phase-marquee [] [] from n = ground arith
phase-marquee [] (g ∷ gs) from zero = ground arith
phase-marquee [] (g ∷ gs) from (suc n) = ground (arith, phase-marquee [] gs (from + 1) n)
phase-marquee (m ∷ ms) gs from zero = ground arith
phase-marquee (m ∷ ms) gs from (suc n) = ground (arith, phase-marquee ms gs (from + 1) n)

phase-general :
    (ms gs : List Player) (from n : ℕ)
    → is_phase general (
        get_elem? (queue_entries from (map (λ p. (p, marquee)) ms ++ map (λ p. (p, general)) gs)) n)
      ≡ (leb (length ms) n && ltb n (length ms + length gs))
unfolding is_phase queue_entries
phase-general [] [] from n = ground arith
phase-general [] (g ∷ gs) from zero = ground arith
phase-general [] (g ∷ gs) from (suc n) = ground (arith, phase-general [] gs (from + 1) n)
phase-general (m ∷ ms) gs from zero = ground arith
phase-general (m ∷ ms) gs from (suc n) = ground (arith, phase-general ms gs (from + 1) n)

-- Where the cached queue is some marquee players followed by some general ones, as the pool orders
-- them, the phase transition is detected at the first general player and nowhere else, and not at all
-- if there is no marquee player or no general one.
pub detect_phase_transition_iff :
    (ms gs : List Player) (w : World)
    → w.redis.auction_queue
      ≡ some (queue_entries 0 (map (λ p. (p, marquee)) ms ++ map (λ p. (p, general)) gs))
    → detect_phase_transition w
      ≡ (current_position w.db == length ms && ltb 0 (length ms) && ltb 0 (length gs))
unfolding detect_phase_transition
detect_phase_transition_iff ms gs w c = rw (c) (go (current_position w.db))
  where
    go :
        (n : ℕ)
        → crosses
            (some (queue_entries 0 (map (λ p. (p, marquee)) ms ++ map (λ p. (p, general)) gs)))
            n
          ≡ (n == length ms && ltb 0 (length ms) && ltb 0 (length gs))
    go zero = ground arith
    go (suc n) = ground (arith, phase-marquee ms gs 0 n, phase-general ms gs 0 (suc n))
