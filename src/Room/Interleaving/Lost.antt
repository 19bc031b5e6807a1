-- ===== src/Room/Interleaving/Lost.antt =====
-- Handlers whose lock is deleted under them by the departure of a third user.
use ipl_auction_app.Base.{
  ℕ, ◌<◌, ◌==◌, ◌≡◌, ◌≢◌, ◌∙◌, arith, false, List, [], ◌∷◌, none, some, ==-refl,
}
use ipl_auction_app.Room.State.{World, Room, RoomStatus, emit, set_redis}
use ipl_auction_app.Room.Rows.{remove_member_from_room}
use ipl_auction_app.Room.Bids.{acquire_bid_lock}
use ipl_auction_app.Room.Lobby.{teardown_manager, run_teardown}
use ipl_auction_app.Room.Faults.{teardown-releases}
use ipl_auction_app.Room.Interleaving.{
  checked, reread, Bid, standing, proceed, put_amount, Handlers, Event, turn, elsewhere, happen,
  play_events,
}

-- Two turns take a free lock and read the bid.
taken :
    (bids : ℕ → Bid) (i : ℕ) (c : Handlers)
    → c.stage i ≡ checked
    → c.world.redis.bid_lock ≡ none
    → let v = play_events bids (turn i ∷ turn i ∷ []) c in
      (v.stage i ≡ reread (standing c.world))
      × (standing v.world ≡ standing c.world)
      × (v.world.db ≡ c.world.db)
      × (v.world.redis.teardown_lock ≡ c.world.redis.teardown_lock)
      × ((j : ℕ) → (j == i) ≡ false → v.stage j ≡ c.stage j)
unfolding play_events happen proceed acquire_bid_lock set_redis
taken bids i c h free = (
  ground (arith, h, free, ==-refl i),
  ground (arith, h, free, ==-refl i),
  ground (arith, h, free, ==-refl i),
  ground (arith, h, free, ==-refl i),
  λ j far. ground (arith, h, free, ==-refl i, far),
)

-- The third writes a higher one.
raised :
    (bids : ℕ → Bid) (i fresh : ℕ) (c : Handlers)
    → c.stage i ≡ reread fresh
    → fresh < (bids i).request.amount_lakhs
    → let v = happen bids (turn i) c in
      (standing v.world ≡ (bids i).request.amount_lakhs)
      × ((j : ℕ) → (j == i) ≡ false → v.stage j ≡ c.stage j)
unfolding happen proceed put_amount set_redis emit
raised bids i fresh c h more =
    (ground (arith, h, ==-refl i), λ j far. ground (arith, h, ==-refl i, far))

teardown-standing :
    (token user : ℕ) (r : Room) (w : World)
    → w.db.room ≡ some r
    → r.status ≡ RoomStatus.active
    → r.host_user_id ≢ user
    → w.redis.teardown_lock user ≡ false
    → standing (teardown_manager token user w).1 ≡ standing w
unfolding teardown_manager run_teardown remove_member_from_room
teardown-standing token user r w e a h l = ground arith

-- The departure of the user, as an event.
abbrev pub departs : ℕ → ℕ → Event
departs token user = elsewhere λ w. (teardown_manager token user w).1

-- One handler has read the bid, the user departs, another handler reads and writes, the first writes.
abbrev pub meanwhile : ℕ → ℕ → ℕ → ℕ → List Event
meanwhile token user i j = turn i ∷ turn i ∷ departs token user ∷ turn j ∷ turn j ∷ turn j ∷ []

-- In an active room where two handlers have passed their checks and the lock is free, bids above the
-- standing one: if a user who is not the host departs while the first handler is between its
-- reading and its writing, then the second handler's bid, which is the higher one, stands, and the
-- first handler's next turn puts its lower bid in its place.
pub departure-lowers :
    (bids : ℕ → Bid) (i j token user : ℕ) (r : Room) (c : Handlers)
    → i ≢ j
    → (c.stage i ≡ checked) × (c.stage j ≡ checked)
    → c.world.redis.bid_lock ≡ none
    → c.world.db.room ≡ some r
    → r.status ≡ RoomStatus.active
    → r.host_user_id ≢ user
    → c.world.redis.teardown_lock user ≡ false
    → standing c.world < (bids i).request.amount_lakhs
    → (bids i).request.amount_lakhs < (bids j).request.amount_lakhs
    → let v = play_events bids (meanwhile token user i j) c in
      (standing v.world ≡ (bids j).request.amount_lakhs)
      × (standing (happen bids (turn i) v).world ≡ (bids i).request.amount_lakhs)
unfolding play_events
departure-lowers bids i j token user r c far (hi, hj) free room active guest idle more higher =
    let apart : (j == i) ≡ false = ground arith in
    let apart' : (i == j) ≡ false = ground arith in
    let v1 = happen bids (turn i) (happen bids (turn i) c) in
    let (si, bid1, db1, tl1, others1) = taken bids i c hi free in
    let room1 : v1.world.db.room ≡ some r = ground (arith, db1, room) in
    let idle1 : v1.world.redis.teardown_lock user ≡ false = ground (arith, tl1, idle) in
    let v2 = gone v1 in
    let free2 : v2.world.redis.bid_lock ≡ none =
      teardown-releases token user r v1.world room1 active guest idle1 in
    let bid2 : standing v2.world ≡ standing v1.world =
      teardown-standing token user r v1.world room1 active guest idle1 in
    let sj2 : v2.stage j ≡ checked = others1 j apart ∙ hj in
    let v3 = happen bids (turn j) (happen bids (turn j) v2) in
    let (sj3, bid3, db3, tl3, others3) = taken bids j v2 sj2 free2 in
    let si3 : v3.stage i ≡ reread (standing c.world) = others3 i apart' ∙ si in
    let (bid4, others4) =
      raised bids j (standing v2.world) v3 sj3 (omega (arith, bid1, bid2, more, higher)) in
    let v4 = happen bids (turn j) v3 in
    let si4 : v4.stage i ≡ reread (standing c.world) = others4 i apart' ∙ si3 in
    (bid4, (raised bids i (standing c.world) v4 si4 more).0)
  where
    gone : Handlers → Handlers
    gone v = record v { world = (teardown_manager token user v.world).1 }
