-- ===== src/Room/Engine.antt =====
-- apps/backend/src/services/auctionEngine.ts, and the interval callback of timerService.ts, which
-- runs the engine when the time is up. What follows a `sleep`, and the writes that nobody awaits,
-- are tasks of the room, which `run_task` resumes.
use ipl_auction_app.Base.{
  ℕ, ◌-◌, ltb, leb, if◌then◌else◌, List, [], ◌∷◌, Option, none, some, or_else, length, ℤ,
}
use ipl_auction_app.Rules.Types.{FranchiseName, FranchiseState, Player}
use ipl_auction_app.Room.State.{
  AuctionState, RoomStatus, QueueStatus, BidEvent, QueueEntry, Redis, Member, World, OnExpiry,
  captured, refetch, advance, present, record_sale, emit, spawn, set_redis, set_db, Message,
}
use ipl_auction_app.Room.Rows.{append_bid_event, get_room_member_by_franchise, update_room_status}
use ipl_auction_app.Room.Wallets.{
  init_all_franchise_states, deduct_from_franchise_state, load_all_franchise_states,
}
use ipl_auction_app.Room.Queue.{
  initialize_queue, get_next_player, advance_queue, detect_phase_transition,
}
use ipl_auction_app.Room.Timer.{seconds_until, clear_timer, set_auction_state, start_timer}

abbrev pub log_event : BidEvent → World → World
log_event e = set_db (append_bid_event e)

unfoldable pub end_auction : World → World
unfolding set_auction_state emit set_db
end_auction w =
    let (states, w') = load_all_franchise_states (
      set_db (update_room_status RoomStatus.completed)
        (set_auction_state AuctionState.complete w)) in
    emit (Message.auction_complete states) (log_event BidEvent.auction_completed w')

-- The wallets shown in the interstitial.
budgets : Redis → List Member → List (FranchiseName × ℤ)
budgets r [] = []
budgets r (m ∷ ms) = elim m.franchise [
  | none ↦ budgets r ms
  | some f ↦ elim (r.franchise_state f) [
    | none ↦ (f, m.wallet_remaining_lakhs) ∷ budgets r ms
    | some s ↦ (f, s.wallet_remaining_lakhs) ∷ budgets r ms
  ]
]

unfoldable pub emit_phase_transition : World → World
unfolding emit set_db budgets
emit_phase_transition w =
    log_event BidEvent.phase_transition
      (emit (Message.phase_transition (budgets w.redis w.db.members)) w)

queue_total : Redis → ℕ
queue_total r = elim r.auction_queue [ none ↦ 0 | some queue ↦ length queue ]

-- `advanceToNextPlayer` from where it stores the current player.
unfoldable pub present_player : QueueEntry → World → World
unfolding emit set_redis set_db start_timer queue_total
present_player e w = start_timer 30 (captured e) (
    log_event (BidEvent.player_up e.player.id) (
      emit (Message.player_up e.player e.position (queue_total w.redis) e.phase 30) (
        set_redis
          (λ r. record r {
            current_player = some e.player;
            auction_state = some AuctionState.player_up;
            current_bid = some 0;
            current_bidder = none;
          })
          w)))

unfoldable pub next_up : Option QueueEntry × World → World
unfolding spawn
next_up (none, w) = end_auction w
next_up (some e, w) =
    if detect_phase_transition w
    then spawn (present e) (emit_phase_transition w)
    else present_player e w

unfoldable pub advance_to_next_player : World → World
unfolding next_up spawn
advance_to_next_player w = next_up (get_next_player w)

unfoldable pub process_player_unsold : QueueEntry → World → World
unfolding set_auction_state emit spawn set_db
process_player_unsold e w = spawn advance (
    log_event (BidEvent.player_unsold e.player.id) (
      emit (Message.player_unsold e.player) (
        advance_queue (e.position - 1) QueueStatus.unsold
          (set_auction_state AuctionState.unsold w))))

-- `processPlayerSold` behind `deductFromFranchiseState`; its error is caught by
-- `handleTimerExpiry`, which leaves the room as it is.
unfoldable pub complete_sale :
    QueueEntry → ℕ → FranchiseName → Member → Option FranchiseState × World → World
unfolding emit spawn
complete_sale e price f m (none, w) = w
complete_sale e price f m (some s, w) = spawn advance (
    spawn (record_sale (record { room_member_id = m.id; player = e.player; price_lakhs = price })) (
      emit (Message.player_sold e.player price f s.squad_count s.wallet_remaining_lakhs)
        (advance_queue (e.position - 1) QueueStatus.sold w)))

unfoldable pub process_player_sold : QueueEntry → ℕ → FranchiseName → World → World
unfolding set_auction_state complete_sale
process_player_sold e price f w =
    let w' = set_auction_state AuctionState.sold w in
    elim (get_room_member_by_franchise f w.db) [
      | none ↦ process_player_unsold e w'
      | some m ↦ complete_sale e price f m (deduct_from_franchise_state f price e.player w')
    ]

unfoldable pub handle_timer_expiry : QueueEntry → World → World
unfolding process_player_sold
handle_timer_expiry e w =
    let bid = or_else w.redis.current_bid 0 in
    elim w.redis.current_bidder [
      | none ↦ process_player_unsold e w
      | some f ↦
          if leb e.player.base_price_lakhs bid
          then process_player_sold e bid f w
          else process_player_unsold e w
    ]

unfoldable pub expire_next : Option QueueEntry × World → World
expire_next (none, w) = w
expire_next (some e, w) = handle_timer_expiry e w

-- The callbacks given to the timer.
unfoldable pub run_expiry : OnExpiry → World → World
unfolding expire_next
run_expiry (captured e) w = handle_timer_expiry e w
run_expiry refetch w = expire_next (get_next_player w)

-- One firing of the interval.
unfoldable pub tick : World → World
unfolding emit set_redis clear_timer
tick w = elim w.timer [
  | none ↦ w
  | some h ↦
      let left = seconds_until h.deadline_ms w.now in
      let w' = emit (Message.timer_tick left) w in
      if ltb 0 left
      then w'
      else run_expiry h.on_expiry
          (set_redis (λ r. record r { timer_deadline = none }) (clear_timer w'))
]

unfoldable pub start_auction : (ℕ → ℕ → ℕ) → List Player → List Player → World → World
unfolding set_redis set_db
start_auction draw marquees generals w = advance_to_next_player (
    log_event BidEvent.auction_started (
      set_redis
        (λ r. record r {
          auction_state = some AuctionState.idle;
          current_bid = some 0;
          current_bidder = none;
          current_player = none;
        })
        (init_all_franchise_states (initialize_queue draw marquees generals w))))
