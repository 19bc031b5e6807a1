-- ===== src/Room/Timer.antt =====
-- apps/backend/src/services/timerService.ts on one room. The interval's callback also runs the
-- expiry and so is `tick` of Room/Engine.antt.
pub mod Laws
use ipl_auction_app.Base.{ℕ, ◌+◌, ◌-◌, ◌*◌, ◌/◌, ltb, if◌then◌else◌, Option, none, some}
use ipl_auction_app.Room.State.{
  AuctionState, Redis, World, OnExpiry, emit, set_redis, timer_tick, auction_paused,
  auction_resumed, auction_extended,
}

abbrev pub bid_reset_timer_seconds : ℕ
bid_reset_timer_seconds = 10

-- `Math.max(0, Math.ceil((deadline - now) / 1000))`.
unfoldable pub seconds_until : ℕ → ℕ → ℕ
seconds_until deadline now = (deadline - now + 999) / 1000

unfoldable pub clear_timer : World → World
clear_timer w = record w { timer = none }

unfoldable pub set_auction_state : AuctionState → World → World
unfolding set_redis
set_auction_state s = set_redis λ r. record r { auction_state = some s }

unfoldable pub start_timer : ℕ → OnExpiry → World → World
unfolding emit set_redis clear_timer
start_timer duration on_expiry w =
    let deadline = w.now + duration * 1000 in
    let w' =
      emit (timer_tick duration)
        (set_redis (λ r. record r { timer_deadline = some deadline }) (clear_timer w)) in
    record w' { timer = some (record { deadline_ms = deadline; on_expiry = on_expiry }) }

unfoldable pub reset_timer : OnExpiry → World → World
reset_timer = start_timer bid_reset_timer_seconds

-- The remaining time by the absolute deadline.
unfoldable pub running_seconds : Redis → ℕ → ℕ
unfolding seconds_until
running_seconds r now = elim r.timer_deadline [ none ↦ 0 | some d ↦ seconds_until d now ]

-- A stored number of seconds counts if it is positive.
abbrev pub stored_or : Option ℕ → ℕ → ℕ
stored_or none rest = rest
stored_or (some s) rest = if ltb 0 s then s else rest

unfoldable pub get_remaining_seconds : World → ℕ
unfolding running_seconds
get_remaining_seconds w =
    stored_or w.redis.timer_paused (stored_or w.redis.frozen_time (running_seconds w.redis w.now))

unfoldable pub pause_timer : World → ℕ × World
unfolding emit clear_timer set_auction_state set_redis
pause_timer w =
    let remaining = get_remaining_seconds w in
    let w' = clear_timer w in
    if ltb 0 remaining
    then (
      remaining,
      emit (auction_paused remaining) (
          emit (timer_tick remaining) (
            set_auction_state AuctionState.paused (
              set_redis (λ r. record r { timer_paused = some remaining; timer_deadline = none })
                w'))),
    )
    else (remaining, w')

unfoldable pub resume_timer : OnExpiry → World → World
unfolding emit start_timer set_auction_state set_redis
resume_timer on_expiry w =
    let remaining = stored_or w.redis.timer_paused 0 in
    if ltb 0 remaining
    then start_timer remaining on_expiry (
        emit (auction_resumed remaining) (
          set_auction_state AuctionState.bidding
            (set_redis (λ r. record r { timer_paused = none }) w)))
    else w

unfoldable pub extend_timer : ℕ → OnExpiry → World → ℕ × World
unfolding emit start_timer
extend_timer extra on_expiry w =
    let new_duration = get_remaining_seconds w + extra in
    (
      new_duration,
      start_timer new_duration on_expiry
          (emit (auction_extended new_duration) (emit (timer_tick new_duration) w)),
    )
