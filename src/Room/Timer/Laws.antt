-- ===== src/Room/Timer/Laws.antt =====
-- What the countdown promises: deadlines, the freeze of a pause, and the reset of a bid.
use ipl_auction_app.Base.{ℕ, ◌+◌, ◌-◌, ◌*◌, ◌/◌, ◌≤◌, ◌<◌, ◌≡◌, none, some, arith}
use ipl_auction_app.Room.State.{AuctionState, World, OnExpiry}
use ipl_auction_app.Room.Timer.{
  seconds_until, start_timer, get_remaining_seconds, pause_timer, resume_timer, extend_timer,
}

-- The seconds shown reach the deadline, and one second less, where there is one, does not.
pub seconds_until_bounds :
    (deadline now : ℕ)
    → (deadline ≤ now + seconds_until deadline now * 1000)
      × (0 < seconds_until deadline now → now + (seconds_until deadline now - 1) * 1000 < deadline)
unfolding seconds_until
seconds_until_bounds deadline now = (omega arith, λ h. omega arith)

-- No pause is stored.
pub record IsRunning (w : World) : Type 0 where
  pub not_paused : w.redis.timer_paused ≡ none
  pub not_frozen : w.redis.frozen_time ≡ none

-- If no pause and no frozen time is stored, a timer of `n` seconds shows, `t` milliseconds later, `n` seconds less `t`,
-- rounded up, and 0 from the deadline on.
pub start-remaining :
    (n t : ℕ) (x : OnExpiry) (w : World)
    → IsRunning w
    → let v = start_timer n x w in
      get_remaining_seconds (record v { now = w.now + t }) ≡ (n * 1000 - t + 999) / 1000
unfolding start_timer get_remaining_seconds seconds_until
start-remaining n t x w r = ground arith

-- A pause, with seconds left and nothing stored as frozen time, freezes the countdown: however long it lasts, the seconds shown stay those of its start, and
-- the resumed timer starts from them, in a room that takes bids again.
pub pause-resume :
    (t : ℕ) (x : OnExpiry) (w : World)
    → w.redis.frozen_time ≡ none
    → 0 < get_remaining_seconds w
    → let p = (pause_timer w).1 in
      let later = record p { now = w.now + t } in
      let v = resume_timer x later in
      (p.timer ≡ none)
      × (p.redis.auction_state ≡ some AuctionState.paused)
      × (get_remaining_seconds later ≡ get_remaining_seconds w)
      × (get_remaining_seconds v ≡ get_remaining_seconds w)
      × (v.redis.auction_state ≡ some AuctionState.bidding)
      × (v.timer
          ≡ some
              (record { deadline_ms = w.now + t + get_remaining_seconds w * 1000; on_expiry = x }))
unfolding pause_timer resume_timer get_remaining_seconds
pause-resume t x w f h = ground arith

-- If no pause and no frozen time is stored, an extension adds its seconds to those that are left, whatever they are.
pub extend-remaining :
    (n : ℕ) (x : OnExpiry) (w : World)
    → IsRunning w
    → let v = (extend_timer n x w).1 in
      (get_remaining_seconds v ≡ get_remaining_seconds w + n)
      × ((extend_timer n x w).0 ≡ get_remaining_seconds w + n)
unfolding extend_timer get_remaining_seconds seconds_until
extend-remaining n x w r = ground arith

-- An extension of a timer paused with seconds left starts the countdown without leaving the pause: the auction stays in
-- the state that takes no bids, and the stored pause stays what clients are shown.
pub extend-paused :
    (n k : ℕ) (x : OnExpiry) (w : World)
    → w.redis.auction_state ≡ some AuctionState.paused
    → w.redis.timer_paused ≡ some k
    → 0 < k
    → let v = (extend_timer n x w).1 in
      (v.timer ≡ some (record { deadline_ms = w.now + (k + n) * 1000; on_expiry = x }))
      × (v.redis.auction_state ≡ some AuctionState.paused)
      × (get_remaining_seconds v ≡ k)
unfolding extend_timer get_remaining_seconds
extend-paused n k x w s p h = ground arith
