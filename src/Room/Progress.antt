-- ===== src/Room/Progress.antt =====
-- That an auction comes to its end: the rounds of the queue, one after the other.
pub mod Ending
pub mod Expiry
pub mod Rounds
pub mod Start
use ipl_auction_app.Base.{ℕ, zero, suc, Bool, true, false, List, [], ◌∷◌, Option, none, some}
use ipl_auction_app.Room.State.{Task, World, advance, present, start}
use ipl_auction_app.Room.Engine.{tick, advance_to_next_player, present_player}

-- The continuations of the engine.
abbrev pub is_engine : Task → Bool
is_engine advance = true
is_engine (present e) = true
is_engine start = true
is_engine _ = false

-- The interval fires at the timer's deadline.
unfoldable pub expire : World → World
expire w = elim w.timer [ none ↦ w | some h ↦ tick (record w { now = h.deadline_ms }) ]

resume : List Task → World → World
resume (advance ∷ ts) w = advance_to_next_player (record w { tasks = ts })
resume (present e ∷ ts) w = present_player e (record w { tasks = ts })
resume ts w = w

-- The engine's task that was left last goes on.
unfoldable pub wake : World → World
unfolding resume
wake w = resume w.tasks w

-- A player's round: the time runs out, the pause passes, and the interstitial if there is one.
unfoldable pub round : World → World
unfolding expire wake
round w = wake (wake (expire w))
