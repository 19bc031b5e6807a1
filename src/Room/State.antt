-- ===== src/Room/State.antt =====
-- The state of one room. Redis values are held parsed: one field for each template of
-- apps/backend/src/redis/keys.ts, `none` for a missing key. Rows follow apps/backend/src/db/queries
-- and packages/database/migrations; the order of `members` is that of `joined_at`.
use ipl_auction_app.Base.{ℕ, Bool, List, ◌∷◌, Option, ℤ}
use ipl_auction_app.Rules.Types.{FranchiseName, FranchiseState, Player, BidRejectionReason}
use ipl_auction_app.Franchise.{SquadRow}

pub data AuctionState : Type 0 where
  idle player_up bidding sold unsold complete paused waiting_host : AuctionState

pub data RoomStatus : Type 0 where
  lobby active completed waiting_host terminated : RoomStatus

pub data Phase : Type 0 where
  marquee general : Phase

pub data QueueStatus : Type 0 where
  pending active sold unsold : QueueStatus

-- `QueueEntry` of queueManager.ts; positions count from 1.
pub record QueueEntry : Type 0 where
  pub player : Player
  pub phase : Phase
  pub position : ℕ

pub record Redis : Type 0 where
  pub auction_state : Option AuctionState
  pub current_player : Option Player
  pub current_bid : Option ℕ
  pub current_bidder : Option FranchiseName
  pub auction_queue : Option (List QueueEntry)
  pub timer_deadline : Option ℕ
  -- `${timerDeadline}:paused` and `auction:${roomId}:frozen_time`.
  pub timer_paused : Option ℕ
  pub frozen_time : Option ℕ
  pub bid_lock : Option ℕ
  pub franchise_state : FranchiseName → Option FranchiseState
  pub host_deadman_token : Option ℕ
  pub host_deadman_deadline : Option ℕ
  -- By user: `teardown_lock:…`, and the field of the presence hash.
  pub teardown_lock : ℕ → Bool
  pub presence : ℕ → Option Bool

pub record Room : Type 0 where
  pub host_user_id : ℕ
  pub status : RoomStatus
  pub current_queue_position : ℕ

pub record Member : Type 0 where
  pub id : ℕ
  pub user_id : ℕ
  pub franchise : Option FranchiseName
  pub wallet_remaining_lakhs : ℤ

pub record QueueRow : Type 0 where
  pub player : Player
  pub position : ℕ
  pub phase : Phase
  pub status : QueueStatus

pub record BidRow : Type 0 where
  pub player_id : ℕ
  pub room_member_id : ℕ
  pub amount_lakhs : ℕ

pub data BidEvent : Type 0 where
  auction_started auction_completed phase_transition : BidEvent
  player_up player_sold player_unsold : ℕ → BidEvent

pub record Db : Type 0 where
  pub room : Option Room
  pub members : List Member
  pub auction_queue : List QueueRow
  pub squad_players : List SquadRow
  pub bids : List BidRow
  pub bid_events : List BidEvent

-- The callbacks given to the timer: the entry that `advanceToNextPlayer` captured, or a fresh
-- `getNextPlayer` when the time comes.
pub data OnExpiry : Type 0 where
  captured : QueueEntry → OnExpiry
  refetch : OnExpiry

pub record TimerHandle : Type 0 where
  pub deadline_ms : ℕ
  pub on_expiry : OnExpiry

-- The parameters of `recordPlayerSold`.
pub record Sale : Type 0 where
  pub room_member_id : ℕ
  pub player : Player
  pub price_lakhs : ℕ

-- What waits behind a `sleep` or runs on its own: the rest of `processPlayerSold` and
-- `processPlayerUnsold` (advance), the rest of `advanceToNextPlayer` behind the interstitial
-- (present), the rest of `room:start_auction` behind the countdown (start), the check 60 seconds
-- after a user's disconnect (check_gone), and the writes that nobody awaits.
pub data Task : Type 0 where
  advance : Task
  present : QueueEntry → Task
  start : Task
  check_gone : ℕ → Task
  record_sale : Sale → Task
  record_bid : FranchiseName → ℕ → ℕ → Task

-- What is sent to the sockets.
pub data Message : Type 0 where
  player_up : Player → ℕ → ℕ → Phase → ℕ → Message
  bid_update : ℕ → ℕ → FranchiseName → Message
  bid_rejected : BidRejectionReason → Message
  player_sold : Player → ℕ → FranchiseName → ℕ → ℤ → Message
  player_unsold : Player → Message
  auction_complete : List (FranchiseName × FranchiseState) → Message
  phase_transition : List (FranchiseName × ℤ) → Message
  timer_tick auction_paused auction_resumed auction_extended : ℕ → Message
  auction_waiting_host : ℕ → ℕ → Message
  host_resumed : ℕ → Message
  auction_terminated room_error auction_starting franchise_claimed_error : Message
  franchise_claimed : ℕ → FranchiseName → Message
  user_left : ℕ → Option FranchiseName → Option ℕ → ℕ → Message
  user_joined : ℕ → Message
  presence_alert : ℕ → Message
  -- The host and the participants of a lobby, with their franchises.
  room_state_sync : ℕ → List (ℕ × Option FranchiseName) → Message

pub record World : Type 0 where
  pub redis : Redis
  pub db : Db
  -- The entry of `timers` and of `deadManTimers` for the room.
  pub timer : Option TimerHandle
  pub dead_man_timer : Option ℕ
  pub tasks : List Task
  -- Newest first.
  pub messages : List Message
  -- `Date.now()`.
  pub now : ℕ

unfoldable pub emit : Message → World → World
emit m w = record w { messages = m ∷ w.messages }

unfoldable pub spawn : Task → World → World
spawn t w = record w { tasks = t ∷ w.tasks }

unfoldable pub set_redis : (Redis → Redis) → World → World
set_redis f w = record w { redis = f w.redis }

unfoldable pub set_db : (Db → Db) → World → World
set_db f w = record w { db = f w.db }
