-- ===== src/Client/Feed/Live.antt =====
-- The browser keeps in step with the room while a player is on the block.
use ipl_auction_app.Base.{ℕ, ◌<◌, ◌≡◌, refl, ◌∙◌, inl, inr, arith, some, Option-cases, []}
use ipl_auction_app.Rules.Types.{FranchiseName, BidRejectionReason}
use ipl_auction_app.Room.State.{QueueEntry, Message, RoomStatus, Room, World, OnExpiry, emit}
use ipl_auction_app.Room.Timer.{
  start_timer, reset_timer, pause_timer, resume_timer, extend_timer, get_remaining_seconds,
}
use ipl_auction_app.Room.Host.{
  start_recovery, handle_host_disconnect, recover, handle_host_reconnect,
}
use ipl_auction_app.Room.Rows.{update_room_status}
use ipl_auction_app.Room.Wallets.{load_franchise_state, set_franchise_state}
use ipl_auction_app.Room.Engine.{present_player}
use ipl_auction_app.Room.Bids.{
  BidRequest, BidCheck, passed, rejected, ignored, place_bid, check_bid, after_check, commit_bid,
  write_bid, acquire_bid_lock, release_bid_lock,
}
use ipl_auction_app.Client.{AuctionStore}
use ipl_auction_app.Client.Feed.{on_message, play}

-- The store shows what Redis holds of the player on the block.
pub record IsInStep (w : World) (s : AuctionStore) : Type 0 where
  pub player : w.redis.current_player ≡ s.current_player
  pub bid : w.redis.current_bid ≡ some s.current_bid_lakhs
  pub bidder : w.redis.current_bidder ≡ s.current_bidder
  pub state : w.redis.auction_state ≡ some s.auction_state

-- The messages of a step reach the store in their order, and none is left.
abbrev pub delivered : World → World
delivered w = record w { messages = [] }

-- The host's connection is lost, and the host is back at the given time.
abbrev pub absence : ℕ → ℕ → ℕ → World → World
absence token t host w =
    (handle_host_reconnect host (record (handle_host_disconnect token host w) { now = t })).1

-- What happens while a player is on the block, or puts one there. The last is an absence of the host,
-- whose connection is lost while the timer has seconds left, and who returns.
pub data Live : World → World → Type 0 where
  presents : (e : QueueEntry) (w : World) → Live w (present_player e w)
  bids : (token : ℕ) (q : BidRequest) (w : World) → Live w (place_bid token q w)
  pauses : (w : World) → Live w (pause_timer w).1
  resumes : (x : OnExpiry) (w : World) → Live w (resume_timer x w)
  extends : (n : ℕ) (x : OnExpiry) (w : World) → Live w (extend_timer n x w).1
  passes : (t : ℕ) (w : World) → Live w (record w { now = t })
  returns :
      (token t : ℕ) (r : Room) (w : World)
      → w.db.room ≡ some r
      → r.status ≡ RoomStatus.active
      → 0 < get_remaining_seconds w
      → Live w (absence token t r.host_user_id w)

-- The room and a browser that started with `s`.
pub data Lives (w : World) (s : AuctionStore) : World → AuctionStore → Type 0 where
  here : Lives w s w s
  more :
      {v u : World} {r : AuctionStore}
      → Lives w s v r
      → Live v u
      → Lives w s (delivered u) (play u.messages r)

-- The checks in front of the lock send nothing, and write franchise states at most.
record IsQuiet (w v : World) : Type 0 where
  messages : v.messages ≡ w.messages
  player : v.redis.current_player ≡ w.redis.current_player
  bid : v.redis.current_bid ≡ w.redis.current_bid
  bidder : v.redis.current_bidder ≡ w.redis.current_bidder
  state : v.redis.auction_state ≡ w.redis.auction_state

load-IsQuiet : (f : FranchiseName) (w : World) → IsQuiet w (load_franchise_state f w).1
unfolding load_franchise_state set_franchise_state
load-IsQuiet f w = ground arith

check_bid-IsQuiet : (q : BidRequest) (w : World) → IsQuiet w (check_bid q w).1
unfolding check_bid
check_bid-IsQuiet q w = elim (Option-cases q.franchise) [
  | inl none_yet ↦ ground arith
  | inr (f, own) ↦ ground (arith, load-IsQuiet f w)
]

module _ (w : World) (s : AuctionStore) (i : IsInStep w s) (e : w.messages ≡ []) where
  presents-IsInStep :
      (q : QueueEntry) → let v = present_player q w in IsInStep (delivered v) (play v.messages s)
  unfolding present_player start_timer play on_message
  presents-IsInStep q = ground (arith, e)

  pauses-IsInStep : let v = (pause_timer w).1 in IsInStep (delivered v) (play v.messages s)
  unfolding pause_timer play on_message
  pauses-IsInStep = ground (arith, e, i.player, i.bid, i.bidder, i.state)

  resumes-IsInStep :
      (x : OnExpiry) → let v = resume_timer x w in IsInStep (delivered v) (play v.messages s)
  unfolding resume_timer start_timer play on_message
  resumes-IsInStep x = ground (arith, e, i.player, i.bid, i.bidder, i.state)

  extends-IsInStep :
      (n : ℕ) (x : OnExpiry)
      → let v = (extend_timer n x w).1 in IsInStep (delivered v) (play v.messages s)
  unfolding extend_timer start_timer play on_message
  extends-IsInStep n x = ground (arith, e, i.player, i.bid, i.bidder, i.state)

  commits-IsInStep :
      (token : ℕ) (q : BidRequest) (f : FranchiseName)
      → let v = commit_bid token q f w in IsInStep (delivered v) (play v.messages s)
  unfolding commit_bid acquire_bid_lock write_bid release_bid_lock reset_timer start_timer play
      on_message
  commits-IsInStep token q f = ground (arith, e, i.player, i.bid, i.bidder, i.state)

  rejects-IsInStep :
      (r : BidRejectionReason)
      → let v = emit (Message.bid_rejected r) w in IsInStep (delivered v) (play v.messages s)
  unfolding emit play on_message
  rejects-IsInStep r = ground (arith, e, i.player, i.bid, i.bidder, i.state)

  returns-IsInStep :
      (token t : ℕ) (r : Room)
      → w.db.room ≡ some r
      → r.status ≡ RoomStatus.active
      → 0 < get_remaining_seconds w
      → let v = absence token t r.host_user_id w in IsInStep (delivered v) (play v.messages s)
  unfolding handle_host_disconnect handle_host_reconnect update_room_status recover start_recovery
      pause_timer resume_timer start_timer play on_message
  returns-IsInStep token t r room active left =
      ground (arith, e, i.player, i.bid, i.bidder, i.state, room, active, left)

  stays-IsInStep : IsInStep (delivered w) (play w.messages s)
  unfolding play
  stays-IsInStep = ground (arith, e, i.player, i.bid, i.bidder, i.state)

quiet-IsInStep : {w v : World} {s : AuctionStore} → IsQuiet w v → IsInStep w s → IsInStep v s
quiet-IsInStep k i = record {
  player = k.player ∙ i.player;
  bid = k.bid ∙ i.bid;
  bidder = k.bidder ∙ i.bidder;
  state = k.state ∙ i.state;
}

bids-IsInStep :
    (token : ℕ) (q : BidRequest) (w : World) (s : AuctionStore)
    → IsInStep w s
    → w.messages ≡ []
    → let v = place_bid token q w in IsInStep (delivered v) (play v.messages s)
unfolding place_bid after_check
bids-IsInStep token q w s i e =
    let k = check_bid-IsQuiet q w in
    go (check_bid q w).0 (check_bid q w).1 (quiet-IsInStep k i) (k.messages ∙ e)
  where
    go :
        (b : BidCheck) (v : World)
        → IsInStep v s
        → v.messages ≡ []
        → let u = after_check token q (b, v) in IsInStep (delivered u) (play u.messages s)
    go (passed f) v j n = commits-IsInStep v s j n token q f
    go (rejected r) v j n = rejects-IsInStep v s j n r
    go ignored v j n = stays-IsInStep v s j n

Live-IsInStep :
    {w v : World} (s : AuctionStore)
    → Live w v
    → IsInStep w s
    → w.messages ≡ []
    → IsInStep (delivered v) (play v.messages s)
unfolding play
Live-IsInStep s (presents q w) i e = presents-IsInStep w s i e q
Live-IsInStep s (bids token q w) i e = bids-IsInStep token q w s i e
Live-IsInStep s (pauses w) i e = pauses-IsInStep w s i e
Live-IsInStep s (resumes x w) i e = resumes-IsInStep w s i e x
Live-IsInStep s (extends n x w) i e = extends-IsInStep w s i e n x
Live-IsInStep s (returns token t r w room active left) i e =
    returns-IsInStep w s i e token t r room active left
Live-IsInStep s (passes t w) i e = ground (arith, e, i.player, i.bid, i.bidder, i.state)

Lives-empty : {w v : World} {s r : AuctionStore} → Lives w s v r → w.messages ≡ [] → v.messages ≡ []
Lives-empty here e = e
Lives-empty (more l x) e = refl

-- A browser that shows the player, the bid, the bidder and the state that Redis holds goes on showing
-- them, when every message reaches it in order, through any sequence of new players, bids, pauses,
-- resumptions, extensions, waiting, and absences of the host of an active room that begin while the timer
-- has seconds left and end with the host's return, if nothing else happens in the absence.
pub live-IsInStep :
    {w : World} {s : AuctionStore} {v : World} {r : AuctionStore}
    → IsInStep w s
    → w.messages ≡ []
    → Lives w s v r
    → IsInStep v r
live-IsInStep i e here = i
live-IsInStep i e (more {r} l x) = Live-IsInStep r x (live-IsInStep i e l) (Lives-empty l e)
