-- ===== src/Client/Sync.antt =====
-- `auction:state_sync_request` of apps/backend/src/socket/handlers/auctionHandler.ts: the snapshot that
-- a socket asks for when it comes back.
use ipl_auction_app.Base.{
  ℕ, zero, suc, ◌==◌, ◌&&◌, if◌then◌else◌, List, [], ◌∷◌, length, find, get_elem?, Option, none,
  some, or_else, arith, ◌≡◌,
}
use ipl_auction_app.Rules.Types.{FranchiseName, FranchiseState, Player}
use ipl_auction_app.Room.State.{AuctionState, Phase, general, QueueEntry, Redis, Room, Db, World}
use ipl_auction_app.Room.Rows.{of_user}
use ipl_auction_app.Room.Wallets.{load_franchise_state, set_franchise_state}
use ipl_auction_app.Room.Timer.{get_remaining_seconds}
use ipl_auction_app.Room.Host.{is_waiting, handle_host_reconnect}
use ipl_auction_app.Client.{AuctionStore, StateSync, sync_state}
use ipl_auction_app.Client.Feed.Live.{IsInStep}

-- `queue.findIndex(e => e.player.id === id) + 1`: 0 if it is nowhere.
unfoldable pub position_of : ℕ → List QueueEntry → ℕ
position_of id [] = 0
position_of id (e ∷ es) =
    let rest = position_of id es in
    if e.player.id == id then 1 else if rest == 0 then 0 else suc rest

-- `queue[position - 1]?.phase ?? 'general'`.
unfoldable pub phase_at : List QueueEntry → ℕ → Phase
phase_at queue zero = general
phase_at queue (suc index) = elim (get_elem? queue index) [ none ↦ general | some e ↦ e.phase ]

-- The socket's franchise, or that of the user's row.
unfoldable pub resolved : ℕ → Option FranchiseName → Db → Option FranchiseName
resolved user (some f) db = some f
resolved user none db = elim (find (of_user user) db.members) [ none ↦ none | some m ↦ m.franchise ]

load_own : Option FranchiseName → World → Option FranchiseState × World
load_own none w = (none, w)
load_own (some f) w = load_franchise_state f w

abbrev block_position : Option Player → List QueueEntry → ℕ
block_position none queue = 0
block_position (some p) queue = position_of p.id queue

-- The payload; the keys are read before the franchise's state is loaded.
snapshot : Option FranchiseState → Redis → ℕ → List QueueEntry → StateSync
snapshot mine r seconds queue =
    let position = block_position r.current_player queue in
    record {
      current_player = r.current_player;
      current_bid_lakhs = or_else r.current_bid 0;
      current_bidder = r.current_bidder;
      seconds_left = seconds;
      auction_phase = phase_at queue position;
      auction_state = or_else r.auction_state AuctionState.idle;
      my_franchise_state = mine;
      queue_position = position;
      queue_total = length queue;
    }

abbrev resumed : ℕ → Room → World → World
resumed user room w =
    if is_waiting room.status && room.host_user_id == user
    then (handle_host_reconnect user w).1
    else w

-- `none` if there is no room.
unfoldable pub request_sync : ℕ → Option FranchiseName → World → Option StateSync × World
unfolding load_own snapshot position_of phase_at resolved
request_sync user franchise w = elim w.db.room [
  | none ↦ (none, w)
  | some room ↦
      let w1 = resumed user room w in
      let (mine, w2) = load_own (resolved user franchise w1.db) w1 in
      (
        some
            (snapshot mine w1.redis (get_remaining_seconds w1) (or_else w2.redis.auction_queue [])),
        w2,
      )
]

load_own-keys :
    (o : Option FranchiseName) (w : World)
    → ((load_own o w).1.redis.current_player ≡ w.redis.current_player)
      × ((load_own o w).1.redis.current_bid ≡ w.redis.current_bid)
      × ((load_own o w).1.redis.current_bidder ≡ w.redis.current_bidder)
      × ((load_own o w).1.redis.auction_state ≡ w.redis.auction_state)
unfolding load_own load_franchise_state set_franchise_state
load_own-keys none w = ground arith
load_own-keys (some f) w = ground arith

-- A request in a room is answered, and a browser that is sent the snapshot shows what Redis then holds,
-- whatever it showed before and even if the request resumed the auction, provided that Redis holds a bid
-- and a state.
pub request_sync-IsInStep :
    (user n : ℕ) (f : Option FranchiseName) (room : Room) (a : AuctionState) (w : World)
    (s : AuctionStore)
    → w.db.room ≡ some room
    → (request_sync user f w).1.redis.current_bid ≡ some n
    → (request_sync user f w).1.redis.auction_state ≡ some a
    → (payload : StateSync) × ((request_sync user f w).0 ≡ some payload)
      × IsInStep (request_sync user f w).1 (sync_state payload s)
unfolding request_sync sync_state snapshot
request_sync-IsInStep user n f room a w s e b t =
    let w1 = resumed user room w in
    let (mine, w2) = load_own (resolved user f w1.db) w1 in
    let keys = load_own-keys (resolved user f w1.db) w1 in
    let payload =
      snapshot mine w1.redis (get_remaining_seconds w1) (or_else w2.redis.auction_queue []) in
    (payload, ground (arith, e), ground (arith, e, b, t, keys))
