-- ===== src/Room/Queue.antt =====
-- The queue of apps/backend/src/services/queueManager.ts over Redis and PostgreSQL.
pub mod Mirror
pub mod Order
use ipl_auction_app.Base.{
  ℕ, zero, suc, ◌+◌, max, Bool, true, false, ◌&&◌, List, [], ◌∷◌, Option, none, some, length,
  get_elem?,
}
use ipl_auction_app.Rules.Types.{Player}
use ipl_auction_app.Pool.{generate_calibrated_player_pool}
use ipl_auction_app.Room.State.{
  AuctionState, Phase, marquee, general, QueueEntry, QueueRow, QueueStatus, Db, World, set_redis,
  set_db,
}
use ipl_auction_app.Room.Rows.{
  current_position, reset_queue_position, advance_queue_position, update_queue_entry,
  insert_auction_queue,
}

-- `orderedPlayers.map((item, index) => ({ …, position: index + 1 }))`.
unfoldable pub queue_entries : ℕ → List (Player × Phase) → List QueueEntry
queue_entries index [] = []
queue_entries index ((p, phase) ∷ rest) =
    record { player = p; phase = phase; position = index + 1 } ∷ queue_entries (index + 1) rest

-- `initializeQueue`, with the players that `getAllPlayers` returned.
unfoldable pub initialize_queue : (ℕ → ℕ → ℕ) → List Player → List Player → World → World
unfolding queue_entries
initialize_queue draw marquees generals w =
    let participants = max 1 (length w.db.members) in
    let ordered =
      (generate_calibrated_player_pool draw marquees generals participants).ordered_players in
    set_redis
      (λ r. record r {
        auction_queue = some (queue_entries 0 ordered);
        auction_state = some AuctionState.idle;
        current_bid = some 0;
      })
      (set_db (λ db. insert_auction_queue ordered (reset_queue_position db)) w)

abbrev pub entry_of_row : QueueRow → QueueEntry
entry_of_row row = record { player = row.player; phase = row.phase; position = row.position }

entries_of_rows : List QueueRow → List QueueEntry
entries_of_rows [] = []
entries_of_rows (r ∷ rows) = entry_of_row r ∷ entries_of_rows rows

-- The rows stand in the order of their positions.
unfoldable pub rebuild_queue : Db → Option (List QueueEntry)
unfolding entries_of_rows
rebuild_queue db = elim db.auction_queue [
  | [] ↦ none
  | r ∷ rows ↦ some (entries_of_rows (r ∷ rows))
]

unfoldable pub get_next_player : World → Option QueueEntry × World
unfolding set_redis
get_next_player w = elim w.redis.auction_queue [
  | some queue ↦ (get_elem? queue (current_position w.db), w)
  | none ↦ elim (rebuild_queue w.db) [
    | none ↦ (none, w)
    | some queue ↦ (
      get_elem? queue (current_position w.db),
      set_redis (λ r. record r { auction_queue = some queue }) w,
    )
  ]
]

mark_active : Option QueueEntry × World → World
unfolding set_db
mark_active (none, w) = w
mark_active (some e, w) = set_db (update_queue_entry QueueStatus.active e.position) w

-- `currentPosition` counts from 0, the rows from 1.
unfoldable pub advance_queue : ℕ → QueueStatus → World → World
unfolding set_db mark_active
advance_queue position outcome w = mark_active (
    get_next_player
      (set_db (λ db. advance_queue_position (update_queue_entry outcome (position + 1) db)) w))

is_phase : Phase → Option QueueEntry → Bool
is_phase phase none = false
is_phase marquee (some e) = elim e.phase [ marquee ↦ true | general ↦ false ]
is_phase general (some e) = elim e.phase [ marquee ↦ false | general ↦ true ]

crosses : Option (List QueueEntry) → ℕ → Bool
unfolding is_phase
crosses none position = false
crosses (some queue) zero = false
crosses (some queue) (suc before) =
    is_phase general (get_elem? queue (suc before)) && is_phase marquee (get_elem? queue before)

unfoldable pub detect_phase_transition : World → Bool
unfolding crosses
detect_phase_transition w = crosses w.redis.auction_queue (current_position w.db)
