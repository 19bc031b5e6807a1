-- ===== src/Room/Queue/Mirror.antt =====
-- The cached queue against the rows of auction_queue.
use ipl_auction_app.Base.{
  ℕ, ◌+◌, ◌≤◌, ◌≡◌, refl, sym, ◌∙◌, ap, arith, List, [], ◌∷◌, length, Option, none, some, max,
}
use ipl_auction_app.Rules.Types.{Player}
use ipl_auction_app.Pool.{generate_calibrated_player_pool}
use ipl_auction_app.Room.State.{
  Phase, QueueRow, QueueStatus, QueueEntry, Db, World, set_redis, set_db,
}
use ipl_auction_app.Room.Rows.{
  queue_rows, set_status, update_queue_entry, advance_queue_position, reset_queue_position,
  insert_auction_queue, current_position,
}
use ipl_auction_app.Room.Queue.{
  queue_entries, entries_of_rows, rebuild_queue, initialize_queue, get_next_player, mark_active,
  advance_queue,
}

-- The queue in Redis is the one that the rows give.
abbrev pub IsMirrored : World → Type 0
IsMirrored w = w.redis.auction_queue ≡ rebuild_queue w.db

rows-entries :
    (n : ℕ) (ordered : List (Player × Phase))
    → queue_entries n ordered ≡ entries_of_rows (queue_rows n ordered)
unfolding queue_entries entries_of_rows queue_rows
rows-entries n [] = refl
rows-entries n ((p, phase) ∷ rest) = ground (arith, rows-entries (n + 1) rest)

set_status-entries :
    (outcome : QueueStatus) (position : ℕ) (rows : List QueueRow)
    → entries_of_rows (set_status outcome position rows) ≡ entries_of_rows rows
unfolding entries_of_rows set_status
set_status-entries outcome position [] = refl
set_status-entries outcome position (r ∷ rows) =
    ground (arith, set_status-entries outcome position rows)

update-rebuild :
    (outcome : QueueStatus) (position : ℕ) (rows : List QueueRow) (db : Db)
    → rebuild_queue (record db { auction_queue = set_status outcome position rows })
      ≡ rebuild_queue (record db { auction_queue = rows })
unfolding rebuild_queue set_status
update-rebuild outcome position [] db = refl
update-rebuild outcome position (r ∷ rows) db =
    ap some (set_status-entries outcome position (r ∷ rows))

advance-rebuild : (db : Db) → rebuild_queue (advance_queue_position db) ≡ rebuild_queue db
unfolding rebuild_queue advance_queue_position
advance-rebuild db = ground arith

insert-rebuild :
    (ordered : List (Player × Phase)) (db : Db)
    → 1 ≤ length ordered
    → some (queue_entries 0 ordered) ≡ rebuild_queue (insert_auction_queue ordered db)
unfolding rebuild_queue insert_auction_queue queue_rows
insert-rebuild [] db h = ground (arith, h)
insert-rebuild ((p, phase) ∷ rest) db h = ap some (rows-entries 0 ((p, phase) ∷ rest))

-- A queue that was just drawn, and is not empty, is mirrored: the rows give back what Redis caches.
pub initialize_queue-IsMirrored :
    (draw : ℕ → ℕ → ℕ) (marquees generals : List Player) (w : World)
    → 1
      ≤ length
          (generate_calibrated_player_pool draw marquees generals
            (max 1 (length w.db.members))).ordered_players
    → IsMirrored (initialize_queue draw marquees generals w)
unfolding initialize_queue set_redis set_db
initialize_queue-IsMirrored draw marquees generals w h =
    insert-rebuild
      (generate_calibrated_player_pool draw marquees generals
        (max 1 (length w.db.members))).ordered_players
      (reset_queue_position w.db) h

get_next_player-IsMirrored : (w : World) → IsMirrored w → IsMirrored (get_next_player w).1
unfolding get_next_player set_redis
get_next_player-IsMirrored w h = ground arith

mark_active-IsMirrored :
    (r : Option QueueEntry × World) → IsMirrored r.1 → IsMirrored (mark_active r)
unfolding mark_active set_db update_queue_entry
mark_active-IsMirrored (none, w) h = h
mark_active-IsMirrored (some e, w) h =
    h ∙ sym (update-rebuild QueueStatus.active e.position w.db.auction_queue w.db)

-- Moving on keeps the queue mirrored, which is that the rows give what Redis caches, whatever the
-- position and the outcome of the player.
pub advance_queue-IsMirrored :
    (position : ℕ) (outcome : QueueStatus) (w : World)
    → IsMirrored w
    → IsMirrored (advance_queue position outcome w)
unfolding advance_queue set_db update_queue_entry rebuild_queue
advance_queue-IsMirrored position outcome w h =
    let moved =
      set_db (λ db. advance_queue_position (update_queue_entry outcome (position + 1) db)) w in
    mark_active-IsMirrored (get_next_player moved) (
      get_next_player-IsMirrored moved (
        h
        ∙ sym (update-rebuild outcome (position + 1) w.db.auction_queue w.db)
        ∙ sym (advance-rebuild (update_queue_entry outcome (position + 1) w.db))))

-- The world after Redis lost the queue.
pub evicted : World → World
unfolding set_redis
evicted = set_redis (λ r. record r { auction_queue = none })

-- While the queue is mirrored, losing it in Redis changes neither the next player nor the queue that
-- is cached after asking for it.
pub get_next_player-evicted :
    (w : World)
    → IsMirrored w
    → ((get_next_player (evicted w)).0 ≡ (get_next_player w).0)
      × ((get_next_player (evicted w)).1.redis.auction_queue ≡ w.redis.auction_queue)
unfolding get_next_player evicted set_redis current_position rebuild_queue
get_next_player-evicted w h = ground (arith, h)
