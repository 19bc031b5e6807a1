-- ===== src/Room/Progress/Start.antt =====
-- An auction from its start to its end.
use ipl_auction_app.Base.{
  ℕ, max, ◌≡◌, ◌<◌, refl, sym, ◌∙◌, ap, subst, arith, List, [], ◌∷◌, find, length, none, some,
  false,
}
use ipl_auction_app.Rules.Types.{Player}
use ipl_auction_app.Pool.{generate_calibrated_player_pool}
use ipl_auction_app.Room.State.{QueueEntry, Phase, Room, Db, World, set_redis, set_db}
use ipl_auction_app.Room.Rows.{
  append_bid_event, current_position, reset_queue_position, insert_auction_queue,
}
use ipl_auction_app.Room.Queue.{queue_entries, initialize_queue, detect_phase_transition}
use ipl_auction_app.Room.Wallets.{init_all_franchise_states}
use ipl_auction_app.Room.Engine.{start_auction, present_player, advance_to_next_player, next_up}
use ipl_auction_app.Room.Safety.Start.{
  IsFresh, prepared, prepared-IsSafe, init_states-rest, init_states-keeps,
}
use ipl_auction_app.Room.Progress.{is_engine}
use ipl_auction_app.Room.Progress.Expiry.{get_elem?-below}
use ipl_auction_app.Room.Progress.Rounds.{
  IsUnderWay, IsOver, IsBetween, presented-IsUnderWay, next_as,
}
use ipl_auction_app.Room.Progress.Ending.{Course, Course-IsOver}

abbrev at_start : Room → Room
at_start r = record r { current_queue_position = 0 }

module _ (draw : ℕ → ℕ → ℕ) (marquees generals : List Player) where
  -- The queue that the start draws.
  abbrev pub drawn_queue : World → List QueueEntry
  drawn_queue w =
      queue_entries 0
        (generate_calibrated_player_pool draw marquees generals
          (max 1 (length w.db.members))).ordered_players

  insert-room :
      (ordered : List (Player × Phase)) (db : Db) → (insert_auction_queue ordered db).room ≡ db.room
  unfolding insert_auction_queue
  insert-room [] db = refl
  insert-room (p ∷ ps) db = refl

  prepared-IsBetween :
      (r : Room) (w : World)
      → IsFresh w
      → w.db.room ≡ some r
      → find is_engine w.tasks ≡ none
      → IsBetween (drawn_queue w) (at_start r) (prepared draw marquees generals w)
  unfolding init_all_franchise_states set_redis set_db append_bid_event initialize_queue
      reset_queue_position
  prepared-IsBetween r w h e q =
      let v = initialize_queue draw marquees generals w in
      let (d, t, a) = init_states-rest v.db.members v in
      let (tasks, cached) = init_states-keeps v.db.members v in
      record {
        safe = prepared-IsSafe draw marquees generals w h;
        place = record {
          room =
              ap (λ (x : Db). x.room) d
              ∙ insert-room _ (reset_queue_position w.db)
              ∙ ground (arith, e);
          cached = cached;
        };
        stopped = t ∙ h.no_timer;
        quiet = ap (λ ts. find is_engine ts) tasks ∙ q;
      }

  started-IsUnderWay :
      (r : Room) (w : World)
      → IsFresh w
      → w.db.room ≡ some r
      → find is_engine w.tasks ≡ none
      → 0 < length (drawn_queue w)
      → IsUnderWay (drawn_queue w) (at_start r) (start_auction draw marquees generals w)
  unfolding start_auction advance_to_next_player next_up detect_phase_transition current_position
  started-IsUnderWay r w h e q filled =
      let u = prepared draw marquees generals w in
      let b = prepared-IsBetween r w h e q in
      let (first, up) = get_elem?-below (drawn_queue w) 0 filled in
      let next = next_as (drawn_queue w) (at_start r) u b.place ∙ ap (λ o. (o, u)) up in
      let same_phase : detect_phase_transition u ≡ false =
        ground (arith, b.place.room, b.place.cached) in
      let shown : present_player first u ≡ next_up (some first, u) = ground (arith, same_phase) in
      subst (λ x. IsUnderWay (drawn_queue w) (at_start r) (next_up x)) (sym next)
        (subst (λ v. IsUnderWay (drawn_queue w) (at_start r) v) shown
          (presented-IsUnderWay (drawn_queue w) first (at_start r) u b up filled))

  -- An auction comes to its end: started in a room without franchise states, timer or tasks of the
  -- engine, with a drawn queue that is not empty, and whatever the draws of the shuffles are, it is
  -- complete with no timer running after as many rounds as the drawn queue has players, in each of which
  -- the time runs out and the engine's pauses pass, whatever bids were made before each of them.
  pub start_auction-IsOver :
      (r : Room) (w v : World)
      → IsFresh w
      → w.db.room ≡ some r
      → find is_engine w.tasks ≡ none
      → 0 < length (drawn_queue w)
      → Course (length (drawn_queue w)) (start_auction draw marquees generals w) v
      → IsOver v
  start_auction-IsOver r w v h e q filled =
      Course-IsOver (length (drawn_queue w)) (drawn_queue w) (at_start r)
        (start_auction draw marquees generals w) v (started-IsUnderWay r w h e q filled)
        (omega arith)
