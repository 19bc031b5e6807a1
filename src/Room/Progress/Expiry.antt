-- ===== src/Room/Progress/Expiry.antt =====
-- When the time is up, the queue's pointer moves by one and the engine has a task.
use ipl_auction_app.Base.{
  ℕ, zero, suc, subst, ◌⊎◌, ◌/◌, ◌+◌, ◌-◌, ◌≡◌, ◌≤◌, ◌<◌, refl, sym, ◌∙◌, ap, arith, List, [], ◌∷◌,
  find, length, get_elem?, Option, none, some, or_else, Option-cases, Bool-cases, leb, inl, inr,
}
use ipl_auction_app.Rules.Types.{FranchiseName, FranchiseState}
use ipl_auction_app.Franchise.{deducted}
use ipl_auction_app.Room.State.{
  AuctionState, QueueEntry, QueueStatus, Room, Task, World, Member, TimerHandle, OnExpiry, captured,
  refetch, advance, record_sale, set_redis, emit, spawn, Message,
}
use ipl_auction_app.Room.Rows.{
  get_room_member_by_franchise, advance_queue_position, update_queue_entry, append_bid_event,
  current_position,
}
use ipl_auction_app.Room.Wallets.{set_franchise_state, deduct_from_franchise_state}
use ipl_auction_app.Room.Queue.{advance_queue, get_next_player}
use ipl_auction_app.Room.Queue.Order.{get_next_player-cached}
use ipl_auction_app.Room.Timer.{set_auction_state, seconds_until, clear_timer}
use ipl_auction_app.Room.Engine.{
  process_player_sold, process_player_unsold, handle_timer_expiry, run_expiry, expire_next, tick,
}
use ipl_auction_app.Room.Safety.Invariant.{IsCached}
use ipl_auction_app.Room.Safety.Loads.{load_cached}
use ipl_auction_app.Room.Safety.Sales.{after_sale, sold_unclaimed}
use ipl_auction_app.Room.Progress.{is_engine, expire}

abbrev pub moved : Room → Room
moved r = record r { current_queue_position = r.current_queue_position + 1 }

-- The queue and the room of a world.
pub record IsAt (queue : List QueueEntry) (r : Room) (w : World) : Type 0 where
  pub room : w.db.room ≡ some r
  pub cached : w.redis.auction_queue ≡ some queue

-- The pointer has moved, the timer is as before, and the engine's task stands first.
pub record IsMoved (queue : List QueueEntry) (r : Room) (w v : World) : Type 0 where
  pub place : IsAt queue (moved r) v
  pub timer : v.timer ≡ w.timer
  pub later : List Task
  pub tasks : v.tasks ≡ advance ∷ later
  pub quiet : find is_engine later ≡ none

pub get_elem?-below :
    {A : Type 0} (xs : List A) (n : ℕ) → n < length xs → (x : A) × (get_elem? xs n ≡ some x)
get_elem?-below [] n h = absurd (omega (arith, h))
get_elem?-below (x ∷ xs) zero h = (x, refl)
get_elem?-below (x ∷ xs) (suc n) h = get_elem?-below xs n (omega (arith, h))

pub get_elem?-past : {A : Type 0} (xs : List A) (n : ℕ) → length xs ≤ n → get_elem? xs n ≡ none
get_elem?-past [] n h = refl
get_elem?-past (x ∷ xs) zero h = absurd (omega (arith, h))
get_elem?-past (x ∷ xs) (suc n) h = get_elem?-past xs n (omega (arith, h))

module _ (queue : List QueueEntry) (r : Room) where
  advance_queue-IsAt :
      (n : ℕ) (o : QueueStatus) (w : World)
      → IsAt queue r w
      → IsAt queue (moved r) (advance_queue n o w)
        × ((advance_queue n o w).timer ≡ w.timer)
        × ((advance_queue n o w).tasks ≡ w.tasks)
  unfolding advance_queue get_next_player advance_queue_position update_queue_entry
  advance_queue-IsAt n o w a = ground (arith, a.room, a.cached)

  unsold-IsMoved :
      (e : QueueEntry) (w : World)
      → IsAt queue r w
      → find is_engine w.tasks ≡ none
      → IsMoved queue r w (process_player_unsold e w)
  unfolding process_player_unsold append_bid_event set_auction_state set_redis
  unsold-IsMoved e w a q =
      let v = set_auction_state AuctionState.unsold w in
      let (b, t, s) =
        advance_queue-IsAt (e.position - 1) QueueStatus.unsold v
          (record { room = a.room; cached = a.cached }) in
      record {
        place = record { room = b.room; cached = b.cached };
        timer = t;
        later = w.tasks;
        tasks = ap (λ ts. advance ∷ ts) s;
        quiet = q;
      }

  abbrev sale_of : QueueEntry → ℕ → Member → Task
  sale_of e price m =
      record_sale (record { room_member_id = m.id; player = e.player; price_lakhs = price })

  abbrev sale_message : QueueEntry → ℕ → FranchiseName → FranchiseState → Message
  sale_message e price f s =
      let t = deducted s price e.player in
      Message.player_sold e.player price f t.squad_count t.wallet_remaining_lakhs

  sold_as :
      (e : QueueEntry) (price : ℕ) (f : FranchiseName) (s : FranchiseState) (m : Member) (w : World)
      → IsCached w
      → w.redis.franchise_state f ≡ some s
      → get_room_member_by_franchise f w.db ≡ some m
      → process_player_sold e price f w
        ≡ spawn advance (
            spawn (sale_of e price m) (
              emit
                (sale_message e price f s)
                (advance_queue (e.position - 1) QueueStatus.sold (after_sale e price f s w))))
  unfolding process_player_sold deduct_from_franchise_state set_auction_state set_redis
  sold_as e price f s m w c h k =
      ground (arith, load_cached f (set_auction_state AuctionState.sold w) c)

  claimed-IsMoved :
      (e : QueueEntry) (price : ℕ) (f : FranchiseName) (s : FranchiseState) (m : Member) (w : World)
      → IsAt queue r w
      → find is_engine w.tasks ≡ none
      → IsMoved queue r w (
          spawn advance (
            spawn (sale_of e price m) (
              emit
                (sale_message e price f s)
                (advance_queue (e.position - 1) QueueStatus.sold (after_sale e price f s w)))))
  unfolding spawn emit set_auction_state set_redis set_franchise_state
  claimed-IsMoved e price f s m w a q =
      let v = after_sale e price f s w in
      let (b, t, same) =
        advance_queue-IsAt (e.position - 1) QueueStatus.sold v
          (record { room = a.room; cached = a.cached }) in
      record {
        place = record { room = b.room; cached = b.cached };
        timer = t;
        later = sale_of e price m ∷ w.tasks;
        tasks = ap (λ ts. advance ∷ sale_of e price m ∷ ts) same;
        quiet = q;
      }

  sold-IsMoved :
      (e : QueueEntry) (price : ℕ) (f : FranchiseName) (w : World)
      → IsCached w
      → IsAt queue r w
      → find is_engine w.tasks ≡ none
      → IsMoved queue r w (process_player_sold e price f w)
  unfolding set_auction_state set_redis
  sold-IsMoved e price f w c a q =
      elim (Option-cases (get_room_member_by_franchise f w.db))
        as (λ _. IsMoved queue r w (process_player_sold e price f w)) [
          | inl unclaimed ↦
              let v = set_auction_state AuctionState.sold w in
              rw (sold_unclaimed e price f w unclaimed)
                (again (unsold-IsMoved e v (record { room = a.room; cached = a.cached }) q))
          | inr (m, k) ↦
              elim (Option-cases (w.redis.franchise_state f))
                as (λ _. IsMoved queue r w (process_player_sold e price f w)) [
                  | inl missing ↦ absurd (ground (arith, c f missing))
                  | inr (s, h) ↦
                      rw (sold_as e price f s m w c h k) (claimed-IsMoved e price f s m w a q)
                ]
        ]
    where
      again :
          {u : World}
          → IsMoved queue r (set_auction_state AuctionState.sold w) u
          → IsMoved queue r w u
      again x = record {
        place = x.place;
        timer = x.timer;
        later = x.later;
        tasks = x.tasks;
        quiet = x.quiet;
      }

  expiry_cases :
      (e : QueueEntry) (w : World)
      → (handle_timer_expiry e w ≡ process_player_unsold e w)
        ⊎ ((price : ℕ) × (f : FranchiseName) × (handle_timer_expiry e w
              ≡ process_player_sold e price f w))
  unfolding handle_timer_expiry
  expiry_cases e w = go w.redis.current_bidder refl
    where
      go :
          (o : Option FranchiseName)
          → w.redis.current_bidder ≡ o
          → (handle_timer_expiry e w ≡ process_player_unsold e w)
            ⊎ ((price : ℕ) × (f : FranchiseName) × (handle_timer_expiry e w
                  ≡ process_player_sold e price f w))
      go none k = inl (ground arith)
      go (some f) k =
          elim (Bool-cases (leb e.player.base_price_lakhs (or_else w.redis.current_bid 0))) [
            | inl high ↦ inr (or_else w.redis.current_bid 0, f, ground arith)
            | inr low ↦ inl (ground arith)
          ]

  expiry-IsMoved :
      (e : QueueEntry) (w : World)
      → IsCached w
      → IsAt queue r w
      → find is_engine w.tasks ≡ none
      → IsMoved queue r w (handle_timer_expiry e w)
  expiry-IsMoved e w c a q = elim (expiry_cases e w) [
    | inl k ↦ subst (λ v. IsMoved queue r w v) (sym k) (unsold-IsMoved e w a q)
    | inr (price, f, k) ↦ subst (λ v. IsMoved queue r w v) (sym k) (sold-IsMoved e price f w c a q)
  ]

  -- The room in which an expiry resolves the player.
  abbrev stopped : TimerHandle → World → World
  stopped h w =
      set_redis (λ x. record x { timer_deadline = none })
        (clear_timer (emit (Message.timer_tick 0) (record w { now = h.deadline_ms })))

  expired_as :
      (h : TimerHandle) (w : World)
      → w.timer ≡ some h
      → expire w ≡ run_expiry h.on_expiry (stopped h w)
  unfolding expire tick seconds_until
  expired_as h w t =
      let over : (h.deadline_ms - h.deadline_ms + 999) / 1000 ≡ 0 = omega arith in
      ground (arith, t, over)

  run-IsMoved :
      (x : OnExpiry) (w : World)
      → IsCached w
      → IsAt queue r w
      → find is_engine w.tasks ≡ none
      → r.current_queue_position < length queue
      → IsMoved queue r w (run_expiry x w)
  unfolding run_expiry expire_next current_position
  run-IsMoved (captured e) w c a q below = expiry-IsMoved e w c a q
  run-IsMoved refetch w c a q below =
      let (e, k) = get_elem?-below queue r.current_queue_position below in
      let next : get_next_player w ≡ (some e, w) =
        get_next_player-cached queue w a.cached
        ∙ ap (λ o. (o, w))
            (ap
                (λ db_room.
                  get_elem? queue (elim db_room [ none ↦ 0 | some y ↦ y.current_queue_position ]))
                a.room
              ∙ k) in
      subst (λ o. IsMoved queue r w (expire_next o)) (sym next) (expiry-IsMoved e w c a q)

  -- At the deadline of a timer over an entry of the queue, the pointer moves, the timer stops, and the
  -- engine's task stands first.
  pub expire-IsMoved :
      (w : World) (h : TimerHandle)
      → IsCached w
      → IsAt queue r w
      → find is_engine w.tasks ≡ none
      → r.current_queue_position < length queue
      → w.timer ≡ some h
      → IsMoved queue r (stopped h w) (expire w)
  unfolding set_redis clear_timer emit get_room_member_by_franchise
  expire-IsMoved w h c a q below t =
      subst (λ v. IsMoved queue r (stopped h w) v) (sym (expired_as h w t))
        (run-IsMoved h.on_expiry (stopped h w) c (record { room = a.room; cached = a.cached }) q
          below)
