-- ===== src/Room/Safety/Rounds.antt =====
-- The resolution of a player and the presentation of the next keep the invariant.
use ipl_auction_app.Base.{
  ◌≡◌, refl, sym, ◌∙◌, ap, subst, inl, inr, Bool-cases, eq_of_some, Option, none, some, arith,
}
use ipl_auction_app.Rules.Types.{Player, FranchiseName}
use ipl_auction_app.Room.State.{
  RoomStatus, AuctionState, QueueEntry, Db, World, OnExpiry, captured, refetch, present, emit,
  spawn, set_redis, set_db,
}
use ipl_auction_app.Room.Rows.{
  get_room_member_by_franchise, append_bid_event, current_position, update_room_status,
}
use ipl_auction_app.Room.Wallets.{load_all_franchise_states}
use ipl_auction_app.Room.Queue.{get_next_player, rebuild_queue, detect_phase_transition}
use ipl_auction_app.Room.Timer.{set_auction_state}
use ipl_auction_app.Room.Engine.{
  run_expiry, present_player, expire_next, next_up, advance_to_next_player, end_auction,
  emit_phase_transition,
}
use ipl_auction_app.Room.Bids.{accepts_bids}
use ipl_auction_app.Room.Safety.Invariant.{
  AllLegal, IsCached, LeaderFits, CallbackFits, IsOpen, IsSafe,
}
use ipl_auction_app.Room.Safety.Loads.{load_all_cached}
use ipl_auction_app.Room.Safety.Frame.{
  KeepsBlock, Keeps-LeaderFits, Keeps-IsOpen, Keeps-IsSafe, get_next-KeepsBlock, callback_none,
  get_next_timer, get_next_state, get_next_twice, quiet-IsSafe, callback_captured,
}
use ipl_auction_app.Room.Safety.Sales.{IsResolved→IsSafe, expiry-IsResolved}

-- With the timer off, the block resolved by an entry for its player.
expire_next-IsSafe :
    (o : Option QueueEntry) (w : World) (p : Player)
    → IsSafe w
    → w.timer ≡ none
    → LeaderFits w.redis p
    → ((e : QueueEntry) → o ≡ some e → e.player ≡ p)
    → IsSafe (expire_next (o, w))
unfolding expire_next
expire_next-IsSafe none w p s t k h = s
expire_next-IsSafe (some e) w p s t k h =
    IsResolved→IsSafe
      (expiry-IsResolved e w s.legal s.is_cached t (subst (LeaderFits w.redis) (sym (h e refl)) k))

stopped-IsSafe : {w v : World} → KeepsBlock w v → v.timer ≡ none → IsSafe w → IsOpen w → IsSafe v
stopped-IsSafe {v = v} k t s o =
    Keeps-IsSafe k.teams s (inl (Keeps-IsOpen k o (callback_none v.timer o.player t)))

-- The callback of the timer, or a skip by the host, when a player is on the block.
pub run_expiry-IsSafe :
    (x : OnExpiry) (w : World)
    → IsSafe w
    → w.timer ≡ none
    → IsOpen w
    → (p : Player) → w.redis.current_player ≡ some p
    → CallbackFits x p
    → IsSafe (run_expiry x w)
unfolding run_expiry
run_expiry-IsSafe (captured e) w s t o p up c =
    let on_block : o.player ≡ e.player = eq_of_some (sym o.up ∙ up) ∙ sym c in
    IsResolved→IsSafe
      (expiry-IsResolved e w s.legal s.is_cached t (subst (LeaderFits w.redis) on_block o.leader))
run_expiry-IsSafe refetch w s t o p up c =
    let k = get_next-KeepsBlock w in
    let t' = get_next_timer w ∙ t in
    expire_next-IsSafe (get_next_player w).0 (get_next_player w).1 o.player
      (stopped-IsSafe k t' s o) t' (Keeps-LeaderFits o.player k o.leader) o.head

next-present :
    (e : QueueEntry) (w : World) → (get_next_player (present_player e w)).0 ≡ (get_next_player w).0
unfolding present_player append_bid_event get_next_player current_position set_redis rebuild_queue
next-present e w = ground arith

-- A new player on the block, whatever went before.
pub present_player-IsSafe :
    (e : QueueEntry) (w : World)
    → AllLegal w.redis
    → IsCached w
    → (get_next_player w).0 ≡ some e
    → IsSafe (present_player e w)
unfolding present_player append_bid_event get_room_member_by_franchise
present_player-IsSafe e w l c h = record {
  legal = l;
  is_cached = c;
  round = inl (record {
    player = e.player;
    up = refl;
    leader = λ f q. cc;
    head = λ e' q. ground (arith, next-present e w);
    callback = callback_captured (present_player e w).timer e.player _ e refl refl refl;
  });
}

pub member-update_room_status :
    (f : FranchiseName) (s : RoomStatus) (db : Db)
    → get_room_member_by_franchise f (update_room_status s db) ≡ get_room_member_by_franchise f db
unfolding get_room_member_by_franchise update_room_status
member-update_room_status f s db = ground arith

-- What `endAuction` loads from.
abbrev pub completing : World → World
completing w =
    set_db (update_room_status RoomStatus.completed) (set_auction_state AuctionState.complete w)

pub completing-loads :
    (w : World) → IsCached w → (load_all_franchise_states (completing w)).1 ≡ completing w
unfolding set_auction_state set_redis set_db
completing-loads w c =
    load_all_cached (completing w)
      (λ f h. member-update_room_status f RoomStatus.completed w.db ∙ c f h)

end_auction-KeepsBlock : (w : World) → IsCached w → KeepsBlock w (end_auction w)
unfolding end_auction set_auction_state set_redis set_db emit append_bid_event update_room_status
    get_room_member_by_franchise get_next_player current_position rebuild_queue
end_auction-KeepsBlock w c =
    let loaded = completing-loads w c in
    record {
      teams = record {
        states = λ f. ground (arith, loaded);
        members = λ f h. ground (arith, loaded);
      };
      player = ground (arith, loaded);
      bid = ground (arith, loaded);
      bidder = ground (arith, loaded);
      next = ground (arith, loaded);
    }

end_auction_closed :
    (w : World)
    → IsCached w
    → ((end_auction w).timer ≡ w.timer)
      × ((end_auction w).redis.auction_state ≡ some AuctionState.complete)
unfolding end_auction set_auction_state set_redis set_db emit
end_auction_closed w c =
    (ground (arith, completing-loads w c), ground (arith, completing-loads w c))

-- The end of the auction, wherever it comes.
pub end_auction-IsSafe : (w : World) → IsSafe w → IsSafe (end_auction w)
end_auction-IsSafe w s =
    let k = end_auction-KeepsBlock w s.is_cached in
    let (t, closed) = end_auction_closed w s.is_cached in
    Keeps-IsSafe k.teams s (elim s.round [
      | inl o ↦ inl (Keeps-IsOpen k o (λ h q. o.callback h (sym t ∙ q)))
      | inr r ↦ inr (record { closed = ap accepts_bids closed; stopped = t ∙ r.stopped })
    ])

-- The interstitial between the two phases changes no state.
phase_transition-KeepsBlock :
    (e : QueueEntry) (w : World) → KeepsBlock w (spawn (present e) (emit_phase_transition w))
unfolding spawn emit emit_phase_transition set_db append_bid_event get_room_member_by_franchise
    get_next_player current_position rebuild_queue set_redis
phase_transition-KeepsBlock e w = record {
  teams = record { states = λ f. refl; members = λ f h. h };
  player = refl;
  bid = refl;
  bidder = refl;
  next = ground arith;
}

pub phase_transition-IsSafe :
    (e : QueueEntry) (w : World) → IsSafe w → IsSafe (spawn (present e) (emit_phase_transition w))
unfolding spawn emit emit_phase_transition set_db
phase_transition-IsSafe e w = quiet-IsSafe (phase_transition-KeepsBlock e w) refl refl

next_up-IsSafe :
    (o : Option QueueEntry) (w : World)
    → IsSafe w
    → (get_next_player w).0 ≡ o
    → IsSafe (next_up (o, w))
unfolding next_up
next_up-IsSafe none w s h = end_auction-IsSafe w s
next_up-IsSafe (some e) w s h = elim (Bool-cases (detect_phase_transition w)) [
  | inl crossing ↦ rw crossing (phase_transition-IsSafe e w s)
  | inr same_phase ↦ rw same_phase (present_player-IsSafe e w s.legal s.is_cached h)
]

get_next-IsSafe : (w : World) → IsSafe w → IsSafe (get_next_player w).1
get_next-IsSafe w = quiet-IsSafe (get_next-KeepsBlock w) (get_next_timer w) (get_next_state w)

-- The next player, or the end of the auction.
pub advance-IsSafe : (w : World) → IsSafe w → IsSafe (advance_to_next_player w)
unfolding advance_to_next_player
advance-IsSafe w s =
    next_up-IsSafe (get_next_player w).0 (get_next_player w).1 (get_next-IsSafe w s)
      (get_next_twice w)
