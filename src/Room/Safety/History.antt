-- ===== src/Room/Safety/History.antt =====
-- Every history of an auction: bids by anyone, the clock and the timer, the host's controls, the
-- dead man's switch, and the engine's and the audit trail's continuations, in any order.
use ipl_auction_app.Base.{
  ℕ, ◌≤◌, ◌≡◌, refl, Bool-cases, inl, inr, ◌==◌, Option, none, some, arith, List, [], ◌∷◌, find,
}
use ipl_auction_app.Rules.Types.{Player, FranchiseName, FranchiseState}
use ipl_auction_app.Franchise.Laws.{IsLegal}
use ipl_auction_app.Room.State.{QueueEntry, Sale, Room, Member, World, Message, set_redis, set_db}
use ipl_auction_app.Room.Rows.{
  get_room_member_by_franchise, has_franchise, charge, record_player_sold, current_position,
  insert_bid,
}
use ipl_auction_app.Room.Queue.{get_next_player, rebuild_queue}
use ipl_auction_app.Room.Engine.{tick, advance_to_next_player, present_player, start_auction}
use ipl_auction_app.Room.Bids.{BidRequest, place_bid, record_bid_row}
use ipl_auction_app.Room.Host.{HostAction, host_control, handle_host_disconnect, recover}
use ipl_auction_app.Room.Safety.Invariant.{IsOpen, IsSafe}
use ipl_auction_app.Room.Safety.Frame.{KeepsBlock, quiet-IsSafe}
use ipl_auction_app.Room.Safety.Rounds.{advance-IsSafe, present_player-IsSafe}
use ipl_auction_app.Room.Safety.Accepting.{place_bid-IsSafe}
use ipl_auction_app.Room.Safety.Control.{
  timer_keys-KeepsBlock, emit-IsSafe, tick-IsSafe, IsTimely, run_action-IsSafe,
  host_disconnect-IsSafe, host_return-IsSafe,
}
use ipl_auction_app.Room.Safety.Start.{IsFresh, start_auction-IsSafe}

charge-absent :
    (f : FranchiseName) (id price : ℕ) (ms : List Member)
    → find (has_franchise f) ms ≡ none
    → find (has_franchise f) (charge id price ms) ≡ none
unfolding charge
charge-absent f id price [] h = refl
charge-absent f id price (m ∷ ms) h = ground (arith, charge-absent f id price ms)

-- The durable write of a sale, whenever it happens.
sale-KeepsBlock : (s : Sale) (w : World) → KeepsBlock w (set_db (record_player_sold s) w)
unfolding set_db record_player_sold get_room_member_by_franchise get_next_player current_position
    rebuild_queue set_redis
sale-KeepsBlock s w = record {
  teams = record {
    states = λ f. refl;
    members = λ f h. ground (arith, charge-absent f s.room_member_id s.price_lakhs w.db.members);
  };
  player = refl;
  bid = refl;
  bidder = refl;
  next = ground arith;
}

sale-IsSafe : (s : Sale) (w : World) → IsSafe w → IsSafe (set_db (record_player_sold s) w)
unfolding set_db
sale-IsSafe s w = quiet-IsSafe (sale-KeepsBlock s w) refl refl

bid_row-KeepsBlock :
    (f : FranchiseName) (player amount : ℕ) (w : World)
    → KeepsBlock w (record_bid_row f player amount w)
unfolding record_bid_row insert_bid get_room_member_by_franchise get_next_player current_position
    rebuild_queue set_redis
bid_row-KeepsBlock f player amount w = record {
  teams = record { states = λ g. ground arith; members = λ g h. ground arith };
  player = ground arith;
  bid = ground arith;
  bidder = ground arith;
  next = ground arith;
}

bid_row-IsSafe :
    (f : FranchiseName) (player amount : ℕ) (w : World)
    → IsSafe w
    → IsSafe (record_bid_row f player amount w)
unfolding record_bid_row
bid_row-IsSafe f player amount w =
    quiet-IsSafe (bid_row-KeepsBlock f player amount w) (ground arith) (ground arith)

host_control-IsSafe :
    (user : ℕ) (a : HostAction) (w : World)
    → IsTimely a w
    → IsSafe w
    → IsSafe (host_control user a w)
unfolding host_control
host_control-IsSafe user a w o s = go w.db.room refl
  where
    go : (r : Option Room) → w.db.room ≡ r → IsSafe (host_control user a w)
    go none e = rw (e, host_control) (emit-IsSafe Message.room_error w s)
    go (some r) e = elim (Bool-cases (r.host_user_id == user)) [
      | inl host ↦ rw (e, host, host_control) (run_action-IsSafe a w o s)
      | inr guest ↦ rw (e, guest, host_control) (emit-IsSafe Message.room_error w s)
    ]

clock-IsSafe : (w : World) (t : ℕ) → IsSafe w → IsSafe (record w { now = t })
clock-IsSafe w t = quiet-IsSafe (timer_keys-KeepsBlock w _ refl refl refl refl refl refl) refl refl

-- One step. The host's resume, skip and extend, and the return of a lost host, fall while a player is
-- on the block; an interstitial ends before the queue moves on.
pub data Step : World → World → Type 0 where
  clock : (w : World) (t : ℕ) → w.now ≤ t → Step w (record w { now = t })
  bids : (w : World) (token : ℕ) (q : BidRequest) → Step w (place_bid token q w)
  ticks : (w : World) → Step w (tick w)
  advances : (w : World) → Step w (advance_to_next_player w)
  presents :
      (w : World) (e : QueueEntry) → (get_next_player w).0 ≡ some e → Step w (present_player e w)
  controls : (w : World) (user : ℕ) (a : HostAction) → IsTimely a w → Step w (host_control user a w)
  loses_host : (w : World) (token user : ℕ) → Step w (handle_host_disconnect token user w)
  regains_host : (w : World) → IsOpen w → Step w (recover w)
  writes_sale : (w : World) (s : Sale) → Step w (set_db (record_player_sold s) w)
  writes_bid :
      (w : World) (f : FranchiseName) (player amount : ℕ)
      → Step w (record_bid_row f player amount w)

pub data Reach (w : World) : World → Type 0 where
  here : Reach w w
  next : {u v : World} → Reach w u → Step u v → Reach w v

pub Step-IsSafe : {w v : World} → Step w v → IsSafe w → IsSafe v
Step-IsSafe (clock w t h) s = clock-IsSafe w t s
Step-IsSafe (bids w token q) s = place_bid-IsSafe token q w s
Step-IsSafe (ticks w) s = tick-IsSafe w s
Step-IsSafe (advances w) s = advance-IsSafe w s
Step-IsSafe (presents w e h) s = present_player-IsSafe e w s.legal s.is_cached h
Step-IsSafe (controls w user a o) s = host_control-IsSafe user a w o s
Step-IsSafe (loses_host w token user) s = host_disconnect-IsSafe token user w s
Step-IsSafe (regains_host w o) s = host_return-IsSafe w s o
Step-IsSafe (writes_sale w x) s = sale-IsSafe x w s
Step-IsSafe (writes_bid w f player amount) s = bid_row-IsSafe f player amount w s

pub Reach-IsSafe : {w v : World} → IsSafe w → Reach w v → IsSafe v
Reach-IsSafe s here = s
Reach-IsSafe s (next r st) = Step-IsSafe st (Reach-IsSafe s r)

-- After the start of an auction in a room without franchise states or a timer, whatever the draws of
-- the shuffles, every franchise state in Redis obeys the squad rules, with a wallet that pays 20 lakhs
-- for every open slot. It holds after any sequence of bids, clock and timer steps, moves of the queue,
-- host controls, losses of the host and writes of sales and bids, where the host's resume, skip and
-- extend, and the return of a lost host, fall while a player is on the block.
pub auction-IsLegal :
    (draw : ℕ → ℕ → ℕ) (marquees generals : List Player) (w : World)
    → IsFresh w
    → {v : World} → Reach (start_auction draw marquees generals w) v
    → (f : FranchiseName) (s : FranchiseState) → v.redis.franchise_state f ≡ some s
    → IsLegal s
auction-IsLegal draw marquees generals w h r =
    (Reach-IsSafe (start_auction-IsSafe draw marquees generals w h) r).legal
