-- ===== src/Tests/Handlers.antt =====
-- Two handlers with bids on the keeper, and their lock.
use ipl_auction_app.Base.{
  none, some, false, ◌==◌, if◌then◌else◌, ℕ, zero, suc, ◌<◌, ◌≡◌, ◌⊎◌, refl, arith, List, [], ◌∷◌,
  some,
}
use ipl_auction_app.Rules.Types.{mumbai_indians, punjab_kings}
use ipl_auction_app.Room.Interleaving.{
  checked, Bid, standing, Handlers, Event, turn, happen, play_events,
}
use ipl_auction_app.Room.Interleaving.Exclusive.{turn-raises}
use ipl_auction_app.Room.Interleaving.Lost.{meanwhile, departure-lowers}
use ipl_auction_app.Store.Client.{RawRedis, Client}
use ipl_auction_app.Room.State.{World}
use ipl_auction_app.Tests.Fixtures.{active_room, open_redis, open_world, host_bid}

abbrev first_bid : Bid
first_bid = record { request = host_bid; franchise = mumbai_indians }

abbrev second_bid : Bid
second_bid = record {
  request = record { user_id = 3; franchise = some punjab_kings; player_id = 2; amount_lakhs = 80 };
  franchise = punjab_kings;
}

abbrev bid_at : ℕ → Bid
bid_at zero = first_bid
bid_at (suc i) = second_bid

abbrev waiting : Handlers
waiting = record { world = open_world; stage = λ i. checked }

abbrev two_turns : List Event
two_turns = turn 0 ∷ turn 0 ∷ []

turn-raises_example :
    let v = play_events bid_at two_turns waiting in
    let v' = happen bid_at (turn 0) v in
    (standing v'.world ≡ standing v.world)
    ⊎ ((standing v.world < standing v'.world) × (standing v'.world ≡ 70))
turn-raises_example = turn-raises bid_at two_turns 0 waiting (refl, λ i. refl) (tt, (tt, tt))

departure-lowers_example :
    let v = play_events bid_at (meanwhile 7 2 0 1) waiting in
    (standing v.world ≡ 80) × (standing (happen bid_at (turn 0) v).world ≡ 70)
departure-lowers_example =
    departure-lowers bid_at 0 1 7 2 active_room waiting (omega arith) (refl, refl) refl refl refl
      (omega arith) refl (omega arith) (omega arith)

-- Handler 31 has the lock of room 7 until 6000, and asks for it again.
abbrev silent : RawRedis ℕ
silent = record {
  get = λ k s. (none, s);
  set = λ k v args s. (none, s);
  del = λ ks s. (none, s);
  hset = λ k args s. (none, s);
  hget = λ k f s. (none, s);
  hdel = λ k fs s. (none, s);
  hgetall = λ k s. (none, s);
  expire = λ k n s. (none, s);
  release = λ k t s. (none, s);
}

abbrev held_client : Client ℕ
held_client = record {
  memory = record {
    store = λ k. if k == 7 then some (record { value = 31; expires_at = some 6000 }) else none;
    hashes = λ k. none;
  };
  raw = 0;
  is_healthy = false;
}

abbrev held_world : World
held_world = record open_world { redis = record open_redis { bid_lock = some 31 } }
