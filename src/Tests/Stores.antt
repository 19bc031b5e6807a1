-- ===== src/Tests/Stores.antt =====
-- The Redis client over a server that answers and over one whose every call throws.
use ipl_auction_app.Base.{
  ◌⊎◌, find, is_some, ℕ, ◌*◌, ◌≡◌, refl, arith, true, false, none, some, List, [], ◌∷◌,
}
use ipl_auction_app.Store.Memory.{Memory}
use ipl_auction_app.Store.Flags.{Arg}
use ipl_auction_app.Store.Client.{
  RawRedis, HsetArgs, Client, on_failure, get, set, del, hset, hget, hdel, hgetall, expire, eval,
}
use ipl_auction_app.Store.Lock.{acquire_lock, release_lock}
use ipl_auction_app.Store.Laws.{release-blocks}
use ipl_auction_app.Store.Spec.{lock_of, spec_acquire, spec_release, lock-refines}
use ipl_auction_app.Store.Exclusion.{
  Act, acquires, reads, deletes, run_acts, ends_lock, mutual_exclusion,
}
use ipl_auction_app.Store.Outage.{IsDown, seen, outage-seen}

-- A server that has 5 under every key and deletes one lock at every release.
abbrev answering : RawRedis ℕ
answering = record {
  get = λ k s. (some (some 5), s);
  set = λ k v args s. (some (some 0), s);
  del = λ ks s. (some 1, s);
  hset = λ k args s. (some 1, s);
  hget = λ k f s. (some (some 5), s);
  hdel = λ k fs s. (some 1, s);
  hgetall = λ k s. (some [], s);
  expire = λ k n s. (some 1, s);
  release = λ k t s. (some 1, s);
}

abbrev throwing : RawRedis ℕ
throwing = record {
  get = λ k s. (none, s);
  set = λ k v args s. (none, s);
  del = λ ks s. (none, s);
  hset = λ k args s. (none, s);
  hget = λ k f s. (none, s);
  hdel = λ k fs s. (none, s);
  hgetall = λ k s. (none, s);
  expire = λ k n s. (none, s);
  release = λ k t s. (none, s);
}

abbrev no_memory : Memory
no_memory = record { store = λ k. none; hashes = λ k. none }

abbrev healthy : Client ℕ
healthy = record { memory = no_memory; raw = 0; is_healthy = true }

abbrev cut_off : Client ℕ
cut_off = record { memory = no_memory; raw = 0; is_healthy = false }

-- The lock of room 7 is taken at 1000, given back at 1100, and refused at 2000.
release-blocks_example :
    let taken = acquire_lock answering 1000 31 7 5000 healthy in
    let released = (release_lock answering 1100 7 31 taken.1).1 in
    (taken.0 ≡ some 31) × ((acquire_lock answering 2000 32 7 5000 released).0 ≡ none)
release-blocks_example =
    release-blocks answering 1000 1100 2000 31 32 7 5000 1 healthy refl refl (omega arith) refl

lock-refines_example :
    let a = acquire_lock throwing 1000 31 7 5000 cut_off in
    let r = release_lock throwing 1000 7 31 cut_off in
    ((a.0, lock_of throwing 1000 7 a.1) ≡ spec_acquire 1000 31 5 (lock_of throwing 1000 7 cut_off))
    × ((r.0, lock_of throwing 1000 7 r.1) ≡ spec_release 31 (lock_of throwing 1000 7 cut_off))
    × (lock_of throwing 1000 8 a.1 ≡ lock_of throwing 1000 8 cut_off)
    × (lock_of throwing 1000 8 r.1 ≡ lock_of throwing 1000 8 cut_off)
lock-refines_example = lock-refines throwing 1000 31 7 5000 8 cut_off refl (λ h. omega (arith, h))

-- Another socket asks for the lock, a key is read and another one deleted before the time is over.
abbrev others : List Act
others = acquires 1500 32 7 5000 ∷ reads 2000 9 ∷ deletes 2500 8 ∷ []

mutual_exclusion_example :
    let taken = acquire_lock throwing 1000 31 7 (5 * 1000) cut_off in
    let d = run_acts throwing others taken.1 in
    (taken.0 ≡ some 31)
    × ((is_some (find (ends_lock 7 31) others) ≡ true)
        ⊎ (((acquire_lock throwing 3000 33 7 (5 * 1000) d).0 ≡ none)
            × ((release_lock throwing 3000 7 31 d).0 ≡ true)))
mutual_exclusion_example =
    mutual_exclusion throwing 1000 3000 31 33 7 5 others cut_off refl refl (omega arith)
      (omega arith, (omega arith, (omega arith, tt))) (omega arith)

throwing-IsDown : IsDown throwing
throwing-IsDown = record {
  no_get = λ k s. refl;
  no_set = λ k v args s. refl;
  no_del = λ ks s. refl;
  no_hset = λ k args s. refl;
  no_hget = λ k f s. refl;
  no_hdel = λ k fs s. refl;
  no_hgetall = λ k s. refl;
  no_expire = λ k n s. refl;
  no_release = λ k t s. refl;
}

outage-seen_example :
    let args : List Arg = Arg.ex ∷ Arg.num 60 ∷ [] in
    let keys : List ℕ = 4 ∷ 7 ∷ [] in
    let fields = HsetArgs.pair 1 6 in
    let d = on_failure healthy in
    (seen throwing (get throwing 1000 4 healthy) ≡ seen throwing (get throwing 1000 4 d))
    × (seen throwing (set throwing 1000 4 6 args healthy)
        ≡ seen throwing (set throwing 1000 4 6 args d))
    × (seen throwing (del throwing 1000 keys healthy) ≡ seen throwing (del throwing 1000 keys d))
    × (seen throwing (hset throwing 1000 4 fields healthy)
        ≡ seen throwing (hset throwing 1000 4 fields d))
    × (seen throwing (hget throwing 1000 4 6 healthy) ≡ seen throwing (hget throwing 1000 4 6 d))
    × (seen throwing (hdel throwing 1000 4 keys healthy)
        ≡ seen throwing (hdel throwing 1000 4 keys d))
    × (seen throwing (hgetall throwing 1000 4 healthy) ≡ seen throwing (hgetall throwing 1000 4 d))
    × (seen throwing (expire throwing 1000 4 30 healthy)
        ≡ seen throwing (expire throwing 1000 4 30 d))
    × (seen throwing (eval throwing 1000 4 6 healthy) ≡ seen throwing (eval throwing 1000 4 6 d))
outage-seen_example =
    outage-seen throwing 1000 4 6 30 (Arg.ex ∷ Arg.num 60 ∷ []) (4 ∷ 7 ∷ []) (HsetArgs.pair 1 6)
      healthy throwing-IsDown
