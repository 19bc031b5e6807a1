-- ===== src/Store/Laws.antt =====
-- What the client keeps, and what its lock does on a healthy server.
use ipl_auction_app.Base.{ℕ, ◌+◌, ◌/◌, ◌≡◌, ◌≤◌, true, false, Option, none, some, ==-refl, arith}
use ipl_auction_app.Store.Memory.{
  MemoryEntry, put, is_expired, get_memory_value, set_memory_value, expiry,
}
use ipl_auction_app.Store.Flags.{read_flags}
use ipl_auction_app.Store.Client.{RawRedis, Client, on_failure, get, set, eval}
use ipl_auction_app.Store.Lock.{acquire_lock, release_lock}

pub put_same {ℓ} : {A : Type ℓ} (k : ℕ) (v : Option A) (f : ℕ → Option A) → put k v f k ≡ v
put_same k v f = ground (arith, ==-refl k)

module _ {S : Type 0} (server : RawRedis S) where
  -- A key that nothing has stored is free.
  abbrev pub IsFree : ℕ → Client S → Type 0
  IsFree key c = c.memory.store key ≡ none

  abbrev entry : ℕ → ℕ → ℕ → MemoryEntry
  entry token now ttl_ms = record {
    value = token;
    expires_at = expiry now (some ((ttl_ms + 999) / 1000));
  }

  pub acquire-free :
      (now token key ttl_ms : ℕ) (c : Client S)
      → IsFree key c
      → ((acquire_lock server now token key ttl_ms c).0 ≡ some token)
        × ((acquire_lock server now token key ttl_ms c).1.memory.store key
            ≡ some (entry token now ttl_ms))
        × ((acquire_lock server now token key ttl_ms c).1.is_healthy ≡ c.is_healthy)
  unfolding acquire_lock set read_flags set_memory_value get_memory_value
  acquire-free now token key ttl_ms c f = ground (arith, ==-refl key)

  pub acquire-held :
      (now token key ttl_ms : ℕ) (e : MemoryEntry) (c : Client S)
      → c.memory.store key ≡ some e
      → is_expired now e.expires_at ≡ false
      → (acquire_lock server now token key ttl_ms c).0 ≡ none
  unfolding acquire_lock set read_flags set_memory_value get_memory_value
  acquire-held now token key ttl_ms e c f x = ground arith

  -- On a healthy server the release script runs there only, so the memory keeps the lock until it
  -- expires. Where the memory has no entry for the key, a bid takes the lock and gives it back, and the
  -- server does not fail at that, the next one to ask this client for the lock before the time to live
  -- is over is refused.
  pub release-blocks :
      (t0 t1 t2 token token' key ttl_ms n : ℕ) (c : Client S)
      → c.is_healthy ≡ true
      → IsFree key c
      → t2 ≤ t0 + ttl_ms
      → (server.release key token (acquire_lock server t0 token key ttl_ms c).1.raw).0 ≡ some n
      → (let released =
            (release_lock server t1 key token (acquire_lock server t0 token key ttl_ms c).1).1 in
          ((acquire_lock server t0 token key ttl_ms c).0 ≡ some token)
          × ((acquire_lock server t2 token' key ttl_ms released).0 ≡ none))
  unfolding release_lock eval
  release-blocks t0 t1 t2 token token' key ttl_ms n c h f t r =
      let c1 = (acquire_lock server t0 token key ttl_ms c).1 in
      let (got, held, healthy) = acquire-free t0 token key ttl_ms c f in
      let kept : (release_lock server t1 key token c1).1.memory.store key
          ≡ some (entry token t0 ttl_ms) =
        ground arith in
      (
        got,
        acquire-held t2 token' key ttl_ms (entry token t0 ttl_ms)
            (release_lock server t1 key token c1).1 kept (ground arith),
      )

  -- The answer of the server to SET … NX is not looked at: two clients whose memories have no entry for
  -- the key both take its lock, one after the other, whatever the server holds.
  pub acquire-unshared :
      (t t' token token' key ttl_ms : ℕ) (a b : Client S)
      → IsFree key a
      → IsFree key b
      → (let first = acquire_lock server t token key ttl_ms a in
          let second = acquire_lock server t' token' key ttl_ms (record b { raw = first.1.raw }) in
          (first.0 ≡ some token) × (second.0 ≡ some token'))
  acquire-unshared t t' token token' key ttl_ms a b f g =
      let first = acquire_lock server t token key ttl_ms a in
      (
        (acquire-free t token key ttl_ms a f).0,
        (acquire-free t' token' key ttl_ms (record b { raw = first.1.raw }) g).0,
      )

  -- A value that was read from the healthy server is readable at any time in an outage right after the
  -- read, whatever its time to live was.
  pub get-immortal :
      (now later key v : ℕ) (c : Client S)
      → c.is_healthy ≡ true
      → (server.get key c.raw).0 ≡ some (some v)
      → (get server later key (on_failure (get server now key c).1)).0 ≡ some v
  unfolding get on_failure set_memory_value get_memory_value
  get-immortal now later key v c h r = ground (arith, ==-refl key)
