-- ===== src/Store/Spec.antt =====
-- What a lock promises, and that the client keeps it while its server is out.
use ipl_auction_app.Base.{
  ℕ, ◌+◌, ◌/◌, ◌≡◌, ◌≢◌, Bool, true, false, Option, none, some, ◌==◌, ==-refl, arith, if◌then◌else◌,
}
use ipl_auction_app.Store.Memory.{
  MemoryEntry, is_expired, get_memory_value, set_memory_value, delete_memory_key, expiry,
}
use ipl_auction_app.Store.Flags.{read_flags}
use ipl_auction_app.Store.Client.{RawRedis, Client, set, eval}
use ipl_auction_app.Store.Lock.{acquire_lock, release_lock}

-- An abstract lock: who has it and until when.
abbrev pub current : ℕ → Option MemoryEntry → Option MemoryEntry
current now none = none
current now (some e) = if is_expired now e.expires_at then none else some e

-- A free lock goes to the token until its time is over; a taken one stays with its holder.
abbrev pub spec_acquire : ℕ → ℕ → ℕ → Option MemoryEntry → Option ℕ × Option MemoryEntry
spec_acquire now token ttl none =
    (some token, some (record { value = token; expires_at = expiry now (some ttl) }))
spec_acquire now token ttl (some e) = (none, some e)

-- Only its holder gives a lock back.
abbrev pub spec_release : ℕ → Option MemoryEntry → Bool × Option MemoryEntry
spec_release token none = (false, none)
spec_release token (some e) = if token == e.value then (true, none) else (false, some e)

module _ {S : Type 0} (server : RawRedis S) where
  -- The lock that the client's memory holds at a time.
  abbrev pub lock_of : ℕ → ℕ → Client S → Option MemoryEntry
  lock_of now key c = current now (c.memory.store key)

  -- While the server is out, taking and giving back a lock do what the abstract lock does: the answer
  -- and the lock afterwards are those of the specification, and the locks of other keys stay.
  pub lock-refines :
      (now token key ttl_ms other : ℕ) (c : Client S)
      → c.is_healthy ≡ false
      → other ≢ key
      → (let a = acquire_lock server now token key ttl_ms c in
          let r = release_lock server now key token c in
          ((a.0, lock_of now key a.1)
            ≡ spec_acquire now token ((ttl_ms + 999) / 1000) (lock_of now key c))
          × ((r.0, lock_of now key r.1) ≡ spec_release token (lock_of now key c))
          × (lock_of now other a.1 ≡ lock_of now other c)
          × (lock_of now other r.1 ≡ lock_of now other c))
  unfolding acquire_lock release_lock set eval read_flags set_memory_value get_memory_value
      delete_memory_key
  lock-refines now token key ttl_ms other c h n = (
    ground (arith, ==-refl key),
    ground (arith, ==-refl key),
    ground (arith, n),
    ground (arith, n),
  )
