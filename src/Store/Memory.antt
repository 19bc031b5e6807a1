-- ===== src/Store/Memory.antt =====
-- The store in memory of apps/backend/src/redis/client.ts. Keys, fields and values are strings that
-- are only compared, and are numbers here; a Map is a function from keys.
use ipl_auction_app.Base.{
  ℕ, ◌+◌, ◌*◌, ◌==◌, ltb, Bool, true, false, ◌&&◌, is_some, if◌then◌else◌, Option, none, some,
}

pub record MemoryEntry : Type 0 where
  pub value : ℕ
  pub expires_at : Option ℕ

pub record Memory : Type 0 where
  pub store : ℕ → Option MemoryEntry
  pub hashes : ℕ → Option (ℕ → Option ℕ)

-- `map.set(k, v)` and, with `none`, `map.delete(k)`.
abbrev pub put {ℓ} : {A : Type ℓ} → ℕ → Option A → (ℕ → Option A) → ℕ → Option A
put k v f j = if j == k then v else f j

-- `entry.expiresAt && Date.now() > entry.expiresAt`.
abbrev pub is_expired : ℕ → Option ℕ → Bool
is_expired now none = false
is_expired now (some e) = ltb 0 e && ltb e now

-- An expired entry is deleted where it is read.
unfoldable pub get_memory_value : ℕ → ℕ → Memory → Option ℕ × Memory
get_memory_value now key m = elim (m.store key) [
  | none ↦ (none, m)
  | some entry ↦
      if is_expired now entry.expires_at
      then (none, record m { store = put key none m.store })
      else (some entry.value, m)
]

-- `ttlSeconds ? … : undefined`.
abbrev pub expiry : ℕ → Option ℕ → Option ℕ
expiry now none = none
expiry now (some ttl) = if ltb 0 ttl then some (now + ttl * 1000) else none

abbrev write_value : ℕ → ℕ → ℕ → Option ℕ → Memory → Memory
write_value now key v ttl m = record m {
  store = put key (some (record { value = v; expires_at = expiry now ttl })) m.store;
}

unfoldable pub set_memory_value : ℕ → ℕ → ℕ → Option ℕ → Bool → Memory → Bool × Memory
unfolding get_memory_value
set_memory_value now key v ttl nx m =
    let (existing, m') = get_memory_value now key m in
    if nx
    then (if is_some existing then (false, m') else (true, write_value now key v ttl m'))
    else (true, write_value now key v ttl m)

unfoldable pub delete_memory_key : ℕ → Memory → ℕ × Memory
delete_memory_key key m = (
  if is_some (m.store key) then 1 else 0,
  record m { store = put key none m.store; hashes = put key none m.hashes },
)
