-- ===== src/Store/Client.antt =====
-- The wrapper `redis` of apps/backend/src/redis/client.ts over a server that may fail. The server and
-- its state are parameters: an operation of `RawRedis` returns `none` where the call of ioredis throws.
use ipl_auction_app.Base.{
  ℕ, ◌+◌, ◌*◌, ◌==◌, Bool, true, false, not, ◌&&◌, is_some, if◌then◌else◌, Option, none, some, List,
  [], ◌∷◌,
}
use ipl_auction_app.Store.Memory.{
  MemoryEntry, Memory, put, get_memory_value, set_memory_value, delete_memory_key,
}
use ipl_auction_app.Store.Flags.{Arg, read_flags, no_flags}

-- The fields that `hset` writes.
pub data HsetArgs : Type 0 where
  pair : ℕ → ℕ → HsetArgs
  object : List (ℕ × ℕ) → HsetArgs

pub record RawRedis (S : Type 0) : Type 0 where
  pub get : ℕ → S → Option (Option ℕ) × S
  pub set : ℕ → ℕ → List Arg → S → Option (Option ℕ) × S
  pub del : List ℕ → S → Option ℕ × S
  pub hset : ℕ → HsetArgs → S → Option ℕ × S
  pub hget : ℕ → ℕ → S → Option (Option ℕ) × S
  pub hdel : ℕ → List ℕ → S → Option ℕ × S
  pub hgetall : ℕ → S → Option (List (ℕ × ℕ)) × S
  pub expire : ℕ → ℕ → S → Option ℕ × S
  -- The release script, at its key and its token.
  pub release : ℕ → ℕ → S → Option ℕ × S

pub record Client (S : Type 0) : Type 0 where
  pub memory : Memory
  pub raw : S
  pub is_healthy : Bool

module _ {S : Type 0} where
  -- The handlers of `connect` and `ready`, and of `error`, `close` and `reconnecting`.
  unfoldable pub on_ready : Client S → Client S
  on_ready c = record c { is_healthy = true }

  unfoldable pub on_failure : Client S → Client S
  on_failure c = record c { is_healthy = false }

  abbrev with_memory : Client S → Memory → Client S
  with_memory c m = record c { memory = m }

  abbrev pub recall : ℕ → ℕ → Client S → Option ℕ × Client S
  recall now key c = let (v, m) = get_memory_value now key c.memory in (v, with_memory c m)

module _ {S : Type 0} (server : RawRedis S) (now : ℕ) where
  -- What the server had is written to the memory, without a time to live.
  remember : ℕ → Client S → Option (Option ℕ) × S → Option ℕ × Client S
  remember key c (some (some v), s) =
      (some v, record c { memory = (set_memory_value now key v none false c.memory).1; raw = s })
  remember key c (some none, s) = recall now key (record c { raw = s })
  remember key c (none, s) = recall now key (record c { raw = s })

  unfoldable pub get : ℕ → Client S → Option ℕ × Client S
  unfolding remember
  get key c = if c.is_healthy then remember key c (server.get key c.raw) else recall now key c

  -- The result is whether it is 'OK'; that of the server is not looked at.
  unfoldable pub set : ℕ → ℕ → List Arg → Client S → Bool × Client S
  set key v args c =
      let flags = read_flags args no_flags in
      let (written, m) = set_memory_value now key v flags.ttl_seconds flags.is_nx c.memory in
      let c' = with_memory c m in
      if flags.is_nx && not written
      then (false, c')
      else (true, if c.is_healthy then record c' { raw = (server.set key v args c.raw).1 } else c')

  -- The loop over the keys, and its count.
  unfoldable pub delete_all : List ℕ → ℕ → Memory → ℕ × Memory
  delete_all [] count m = (count, m)
  delete_all (key ∷ keys) count m =
      let (n, m') = delete_memory_key key m in delete_all keys (count + n) m'

  abbrev pub or_count : ℕ → Option ℕ → ℕ
  or_count count none = count
  or_count count (some n) = n

  abbrev pub is_nonempty : {A : Type 0} → List A → Bool
  is_nonempty [] = false
  is_nonempty (x ∷ xs) = true

  unfoldable pub del : List ℕ → Client S → ℕ × Client S
  unfolding delete_all
  del keys c =
      let (count, m) = delete_all keys 0 c.memory in
      if c.is_healthy && is_nonempty keys
      then (let (r, s) = server.del keys c.raw in
          (or_count count r, record c { memory = m; raw = s }))
      else (count, with_memory c m)

  abbrev pub fields_of : Option (ℕ → Option ℕ) → ℕ → Option ℕ
  fields_of none = λ f. none
  fields_of (some hash) = hash

  unfoldable pub write_fields : List (ℕ × ℕ) → (ℕ → Option ℕ) → ℕ → Option ℕ
  write_fields [] hash = hash
  write_fields ((f, v) ∷ rest) hash = write_fields rest (put f (some v) hash)

  abbrev pub entries : HsetArgs → List (ℕ × ℕ)
  entries (HsetArgs.pair f v) = (f, v) ∷ []
  entries (HsetArgs.object fields) = fields

  unfoldable pub hset : ℕ → HsetArgs → Client S → ℕ × Client S
  unfolding write_fields
  hset key args c =
      let hash = write_fields (entries args) (fields_of (c.memory.hashes key)) in
      let c' = with_memory c (record (c.memory) { hashes = put key (some hash) c.memory.hashes }) in
      if c.is_healthy
      then (let (r, s) = server.hset key args c.raw in (or_count 1 r, record c' { raw = s }))
      else (1, c')

  abbrev recall_field : ℕ → ℕ → Client S → Option ℕ
  recall_field key field c = fields_of (c.memory.hashes key) field

  remember_field : ℕ → ℕ → Client S → Option (Option ℕ) × S → Option ℕ × Client S
  remember_field key field c (some (some v), s) = (some v, record c { raw = s })
  remember_field key field c (some none, s) = (recall_field key field c, record c { raw = s })
  remember_field key field c (none, s) = (recall_field key field c, record c { raw = s })

  unfoldable pub hget : ℕ → ℕ → Client S → Option ℕ × Client S
  unfolding remember_field
  hget key field c =
      if c.is_healthy
      then remember_field key field c (server.hget key field c.raw)
      else (recall_field key field c, c)

  unfoldable pub delete_fields : List ℕ → ℕ → (ℕ → Option ℕ) → ℕ × (ℕ → Option ℕ)
  delete_fields [] count hash = (count, hash)
  delete_fields (f ∷ fs) count hash =
      delete_fields fs (if is_some (hash f) then count + 1 else count) (put f none hash)

  forget_fields : ℕ → List ℕ → Option (ℕ → Option ℕ) → Memory → ℕ × Memory
  unfolding delete_fields
  forget_fields key fields none m = (0, m)
  forget_fields key fields (some hash) m =
      let (count, hash') = delete_fields fields 0 hash in
      (count, record m { hashes = put key (some hash') m.hashes })

  unfoldable pub hdel : ℕ → List ℕ → Client S → ℕ × Client S
  unfolding forget_fields
  hdel key fields c =
      let (count, m) = forget_fields key fields (c.memory.hashes key) c.memory in
      if c.is_healthy
      then (let (r, s) = server.hdel key fields c.raw in
          (or_count count r, record c { memory = m; raw = s }))
      else (count, with_memory c m)

  extend : Option MemoryEntry → ℕ → ℕ → Memory → Memory
  extend none key seconds m = m
  extend (some e) key seconds m = record m {
    store = put key (some (record e { expires_at = some (now + seconds * 1000) })) m.store;
  }

  unfoldable pub expire : ℕ → ℕ → Client S → ℕ × Client S
  unfolding extend
  expire key seconds c =
      let count = if is_some (c.memory.store key) then 1 else 0 in
      let m = extend (c.memory.store key) key seconds c.memory in
      if c.is_healthy
      then (let (r, s) = server.expire key seconds c.raw in
          (or_count count r, record c { memory = m; raw = s }))
      else (count, with_memory c m)

  abbrev pub holds : ℕ → Option ℕ → Bool
  holds token none = false
  holds token (some t) = token == t

  release_memory : ℕ → ℕ → Client S → ℕ × Client S
  release_memory key token c =
      let (current, m) = get_memory_value now key c.memory in
      if holds token current
      then (1, with_memory c (delete_memory_key key m).1)
      else (0, with_memory c m)

  answered : ℕ → ℕ → Client S → Option ℕ × S → ℕ × Client S
  unfolding release_memory
  answered key token c (some n, s) = (n, record c { raw = s })
  answered key token c (none, s) = release_memory key token (record c { raw = s })

  -- `eval` of the release script: on a healthy server it runs there only.
  unfoldable pub eval : ℕ → ℕ → Client S → ℕ × Client S
  unfolding answered release_memory
  eval key token c =
      if c.is_healthy
      then answered key token c (server.release key token c.raw)
      else release_memory key token c

  merged : ℕ → Client S → Option (List (ℕ × ℕ)) × S → (ℕ → Option ℕ) × Client S
  merged key c (some (f ∷ fs), s) = (write_fields (f ∷ fs) (λ g. none), record c { raw = s })
  merged key c (_, s) = (fields_of (c.memory.hashes key), record c { raw = s })

  -- The object of a hash, by its fields.
  unfoldable pub hgetall : ℕ → Client S → (ℕ → Option ℕ) × Client S
  unfolding merged write_fields
  hgetall key c =
      if c.is_healthy
      then merged key c (server.hgetall key c.raw)
      else (fields_of (c.memory.hashes key), c)

-- A pipeline's operations and what they return, none of which throws.
pub data PipeOp : Type 0 where
  set_op : ℕ → ℕ → List Arg → PipeOp
  get_op : ℕ → PipeOp
  del_op : List ℕ → PipeOp

pub data PipeResult : Type 0 where
  was_set : Bool → PipeResult
  was_read : Option ℕ → PipeResult
  was_deleted : ℕ → PipeResult

module _ {S : Type 0} (server : RawRedis S) (now : ℕ) where
  run_op : PipeOp → Client S → PipeResult × Client S
  run_op (set_op key v args) c = let (ok, c') = set server now key v args c in (was_set ok, c')
  run_op (get_op key) c = let (v, c') = get server now key c in (was_read v, c')
  run_op (del_op keys) c = let (n, c') = del server now keys c in (was_deleted n, c')

  unfoldable pub exec : List PipeOp → Client S → List PipeResult × Client S
  unfolding run_op
  exec [] c = ([], c)
  exec (op ∷ ops) c = let (r, c') = run_op op c in let (rs, c'') = exec ops c' in (r ∷ rs, c'')
