-- ===== src/Store/Outage.antt =====
-- A server whose every call throws against no server at all.
use ipl_auction_app.Base.{ℕ, ◌≡◌, none, List, arith}
use ipl_auction_app.Store.Memory.{Memory}
use ipl_auction_app.Store.Flags.{Arg}
use ipl_auction_app.Store.Client.{
  RawRedis, HsetArgs, Client, on_failure, get, set, del, hset, hget, hdel, hgetall, expire, eval,
}

module _ {S : Type 0} (server : RawRedis S) where
  -- Every call of the server throws.
  pub record IsDown : Type 0 where
    pub no_get : (k : ℕ) (s : S) → (server.get k s).0 ≡ none
    pub no_set : (k v : ℕ) (args : List Arg) (s : S) → (server.set k v args s).0 ≡ none
    pub no_del : (ks : List ℕ) (s : S) → (server.del ks s).0 ≡ none
    pub no_hset : (k : ℕ) (args : HsetArgs) (s : S) → (server.hset k args s).0 ≡ none
    pub no_hget : (k f : ℕ) (s : S) → (server.hget k f s).0 ≡ none
    pub no_hdel : (k : ℕ) (fs : List ℕ) (s : S) → (server.hdel k fs s).0 ≡ none
    pub no_hgetall : (k : ℕ) (s : S) → (server.hgetall k s).0 ≡ none
    pub no_expire : (k n : ℕ) (s : S) → (server.expire k n s).0 ≡ none
    pub no_release : (k t : ℕ) (s : S) → (server.release k t s).0 ≡ none

  -- The answer and the memory afterwards.
  abbrev pub seen : {A : Type 0} → A × Client S → A × Memory
  seen (r, c) = (r, c.memory)

  -- A client that takes its server for healthy, while every call of it throws, answers and remembers
  -- exactly as one that knows the server to be out, in every operation: no caller sees an error.
  pub outage-seen :
      (now key v n : ℕ) (args : List Arg) (keys : List ℕ) (fields : HsetArgs) (c : Client S)
      → IsDown
      → (let d = on_failure c in
          (seen (get server now key c) ≡ seen (get server now key d))
          × (seen (set server now key v args c) ≡ seen (set server now key v args d))
          × (seen (del server now keys c) ≡ seen (del server now keys d))
          × (seen (hset server now key fields c) ≡ seen (hset server now key fields d))
          × (seen (hget server now key v c) ≡ seen (hget server now key v d))
          × (seen (hdel server now key keys c) ≡ seen (hdel server now key keys d))
          × (seen (hgetall server now key c) ≡ seen (hgetall server now key d))
          × (seen (expire server now key n c) ≡ seen (expire server now key n d))
          × (seen (eval server now key v c) ≡ seen (eval server now key v d)))
  unfolding on_failure get set del hset hget hdel hgetall expire eval
  outage-seen now key v n args keys fields c down = (
    ground (arith, down.no_get key c.raw),
    ground (arith, down.no_set key v args c.raw),
    ground (arith, down.no_del keys c.raw),
    ground (arith, down.no_hset key fields c.raw),
    ground (arith, down.no_hget key v c.raw),
    ground (arith, down.no_hdel key keys c.raw),
    ground (arith, down.no_hgetall key c.raw),
    ground (arith, down.no_expire key n c.raw),
    ground (arith, down.no_release key v c.raw),
  )
