-- ===== src/Store/Lock.antt =====
-- apps/backend/src/redis/lock.ts over the client. The token is what `randomUUID` drew.
use ipl_auction_app.Base.{ℕ, ◌+◌, ◌/◌, ◌==◌, Bool, if◌then◌else◌, Option, none, some, [], ◌∷◌}
use ipl_auction_app.Store.Flags.{Arg}
use ipl_auction_app.Store.Client.{RawRedis, Client, set, eval}

module _ {S : Type 0} (server : RawRedis S) (now : ℕ) where
  unfoldable pub acquire_lock : ℕ → ℕ → ℕ → Client S → Option ℕ × Client S
  unfolding set
  acquire_lock token key ttl_ms c =
      let ttl_seconds = (ttl_ms + 999) / 1000 in
      let (ok, c') = set server now key token (Arg.ex ∷ Arg.num ttl_seconds ∷ Arg.nx ∷ []) c in
      (if ok then some token else none, c')

  unfoldable pub release_lock : ℕ → ℕ → Client S → Bool × Client S
  unfolding eval
  release_lock key token c = let (result, c') = eval server now key token c in (result == 1, c')
