-- ===== src/Room/Safety/Loads.antt =====
-- With every state cached, loading states changes nothing.
use ipl_auction_app.Base.{◌≡◌, refl, Option, none, some, List, [], ◌∷◌, arith}
use ipl_auction_app.Rules.Types.{FranchiseName}
use ipl_auction_app.Room.State.{World, Member}
use ipl_auction_app.Room.Wallets.{
  load_franchise_state, rebuild_franchise_state, load_of, load_states, load_all_franchise_states,
}
use ipl_auction_app.Room.Safety.Invariant.{IsCached}

pub load_cached :
    (f : FranchiseName) (w : World)
    → IsCached w
    → load_franchise_state f w ≡ (w.redis.franchise_state f, w)
unfolding load_franchise_state rebuild_franchise_state
load_cached f w c = ground (arith, c f)

load_of_cached : (o : Option FranchiseName) (w : World) → IsCached w → (load_of o w).1 ≡ w
unfolding load_of
load_of_cached none w c = refl
load_of_cached (some f) w c = ground (arith, load_cached f w c)

load_states_cached : (ms : List Member) (w : World) → IsCached w → (load_states ms w).1 ≡ w
unfolding load_states
load_states_cached [] w c = refl
load_states_cached (m ∷ ms) w c = rw (load_of_cached m.franchise w c) (load_states_cached ms w c)

pub load_all_cached : (w : World) → IsCached w → (load_all_franchise_states w).1 ≡ w
unfolding load_all_franchise_states
load_all_cached w c = load_states_cached w.db.members w c
