-- ===== src/Room/Wallets.antt =====
-- apps/backend/src/services/franchiseStateService.ts: the franchise states in Redis, with their
-- reconstruction from PostgreSQL on a cache miss.
pub mod Laws
use ipl_auction_app.Base.{ℕ, ◌==◌, if◌then◌else◌, List, [], ◌∷◌, ◌++◌, Option, none, some, filter}
use ipl_auction_app.Rules.Types.{FranchiseName, same, FranchiseState, Player}
use ipl_auction_app.Franchise.{initial_state, deducted, rebuilt}
use ipl_auction_app.Room.State.{Db, Member, World, set_redis}
use ipl_auction_app.Room.Rows.{get_room_member_by_franchise}

unfoldable pub set_franchise_state : FranchiseName → FranchiseState → World → World
unfolding set_redis
set_franchise_state f s =
    set_redis
      λ r. record r { franchise_state = λ g. if same g f then some s else r.franchise_state g }

unfoldable pub init_states : List Member → World → World
init_states [] w = w
init_states (m ∷ ms) w = elim m.franchise [
  | none ↦ init_states ms w
  | some f ↦ init_states ms (set_franchise_state f (initial_state f) w)
]

unfoldable pub init_all_franchise_states : World → World
unfolding init_states
init_all_franchise_states w = init_states w.db.members w

-- What `rebuildFranchiseStateFromDB` computes, before it caches it.
unfoldable pub rebuild_franchise_state : FranchiseName → Db → Option FranchiseState
rebuild_franchise_state f db = elim (get_room_member_by_franchise f db) [
  | none ↦ none
  | some m ↦
      some (
        rebuilt f m.wallet_remaining_lakhs
          (filter (λ r. r.room_member_id == m.id) db.squad_players))
]

unfoldable pub load_franchise_state : FranchiseName → World → Option FranchiseState × World
load_franchise_state f w = elim (w.redis.franchise_state f) [
  | some s ↦ (some s, w)
  | none ↦ elim (rebuild_franchise_state f w.db) [
    | none ↦ (none, w)
    | some s ↦ (some s, set_franchise_state f s w)
  ]
]

store_deducted :
    FranchiseName → ℕ → Player → Option FranchiseState × World → Option FranchiseState × World
store_deducted f price player (none, w) = (none, w)
store_deducted f price player (some current, w) =
    let updated = deducted current price player in (some updated, set_franchise_state f updated w)

-- `none` is the thrown error.
unfoldable pub deduct_from_franchise_state :
    FranchiseName → ℕ → Player → World → Option FranchiseState × World
unfolding store_deducted
deduct_from_franchise_state f price player w =
    store_deducted f price player (load_franchise_state f w)

add_state :
    FranchiseName
    → Option FranchiseState
    → List (FranchiseName × FranchiseState)
    → List (FranchiseName × FranchiseState)
add_state f none states = states
add_state f (some s) states = (f, s) ∷ states

-- One round of the loop: a member without a franchise is skipped.
unfoldable pub load_of :
    Option FranchiseName → World → List (FranchiseName × FranchiseState) × World
unfolding add_state
load_of none w = ([], w)
load_of (some f) w = let (s, w') = load_franchise_state f w in (add_state f s [], w')

unfoldable pub load_states : List Member → World → List (FranchiseName × FranchiseState) × World
load_states [] w = ([], w)
load_states (m ∷ ms) w =
    let (found, w') = load_of m.franchise w in
    let (rest, w'') = load_states ms w' in (found ++ rest, w'')

-- The states that it found, and the room with those that it cached anew.
unfoldable pub load_all_franchise_states : World → List (FranchiseName × FranchiseState) × World
unfolding load_states
load_all_franchise_states w = load_states w.db.members w
