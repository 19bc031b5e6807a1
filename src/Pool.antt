-- ===== src/Pool.antt =====
-- packages/shared/src/constants/pool.constants.ts and the pure part of
-- apps/backend/src/services/queueManager.ts: the shuffle and the calibrated player pool.
-- `Math.random` is a parameter: `draw k i` is `Math.floor(Math.random() * (i + 1))` in the round of
-- the `k`-th shuffle that has `i` as its index.
pub mod Laws
pub mod Unique
use ipl_auction_app.Base.{
  ℕ, zero, suc, ◌+◌, ◌-◌, ◌*◌, ◌/◌, ◌==◌, ◌||◌, min, max, Bool, false, not, ltb, if◌then◌else◌,
  List, [], ◌∷◌, ◌++◌, map, Option, some, length, get_elem?, set, take, filter,
}
use ipl_auction_app.Rules.Types.{Player, PlayerRole, batter, pacer, spinner, allrounder, wk}
use ipl_auction_app.Room.State.{Phase, marquee, general}

-- 25 * 1.4 is 35, so the rounding is exact.
abbrev pub players_wanted_per_manager : ℕ
players_wanted_per_manager = 35

unfoldable pub calculate_pool_size : ℕ → ℕ
calculate_pool_size participant_count =
    min 250 (max 50 (max 1 participant_count * players_wanted_per_manager))

module _ {ℓ} {A : Type ℓ} where
  swap_found : List A → ℕ → ℕ → Option A → Option A → List A
  swap_found arr i j (some x) (some y) = set (set arr i y) j x
  swap_found arr i j _ _ = arr

  -- `[arr[i], arr[j]] = [arr[j], arr[i]]`, at indices in range.
  pub swap : List A → ℕ → ℕ → List A
  unfolding swap_found
  swap arr i j = swap_found arr i j (get_elem? arr i) (get_elem? arr j)

  shuffle_from : (ℕ → ℕ) → ℕ → List A → List A
  shuffle_from draw zero arr = arr
  shuffle_from draw (suc i) arr = shuffle_from draw i (swap arr (suc i) (draw (suc i)))

  unfoldable pub fisher_yates_shuffle : (ℕ → ℕ) → List A → List A
  unfolding shuffle_from swap
  fisher_yates_shuffle draw arr = shuffle_from draw (length arr - 1) arr

-- `Math.round(n * 0.01 * percent)`.
abbrev pub round_percent : ℕ → ℕ → ℕ
round_percent n percent = (n * percent + 50) / 100

abbrev pub has_id : ℕ → Player → Bool
has_id i p = p.id == i

-- `usedPlayerIds.has(id)`.
unfoldable pub used : List ℕ → ℕ → Bool
used [] i = false
used (j ∷ ids) i = j == i || used ids i

-- The players chosen so far, and `usedPlayerIds`.
pub record Chosen : Type 0 where
  pub players : List Player
  pub ids : List ℕ

-- `for (const p of toAdd) { selected.push(p); usedPlayerIds.add(p.id); }`
unfoldable pub push_all : List Player → Chosen → Chosen
push_all [] c = c
push_all (p ∷ ps) c = push_all ps (record { players = c.players ++ p ∷ []; ids = p.id ∷ c.ids })

-- At most `quota` players of the pool that are not used yet.
unfoldable pub choose : ℕ → List Player → Chosen → Chosen
unfolding push_all used
choose quota pool c = push_all (take quota (filter (λ p. not (used c.ids p.id)) pool)) c

unfoldable pub role_code : PlayerRole → ℕ
role_code batter = 0
role_code pacer = 1
role_code allrounder = 2
role_code spinner = 3
role_code wk = 4

unfoldable pub of_role : PlayerRole → List Player → List Player
unfolding role_code
of_role role = filter (λ p. role_code p.role == role_code role)

-- The first pass over the groups of `roleWeights`.
unfoldable pub choose_by_role : (ℕ → ℕ → ℕ) → ℕ → List Player → Chosen → Chosen
choose_by_role draw slots pool c =
    let group = λ (k : ℕ) (role : PlayerRole). fisher_yates_shuffle (draw k) (of_role role pool) in
    choose (round_percent slots 10) (group 5 wk) (
      choose (round_percent slots 18) (group 4 spinner) (
        choose (round_percent slots 22) (group 3 allrounder) (
          choose (round_percent slots 25) (group 2 pacer)
            (choose (round_percent slots 25) (group 1 batter) c))))

-- The top-off from the general players that are left.
unfoldable pub top_off : (ℕ → ℕ) → ℕ → List Player → Chosen → Chosen
top_off draw slots pool c =
    if ltb (length c.players) slots
    then push_all
        (take (slots - length c.players)
          (fisher_yates_shuffle draw (filter (λ p. not (used c.ids p.id)) pool)))
        c
    else c

pub record CalibratedPool : Type 0 where
  pub ordered_players : List (Player × Phase)
  pub target_count : ℕ
  pub marquee_count : ℕ
  pub general_count : ℕ

abbrev pub marquee_target : ℕ → ℕ → ℕ
marquee_target available target = min available (max 10 (round_percent target 20))

-- The marquee and the general players of the pool, before the last shuffle.
unfoldable pub select_pool : (ℕ → ℕ → ℕ) → ℕ → List Player → List Player → List Player × List Player
unfolding choose choose_by_role top_off
select_pool draw target marquees generals =
    let first =
      take (marquee_target (length marquees) target) (fisher_yates_shuffle (draw 0) marquees) in
    let slots = target - length first in
    let start : Chosen = record { players = []; ids = map (λ p. p.id) first } in
    let chosen = top_off (draw 6) slots generals (choose_by_role draw slots generals start) in
    let missing = target - (length first + length chosen.players) in
    let extra = choose missing marquees (record { players = first; ids = chosen.ids }) in
    (
      if ltb (length first + length chosen.players) target then extra.players else first,
      chosen.players,
    )

unfoldable pub generate_calibrated_player_pool :
    (ℕ → ℕ → ℕ) → List Player → List Player → ℕ → CalibratedPool
unfolding select_pool
generate_calibrated_player_pool draw marquees generals participant_count =
    let target = calculate_pool_size participant_count in
    let (selected_marquee, selected_general) = select_pool draw target marquees generals in
    let final_general = fisher_yates_shuffle (draw 7) selected_general in
    record {
      ordered_players =
          map (λ p. (p, marquee)) selected_marquee ++ map (λ p. (p, general)) final_general;
      target_count = target;
      marquee_count = length selected_marquee;
      general_count = length final_general;
    }
