-- ===== src/Pool/Unique.antt =====
-- No player is drawn into the pool twice.
use ipl_auction_app.Base.{
  count-take, count-filter, count-append, count-map, ℕ, ◌+◌, ◌-◌, ◌≤◌, ◌≡◌, refl, inl, inr, true,
  false, not, ◌==◌, ltb, Bool-cases, arith, List, [], ◌∷◌, ◌++◌, map, length, count, take, filter,
}
use ipl_auction_app.Rules.Types.{Player, PlayerRole}
use ipl_auction_app.Pool.{
  fisher_yates_shuffle, has_id, used, Chosen, push_all, choose, role_code, of_role, choose_by_role,
  top_off, select_pool, marquee_target, calculate_pool_size, generate_calibrated_player_pool,
}
use ipl_auction_app.Pool.Laws.{count-shuffle}
use ipl_auction_app.Room.State.{Phase}

used_same : (ids : List ℕ) (i j : ℕ) → (j == i) ≡ true → used ids j ≡ used ids i
unfolding used
used_same [] i j h = refl
used_same (k ∷ ids) i j h = ground (arith, used_same ids i j h)

module _ (i : ℕ) where
  -- How often the player `i` stands in a list.
  abbrev times : List Player → ℕ
  times = count (has_id i)

  times-unused :
      (ids : List ℕ) (ps : List Player)
      → used ids i ≡ true
      → times (filter (λ p. not (used ids p.id)) ps) ≡ 0
  times-unused ids [] h = refl
  times-unused ids (p ∷ ps) h = elim (Bool-cases (p.id == i)) [
    | inl hit ↦ ground (arith, times-unused ids ps h, used_same ids i p.id hit)
    | inr miss ↦ ground (arith, times-unused ids ps h)
  ]

  times-push_all :
      (ps : List Player) (c : Chosen) → times (push_all ps c).players ≡ times c.players + times ps
  unfolding push_all
  times-push_all [] c = omega arith
  times-push_all (p ∷ ps) c =
      let c' : Chosen = record { players = c.players ++ p ∷ []; ids = p.id ∷ c.ids } in
      ground (arith, times-push_all ps c', count-append (has_id i) c.players (p ∷ []))

  used-push_all :
      (ps : List Player) (c : Chosen)
      → used (push_all ps c).ids i ≡ false
      → (used c.ids i ≡ false) × (times ps ≡ 0)
  unfolding push_all used
  used-push_all [] c h = (h, refl)
  used-push_all (p ∷ ps) c h =
      let c' : Chosen = record { players = c.players ++ p ∷ []; ids = p.id ∷ c.ids } in
      ground (arith, used-push_all ps c' h)

  -- The player stands at most once among the chosen and `other` earlier ones, and not at all while
  -- its id is unused.
  record IsOnce (other : ℕ) (c : Chosen) : Type 0 where
    once : other + times c.players ≤ 1
    fresh : used c.ids i ≡ false → other + times c.players ≡ 0

  push_all-IsOnce :
      (other : ℕ) (ps : List Player) (c : Chosen)
      → IsOnce other c
      → times ps ≤ 1
      → (used c.ids i ≡ true → times ps ≡ 0)
      → IsOnce other (push_all ps c)
  push_all-IsOnce other ps c o h z = record {
    once = elim (Bool-cases (used c.ids i)) [
      | inl seen ↦ omega (arith, times-push_all ps c, z seen, o.once)
      | inr new ↦ omega (arith, times-push_all ps c, o.fresh new, h)
    ];
    fresh = λ new.
        let (a, b) = used-push_all ps c new in omega (arith, times-push_all ps c, o.fresh a, b);
  }

  choose-IsOnce :
      (other quota : ℕ) (pool : List Player) (c : Chosen)
      → IsOnce other c
      → times pool ≤ 1
      → IsOnce other (choose quota pool c)
  unfolding choose
  choose-IsOnce other quota pool c o h =
      let left = filter (λ p. not (used c.ids p.id)) pool in
      push_all-IsOnce other (take quota left) c o
        (omega (
          arith,
          count-take (has_id i) quota left,
          count-filter (has_id i) (λ p. not (used c.ids p.id)) pool,
          h,
        ))
        (λ seen. omega (arith, count-take (has_id i) quota left, times-unused c.ids pool seen))

  times-group :
      (draw : ℕ → ℕ) (role : PlayerRole) (pool : List Player)
      → times pool ≤ 1
      → times (fisher_yates_shuffle draw (of_role role pool)) ≤ 1
  unfolding of_role
  times-group draw role pool h = omega (
    arith,
    count-shuffle (has_id i) draw (of_role role pool),
    count-filter (has_id i) (λ p. role_code p.role == role_code role) pool,
    h,
  )

  choose_by_role-IsOnce :
      (draw : ℕ → ℕ → ℕ) (other slots : ℕ) (pool : List Player) (c : Chosen)
      → IsOnce other c
      → times pool ≤ 1
      → IsOnce other (choose_by_role draw slots pool c)
  unfolding choose_by_role
  choose_by_role-IsOnce draw other slots pool c o h =
      choose-IsOnce other _ _ _
        (choose-IsOnce other _ _ _
          (choose-IsOnce other _ _ _
            (choose-IsOnce other _ _ _ (choose-IsOnce other _ _ _ o (times-group (draw 1) _ pool h))
              (times-group (draw 2) _ pool h))
            (times-group (draw 3) _ pool h))
          (times-group (draw 4) _ pool h))
        (times-group (draw 5) _ pool h)

  top_off-IsOnce :
      (draw : ℕ → ℕ) (other slots : ℕ) (pool : List Player) (c : Chosen)
      → IsOnce other c
      → times pool ≤ 1
      → IsOnce other (top_off draw slots pool c)
  unfolding top_off
  top_off-IsOnce draw other slots pool c o h =
      let left = filter (λ p. not (used c.ids p.id)) pool in
      let needed = slots - length c.players in
      let kept = count-take (has_id i) needed (fisher_yates_shuffle draw left) in
      let mixed = count-shuffle (has_id i) draw left in
      elim (Bool-cases (ltb (length c.players) slots)) [
        | inl under ↦ rw (under) (
            push_all-IsOnce other (take needed (fisher_yates_shuffle draw left)) c o
              (omega
                (arith, kept, mixed, count-filter (has_id i) (λ p. not (used c.ids p.id)) pool, h))
              (λ seen. omega (arith, kept, mixed, times-unused c.ids pool seen)))
        | inr enough ↦ rw (enough) o
      ]

  used-map : (ps : List Player) → used (map (λ p. p.id) ps) i ≡ false → times ps ≡ 0
  unfolding used
  used-map [] h = refl
  used-map (p ∷ ps) h = ground (arith, used-map ps)

  select_pool-once :
      (draw : ℕ → ℕ → ℕ) (target : ℕ) (marquees generals : List Player)
      → times marquees ≤ 1
      → times generals ≤ 1
      → (let chosen = select_pool draw target marquees generals in
          times chosen.0 + times chosen.1 ≤ 1)
  unfolding select_pool
  select_pool-once draw target marquees generals m g =
      let first =
        take (marquee_target (length marquees) target) (fisher_yates_shuffle (draw 0) marquees) in
      let slots = target - length first in
      let start : Chosen = record { players = []; ids = map (λ p. p.id) first } in
      let chosen = top_off (draw 6) slots generals (choose_by_role draw slots generals start) in
      let missing = target - (length first + length chosen.players) in
      let again : Chosen = record { players = first; ids = chosen.ids } in
      let one : times first ≤ 1 = omega (
        arith,
        count-take (has_id i) (marquee_target (length marquees) target)
            (fisher_yates_shuffle (draw 0) marquees),
        count-shuffle (has_id i) (draw 0) marquees,
        m,
      ) in
      let begun : IsOnce (times first) start = record {
        once = omega (arith, one);
        fresh = λ u. omega (arith, used-map first u);
      } in
      let general =
        top_off-IsOnce (draw 6) (times first) slots generals
          (choose_by_role draw slots generals start)
          (choose_by_role-IsOnce draw (times first) slots generals start begun g) g in
      let resumed : IsOnce (times chosen.players) again = record {
        once = omega (arith, general.once);
        fresh = λ u. omega (arith, general.fresh u);
      } in
      let extra = choose-IsOnce (times chosen.players) missing marquees again resumed m in
      elim (Bool-cases (ltb (length first + length chosen.players) target)) [
        | inl under ↦ rw (under) (omega (arith, extra.once))
        | inr full ↦ rw (full) (omega (arith, general.once))
      ]

-- An id that stands at most once among the marquee players and at most once among the general ones
-- stands at most once in the calibrated pool, whatever is drawn and however many participants there
-- are.
pub pool-once :
    (draw : ℕ → ℕ → ℕ) (marquees generals : List Player) (participants i : ℕ)
    → count (has_id i) marquees ≤ 1
    → count (has_id i) generals ≤ 1
    → (let drawn = generate_calibrated_player_pool draw marquees generals participants in
        count (λ (q : Player × Phase). has_id i q.0) drawn.ordered_players ≤ 1)
unfolding generate_calibrated_player_pool
pool-once draw marquees generals participants i m g =
    let target = calculate_pool_size participants in
    let chosen = select_pool draw target marquees generals in
    let last = fisher_yates_shuffle (draw 7) chosen.1 in
    let it = λ (q : Player × Phase). has_id i q.0 in
    omega (
      arith,
      count-append it (map (λ p. (p, Phase.marquee)) chosen.0) (map (λ p. (p, Phase.general)) last),
      count-map (λ (p : Player). (p, Phase.marquee)) it chosen.0,
      count-map (λ (p : Player). (p, Phase.general)) it last,
      count-shuffle (has_id i) (draw 7) chosen.1,
      select_pool-once i draw target marquees generals m g,
    )
