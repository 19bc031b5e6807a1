-- ===== src/Players/Once.antt =====
-- From the table of players to the pool of an auction.
use ipl_auction_app.Base.{ℕ, ◌+◌, ◌≤◌, ◌≡◌, refl, arith, List, [], ◌∷◌, count}
use ipl_auction_app.Rules.Types.{Player}
use ipl_auction_app.Pool.{has_id, generate_calibrated_player_pool}
use ipl_auction_app.Pool.Unique.{pool-once}
use ipl_auction_app.Room.State.{Phase}
use ipl_auction_app.Players.Table.{get_all_players}

split_count :
    (i : ℕ) (rows : List Player)
    → count (has_id i) (get_all_players rows).0 + count (has_id i) (get_all_players rows).1
      ≡ count (has_id i) rows
unfolding get_all_players
split_count i [] = refl
split_count i (r ∷ rows) = ground (arith, split_count i rows)

-- A player who stands at most once in the rows of the table stands at most once in the calibrated pool
-- that an auction draws from it, whatever is drawn and however many participants there are.
pub table_pool-once :
    (draw : ℕ → ℕ → ℕ) (rows : List Player) (participants i : ℕ)
    → count (has_id i) rows ≤ 1
    → (let (marquees, generals) = get_all_players rows in
        let drawn = generate_calibrated_player_pool draw marquees generals participants in
        count (λ (q : Player × Phase). has_id i q.0) drawn.ordered_players ≤ 1)
table_pool-once draw rows participants i once =
    let (marquees, generals) = get_all_players rows in
    pool-once draw marquees generals participants i (omega (arith, once, split_count i rows))
      (omega (arith, once, split_count i rows))
