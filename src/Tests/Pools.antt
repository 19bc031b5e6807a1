-- ===== src/Tests/Pools.antt =====
-- The shuffle and the pool on two players.
use ipl_auction_app.Base.{◌+◌, ◌≡◌, refl, Bool, ◌≤◌, arith, [], ◌∷◌, count}
use ipl_auction_app.Rules.Types.{Player, PlayerRole, PlayerNationality}
use ipl_auction_app.Pool.{has_id, generate_calibrated_player_pool}
use ipl_auction_app.Players.Table.{ParsedPlayer, get_all_players, seed}
use ipl_auction_app.Players.Once.{table_pool-once}
use ipl_auction_app.Players.Seeding.{seed_again}
use ipl_auction_app.Room.State.{Phase}
use ipl_auction_app.Tests.Fixtures.{opener, keeper}

table_pool-once_example :
    let (marquees, generals) = get_all_players (keeper ∷ opener ∷ []) in
    count
      (λ (q : Player × Phase). has_id 2 q.0)
      (generate_calibrated_player_pool (λ k i. 0) marquees generals 2).ordered_players
    ≤ 1
table_pool-once_example = table_pool-once (λ k i. 0) (keeper ∷ opener ∷ []) 2 2 (omega arith)

abbrev first_mock : ParsedPlayer
first_mock = record {
  name = "Mock Player A";
  category = "Indian Premium Pacers 6";
  role = PlayerRole.pacer;
  nationality = PlayerNationality.indian;
  is_marquee = Bool.true;
  is_capped = Bool.true;
  base_price_lakhs = 200;
}

abbrev second_mock : ParsedPlayer
second_mock = record first_mock { name = "Mock Player B" }

seed_again_example :
    seed
      (λ k. k + 20)
      0
      (first_mock ∷ second_mock ∷ [])
      (seed (λ k. k) 0 (first_mock ∷ second_mock ∷ []) (opener ∷ []))
    ≡ seed (λ k. k) 0 (first_mock ∷ second_mock ∷ []) (opener ∷ [])
seed_again_example =
    seed_again (λ k. k) (λ k. k + 20) 0 0 (first_mock ∷ second_mock ∷ []) (opener ∷ [])
      ((refl, tt), (tt, tt))
