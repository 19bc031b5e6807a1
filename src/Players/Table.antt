-- ===== src/Players/Table.antt =====
-- The table of players with its constraint on names, which the seed script fills and
-- apps/backend/src/db/queries/players.ts reads.
use text.Mathlib.Text.{◌==◌ as ◌=ₛ◌}
use ipl_auction_app.Base.{ℕ, suc, ◌==◌, String, Bool, if◌then◌else◌, List, [], ◌∷◌, find, Option}
use ipl_auction_app.Rules.Types.{Player, PlayerRole, PlayerNationality}

-- `ParsedPlayer`.
pub record ParsedPlayer : Type 0 where
  pub name : String
  pub category : String
  pub role : PlayerRole
  pub nationality : PlayerNationality
  pub is_marquee : Bool
  pub is_capped : Bool
  pub base_price_lakhs : ℕ

abbrev pub row_of : ℕ → ParsedPlayer → Player
row_of id p = record {
  id = id;
  name = p.name;
  category = p.category;
  role = p.role;
  nationality = p.nationality;
  is_marquee = p.is_marquee;
  is_capped = p.is_capped;
  base_price_lakhs = p.base_price_lakhs;
}

abbrev pub has_name : String → Player → Bool
has_name name r = r.name =ₛ name

-- The SET clause.
abbrev pub updated : ParsedPlayer → Player → Player
updated p r = record r {
  category = p.category;
  role = p.role;
  nationality = p.nationality;
  is_marquee = p.is_marquee;
  is_capped = p.is_capped;
  base_price_lakhs = p.base_price_lakhs;
}

-- INSERT … ON CONFLICT (name) DO UPDATE, with the id that a new row draws.
unfoldable pub upsert : ℕ → ParsedPlayer → List Player → List Player
upsert id p [] = row_of id p ∷ []
upsert id p (r ∷ rs) =
    let rest = upsert id p rs in if has_name p.name r then updated p r ∷ rs else r ∷ rest

-- The loop of the seed script.
unfoldable pub seed : (ℕ → ℕ) → ℕ → List ParsedPlayer → List Player → List Player
seed draw k [] table = table
seed draw k (p ∷ ps) table = seed draw (suc k) ps (upsert (draw k) p table)

-- `getAllPlayers`, at the rows in the order of its query.
unfoldable pub get_all_players : List Player → List Player × List Player
get_all_players [] = ([], [])
get_all_players (r ∷ rows) =
    let (marquee, general) = get_all_players rows in
    if r.is_marquee then (r ∷ marquee, general) else (marquee, r ∷ general)

unfoldable pub get_player_by_id : ℕ → List Player → Option Player
get_player_by_id id = find (λ r. r.id == id)
