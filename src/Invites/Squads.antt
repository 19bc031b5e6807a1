-- ===== src/Invites/Squads.antt =====
-- GET /rooms/:code/squads: the purchases of a room by franchise.
use ipl_auction_app.Base.{
  ℕ, ◌==◌, ◌≡◌, refl, sym, ap, arith, Bool, true, false, if◌then◌else◌, List, [], ◌∷◌, ◌++◌, map,
  filter, find, reverse, Option, none, some,
}
use ipl_auction_app.Rules.Types.{FranchiseName, same, Player}
use ipl_auction_app.Franchise.{SquadRow}
use ipl_auction_app.Room.State.{Member, Db}
use ipl_auction_app.Room.Rows.{is_room_member}
use ipl_auction_app.Accounts.Text.{Text}
use ipl_auction_app.Invites.Codes.{Directory, get_room_by_code}
use ipl_auction_app.Invites.Routes.{Shown}

-- `SquadPlayerRecord`.
pub record SquadPlayerRecord : Type 0 where
  pub franchise : Option FranchiseName
  pub player : Player
  pub price_paid_lakhs : ℕ

abbrev pub has_member_id : ℕ → Member → Bool
has_member_id id m = m.id == id

unfoldable pub record_of : SquadRow → Option Member → List SquadPlayerRecord
record_of row none = []
record_of row (some m) =
    record { franchise = m.franchise; player = row.player; price_paid_lakhs = row.price_paid_lakhs }
    ∷ []

unfoldable pub records_of : List Member → List SquadRow → List SquadPlayerRecord
unfolding record_of
records_of members [] = []
records_of members (row ∷ rows) =
    record_of row (find (has_member_id row.room_member_id) members) ++ records_of members rows

-- In the order of their acquisition; the newest row stands first in the state.
unfoldable pub get_squad_players_for_room : Db → List SquadPlayerRecord
unfolding records_of
get_squad_players_for_room db = records_of db.members (reverse db.squad_players)

pub record SquadPlayerItem : Type 0 where
  pub price_paid_lakhs : ℕ
  pub player : Player

abbrev pub item_of : SquadPlayerRecord → SquadPlayerItem
item_of r = record { price_paid_lakhs = r.price_paid_lakhs; player = r.player }

-- The object by franchise, where a missing key is an empty list.
abbrev pub Squads : Type 0
Squads = Option FranchiseName → List SquadPlayerItem

abbrev pub same_key : Option FranchiseName → Option FranchiseName → Bool
same_key none none = true
same_key none (some g) = false
same_key (some f) none = false
same_key (some f) (some g) = same f g

-- The loop over the records.
unfoldable pub grouped : List SquadPlayerRecord → Squads → Squads
grouped [] squads = squads
grouped (r ∷ rs) squads =
    grouped rs (λ f. if same_key r.franchise f then squads f ++ item_of r ∷ [] else squads f)

unfoldable pub get_squads : Db → Squads
unfolding grouped
get_squads db = grouped (get_squad_players_for_room db) (λ f. [])

unfoldable pub participating : List Member → List FranchiseName
participating [] = []
participating (m ∷ ms) =
    let rest = participating ms in elim m.franchise [ none ↦ rest | some f ↦ f ∷ rest ]

unfoldable pub get_room_squads : ℕ → Text → Directory → Shown (Squads × List FranchiseName)
unfolding get_squads participating
get_room_squads user code dir = elim (get_room_by_code code dir) [
  | none ↦ Shown.not_found
  | some e ↦
      if is_room_member user e.db
      then Shown.shown (get_squads e.db, participating e.db.members)
      else Shown.forbidden
]

append_assoc : (xs ys zs : List SquadPlayerItem) → (xs ++ ys) ++ zs ≡ xs ++ (ys ++ zs)
append_assoc [] ys zs = refl
append_assoc (x ∷ xs) ys zs = ap (λ t. x ∷ t) (append_assoc xs ys zs)

append_nil : (xs : List SquadPlayerItem) → xs ++ [] ≡ xs
append_nil [] = refl
append_nil (x ∷ xs) = ap (λ t. x ∷ t) (append_nil xs)

abbrev pub bought_by : Option FranchiseName → SquadPlayerRecord → Bool
bought_by f r = same_key r.franchise f

grouped-filter :
    (f : Option FranchiseName) (rs : List SquadPlayerRecord) (squads : Squads)
    → grouped rs squads f ≡ squads f ++ map item_of (filter (bought_by f) rs)
unfolding grouped
grouped-filter f [] squads = sym (append_nil (squads f))
grouped-filter f (r ∷ rs) squads =
    let rest = filter (bought_by f) rs in
    ground (
      arith,
      grouped-filter f rs
          (λ g. if same_key r.franchise g then squads g ++ item_of r ∷ [] else squads g),
      append_assoc (squads f) (item_of r ∷ []) (map item_of rest),
    )

-- The squad shown for a franchise is that of the room's purchases whose buyer has the franchise, in the
-- order of their acquisition.
pub get_squads-filter :
    (f : Option FranchiseName) (db : Db)
    → get_squads db f ≡ map item_of (filter (bought_by f) (get_squad_players_for_room db))
unfolding get_squads
get_squads-filter f db = grouped-filter f (get_squad_players_for_room db) (λ g. [])
