-- ===== src/Room/Lobby/Members.antt =====
-- The members of a room and its host through joins, choices, departures and sales.
use ipl_auction_app.Room.Lobby.Roster.{
  IsRoster, newcomer, claimed-members, claim_franchise-IsRoster, added-members, add_member-IsRoster,
  remove_member-IsRoster, sold-members, sale-IsRoster,
}
use ipl_auction_app.Base.{
  count-append, count-absent, ℕ, ◌≤◌, ◌≡◌, refl, inl, inr, arith, Bool-cases, [], ◌∷◌, count, find,
  count-present, sym, ◌∙◌, ◌≢◌, some, is_some,
}
use ipl_auction_app.Rules.Types.{FranchiseName, same}
use ipl_auction_app.Room.State.{Db, Sale}
use ipl_auction_app.Room.Lobby.Counts.{count-charge, claim-users}
use ipl_auction_app.Room.Lobby.Hosting.{IsHosted, remove_member-IsHosted}
use ipl_auction_app.Room.Rows.{
  FranchiseConstraint, record_player_sold, of_user, add_member_to_room, claimed, claim_franchise,
  remove_member_from_room,
}

-- Where no user loses the rows that it has, the host stays a member.
stays-IsHosted :
    (db db' : Db)
    → db'.room ≡ db.room
    → ((u : ℕ) → count (of_user u) db.members ≤ count (of_user u) db'.members)
    → IsHosted db
    → IsHosted db'
stays-IsHosted db db' same grows h r e =
    let p = of_user r.host_user_id in
    elim (Bool-cases (is_some (find p db'.members))) [
      | inl found ↦ found
      | inr absent ↦ absurd (
          omega (
            arith,
            count-present p db.members (h r (sym same ∙ e)),
            grows r.host_user_id,
            count-absent p db'.members absent,
          ))
    ]

-- A room with its roster and its host.
pub record IsOrdered (db : Db) : Type 0 where
  pub roster : IsRoster db.members
  pub hosted : IsHosted db

-- A change of the room's members: a user joins under either constraint, chooses a franchise or is torn
-- down while others stay, or a sale is written.
pub data Change : Db → Db → Type 0 where
  joins :
      (k : FranchiseConstraint) (id user : ℕ) (db db' : Db)
      → add_member_to_room k id user db ≡ some db'
      → Change db db'
  chooses :
      (user : ℕ) (f : FranchiseName) (db db' : Db)
      → claim_franchise user f db ≡ claimed db'
      → Change db db'
  leaves :
      (user : ℕ) (db : Db)
      → (remove_member_from_room user db).1.members ≢ []
      → Change db (remove_member_from_room user db).1
  buys : (s : Sale) (db : Db) → Change db (record_player_sold s db)

pub data Changes (db : Db) : Db → Type 0 where
  start : Changes db db
  more : {db1 db2 : Db} → Changes db db1 → Change db1 db2 → Changes db db2

joins-IsHosted :
    (k : FranchiseConstraint) (id user : ℕ) (db db' : Db)
    → add_member_to_room k id user db ≡ some db'
    → IsHosted db
    → IsHosted db'
joins-IsHosted k id user db db' h =
    let (same, members) = added-members k id user db db' h in
    stays-IsHosted db db' same (λ u. elim members [
      | inl e ↦ ground (arith, e)
      | inr (new, e) ↦
          ground (arith, e, count-append (of_user u) db.members (newcomer id user ∷ []))
    ])

claimed-room :
    (user : ℕ) (f : FranchiseName) (db db' : Db)
    → claim_franchise user f db ≡ claimed db'
    → db'.room ≡ db.room
unfolding claim_franchise
claimed-room user f db db' h = ground arith

chooses-IsHosted :
    (user : ℕ) (f : FranchiseName) (db db' : Db)
    → claim_franchise user f db ≡ claimed db'
    → IsHosted db
    → IsHosted db'
chooses-IsHosted user f db db' h =
    let (free, e) = claimed-members user f db db' h in
    stays-IsHosted db db' (claimed-room user f db db' h)
      (λ u. ground (arith, e, claim-users user f u db.members))

sold-room : (s : Sale) (db : Db) → (record_player_sold s db).room ≡ db.room
unfolding record_player_sold
sold-room s db = ground arith

buys-IsHosted : (s : Sale) (db : Db) → IsHosted db → IsHosted (record_player_sold s db)
buys-IsHosted s db = stays-IsHosted db (record_player_sold s db) (sold-room s db) (λ u.
    elim (sold-members s db) [
      | inl e ↦ ground (arith, e)
      | inr e ↦ ground (
        arith,
        e,
        count-charge (of_user u) s.room_member_id s.price_lakhs (λ m v. refl) db.members,
      )
    ])

leaves-IsHosted :
    (user : ℕ) (db : Db)
    → (remove_member_from_room user db).1.members ≢ []
    → IsHosted db
    → IsHosted (remove_member_from_room user db).1
leaves-IsHosted user db others h = elim (remove_member-IsHosted user db h) [
  | inl empty ↦ absurd (others empty)
  | inr hosted ↦ hosted
]

Change-IsOrdered : {db db' : Db} → Change db db' → IsOrdered db → IsOrdered db'
Change-IsOrdered (joins k id user db db' h) o = record {
  roster = add_member-IsRoster k id user db db' h o.roster;
  hosted = joins-IsHosted k id user db db' h o.hosted;
}
Change-IsOrdered (chooses user f db db' h) o = record {
  roster = claim_franchise-IsRoster user f db db' h o.roster;
  hosted = chooses-IsHosted user f db db' h o.hosted;
}
Change-IsOrdered (leaves user db others) o = record {
  roster = remove_member-IsRoster user db o.roster;
  hosted = leaves-IsHosted user db others o.hosted;
}
Change-IsOrdered (buys s db) o = record {
  roster = sale-IsRoster s db o.roster;
  hosted = buys-IsHosted s db o.hosted;
}

-- A room with one row for each user, one member at most for each franchise, and a host who is one of the
-- members stays one, whatever users join, under either constraint on franchises, choose, leave and buy,
-- in any order, so long as nobody leaves as the last one. This holds also when the host leaves the lobby.
pub members-IsOrdered : {db db' : Db} → IsOrdered db → Changes db db' → IsOrdered db'
members-IsOrdered o start = o
members-IsOrdered o (more cs c) = Change-IsOrdered c (members-IsOrdered o cs)
