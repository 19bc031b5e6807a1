-- ===== src/Ledger/Deals.antt =====
-- The life of a room from its creation to the pages that show it.
use ipl_auction_app.Base.{
  ℕ, ◌+◌, ◌≤◌, ◌≡◌, refl, sym, ap, subst, ◌∙◌, arith, false, is_some, not, ◌⊎◌, inl, inr, List, [],
  ◌∷◌, ◌++◌, find, get_elem?, some, pos_part, neg_part, ◌≤ℤ◌, pos,
}
use ipl_auction_app.Rules.Types.{FranchiseName}
use ipl_auction_app.Rules.Eligibility.{wallet_total_lakhs}
use ipl_auction_app.Franchise.{SquadRow}
use ipl_auction_app.Room.State.{Member, Db, Sale}
use ipl_auction_app.Room.Rows.{
  FranchiseConstraint, add_member_to_room, claimed, claim_franchise, remove_member_from_room,
  record_player_sold, charge, of_user, remove_found,
}
use ipl_auction_app.Room.Lobby.Roster.{claimed-members, removed-members, newcomer}
use ipl_auction_app.Invites.Squads.{has_member_id}
use ipl_auction_app.Invites.Codes.{new_entry}
use ipl_auction_app.Accounts.Text.{Text}
use ipl_auction_app.Accounts.Users.{Users}
use ipl_auction_app.Ledger.{
  bought_for, total_paid, teams, HistoricalTeamRecord, by_member, no_squads, squad_rows, team_of,
}
use ipl_auction_app.Ledger.Squads.{spent, team-at, team_of-paid}
use ipl_auction_app.Ledger.Balance.{
  IsFair, IsBalanced, IsBalanced-at, filter-IsBalanced, append-IsBalanced, claim-IsBalanced,
  charge-IsBalanced, affords,
}

-- A change of a room's rows: a user joins under a new id, chooses a franchise or leaves, a sale is
-- written whose buyer can pay it, or other tables are written.
pub data Deal : Db → Db → Type 0 where
  joins :
      (k : FranchiseConstraint) (id user : ℕ) (db db' : Db)
      → is_some (find (bought_for id) db.squad_players) ≡ false
      → add_member_to_room k id user db ≡ some db'
      → Deal db db'
  chooses :
      (user : ℕ) (f : FranchiseName) (db db' : Db)
      → claim_franchise user f db ≡ claimed db'
      → Deal db db'
  leaves : (user : ℕ) (db : Db) → Deal db (remove_member_from_room user db).1
  pays :
      (s : Sale) (m : Member) (db : Db)
      → find (has_member_id s.room_member_id) db.members ≡ some m
      → pos s.price_lakhs ≤ℤ m.wallet_remaining_lakhs
      → Deal db (record_player_sold s db)
  elsewhere :
      (db db' : Db) → db'.members ≡ db.members → db'.squad_players ≡ db.squad_players → Deal db db'

pub data Deals (db : Db) : Db → Type 0 where
  start : Deals db db
  more : {db1 db2 : Db} → Deals db db1 → Deal db1 db2 → Deals db db2

abbrev pub HasBalance : Db → Type 0
HasBalance db = IsBalanced db.squad_players db.members

carried :
    (db db' : Db)
    → db'.squad_players ≡ db.squad_players
    → IsBalanced db.squad_players db'.members
    → HasBalance db'
carried db db' e b = subst (λ rows. IsBalanced rows db'.members) (sym e) b

spent-absent :
    (id : ℕ) (rows : List SquadRow)
    → is_some (find (bought_for id) rows) ≡ false
    → spent id rows ≡ 0
unfolding total_paid
spent-absent id [] h = refl
spent-absent id (r ∷ rs) h = ground (arith, spent-absent id rs)

added-rows :
    (k : FranchiseConstraint) (id user : ℕ) (db db' : Db)
    → add_member_to_room k id user db ≡ some db'
    → (db'.squad_players ≡ db.squad_players)
      × ((db'.members ≡ db.members) ⊎ (db'.members ≡ db.members ++ newcomer id user ∷ []))
unfolding add_member_to_room
added-rows k id user db db' h = ground arith

joins-HasBalance :
    (k : FranchiseConstraint) (id user : ℕ) (db db' : Db)
    → is_some (find (bought_for id) db.squad_players) ≡ false
    → add_member_to_room k id user db ≡ some db'
    → HasBalance db
    → HasBalance db'
joins-HasBalance k id user db db' new h b =
    let (same, members) = added-rows k id user db db' h in
    let rows = db.squad_players in
    carried db db' same (elim members as (λ _. IsBalanced rows db'.members) [
      | inl e ↦ subst (λ ms. IsBalanced rows ms) (sym e) b
      | inr e ↦
          let fair : IsFair rows (newcomer id user) =
            (refl, omega (arith, spent-absent id rows new)) in
          subst (λ ms. IsBalanced rows ms) (sym e)
            (append-IsBalanced (newcomer id user) rows db.members fair b)
    ])

chooses-HasBalance :
    (user : ℕ) (f : FranchiseName) (db db' : Db)
    → claim_franchise user f db ≡ claimed db'
    → HasBalance db
    → HasBalance db'
unfolding claim_franchise
chooses-HasBalance user f db db' h b =
    let (free, e) = claimed-members user f db db' h in
    let rows = db.squad_players in
    carried db db' (ground arith)
      (subst (λ ms. IsBalanced rows ms) (sym e) (claim-IsBalanced user f rows db.members b))

removed-rows :
    (user : ℕ) (db : Db) → (remove_member_from_room user db).1.squad_players ≡ db.squad_players
unfolding remove_member_from_room remove_found
removed-rows user db = ground arith

leaves-HasBalance :
    (user : ℕ) (db : Db) → HasBalance db → HasBalance (remove_member_from_room user db).1
leaves-HasBalance user db b =
    let rows = db.squad_players in
    let db' = (remove_member_from_room user db).1 in
    carried db db' (removed-rows user db)
      (elim (removed-members user db) as (λ _. IsBalanced rows db'.members) [
        | inl e ↦ subst (λ ms. IsBalanced rows ms) (sym e) b
        | inr e ↦
            subst (λ ms. IsBalanced rows ms) (sym e)
              (filter-IsBalanced (λ x. not (of_user user x)) rows db.members b)
      ])

-- The row that a sale inserts.
abbrev sold_row : Sale → SquadRow
sold_row s = record {
  room_member_id = s.room_member_id;
  player = s.player;
  price_paid_lakhs = s.price_lakhs;
}

sold-rows :
    (s : Sale) (db : Db)
    → (record_player_sold s db ≡ db)
      ⊎ (((record_player_sold s db).squad_players ≡ sold_row s ∷ db.squad_players)
          × ((record_player_sold s db).members ≡ charge s.room_member_id s.price_lakhs db.members))
unfolding record_player_sold
sold-rows s db = ground arith

pays-HasBalance :
    (s : Sale) (m : Member) (db : Db)
    → find (has_member_id s.room_member_id) db.members ≡ some m
    → pos s.price_lakhs ≤ℤ m.wallet_remaining_lakhs
    → HasBalance db
    → HasBalance (record_player_sold s db)
pays-HasBalance s m db found enough b =
    let rows = db.squad_players in
    let db' = record_player_sold s db in
    elim (sold-rows s db) as (λ _. HasBalance db') [
      | inl e ↦ subst HasBalance (sym e) b
      | inr (er, em) ↦
          let (fair, eid) = affords s.room_member_id m rows db.members found b in
          let paid : s.price_lakhs + spent s.room_member_id rows ≤ wallet_total_lakhs =
            omega (arith, fair, enough, ap (λ v. spent v rows) eid) in
          subst (λ rs. IsBalanced rs db'.members) (sym er)
            (subst (λ ms. IsBalanced (sold_row s ∷ rows) ms) (sym em)
              (charge-IsBalanced (sold_row s) rows db.members paid b))
    ]

Deal-HasBalance : {db db' : Db} → Deal db db' → HasBalance db → HasBalance db'
Deal-HasBalance (joins k id user db db' new h) b = joins-HasBalance k id user db db' new h b
Deal-HasBalance (chooses user f db db' h) b = chooses-HasBalance user f db db' h b
Deal-HasBalance (leaves user db) b = leaves-HasBalance user db b
Deal-HasBalance (pays s m db found enough) b = pays-HasBalance s m db found enough b
Deal-HasBalance (elsewhere db db' em er) b =
    carried db db' er (subst (λ ms. IsBalanced db.squad_players ms) (sym em) b)

Deals-HasBalance : {db db' : Db} → HasBalance db → Deals db db' → HasBalance db'
Deals-HasBalance b start = b
Deals-HasBalance b (more ds d) = Deal-HasBalance d (Deals-HasBalance b ds)

created-HasBalance :
    (id member_id host : ℕ) (code : Text) → HasBalance (new_entry id member_id code host).db
unfolding total_paid
created-HasBalance id member_id host code = ((refl, omega arith), tt)

-- In every room that came about by its creation, joins, choices, departures and sales that the buyer
-- could pay, the ledger's purse and total of a team add up to the whole purse.
pub teams-add_up :
    (id member_id host : ℕ) (code : Text) (users : Users) (i : ℕ) (t : HistoricalTeamRecord)
    (db : Db)
    → Deals (new_entry id member_id code host).db db
    → get_elem? (teams users db) i ≡ some t
    → (neg_part t.wallet_remaining_lakhs ≡ 0)
      × (pos_part t.wallet_remaining_lakhs + t.total_spent_lakhs ≡ wallet_total_lakhs)
unfolding teams team_of
teams-add_up id member_id host code users i t db ds h =
    let squads = by_member (squad_rows db) no_squads in
    let (j, m, name, f, at, et) = team-at i t squads users db.members h in
    let b = Deals-HasBalance (created-HasBalance id member_id host code) ds in
    let fair = IsBalanced-at j m db.squad_players db.members at b in
    let (paid, number) = team_of-paid j m name f db at in
    let spends : t.total_spent_lakhs ≡ spent m.id db.squad_players =
      ap (λ (x : HistoricalTeamRecord). x.total_spent_lakhs) et ∙ paid in
    let purse : t.wallet_remaining_lakhs ≡ m.wallet_remaining_lakhs =
      ap (λ (x : HistoricalTeamRecord). x.wallet_remaining_lakhs) et in
    ground (arith, fair, spends, purse)
