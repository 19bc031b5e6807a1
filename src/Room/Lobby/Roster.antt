-- ===== src/Room/Lobby/Roster.antt =====
-- Who is in the room: one row for each user and one for each franchise.
use ipl_auction_app.Base.{
  count-append, count-filter, count-absent, ℕ, ◌≤◌, ◌≡◌, refl, ap, ◌⊎◌, inl, inr, arith, Bool,
  false, not, Bool-cases, List, [], ◌∷◌, ◌++◌, count, find, filter, none, some, is_some, ◌==◌, pos,
}
use ipl_auction_app.Rules.Types.{FranchiseName, same}
use ipl_auction_app.Rules.Eligibility.{wallet_total_lakhs}
use ipl_auction_app.Room.State.{Member, Db, Sale}
use ipl_auction_app.Room.Lobby.Counts.{
  count-charge, count-same, claim-users, claim-teams, may_claim-users,
}
use ipl_auction_app.Room.Rows.{
  FranchiseConstraint, has_franchise, charge, record_player_sold, of_user, add_member_to_room,
  claimed, claim, claim_franchise, remove_found, remove_member_from_room,
}

-- One row for a user and one for a franchise.
pub record IsRoster (ms : List Member) : Type 0 where
  pub users : (u : ℕ) → count (of_user u) ms ≤ 1
  pub teams : (f : FranchiseName) → count (has_franchise f) ms ≤ 1

claim-IsRoster :
    (user : ℕ) (f : FranchiseName) (ms : List Member)
    → is_some (find (has_franchise f) ms) ≡ false
    → IsRoster ms
    → IsRoster (claim user f ms)
claim-IsRoster user f ms free r = record {
  users = λ u. omega (arith, claim-users user f u ms, r.users u);
  teams = λ g. elim (Bool-cases (same f g)) [
    | inl hit ↦ ground (
      arith,
      claim-teams user f g ms,
      count-same f g ms hit,
      count-absent (has_franchise f) ms free,
      may_claim-users user ms,
      r.users user,
    )
    | inr miss ↦ ground (arith, claim-teams user f g ms, r.teams g)
  ];
}

pub claimed-members :
    (user : ℕ) (f : FranchiseName) (db db' : Db)
    → claim_franchise user f db ≡ claimed db'
    → (is_some (find (has_franchise f) db.members) ≡ false)
      × (db'.members ≡ claim user f db.members)
unfolding claim_franchise
claimed-members user f db db' h = ground arith

pub claim_franchise-IsRoster :
    (user : ℕ) (f : FranchiseName) (db db' : Db)
    → claim_franchise user f db ≡ claimed db'
    → IsRoster db.members
    → IsRoster db'.members
claim_franchise-IsRoster user f db db' h r =
    let (free, e) = claimed-members user f db db' h in
    rw (e) (claim-IsRoster user f db.members free r)

-- The row that `addMemberToRoom` inserts.
abbrev pub newcomer : ℕ → ℕ → Member
newcomer id user = record {
  id = id;
  user_id = user;
  franchise = none;
  wallet_remaining_lakhs = pos wallet_total_lakhs;
}

append-IsRoster :
    (id user : ℕ) (ms : List Member)
    → is_some (find (of_user user) ms) ≡ false
    → IsRoster ms
    → IsRoster (ms ++ newcomer id user ∷ [])
append-IsRoster id user ms new r = record {
  users = λ u. elim (Bool-cases (user == u)) [
    | inl hit ↦
        let e : user ≡ u = ground arith in
        ground (
          arith,
          count-append (of_user u) ms (newcomer id user ∷ []),
          ap (λ x. count (of_user x) ms) e,
          count-absent (of_user user) ms new,
        )
    | inr miss ↦ ground (arith, count-append (of_user u) ms (newcomer id user ∷ []), r.users u)
  ];
  teams = λ f. ground (arith, count-append (has_franchise f) ms (newcomer id user ∷ []), r.teams f);
}

-- A join leaves the members or appends a user who had no row.
pub added-members :
    (k : FranchiseConstraint) (id user : ℕ) (db db' : Db)
    → add_member_to_room k id user db ≡ some db'
    → (db'.room ≡ db.room)
      × ((db'.members ≡ db.members)
          ⊎ ((is_some (find (of_user user) db.members) ≡ false)
              × (db'.members ≡ db.members ++ newcomer id user ∷ [])))
unfolding add_member_to_room
added-members k id user db db' h = ground arith

pub add_member-IsRoster :
    (k : FranchiseConstraint) (id user : ℕ) (db db' : Db)
    → add_member_to_room k id user db ≡ some db'
    → IsRoster db.members
    → IsRoster db'.members
add_member-IsRoster k id user db db' h r = elim (added-members k id user db db' h).1 [
  | inl e ↦ rw (e) r
  | inr (new, e) ↦ rw (e) (append-IsRoster id user db.members new r)
]

filter-IsRoster : (q : Member → Bool) (ms : List Member) → IsRoster ms → IsRoster (filter q ms)
filter-IsRoster q ms r = record {
  users = λ u. omega (arith, count-filter (of_user u) q ms, r.users u);
  teams = λ f. omega (arith, count-filter (has_franchise f) q ms, r.teams f);
}

pub removed-members :
    (user : ℕ) (db : Db)
    → ((remove_member_from_room user db).1.members ≡ db.members)
      ⊎ ((remove_member_from_room user db).1.members
          ≡ filter (λ x. not (of_user user x)) db.members)
unfolding remove_member_from_room remove_found
removed-members user db = ground arith

pub remove_member-IsRoster :
    (user : ℕ) (db : Db)
    → IsRoster db.members
    → IsRoster (remove_member_from_room user db).1.members
remove_member-IsRoster user db r = elim (removed-members user db) [
  | inl e ↦ rw (e) r
  | inr e ↦ rw (e) (filter-IsRoster (λ x. not (of_user user x)) db.members r)
]

charge-IsRoster : (id price : ℕ) (ms : List Member) → IsRoster ms → IsRoster (charge id price ms)
charge-IsRoster id price ms r = record {
  users = λ u. omega (arith, count-charge (of_user u) id price (λ m v. refl) ms, r.users u);
  teams = λ f. omega (arith, count-charge (has_franchise f) id price (λ m v. refl) ms, r.teams f);
}

pub sold-members :
    (s : Sale) (db : Db)
    → ((record_player_sold s db).members ≡ db.members)
      ⊎ ((record_player_sold s db).members ≡ charge s.room_member_id s.price_lakhs db.members)
unfolding record_player_sold
sold-members s db = ground arith

pub sale-IsRoster :
    (s : Sale) (db : Db) → IsRoster db.members → IsRoster (record_player_sold s db).members
sale-IsRoster s db r = elim (sold-members s db) [
  | inl e ↦ rw (e) r
  | inr e ↦ rw (e) (charge-IsRoster s.room_member_id s.price_lakhs db.members r)
]
