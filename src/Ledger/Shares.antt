-- ===== src/Ledger/Shares.antt =====
-- The list of past auctions against the ledger of one.
use ipl_auction_app.Base.{
  ℕ, suc, zero, ◌≡◌, refl, ap, subst, sym, arith, Option-cases, Bool-cases, inl, inr, List, [], ◌∷◌,
  find, get_elem?, some,
}
use ipl_auction_app.Rules.Types.{FranchiseName}
use ipl_auction_app.Room.State.{Member, Room}
use ipl_auction_app.Room.Rows.{of_user}
use ipl_auction_app.Accounts.Users.{Users, UserRow, find_user_by_id}
use ipl_auction_app.Invites.Codes.{Entry}
use ipl_auction_app.Ledger.{
  SquadsByMember, no_squads, by_member, squad_rows, member_rows, teams_of, teams, team_of,
  HistoricalTeamRecord, summarised,
}
use ipl_auction_app.Ledger.Squads.{team_of-paid}

find-position :
    (user : ℕ) (m : Member) (ms : List Member)
    → find (of_user user) ms ≡ some m
    → (j : ℕ) × (get_elem? ms j ≡ some m) × (m.user_id ≡ user)
find-position user m [] h = cc
find-position user m (x ∷ xs) h =
    elim (Bool-cases (of_user user x))
      as (λ _. (j : ℕ) × (get_elem? (x ∷ xs) j ≡ some m) × (m.user_id ≡ user)) [
        | inl hit ↦ let e : x ≡ m = ground arith in (0, ap (λ v. some v) e, ground arith)
        | inr miss ↦ let (j, at, mine) = find-position user m xs (ground arith) in (suc j, at, mine)
      ]

-- The list of teams holds the team.
abbrev Holds : HistoricalTeamRecord → List HistoricalTeamRecord → Type 0
Holds t ts = (i : ℕ) × (get_elem? ts i ≡ some t)

team-of-member :
    (j : ℕ) (m : Member) (f : FranchiseName) (u : UserRow) (squads : SquadsByMember) (users : Users)
    (ms : List Member)
    → get_elem? ms j ≡ some m
    → m.franchise ≡ some f
    → find_user_by_id m.user_id users ≡ some u
    → Holds (team_of squads m u.username f) (teams_of squads (member_rows users ms))
unfolding teams_of member_rows
team-of-member j m f u squads users [] h hf hu = cc
team-of-member zero m f u squads users (x ∷ xs) h hf hu = let e : x ≡ m = cc in (0, ground arith)
team-of-member (suc j) m f u squads users (x ∷ xs) h hf hu =
    let (i, at) = team-of-member j m f u squads users xs h hf hu in
    let t = team_of squads m u.username f in
    elim (Option-cases (find_user_by_id x.user_id users))
      as (λ _. Holds t (teams_of squads (member_rows users (x ∷ xs)))) [
        | inl unknown ↦ (i, ground arith)
        | inr (v, known) ↦
            elim (Option-cases x.franchise)
              as (λ _. Holds t (teams_of squads (member_rows users (x ∷ xs)))) [
                | inl undecided ↦ (i, ground arith)
                | inr (g, chosen) ↦ (suc i, ground arith)
              ]
      ]

-- A member with a franchise and an account finds a team in the ledger of the room that has the
-- franchise, the purse, the number of players and the total that the list of past auctions shows.
pub summarised-team :
    (index user : ℕ) (e : Entry) (room : Room) (m : Member) (f : FranchiseName) (u : UserRow)
    (users : Users)
    → find (of_user user) e.db.members ≡ some m
    → m.franchise ≡ some f
    → find_user_by_id user users ≡ some u
    → let s = summarised index (e, room, find (of_user user) e.db.members) in
      (i : ℕ) × (t : HistoricalTeamRecord) × (get_elem? (teams users e.db) i ≡ some t)
      × (some t.franchise ≡ s.my_franchise)
      × (t.manager_username ≡ u.username)
      × (t.wallet_remaining_lakhs ≡ s.my_final_purse_lakhs)
      × (t.squad_count ≡ s.my_squad_count)
      × (t.total_spent_lakhs ≡ s.total_spent_lakhs)
unfolding teams team_of
summarised-team index user e room m f u users h hf hu =
    let (j, at, mine) = find-position user m e.db.members h in
    let squads = by_member (squad_rows e.db) no_squads in
    let known : find_user_by_id m.user_id users ≡ some u =
      subst (λ v. find_user_by_id v users ≡ some u) (sym mine) hu in
    let (i, ei) = team-of-member j m f u squads users e.db.members at hf known in
    let (paid, number) = team_of-paid j m u.username f e.db at in
    (
      i,
      team_of squads m u.username f,
      ei,
      ground (arith, h, hf),
      refl,
      ground (arith, h),
      ground (arith, h, number),
      ground (arith, h, paid),
    )
