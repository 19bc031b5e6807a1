-- ===== src/Ledger/Squads.antt =====
-- The purchases of a member, as the loop groups them and as a query sums them up.
use ipl_auction_app.Base.{
  ℕ, ◌+◌, ◌==◌, ◌≡◌, refl, sym, ap, subst, ◌∙◌, ◌⊎◌, arith, Bool, true, is_some, if◌then◌else◌,
  Option-cases, inl, inr, List, [], ◌∷◌, ◌++◌, filter, find, length, reverse, get_elem?, some,
  or_else, zero, suc, ==-refl,
}
use ipl_auction_app.Rules.Types.{FranchiseName}
use ipl_auction_app.Franchise.{SquadRow}
use ipl_auction_app.Room.State.{Member, Db}
use ipl_auction_app.Accounts.Text.{Text}
use ipl_auction_app.Accounts.Users.{Users, find_user_by_id}
use ipl_auction_app.Invites.Squads.{has_member_id}
use ipl_auction_app.Ledger.{
  bought_for, total_paid, SquadsByMember, no_squads, by_member, squad_rows, member_rows, teams_of,
  team_of, HistoricalTeamRecord,
}

append_assoc : (xs ys zs : List SquadRow) → (xs ++ ys) ++ zs ≡ xs ++ (ys ++ zs)
append_assoc [] ys zs = refl
append_assoc (x ∷ xs) ys zs = ap (λ t. x ∷ t) (append_assoc xs ys zs)

append_nil : (xs : List SquadRow) → xs ++ [] ≡ xs
append_nil [] = refl
append_nil (x ∷ xs) = ap (λ t. x ∷ t) (append_nil xs)

by_member-append :
    (id : ℕ) (rows : List SquadRow) (squads : SquadsByMember)
    → or_else (by_member rows squads id) [] ≡ or_else (squads id) [] ++ filter (bought_for id) rows
unfolding by_member
by_member-append id [] squads = sym (append_nil (or_else (squads id) []))
by_member-append id (s ∷ ss) squads = ground (
  arith,
  by_member-append id ss
      (λ j. if s.room_member_id == j then some (or_else (squads j) [] ++ s ∷ []) else squads j),
  append_assoc (or_else (squads id) []) (s ∷ []) (filter (bought_for id) ss),
)

filter-kept :
    (id : ℕ) (p : SquadRow → Bool) (rows : List SquadRow)
    → ((r : SquadRow) → bought_for id r ≡ true → p r ≡ true)
    → filter (bought_for id) (filter p rows) ≡ filter (bought_for id) rows
filter-kept id p [] h = refl
filter-kept id p (r ∷ rs) h = ground (arith, h r, filter-kept id p rs h)

-- What the member has paid.
abbrev pub spent : ℕ → List SquadRow → ℕ
spent id rows = total_paid (filter (bought_for id) rows)

paid-append :
    (id : ℕ) (xs ys : List SquadRow)
    → (spent id (xs ++ ys) ≡ spent id xs + spent id ys)
      × (length (filter (bought_for id) (xs ++ ys))
          ≡ length (filter (bought_for id) xs) + length (filter (bought_for id) ys))
unfolding total_paid
paid-append id [] ys = (omega arith, omega arith)
paid-append id (x ∷ xs) ys = ground (arith, paid-append id xs ys)

paid-reverse :
    (id : ℕ) (rows : List SquadRow)
    → (spent id (reverse rows) ≡ spent id rows)
      × (length (filter (bought_for id) (reverse rows)) ≡ length (filter (bought_for id) rows))
unfolding total_paid
paid-reverse id [] = (refl, refl)
paid-reverse id (x ∷ xs) = ground (arith, paid-append id (reverse xs) (x ∷ []), paid-reverse id xs)

find-at :
    (j : ℕ) (m : Member) (ms : List Member)
    → get_elem? ms j ≡ some m
    → is_some (find (has_member_id m.id) ms) ≡ true
find-at j m [] h = cc
find-at zero m (x ∷ xs) h = ground (arith, h, ==-refl m.id)
find-at (suc j) m (x ∷ xs) h = ground (arith, find-at j m xs h)

squad_of-filter :
    (id : ℕ) (db : Db)
    → is_some (find (has_member_id id) db.members) ≡ true
    → or_else (by_member (squad_rows db) no_squads id) []
      ≡ filter (bought_for id) (reverse db.squad_players)
unfolding squad_rows
squad_of-filter id db h =
    by_member-append id (squad_rows db) no_squads
    ∙ filter-kept id (λ r. is_some (find (has_member_id r.room_member_id) db.members))
        (reverse db.squad_players) (λ r e. same_member r e)
  where
    same_member :
        (r : SquadRow)
        → bought_for id r ≡ true
        → is_some (find (has_member_id r.room_member_id) db.members) ≡ true
    same_member r e =
        let eq : id ≡ r.room_member_id = ground arith in
        subst (λ v. is_some (find (has_member_id v) db.members) ≡ true) eq h

-- The team is that of a member with a franchise.
abbrev pub IsTeam : SquadsByMember → List Member → HistoricalTeamRecord → Type 0
IsTeam squads ms t =
    (j : ℕ) × (m : Member) × (name : Text) × (f : FranchiseName) × (get_elem? ms j ≡ some m)
    × (t ≡ team_of squads m name f)

later :
    (squads : SquadsByMember) (x : Member) (ms : List Member) (t : HistoricalTeamRecord)
    → IsTeam squads ms t
    → IsTeam squads (x ∷ ms) t
later squads x ms t (j, m, name, f, e, et) = (suc j, m, name, f, e, et)

head-or-tail :
    (i : ℕ) (t x : HistoricalTeamRecord) (xs : List HistoricalTeamRecord)
    → get_elem? (x ∷ xs) i ≡ some t
    → (t ≡ x) ⊎ ((k : ℕ) × (get_elem? xs k ≡ some t))
head-or-tail zero t x xs h = inl (cc)
head-or-tail (suc k) t x xs h = inr (k, h)

pub team-at :
    (i : ℕ) (t : HistoricalTeamRecord) (squads : SquadsByMember) (users : Users) (ms : List Member)
    → get_elem? (teams_of squads (member_rows users ms)) i ≡ some t
    → IsTeam squads ms t
unfolding teams_of member_rows
team-at i t squads users [] h = cc
team-at i t squads users (m ∷ ms) h =
    let rest = teams_of squads (member_rows users ms) in
    let past = λ (k : ℕ) (e : get_elem? rest k ≡ some t).
      later squads m ms t (team-at k t squads users ms e) in
    elim (Option-cases (find_user_by_id m.user_id users)) as (λ _. IsTeam squads (m ∷ ms) t) [
      | inl unknown ↦ past i (ground arith)
      | inr (u, known) ↦ elim (Option-cases m.franchise) as (λ _. IsTeam squads (m ∷ ms) t) [
        | inl undecided ↦ past i (ground arith)
        | inr (f, chosen) ↦
            let at : get_elem? (team_of squads m u.username f ∷ rest) i ≡ some t = ground arith in
            elim (head-or-tail i t (team_of squads m u.username f) rest at)
              as (λ _. IsTeam squads (m ∷ ms) t) [
                | inl e ↦ (0, m, u.username, f, refl, e)
                | inr (k, e) ↦ past k e
              ]
      ]
    ]

-- What a team paid is what the queries sum up for its member.
pub team_of-paid :
    (j : ℕ) (m : Member) (name : Text) (f : FranchiseName) (db : Db)
    → get_elem? db.members j ≡ some m
    → ((team_of (by_member (squad_rows db) no_squads) m name f).total_spent_lakhs
        ≡ spent m.id db.squad_players)
      × ((team_of (by_member (squad_rows db) no_squads) m name f).squad_count
          ≡ length (filter (bought_for m.id) db.squad_players))
unfolding team_of
team_of-paid j m name f db h =
    let e = squad_of-filter m.id db (find-at j m db.members h) in
    let (paid, number) = paid-reverse m.id db.squad_players in
    (ap total_paid e ∙ paid, ap (λ (rs : List SquadRow). length rs) e ∙ number)
