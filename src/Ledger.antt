-- ===== src/Ledger.antt =====
-- apps/backend/src/db/queries/history.ts and apps/backend/src/routes/history.ts: what an auction that
-- is over leaves to read. Times are shown as they are stored and are left out.
pub mod Sorting
pub mod TopBuys
pub mod Squads
pub mod Balance
pub mod Deals
pub mod Shares
use ipl_auction_app.Base.{
  ℕ, suc, ◌+◌, ◌==◌, max, ℤ, pos, String, Bool, true, false, is_some, ◌||◌, ◌&&◌, if◌then◌else◌,
  List, [], ◌∷◌, ◌++◌, map, filter, find, length, take, reverse, Option, none, some, or_else,
}
use ipl_auction_app.Rules.Types.{FranchiseName, Player, PlayerRole}
use ipl_auction_app.Rules.Eligibility.{wallet_total_lakhs}
use ipl_auction_app.Franchise.{SquadRow}
use ipl_auction_app.Room.State.{RoomStatus, Room, Member, Db}
use ipl_auction_app.Room.Rows.{of_user}
use ipl_auction_app.Accounts.Text.{Text, same_text, to_upper_case}
use ipl_auction_app.Accounts.Users.{Users, find_user_by_id}
use ipl_auction_app.Invites.Codes.{Entry, Directory}
use ipl_auction_app.Invites.Squads.{has_member_id}
use ipl_auction_app.Ledger.Sorting.{sort_desc}

-- `status IN ('completed', 'terminated')`.
abbrev pub is_over : RoomStatus → Bool
is_over RoomStatus.completed = true
is_over RoomStatus.terminated = true
is_over _ = false

abbrev pub bought_for : ℕ → SquadRow → Bool
bought_for id r = r.room_member_id == id

abbrev pub price_of : SquadRow → ℕ
price_of r = r.price_paid_lakhs

-- `SUM(price_paid_lakhs)`.
unfoldable pub total_paid : List SquadRow → ℕ
total_paid [] = 0
total_paid (r ∷ rs) = r.price_paid_lakhs + total_paid rs

-- `HistoricalAuctionSummary`. The field `topBuy` is never filled.
pub record HistoricalAuctionSummary : Type 0 where
  pub id : ℕ
  pub room_code : Text
  pub status : RoomStatus
  pub manager_count : ℕ
  pub my_franchise : Option FranchiseName
  pub my_final_purse_lakhs : ℤ
  pub my_squad_count : ℕ
  pub total_spent_lakhs : ℕ
  pub rank : ℕ

-- A room of the list with the user's row, which a host need not have.
abbrev pub Listed : Type 0
Listed = Entry × Room × Option Member

unfoldable pub listed : ℕ → Directory → List Listed
listed user [] = []
listed user (e ∷ es) =
    let rest = listed user es in
    elim e.db.room [
      | none ↦ rest
      | some room ↦
          let mine = find (of_user user) e.db.members in
          if is_over room.status && (is_some mine || (room.host_user_id == user))
          then (e, room, mine) ∷ rest
          else rest
    ]

abbrev pub my_rows : Option Member → List SquadRow → List SquadRow
my_rows none rows = []
my_rows (some m) rows = filter (bought_for m.id) rows

abbrev pub own_franchise : Option Member → Option FranchiseName
own_franchise none = none
own_franchise (some m) = m.franchise

abbrev pub own_wallet : Option Member → ℤ
own_wallet none = pos wallet_total_lakhs
own_wallet (some m) = m.wallet_remaining_lakhs

abbrev pub summarised : ℕ → Listed → HistoricalAuctionSummary
summarised index (e, room, mine) = record {
  id = e.id;
  room_code = e.invite_code;
  status = room.status;
  manager_count = max 1 (length e.db.members);
  my_franchise = own_franchise mine;
  my_final_purse_lakhs = own_wallet mine;
  my_squad_count = length (my_rows mine e.db.squad_players);
  total_spent_lakhs = total_paid (my_rows mine e.db.squad_players);
  rank = index + 1;
}

abbrev pub summaries : ℕ → List Listed → List HistoricalAuctionSummary
summaries index [] = []
summaries index (l ∷ ls) = summarised index l ∷ summaries (suc index) ls

-- `updated_at` of a room by its id.
abbrev pub last_change : (ℕ → ℕ) → Listed → ℕ
last_change updated_at (e, room, mine) = updated_at e.id

unfoldable pub get_historical_auctions : (ℕ → ℕ) → ℕ → Directory → List HistoricalAuctionSummary
unfolding listed total_paid
get_historical_auctions updated_at user dir =
    summaries 0 (take 50 (sort_desc (last_change updated_at) (listed user dir)))

pub record HistoricalTeamRecord : Type 0 where
  pub franchise : FranchiseName
  pub manager_username : Text
  pub wallet_remaining_lakhs : ℤ
  pub total_spent_lakhs : ℕ
  pub squad_count : ℕ
  pub squad : List SquadRow

-- `franchise` is `none` for 'Unknown'.
pub record TopBuy : Type 0 where
  pub player_name : String
  pub role : PlayerRole
  pub price_paid_lakhs : ℕ
  pub franchise : Option FranchiseName

pub record HistoricalAuctionDetail : Type 0 where
  pub id : ℕ
  pub room_code : Text
  pub status : RoomStatus
  pub host_username : Text
  pub teams : List HistoricalTeamRecord
  pub top_buys : List TopBuy

-- The members with their users' names.
unfoldable pub member_rows : Users → List Member → List (Member × Text)
member_rows users [] = []
member_rows users (m ∷ ms) =
    let rest = member_rows users ms in
    elim (find_user_by_id m.user_id users) [ none ↦ rest | some u ↦ (m, u.username) ∷ rest ]

-- The purchases of the room's members, the oldest first.
unfoldable pub squad_rows : Db → List SquadRow
squad_rows db =
    filter (λ r. is_some (find (has_member_id r.room_member_id) db.members))
      (reverse db.squad_players)

abbrev pub SquadsByMember : Type 0
SquadsByMember = ℕ → Option (List SquadRow)

-- The loop that fills the Map: a missing key gets an empty list, then the row is pushed.
unfoldable pub by_member : List SquadRow → SquadsByMember → SquadsByMember
by_member [] squads = squads
by_member (s ∷ ss) squads =
    by_member ss
      (λ id. if s.room_member_id == id then some (or_else (squads id) [] ++ s ∷ []) else squads id)

abbrev pub no_squads : SquadsByMember
no_squads id = none

unfoldable pub team_of : SquadsByMember → Member → Text → FranchiseName → HistoricalTeamRecord
unfolding total_paid
team_of squads m username f =
    let squad = or_else (squads m.id) [] in
    record {
      franchise = f;
      manager_username = username;
      wallet_remaining_lakhs = m.wallet_remaining_lakhs;
      total_spent_lakhs = total_paid squad;
      squad_count = length squad;
      squad = squad;
    }

unfoldable pub teams_of : SquadsByMember → List (Member × Text) → List HistoricalTeamRecord
unfolding team_of
teams_of squads [] = []
teams_of squads ((m, username) ∷ rows) =
    let rest = teams_of squads rows in
    elim m.franchise [ none ↦ rest | some f ↦ team_of squads m username f ∷ rest ]

abbrev pub is_row_of : ℕ → Member × Text → Bool
is_row_of id (m, username) = m.id == id

abbrev pub buyer_franchise : Option (Member × Text) → Option FranchiseName
buyer_franchise none = none
buyer_franchise (some (m, username)) = m.franchise

abbrev pub top_buy : List (Member × Text) → SquadRow → TopBuy
top_buy rows s = record {
  player_name = s.player.name;
  role = s.player.role;
  price_paid_lakhs = s.price_paid_lakhs;
  franchise = buyer_franchise (find (is_row_of s.room_member_id) rows);
}

unfoldable pub top_buys : Users → Db → List TopBuy
unfolding member_rows squad_rows
top_buys users db =
    map (top_buy (member_rows users db.members)) (take 5 (sort_desc price_of (squad_rows db)))

unfoldable pub teams : Users → Db → List HistoricalTeamRecord
unfolding member_rows squad_rows by_member teams_of
teams users db = teams_of (by_member (squad_rows db) no_squads) (member_rows users db.members)

-- `id_text` is the text of a row's id.
abbrev pub is_meant : (ℕ → Text) → Text → Entry → Bool
is_meant id_text query e =
    same_text (id_text e.id) query || same_text e.invite_code (to_upper_case query)

-- The first query: the room is over, and its host has a row in users.
unfoldable pub ended_room : (ℕ → Text) → Text → Users → Directory → Option (Entry × Room × Text)
ended_room id_text query users [] = none
ended_room id_text query users (e ∷ es) =
    let rest = ended_room id_text query users es in
    elim e.db.room [
      | none ↦ rest
      | some room ↦ elim (find_user_by_id room.host_user_id users) [
        | none ↦ rest
        | some host ↦
            if is_meant id_text query e && is_over room.status
            then some (e, room, host.username)
            else rest
      ]
    ]

-- The parameter `userId` is not read. The route answers `none` with 404.
unfoldable pub get_historical_auction_detail :
    (ℕ → Text) → Text → Users → Directory → Option HistoricalAuctionDetail
unfolding ended_room teams top_buys
get_historical_auction_detail id_text query users dir = elim (ended_room id_text query users dir) [
  | none ↦ none
  | some (e, room, host_username) ↦ some (record {
    id = e.id;
    room_code = e.invite_code;
    status = room.status;
    host_username = host_username;
    teams = teams users e.db;
    top_buys = top_buys users e.db;
  })
]
