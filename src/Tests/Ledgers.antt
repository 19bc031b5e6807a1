-- ===== src/Tests/Ledgers.antt =====
-- The ledger of a room with one sale, and a column of a spreadsheet.
use ipl_auction_app.Base.{
  ℕ, ◌+◌, ◌≡◌, refl, arith, leb, min, [], ◌∷◌, count, find, get_elem?, none, some, pos, pos_part,
  neg_part,
}
use ipl_auction_app.Rules.Types.{mumbai_indians, same}
use ipl_auction_app.Rules.Eligibility.{wallet_total_lakhs}
use ipl_auction_app.Room.State.{RoomStatus, Room, Member, Db, Sale}
use ipl_auction_app.Room.Rows.{claim_franchise, record_player_sold, of_user}
use ipl_auction_app.Accounts.Text.{Text}
use ipl_auction_app.Accounts.Users.{UserRow, find_user_by_id}
use ipl_auction_app.Invites.Codes.{Entry, new_entry}
use ipl_auction_app.Ledger.{
  HistoricalTeamRecord, TopBuy, teams, top_buys, squad_rows, price_of, summarised,
}
use ipl_auction_app.Ledger.Deals.{start, more, chooses, pays, elsewhere, teams-add_up}
use ipl_auction_app.Ledger.TopBuys.{top_buys-dearest}
use ipl_auction_app.Ledger.Shares.{summarised-team}
use ipl_auction_app.Tests.Fixtures.{keeper, host_member}

abbrev room_code : Text
room_code = 65 ∷ 65 ∷ 65 ∷ 65 ∷ 65 ∷ 65 ∷ []

abbrev created_db : Db
created_db = (new_entry 20 11 room_code 1).db

abbrev chosen_db : Db
chosen_db = record created_db { members = host_member ∷ [] }

abbrev keeper_sold : Sale
keeper_sold = record { room_member_id = 11; player = keeper; price_lakhs = 70 }

abbrev over_room : Room
over_room = record { host_user_id = 1; status = RoomStatus.completed; current_queue_position = 1 }

abbrev over_db : Db
over_db = record (record_player_sold keeper_sold chosen_db) { room = some over_room }

abbrev host_user : UserRow
host_user = record {
  id = 1;
  email = 104 ∷ 64 ∷ [];
  username = 72 ∷ 111 ∷ 115 ∷ 116 ∷ [];
  password_hash = none;
}

abbrev host_team : HistoricalTeamRecord
host_team = record {
  franchise = mumbai_indians;
  manager_username = host_user.username;
  wallet_remaining_lakhs = pos 11930;
  total_spent_lakhs = 70;
  squad_count = 1;
  squad = record { room_member_id = 11; player = keeper; price_paid_lakhs = 70 } ∷ [];
}

teams-add_up_example :
    (neg_part host_team.wallet_remaining_lakhs ≡ 0)
    × (pos_part host_team.wallet_remaining_lakhs + host_team.total_spent_lakhs ≡ wallet_total_lakhs)
unfolding claim_franchise record_player_sold teams same find_user_by_id
teams-add_up_example =
    teams-add_up 20 11 1 room_code (host_user ∷ []) 0 host_team over_db
      (more
        (more (more start (chooses 1 mumbai_indians created_db chosen_db refl))
          (pays keeper_sold host_member chosen_db refl (omega arith)))
        (elsewhere (record_player_sold keeper_sold chosen_db) over_db refl refl))
      refl

top_buys-dearest_example :
    count (λ (b : TopBuy). leb 50 b.price_paid_lakhs) (top_buys (host_user ∷ []) over_db)
    ≡ min 5 (count (λ r. leb 50 (price_of r)) (squad_rows over_db))
top_buys-dearest_example = top_buys-dearest 50 (host_user ∷ []) over_db

abbrev over_entry : Entry
over_entry = record { id = 20; invite_code = room_code; db = over_db }

abbrev host_after : Member
host_after = record host_member { wallet_remaining_lakhs = pos 11930 }

summarised-team_example :
    let s = summarised 0 (over_entry, over_room, find (of_user 1) over_db.members) in
    (i : ℕ) × (t : HistoricalTeamRecord) × (get_elem? (teams (host_user ∷ []) over_db) i ≡ some t)
    × (some t.franchise ≡ s.my_franchise)
    × (t.manager_username ≡ host_user.username)
    × (t.wallet_remaining_lakhs ≡ s.my_final_purse_lakhs)
    × (t.squad_count ≡ s.my_squad_count)
    × (t.total_spent_lakhs ≡ s.total_spent_lakhs)
unfolding record_player_sold find_user_by_id
summarised-team_example =
    summarised-team 0 1 over_entry over_room host_after mumbai_indians host_user (host_user ∷ [])
      refl refl refl
