-- ===== src/Room/Rows.antt =====
-- The SQL of apps/backend/src/db/queries/auction.ts and rooms.ts on one room's rows, with the
-- constraints of packages/database/migrations that it meets.
use ipl_auction_app.Base.{
  ℕ, ◌+◌, ◌==◌, ltb, Bool, true, false, length, filter, not, ◌&&◌, if◌then◌else◌, List, [], ◌∷◌,
  ◌++◌, Option, none, some, is_some, find, count, pos, ◌-ℤ◌, ltb_ℤ,
}
use ipl_auction_app.Rules.Types.{FranchiseName, same, Player}
use ipl_auction_app.Rules.Eligibility.{wallet_total_lakhs}
use ipl_auction_app.Franchise.{SquadRow}
use ipl_auction_app.Room.State.{
  Db, Room, RoomStatus, Member, QueueRow, QueueStatus, Phase, BidRow, BidEvent, Sale,
}

-- `SELECT current_queue_position … ?? 0`.
unfoldable pub current_position : Db → ℕ
current_position db = elim db.room [ none ↦ 0 | some r ↦ r.current_queue_position ]

abbrev pub on_room : (Room → Room) → Db → Db
on_room f db = elim db.room [ none ↦ db | some r ↦ record db { room = some (f r) } ]

unfoldable pub update_room_status : RoomStatus → Db → Db
update_room_status new_status = on_room (λ r. record r { status = new_status })

unfoldable pub reset_queue_position : Db → Db
reset_queue_position = on_room (λ r. record r { current_queue_position = 0 })

unfoldable pub advance_queue_position : Db → Db
advance_queue_position =
    on_room (λ r. record r { current_queue_position = r.current_queue_position + 1 })

unfoldable pub set_status : QueueStatus → ℕ → List QueueRow → List QueueRow
set_status outcome position [] = []
set_status outcome position (r ∷ rows) =
    (if r.position == position then record r { status = outcome } else r)
    ∷ set_status outcome position rows

-- `resolveQueueEntry` and `markQueueEntryActive`: one UPDATE, with another status.
unfoldable pub update_queue_entry : QueueStatus → ℕ → Db → Db
unfolding set_status
update_queue_entry outcome position db = record db {
  auction_queue = set_status outcome position db.auction_queue;
}

unfoldable pub queue_rows : ℕ → List (Player × Phase) → List QueueRow
queue_rows index [] = []
queue_rows index ((p, phase) ∷ rest) =
    record { player = p; position = index + 1; phase = phase; status = QueueStatus.pending }
    ∷ queue_rows (index + 1) rest

unfoldable pub insert_auction_queue : List (Player × Phase) → Db → Db
unfolding queue_rows
insert_auction_queue [] db = db
insert_auction_queue (p ∷ ordered) db = record db { auction_queue = queue_rows 0 (p ∷ ordered) }

unfoldable pub append_bid_event : BidEvent → Db → Db
append_bid_event e db = record db { bid_events = e ∷ db.bid_events }

abbrev pub has_franchise : FranchiseName → Member → Bool
has_franchise f m = elim m.franchise [ none ↦ false | some g ↦ same g f ]

unfoldable pub get_room_member_by_franchise : FranchiseName → Db → Option Member
get_room_member_by_franchise f db = find (has_franchise f) db.members

unfoldable pub insert_bid : BidRow → Db → Db
insert_bid b db = record db { bids = b ∷ db.bids }

-- The guarded UPDATE of the wallet.
unfoldable pub charge : ℕ → ℕ → List Member → List Member
charge id price [] = []
charge id price (m ∷ ms) =
    (if m.id == id && not (ltb_ℤ m.wallet_remaining_lakhs (pos price))
      then record m { wallet_remaining_lakhs = m.wallet_remaining_lakhs -ℤ pos price }
      else m)
    ∷ charge id price ms

abbrev pub owns : ℕ → ℕ → SquadRow → Bool
owns member player r = r.room_member_id == member && r.player.id == player

-- The transaction: a member that is not there, a second row for the player or a price of zero makes
-- the first INSERT fail, and everything is rolled back.
unfoldable pub record_player_sold : Sale → Db → Db
unfolding charge
record_player_sold s db =
    if is_some (find (λ m. m.id == s.room_member_id) db.members)
      && not (is_some (find (owns s.room_member_id s.player.id) db.squad_players))
      && ltb 0 s.price_lakhs
    then record db {
      squad_players =
          record {
            room_member_id = s.room_member_id;
            player = s.player;
            price_paid_lakhs = s.price_lakhs;
          }
          ∷ db.squad_players;
      members = charge s.room_member_id s.price_lakhs db.members;
      bid_events = BidEvent.player_sold s.player.id ∷ db.bid_events;
    }
    else db

abbrev pub of_user : ℕ → Member → Bool
of_user user m = m.user_id == user

unfoldable pub is_room_member : ℕ → Db → Bool
is_room_member user db = is_some (find (of_user user) db.members)

abbrev pub is_unselected : Member → Bool
is_unselected m = not (is_some m.franchise)

unfoldable pub all_members_have_franchise : Db → Bool
all_members_have_franchise db = count is_unselected db.members == 0

-- The constraint on the room's franchises: UNIQUE NULLS NOT DISTINCT, as the migration has it, or the
-- plain UNIQUE that packages/database/src/fix_constraint.js puts in its place.
pub data FranchiseConstraint : Type 0 where
  migrated patched : FranchiseConstraint

-- Whether two rows without a franchise violate it.
abbrev pub nulls_clash : FranchiseConstraint → Bool
nulls_clash migrated = Bool.true
nulls_clash patched = Bool.false

-- `addMemberToRoom` with the row's new id, under either constraint; `none` is the error 23505. The
-- ON CONFLICT clause names the constraint on users only.
unfoldable pub add_member_to_room : FranchiseConstraint → ℕ → ℕ → Db → Option Db
add_member_to_room k id user db =
    if is_some (find (of_user user) db.members)
    then some db
    else if nulls_clash k && is_some (find is_unselected db.members)
    then none
    else some (record db {
      members =
          db.members
          ++ record {
            id = id;
            user_id = user;
            franchise = none;
            wallet_remaining_lakhs = pos wallet_total_lakhs;
          }
            ∷ [];
    })

pub data Claim : Type 0 where
  claimed : Db → Claim
  refused unique_violation : Claim

unfoldable pub claim : ℕ → FranchiseName → List Member → List Member
claim user f [] = []
claim user f (m ∷ ms) =
    (if of_user user m && is_unselected m then record m { franchise = some f } else m)
    ∷ claim user f ms

-- `claimFranchise`: the UPDATE touches the user's row if it has no franchise, and violates the
-- constraint if another row has this one.
unfoldable pub claim_franchise : ℕ → FranchiseName → Db → Claim
unfolding claim
claim_franchise user f db =
    if is_some (find (λ m. of_user user m && is_unselected m) db.members)
    then (if is_some (find (has_franchise f) db.members)
        then unique_violation
        else claimed (record db { members = claim user f db.members }))
    else refused

-- The result of `removeMemberFromRoom`.
pub record Removal : Type 0 where
  pub was_removed : Bool
  pub franchise : Option FranchiseName
  pub was_host : Bool
  pub new_host_user_id : Option ℕ
  pub remaining_member_count : ℕ

abbrev pub is_lobby : RoomStatus → Bool
is_lobby RoomStatus.lobby = true
is_lobby _ = false

abbrev pub first_user : List Member → Option ℕ
first_user [] = none
first_user (m ∷ ms) = some m.user_id

abbrev pub reassigned : Option ℕ → Room → Room
reassigned none r = r
reassigned (some user) r = record r { host_user_id = user }

unfoldable pub remove_found : ℕ → Room → Member → Db → Removal × Db
remove_found user room m db =
    let was_host = room.host_user_id == user in
    let lobby = is_lobby room.status in
    let left = if lobby then filter (λ x. not (of_user user x)) db.members else db.members in
    let new_host = if was_host && lobby then first_user left else none in
    (
      record {
        was_removed = true;
        franchise = m.franchise;
        was_host = was_host;
        new_host_user_id = new_host;
        remaining_member_count = length left;
      },
      record db { members = left; room = some (reassigned new_host room) },
    )

unfoldable pub remove_member_from_room : ℕ → Db → Removal × Db
unfolding remove_found
remove_member_from_room user db = elim db.room [
  | none ↦ (
    record {
      was_removed = false;
      franchise = none;
      was_host = false;
      new_host_user_id = none;
      remaining_member_count = 0;
    },
    db,
  )
  | some room ↦ elim (find (of_user user) db.members) [
    | none ↦ (
      record {
        was_removed = false;
        franchise = none;
        was_host = room.host_user_id == user;
        new_host_user_id = none;
        remaining_member_count = length db.members;
      },
      db,
    )
    | some m ↦ remove_found user room m db
  ]
]
