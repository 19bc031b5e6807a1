-- ===== src/Invites/Codes.antt =====
-- The creation of rooms and their codes in apps/backend/src/db/queries/rooms.ts.
use ipl_auction_app.Base.{
  ℕ, zero, suc, ◌==◌, pos, ◌||◌, Bool, is_some, if◌then◌else◌, List, [], ◌∷◌, find, get_elem?,
  Option, none, some, or_else,
}
use ipl_auction_app.Rules.Eligibility.{wallet_total_lakhs}
use ipl_auction_app.Room.State.{RoomStatus, Db}
use ipl_auction_app.Accounts.Text.{Text, same_text, to_upper_case, trim}

-- A row of rooms with the rows of other tables that belong to it.
pub record Entry : Type 0 where
  pub id : ℕ
  pub invite_code : Text
  pub db : Db

abbrev pub Directory : Type 0
Directory = List Entry

-- "ABCDEFGHJKLMNPQRSTUVWXYZ23456789".
abbrev pub code_chars : Text
code_chars =
    65 ∷ 66 ∷ 67 ∷ 68 ∷ 69 ∷ 70 ∷ 71 ∷ 72 ∷ 74 ∷ 75 ∷ 76 ∷ 77 ∷ 78 ∷ 80 ∷ 81 ∷ 82 ∷ 83 ∷ 84 ∷ 85
    ∷ 86 ∷ 87 ∷ 88 ∷ 89 ∷ 90 ∷ 50 ∷ 51 ∷ 52 ∷ 53 ∷ 54 ∷ 55 ∷ 56 ∷ 57 ∷ []

-- What an attempt draws: the ids of the rows, and an index below 32 for every character.
pub record Draws : Type 0 where
  pub room_id : ℕ → ℕ
  pub member_id : ℕ → ℕ
  pub char_index : ℕ → ℕ → ℕ

unfoldable pub code_from : (ℕ → ℕ) → ℕ → ℕ → Text
code_from draw i zero = []
code_from draw i (suc n) = or_else (get_elem? code_chars (draw i)) 0 ∷ code_from draw (suc i) n

abbrev pub generate_invite_code : (ℕ → ℕ) → Text
generate_invite_code draw = code_from draw 0 6

abbrev pub has_code : Text → Entry → Bool
has_code code e = same_text e.invite_code code

abbrev pub has_room_id : ℕ → Entry → Bool
has_room_id id e = e.id == id

-- The two INSERTs. The host's row is the first of its room.
abbrev pub new_entry : ℕ → ℕ → Text → ℕ → Entry
new_entry id member_id code host = record {
  id = id;
  invite_code = code;
  db = record {
    room =
        some
          (record { host_user_id = host; status = RoomStatus.lobby; current_queue_position = 0 });
    members =
        record {
          id = member_id;
          user_id = host;
          franchise = none;
          wallet_remaining_lakhs = pos wallet_total_lakhs;
        }
        ∷ [];
    auction_queue = [];
    squad_players = [];
    bids = [];
    bid_events = [];
  };
}

-- UNIQUE (invite_code) and the primary key.
abbrev pub is_taken : ℕ → Text → Directory → Bool
is_taken id code dir = is_some (find (has_code code) dir) || is_some (find (has_room_id id) dir)

-- The attempts that are left, from number `attempt` on; `none` if the last one throws.
unfoldable pub create_attempts : Draws → ℕ → ℕ → ℕ → Directory → Option Entry × Directory
unfolding code_from
create_attempts draws host zero attempt dir = (none, dir)
create_attempts draws host (suc left) attempt dir =
    let id = draws.room_id attempt in
    let code = generate_invite_code (draws.char_index attempt) in
    let e = new_entry id (draws.member_id attempt) code host in
    let again = create_attempts draws host left (suc attempt) dir in
    if is_taken id code dir then again else (some e, e ∷ dir)

unfoldable pub create_room : Draws → ℕ → Directory → Option Entry × Directory
unfolding create_attempts
create_room draws host dir = create_attempts draws host 3 0 dir

unfoldable pub get_room_by_code : Text → Directory → Option Entry
get_room_by_code code = find (has_code (trim (to_upper_case code)))
