-- ===== src/Client/FranchisePicker.antt =====
-- Choosing a franchise in the browser: apps/frontend/src/components/room/FranchiseGrid.tsx on
-- apps/frontend/src/app/room/[roomCode]/franchise/page.tsx.
pub mod Claims
use ipl_auction_app.Base.{
  ℕ, ◌==◌, Bool, true, false, not, is_some, ◌&&◌, ◌||◌, if◌then◌else◌, List, [], ◌∷◌, find, Option,
  none, some,
}
use ipl_auction_app.Rules.Types.{FranchiseName, same}
use ipl_auction_app.Invites.Routes.{LobbyParticipant}
use ipl_auction_app.Client.LockerRoom.{is_user}

-- The page's state with the lock of its grid.
pub record FranchisePage : Type 0 where
  pub participants : List LobbyParticipant
  pub is_pending : Bool
  pub is_locking : Bool
  pub has_error : Bool
  -- `router.push` to the lobby.
  pub has_moved_on : Bool

abbrev pub franchise_of : Option LobbyParticipant → Option FranchiseName
franchise_of none = none
franchise_of (some p) = p.franchise

unfoldable pub my_franchise : ℕ → List LobbyParticipant → Option FranchiseName
my_franchise me ps = franchise_of (find (is_user me) ps)

abbrev pub ClaimedMap : Type 0
ClaimedMap = FranchiseName → Option LobbyParticipant

abbrev pub has_claimed : FranchiseName → LobbyParticipant → Bool
has_claimed f p = elim p.franchise [ none ↦ false | some g ↦ same g f ]

-- The loop that fills the Map.
unfoldable pub claimed_map : List LobbyParticipant → ClaimedMap → ClaimedMap
claimed_map [] claimed = claimed
claimed_map (p ∷ ps) claimed = claimed_map ps (λ f. if has_claimed f p then some p else claimed f)

-- The button of a franchise is enabled.
unfoldable pub is_enabled : ℕ → FranchiseName → FranchisePage → Bool
unfolding my_franchise claimed_map
is_enabled me f page =
    let taken = is_some (claimed_map page.participants (λ g. none) f) in
    not (taken || is_some (my_franchise me page.participants) || page.is_pending || page.is_locking)

-- A click: whether `room:franchise_select` is sent, and the page behind it. The grid locks itself
-- first; the page sends nothing without a socket.
unfoldable pub click_franchise : ℕ → Bool → FranchiseName → FranchisePage → Bool × FranchisePage
unfolding is_enabled
click_franchise me has_socket f page =
    if not (is_enabled me f page)
    then (false, page)
    else if has_socket
    then (true, record page { is_locking = true; is_pending = true; has_error = false })
    else (false, record page { is_locking = true })

-- The listeners; the grid's lock goes with `isPending`, and with new participants.
pub data PickerEvent : Type 0 where
  claimed_by : ℕ → List LobbyParticipant → PickerEvent
  somebody_joined : List LobbyParticipant → PickerEvent
  claim_failed : PickerEvent

unfoldable pub on_picker_event : ℕ → PickerEvent → FranchisePage → FranchisePage
on_picker_event me (claimed_by user ps) page = record page {
  participants = ps;
  is_pending = false;
  is_locking = false;
  has_moved_on = page.has_moved_on || user == me;
}
on_picker_event me (somebody_joined ps) page = record page {
  participants = ps;
  is_locking = page.is_pending && page.is_locking;
}
on_picker_event me claim_failed page = record page {
  has_error = true;
  is_pending = false;
  is_locking = false;
}
