-- ===== src/Client/FranchisePicker/Claims.antt =====
-- The grid's choice and the server's answer.
use ipl_auction_app.Base.{
  ℕ, ◌≤◌, ◌≡◌, refl, sym, ◌∙◌, arith, Bool, true, false, is_some, ◌&&◌, ◌||◌, if◌then◌else◌, List,
  [], ◌∷◌, map, find, count, Option, none, some, Bool-cases, inl, inr,
}
use ipl_auction_app.Rules.Types.{FranchiseName, same}
use ipl_auction_app.Room.State.{Member, Room, Db, World, Message, emit}
use ipl_auction_app.Room.Lobby.{select_franchise, after_claim}
use ipl_auction_app.Room.Rows.{
  of_user, is_unselected, has_franchise, Claim, claimed, refused, unique_violation, claim,
  claim_franchise, is_lobby,
}
use ipl_auction_app.Invites.Routes.{participant}
use ipl_auction_app.Client.FranchisePicker.{
  FranchisePage, my_franchise, ClaimedMap, claimed_map, is_enabled, click_franchise,
}

abbrev member_franchise : Option Member → Option FranchiseName
member_franchise none = none
member_franchise (some m) = m.franchise

my_franchise-members :
    (me host : ℕ) (ms : List Member)
    → my_franchise me (map (participant host) ms) ≡ member_franchise (find (of_user me) ms)
unfolding my_franchise
my_franchise-members me host [] = refl
my_franchise-members me host (m ∷ ms) = ground (arith, my_franchise-members me host ms)

claimed_map-members :
    (f : FranchiseName) (host : ℕ) (ms : List Member) (before : ClaimedMap)
    → is_some (claimed_map (map (participant host) ms) before f)
      ≡ (is_some (find (has_franchise f) ms) || is_some (before f))
unfolding claimed_map
claimed_map-members f host [] before = refl
claimed_map-members f host (m ∷ ms) before = ground (
  arith,
  claimed_map-members f host ms (λ g.
      if (elim m.franchise [ none ↦ false | some e ↦ same e g ])
      then some (participant host m)
      else before g),
)

abbrev undecided_row : ℕ → Member → Bool
undecided_row user m = of_user user m && is_unselected m

nobody-undecided :
    (user : ℕ) (ms : List Member)
    → count (of_user user) ms ≡ 0
    → find (undecided_row user) ms ≡ none
nobody-undecided user [] h = refl
nobody-undecided user (m ∷ ms) h = ground (arith, h, nobody-undecided user ms)

-- With one row for the user, the row that the server looks for is the row that the page finds.
undecided-found :
    (user : ℕ) (m : Member) (ms : List Member)
    → find (of_user user) ms ≡ some m
    → count (of_user user) ms ≤ 1
    → is_some (find (undecided_row user) ms) ≡ is_unselected m
undecided-found user m [] h one = cc
undecided-found user m (x ∷ xs) h one = elim (Bool-cases (of_user user x)) [
  | inl hit ↦
      let alone : count (of_user user) xs ≡ 0 = ground (arith, one, hit) in
      ground (arith, h, hit, nobody-undecided user xs alone)
  | inr miss ↦
      let fewer : count (of_user user) xs ≤ 1 = ground (arith, one, miss) in
      let later : find (of_user user) xs ≡ some m = ground (arith, h, miss) in
      ground (arith, miss, undecided-found user m xs later fewer)
]

abbrev is_claimed : Claim → Bool
is_claimed (claimed db) = true
is_claimed refused = false
is_claimed unique_violation = false

click-is_claimed :
    (me host : ℕ) (f : FranchiseName) (m : Member) (page : FranchisePage) (db : Db)
    → page.participants ≡ map (participant host) db.members
    → page.is_pending ≡ false
    → page.is_locking ≡ false
    → find (of_user me) db.members ≡ some m
    → count (of_user me) db.members ≤ 1
    → (click_franchise me true f page).0 ≡ is_claimed (claim_franchise me f db)
unfolding click_franchise is_enabled claim_franchise
click-is_claimed me host f m page db shown idle unlocked h one = ground (
  arith,
  shown,
  idle,
  unlocked,
  h,
  my_franchise-members me host db.members,
  claimed_map-members f host db.members (λ g. none),
  undecided-found me m db.members h one,
)

granted :
    (me : ℕ) (f : FranchiseName) (db : Db)
    → is_claimed (claim_franchise me f db) ≡ true
    → claim_franchise me f db ≡ claimed (record db { members = claim me f db.members })
unfolding claim_franchise
granted me f db h = ground (arith, h)

-- What the server does in the room's lobby is decided by the UPDATE.
select-granted :
    (me : ℕ) (f : FranchiseName) (r : Room) (w : World)
    → w.db.room ≡ some r
    → is_lobby r.status ≡ true
    → is_claimed (claim_franchise me f w.db) ≡ true
    → select_franchise me f w
      ≡ emit
          (Message.franchise_claimed me f)
          (record w { db = record w.db { members = claim me f w.db.members } })
unfolding select_franchise after_claim
select-granted me f r w room lobby h = ground (arith, room, lobby, granted me f w.db h)

select-denied :
    (me : ℕ) (f : FranchiseName) (r : Room) (w : World)
    → w.db.room ≡ some r
    → is_lobby r.status ≡ true
    → is_claimed (claim_franchise me f w.db) ≡ false
    → select_franchise me f w ≡ emit Message.franchise_claimed_error w
unfolding select_franchise after_claim claim_franchise
select-denied me f r w room lobby h = ground (arith, room, lobby, h)

-- In the room's lobby, where the page shows the room's members, the user has one row there and nothing is
-- pending, and a socket is there: if a click on a franchise sends `room:franchise_select`, the server writes the choice to the
-- user's row and announces it; if the click sends nothing, the server would have answered the request
-- with an error and changed nothing.
pub click_franchise-select :
    (me host : ℕ) (f : FranchiseName) (m : Member) (r : Room) (page : FranchisePage) (w : World)
    → w.db.room ≡ some r
    → is_lobby r.status ≡ true
    → page.participants ≡ map (participant host) w.db.members
    → page.is_pending ≡ false
    → page.is_locking ≡ false
    → find (of_user me) w.db.members ≡ some m
    → count (of_user me) w.db.members ≤ 1
    → ((click_franchise me true f page).0 ≡ true
        → select_franchise me f w
          ≡ emit
              (Message.franchise_claimed me f)
              (record w { db = record w.db { members = claim me f w.db.members } }))
      × ((click_franchise me true f page).0 ≡ false
          → select_franchise me f w ≡ emit Message.franchise_claimed_error w)
click_franchise-select me host f m r page w room lobby shown idle unlocked h one =
    let e = click-is_claimed me host f m page w.db shown idle unlocked h one in
    (
      λ sent. select-granted me f r w room lobby (sym e ∙ sent),
      λ silent. select-denied me f r w room lobby (sym e ∙ silent),
    )
