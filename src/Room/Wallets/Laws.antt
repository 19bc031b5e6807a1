-- ===== src/Room/Wallets/Laws.antt =====
-- The cache of franchise states against the rows of PostgreSQL.
use ipl_auction_app.Base.{
  ℕ, ◌≡◌, sym, ◌∙◌, ap, inl, inr, true, false, Bool-cases, none, some, eq_of_some, arith, List, [],
  ◌∷◌, find, filter, pos, ◌-ℤ◌, ◌≤ℤ◌, ltb_ℤ, ◌==◌, ==-refl, if◌then◌else◌, ◌≤◌, is_some,
}
use ipl_auction_app.Rules.Types.{FranchiseName, FranchiseState}
use ipl_auction_app.Franchise.{SquadRow, deducted, rebuilt}
use ipl_auction_app.Franchise.Laws.{rebuilt-cons}
use ipl_auction_app.Room.State.{Member, Sale, Db, BidEvent}
use ipl_auction_app.Room.Rows.{
  has_franchise, get_room_member_by_franchise, charge, record_player_sold, owns,
}
use ipl_auction_app.Room.Wallets.{rebuild_franchise_state}

abbrev charged : ℕ → Member → Member
charged price m = record m { wallet_remaining_lakhs = m.wallet_remaining_lakhs -ℤ pos price }

find-hit :
    (f : FranchiseName) (m x : Member) (ms : List Member)
    → has_franchise f x ≡ true
    → find (has_franchise f) (x ∷ ms) ≡ some m
    → x ≡ m
find-hit f m x ms hit h =
    eq_of_some (sym (ap (λ c. if c then some x else find (has_franchise f) ms) hit) ∙ h)

charge-first :
    (f : FranchiseName) (price : ℕ) (m : Member) (ms : List Member)
    → has_franchise f m ≡ true
    → ltb_ℤ m.wallet_remaining_lakhs (pos price) ≡ false
    → find (has_franchise f) (charge m.id price (m ∷ ms)) ≡ some (charged price m)
unfolding charge
charge-first f price m ms hit k = ground (arith, ==-refl m.id)

-- The member of a franchise is charged the price if the wallet holds it.
charge-find :
    (f : FranchiseName) (price : ℕ) (m : Member) (ms : List Member)
    → find (has_franchise f) ms ≡ some m
    → ltb_ℤ m.wallet_remaining_lakhs (pos price) ≡ false
    → find (has_franchise f) (charge m.id price ms) ≡ some (charged price m)
unfolding charge
charge-find f price m [] h k = cc
charge-find f price m (x ∷ ms) h k = elim (Bool-cases (has_franchise f x)) [
  | inl hit ↦
      let e = find-hit f m x ms hit h in
      ap (λ y. find (has_franchise f) (charge m.id price (y ∷ ms))) e
      ∙ charge-first f price m ms (ap (has_franchise f) (sym e) ∙ hit) k
  | inr miss ↦ ground (arith, charge-find f price m ms)
]

find-id :
    (f : FranchiseName) (m : Member) (ms : List Member)
    → find (has_franchise f) ms ≡ some m
    → is_some (find (λ x. x.id == m.id) ms) ≡ true
find-id f m [] h = cc
find-id f m (x ∷ ms) h = elim (Bool-cases (has_franchise f x)) [
  | inl hit ↦
      let e = find-hit f m x ms hit h in
      ap (λ y. is_some (find (λ z. z.id == m.id) (y ∷ ms))) e ∙ ground (arith, ==-refl m.id)
  | inr miss ↦ ground (arith, find-id f m ms)
]

abbrev sale_row : Sale → SquadRow
sale_row s = record {
  room_member_id = s.room_member_id;
  player = s.player;
  price_paid_lakhs = s.price_lakhs;
}

own_rows : Member → List SquadRow → List SquadRow
own_rows m = filter (λ r. r.room_member_id == m.id)

-- The transaction of a sale that meets no constraint.
taken : Sale → Db → Db
taken s db = record db {
  squad_players = sale_row s ∷ db.squad_players;
  members = charge s.room_member_id s.price_lakhs db.members;
  bid_events = BidEvent.player_sold s.player.id ∷ db.bid_events;
}

sold-taken :
    (f : FranchiseName) (s : Sale) (m : Member) (db : Db)
    → get_room_member_by_franchise f db ≡ some m
    → s.room_member_id ≡ m.id
    → 1 ≤ s.price_lakhs
    → find (owns m.id s.player.id) db.squad_players ≡ none
    → record_player_sold s db ≡ taken s db
unfolding record_player_sold taken get_room_member_by_franchise
sold-taken f s m db h same_id price fresh = ground (arith, find-id f m db.members h)

own_rows-cons :
    (s : Sale) (m : Member) (rows : List SquadRow)
    → s.room_member_id ≡ m.id
    → own_rows m (sale_row s ∷ rows) ≡ sale_row s ∷ own_rows m rows
unfolding own_rows
own_rows-cons s m rows e = ground (arith, ==-refl m.id)

rebuild-known :
    (f : FranchiseName) (m : Member) (db : Db)
    → get_room_member_by_franchise f db ≡ some m
    → rebuild_franchise_state f db
      ≡ some (rebuilt f m.wallet_remaining_lakhs (own_rows m db.squad_players))
unfolding own_rows rebuild_franchise_state
rebuild-known f m db h = rw (h, rebuild_franchise_state)

charged-taken :
    (f : FranchiseName) (s : Sale) (m : Member) (db : Db)
    → get_room_member_by_franchise f db ≡ some m
    → s.room_member_id ≡ m.id
    → pos s.price_lakhs ≤ℤ m.wallet_remaining_lakhs
    → get_room_member_by_franchise f (taken s db) ≡ some (charged s.price_lakhs m)
unfolding get_room_member_by_franchise taken
charged-taken f s m db h e k =
    ap (λ i. find (has_franchise f) (charge i s.price_lakhs db.members)) e
    ∙ charge-find f s.price_lakhs m db.members h (ground arith)

-- The durable write of a sale and the cached deduction agree. Where the sale names the franchise's
-- member, the price is above zero and within the member's wallet, and the member has no squad row for
-- the player yet, the state rebuilt from the rows after the write is the state rebuilt before it with
-- the sale deducted.
pub rebuild_after_sale :
    (f : FranchiseName) (s : Sale) (m : Member) (db : Db)
    → get_room_member_by_franchise f db ≡ some m
    → s.room_member_id ≡ m.id
    → 1 ≤ s.price_lakhs
    → pos s.price_lakhs ≤ℤ m.wallet_remaining_lakhs
    → find (owns m.id s.player.id) db.squad_players ≡ none
    → (before : FranchiseState) → rebuild_franchise_state f db ≡ some before
    → rebuild_franchise_state f (record_player_sold s db)
      ≡ some (deducted before s.price_lakhs s.player)
unfolding own_rows taken
rebuild_after_sale f s m db h same_id price k fresh before b =
    ap (rebuild_franchise_state f) (sold-taken f s m db h same_id price fresh)
    ∙ rebuild-known f (charged s.price_lakhs m) (taken s db) (charged-taken f s m db h same_id k)
    ∙ ap (λ rows. some (rebuilt f (m.wallet_remaining_lakhs -ℤ pos s.price_lakhs) rows))
        (own_rows-cons s m db.squad_players same_id)
    ∙ ap some (rebuilt-cons f m.wallet_remaining_lakhs (sale_row s) (own_rows m db.squad_players))
    ∙ ap (λ t. some (deducted t s.price_lakhs s.player))
        (eq_of_some (sym (rebuild-known f m db h) ∙ b))
