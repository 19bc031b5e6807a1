-- ===== src/Ledger/Balance.antt =====
-- The purse of every member against what the purchases sum up to.
use ipl_auction_app.Base.{
  ℕ, suc, zero, ◌+◌, ◌≤◌, ◌==◌, ◌≡◌, ap, subst, arith, Bool, Bool-cases, inl, inr, List, [], ◌∷◌,
  ◌++◌, filter, find, get_elem?, some, pos_part, neg_part,
}
use ipl_auction_app.Rules.Types.{FranchiseName}
use ipl_auction_app.Rules.Eligibility.{wallet_total_lakhs}
use ipl_auction_app.Franchise.{SquadRow}
use ipl_auction_app.Room.State.{Member}
use ipl_auction_app.Room.Rows.{claim, charge}
use ipl_auction_app.Invites.Squads.{has_member_id}
use ipl_auction_app.Ledger.{total_paid}
use ipl_auction_app.Ledger.Squads.{spent}

-- The purse is not overdrawn, and what is left and what was paid are the whole purse.
abbrev pub IsFair : List SquadRow → Member → Type 0
IsFair rows m =
    (neg_part m.wallet_remaining_lakhs ≡ 0)
    × (pos_part m.wallet_remaining_lakhs + spent m.id rows ≡ wallet_total_lakhs)

abbrev pub IsBalanced : List SquadRow → List Member → Type 0
IsBalanced rows [] = Unit {0}
IsBalanced rows (m ∷ ms) = IsFair rows m × IsBalanced rows ms

pub IsBalanced-at :
    (j : ℕ) (m : Member) (rows : List SquadRow) (ms : List Member)
    → get_elem? ms j ≡ some m
    → IsBalanced rows ms
    → IsFair rows m
IsBalanced-at j m rows [] h b = cc
IsBalanced-at zero m rows (x ∷ xs) h (fair, b) =
    let e : x ≡ m = cc in subst (λ v. IsFair rows v) e fair
IsBalanced-at (suc j) m rows (x ∷ xs) h (fair, b) = IsBalanced-at j m rows xs h b

pub filter-IsBalanced :
    (p : Member → Bool) (rows : List SquadRow) (ms : List Member)
    → IsBalanced rows ms
    → IsBalanced rows (filter p ms)
filter-IsBalanced p rows [] b = b
filter-IsBalanced p rows (m ∷ ms) (fair, b) = elim (Bool-cases (p m)) [
  | inl hit ↦ rw hit (fair, filter-IsBalanced p rows ms b)
  | inr miss ↦ rw miss (filter-IsBalanced p rows ms b)
]

pub append-IsBalanced :
    (m : Member) (rows : List SquadRow) (ms : List Member)
    → IsFair rows m
    → IsBalanced rows ms
    → IsBalanced rows (ms ++ m ∷ [])
append-IsBalanced m rows [] new b = (new, b)
append-IsBalanced m rows (x ∷ xs) new (fair, b) = (fair, append-IsBalanced m rows xs new b)

pub claim-IsBalanced :
    (user : ℕ) (f : FranchiseName) (rows : List SquadRow) (ms : List Member)
    → IsBalanced rows ms
    → IsBalanced rows (claim user f ms)
unfolding claim
claim-IsBalanced user f rows [] b = b
claim-IsBalanced user f rows (m ∷ ms) (fair, b) =
    (ground (arith, fair), claim-IsBalanced user f rows ms b)

pub charge-IsBalanced :
    (r : SquadRow) (rows : List SquadRow) (ms : List Member)
    → r.price_paid_lakhs + spent r.room_member_id rows ≤ wallet_total_lakhs
    → IsBalanced rows ms
    → IsBalanced (r ∷ rows) (charge r.room_member_id r.price_paid_lakhs ms)
unfolding charge total_paid
charge-IsBalanced r rows [] h b = b
charge-IsBalanced r rows (m ∷ ms) h (fair, b) =
    let same = λ (e : m.id ≡ r.room_member_id). ap (λ v. spent v rows) e in
    (
      elim (Bool-cases (m.id == r.room_member_id)) [
        | inl hit ↦ ground (arith, fair, h, same (ground arith))
        | inr miss ↦ ground (arith, fair, h)
      ],
      charge-IsBalanced r rows ms h b,
    )

pub affords :
    (id : ℕ) (m : Member) (rows : List SquadRow) (ms : List Member)
    → find (has_member_id id) ms ≡ some m
    → IsBalanced rows ms
    → IsFair rows m × (m.id ≡ id)
affords id m rows [] h b = cc
affords id m rows (x ∷ xs) h (fair, b) =
    elim (Bool-cases (x.id == id)) as (λ _. IsFair rows m × (m.id ≡ id)) [
      | inl hit ↦ let e : x ≡ m = ground arith in (subst (λ v. IsFair rows v) e fair, ground arith)
      | inr miss ↦ affords id m rows xs (ground arith) b
    ]
