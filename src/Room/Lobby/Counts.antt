-- ===== src/Room/Lobby/Counts.antt =====
-- Counting the members that a lobby's operations change.
use ipl_auction_app.Base.{
  ℕ, ◌+◌, ◌≤◌, ◌≡◌, refl, arith, Bool, true, ◌&&◌, List, [], ◌∷◌, count, pos, ◌-ℤ◌, ℤ,
  if◌then◌else◌,
}
use ipl_auction_app.Rules.Types.{FranchiseName, same}
use ipl_auction_app.Room.State.{Member}
use ipl_auction_app.Room.Rows.{has_franchise, charge, of_user, is_unselected, claim}

pub count-charge :
    (p : Member → Bool) (id price : ℕ)
    → ((m : Member) (v : ℤ) → p (record m { wallet_remaining_lakhs = v }) ≡ p m)
    → (ms : List Member) → count p (charge id price ms) ≡ count p ms
unfolding charge
count-charge p id price same_p [] = refl
count-charge p id price same_p (m ∷ ms) =
    ground
      (arith, same_p m (m.wallet_remaining_lakhs -ℤ pos price), count-charge p id price same_p ms)

pub count-same :
    (f g : FranchiseName) (ms : List Member)
    → same f g ≡ true
    → count (has_franchise g) ms ≡ count (has_franchise f) ms
unfolding same
count-same f g [] h = refl
count-same f g (m ∷ ms) h = ground (arith, count-same f g ms h)

abbrev pub may_claim : ℕ → Member → Bool
may_claim user m = of_user user m && is_unselected m

pub claim-users :
    (user : ℕ) (f : FranchiseName) (u : ℕ) (ms : List Member)
    → count (of_user u) (claim user f ms) ≡ count (of_user u) ms
unfolding claim
claim-users user f u [] = refl
claim-users user f u (m ∷ ms) = ground (arith, claim-users user f u ms)

pub claim-teams :
    (user : ℕ) (f g : FranchiseName) (ms : List Member)
    → count (has_franchise g) (claim user f ms)
      ≡ count (has_franchise g) ms + (if same f g then count (may_claim user) ms else 0)
unfolding claim
claim-teams user f g [] = ground arith
claim-teams user f g (m ∷ ms) = ground (arith, claim-teams user f g ms)

pub may_claim-users :
    (user : ℕ) (ms : List Member) → count (may_claim user) ms ≤ count (of_user user) ms
may_claim-users user [] = omega arith
may_claim-users user (m ∷ ms) = ground (arith, may_claim-users user ms)
