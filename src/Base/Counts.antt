-- ===== src/Base/Counts.antt =====
-- Counting the items of a list that satisfy a test.
use Prim.Native.Nat.{ℕ, zero, suc, ◌+◌, ◌≤◌}
use mathlib.Core.Path.{◌≡◌, refl}
use mathlib.Core.Bool.{Bool, true, false}
use mathlib.Core.List.{List, [], ◌∷◌, ◌++◌, map}
use native.Mathlib.Omega.{arith}
use ipl_auction_app.Base.Tests.{is_some}
use ipl_auction_app.Base.Lists.{count, find, take, filter}

module _ {ℓ} {A : Type ℓ} where
  pub count-take : (p : A → Bool) (n : ℕ) (xs : List A) → count p (take n xs) ≤ count p xs
  count-take p zero xs = omega arith
  count-take p (suc n) [] = omega arith
  count-take p (suc n) (x ∷ xs) = ground (arith, count-take p n xs)

  pub count-filter : (p q : A → Bool) (xs : List A) → count p (filter q xs) ≤ count p xs
  count-filter p q [] = omega arith
  count-filter p q (x ∷ xs) = ground (arith, count-filter p q xs)

  pub count-append : (p : A → Bool) (xs ys : List A) → count p (xs ++ ys) ≡ count p xs + count p ys
  count-append p [] ys = omega arith
  count-append p (x ∷ xs) ys = ground (arith, count-append p xs ys)

  pub count-absent : (p : A → Bool) (xs : List A) → is_some (find p xs) ≡ false → count p xs ≡ 0
  count-absent p [] h = refl
  count-absent p (x ∷ xs) h = ground (arith, count-absent p xs)

  pub count-present : (p : A → Bool) (xs : List A) → is_some (find p xs) ≡ true → 1 ≤ count p xs
  count-present p [] h = cc
  count-present p (x ∷ xs) h = ground (arith, count-present p xs)

module _ {ℓ κ} {A : Type ℓ} {B : Type κ} where
  pub count-map :
      (f : A → B) (p : B → Bool) (xs : List A) → count p (map f xs) ≡ count (λ x. p (f x)) xs
  count-map f p [] = refl
  count-map f p (x ∷ xs) = ground (arith, count-map f p xs)
