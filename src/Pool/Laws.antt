-- ===== src/Pool/Laws.antt =====
-- The shuffle is a permutation, and the pool has no player twice and no more than it should.
use ipl_auction_app.Base.{
  ℕ, zero, suc, ◌+◌, ◌-◌, ◌≡◌, refl, sym, ◌∙◌, ◌⊎◌, inl, inr, Bool, Option, none, some, arith, List,
  [], ◌∷◌, length, count, get_elem?, set, if◌then◌else◌, eq_of_some,
}
use ipl_auction_app.Pool.{swap, swap_found, shuffle_from, fisher_yates_shuffle}

module _ {ℓ} {A : Type ℓ} (p : A → Bool) where
  abbrev tally : A → ℕ
  tally x = if p x then 1 else 0

  count-set :
      (xs : List A) (i : ℕ) (x v : A)
      → get_elem? xs i ≡ some x
      → count p (set xs i v) + tally x ≡ count p xs + tally v
  count-set [] i x v h = cc
  count-set (y ∷ xs) zero x v h = ground (arith, eq_of_some h)
  count-set (y ∷ xs) (suc i) x v h = ground (arith, count-set xs i x v h)

  get_elem?-set :
      (xs : List A) (i j : ℕ) (x y v : A)
      → get_elem? xs i ≡ some x
      → get_elem? xs j ≡ some y
      → (get_elem? (set xs i v) j ≡ some y) ⊎ ((get_elem? (set xs i v) j ≡ some v) × (x ≡ y))
  get_elem?-set [] i j x y v h k = cc
  get_elem?-set (z ∷ xs) zero zero x y v h k = inr (refl, eq_of_some (sym h ∙ k))
  get_elem?-set (z ∷ xs) zero (suc j) x y v h k = inl k
  get_elem?-set (z ∷ xs) (suc i) zero x y v h k = inl k
  get_elem?-set (z ∷ xs) (suc i) (suc j) x y v h k = get_elem?-set xs i j x y v h k

  count-swap_found :
      (xs : List A) (i j : ℕ) (a b : Option A)
      → get_elem? xs i ≡ a
      → get_elem? xs j ≡ b
      → count p (swap_found xs i j a b) ≡ count p xs
  unfolding swap_found
  count-swap_found xs i j none b h k = refl
  count-swap_found xs i j (some x) none h k = refl
  count-swap_found xs i j (some x) (some y) h k = elim (get_elem?-set xs i j x y y h k) [
    | inl e ↦ omega (arith, count-set xs i x y h, count-set (set xs i y) j y x e)
    | inr (e, same) ↦ omega (arith, count-set xs i x y h, count-set (set xs i y) j y x e)
  ]

  count-swap : (xs : List A) (i j : ℕ) → count p (swap xs i j) ≡ count p xs
  unfolding swap
  count-swap xs i j = count-swap_found xs i j (get_elem? xs i) (get_elem? xs j) refl refl

  count-shuffle_from :
      (draw : ℕ → ℕ) (i : ℕ) (xs : List A) → count p (shuffle_from draw i xs) ≡ count p xs
  unfolding shuffle_from
  count-shuffle_from draw zero xs = refl
  count-shuffle_from draw (suc i) xs =
      count-shuffle_from draw i (swap xs (suc i) (draw (suc i)))
      ∙ count-swap xs (suc i) (draw (suc i))

  -- A shuffle keeps the number of the items of every kind, whatever is drawn.
  pub count-shuffle :
      (draw : ℕ → ℕ) (xs : List A) → count p (fisher_yates_shuffle draw xs) ≡ count p xs
  unfolding fisher_yates_shuffle
  count-shuffle draw xs = count-shuffle_from draw (length xs - 1) xs
