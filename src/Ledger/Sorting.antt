-- ===== src/Ledger/Sorting.antt =====
-- `rows.sort((a, b) => key(b) - key(a))` and `ORDER BY key DESC`: the largest key first, and equal keys
-- in the order in which they came.
use ipl_auction_app.Base.{
  ℕ, zero, suc, min, ◌≤◌, ◌<◌, ◌≡◌, refl, arith, leb, Bool, true, ◌&&◌, if◌then◌else◌, List, [],
  ◌∷◌, count, take,
}

module _ {ℓ} {A : Type ℓ} (key : A → ℕ) where
  unfoldable pub insert_desc : A → List A → List A
  insert_desc x [] = x ∷ []
  insert_desc x (y ∷ ys) =
      let rest = insert_desc x ys in if leb (key y) (key x) then x ∷ y ∷ ys else y ∷ rest

  unfoldable pub sort_desc : List A → List A
  unfolding insert_desc
  sort_desc [] = []
  sort_desc (x ∷ xs) = insert_desc x (sort_desc xs)

  -- No key is above the one before it, and the first is not above b.
  unfoldable descends_from : ℕ → List A → Bool
  descends_from b [] = true
  descends_from b (x ∷ xs) = leb (key x) b && descends_from (key x) xs

  unfoldable pub is_descending : List A → Bool
  unfolding descends_from
  is_descending [] = true
  is_descending (x ∷ xs) = descends_from (key x) xs

  abbrev pub reaches : ℕ → A → Bool
  reaches k x = leb k (key x)

  insert-from :
      (b : ℕ) (x : A) (ys : List A)
      → key x ≤ b
      → descends_from b ys ≡ true
      → descends_from b (insert_desc x ys) ≡ true
  unfolding descends_from insert_desc
  insert-from b x [] h d = ground arith
  insert-from b x (y ∷ ys) h d = ground (arith, insert-from (key y) x ys)

  insert-is_descending :
      (x : A) (ys : List A) → is_descending ys ≡ true → is_descending (insert_desc x ys) ≡ true
  unfolding is_descending descends_from insert_desc
  insert-is_descending x [] d = refl
  insert-is_descending x (y ∷ ys) d = ground (arith, insert-from (key y) x ys)

  pub sort-is_descending : (xs : List A) → is_descending (sort_desc xs) ≡ true
  unfolding sort_desc is_descending
  sort-is_descending [] = refl
  sort-is_descending (x ∷ xs) = insert-is_descending x (sort_desc xs) (sort-is_descending xs)

  count-insert_desc :
      (p : A → Bool) (x : A) (ys : List A) → count p (insert_desc x ys) ≡ count p (x ∷ ys)
  unfolding insert_desc
  count-insert_desc p x [] = refl
  count-insert_desc p x (y ∷ ys) = ground (arith, count-insert_desc p x ys)

  pub count-sort_desc : (p : A → Bool) (xs : List A) → count p (sort_desc xs) ≡ count p xs
  unfolding sort_desc
  count-sort_desc p [] = refl
  count-sort_desc p (x ∷ xs) =
      ground (arith, count-insert_desc p x (sort_desc xs), count-sort_desc p xs)

  count-low : (k b : ℕ) (xs : List A) → b < k → descends_from b xs ≡ true → count (reaches k) xs ≡ 0
  unfolding descends_from
  count-low k b [] h d = refl
  count-low k b (x ∷ xs) h d = ground (arith, count-low k (key x) xs)

  count-take-from :
      (k b n : ℕ) (xs : List A)
      → descends_from b xs ≡ true
      → count (reaches k) (take n xs) ≡ min n (count (reaches k) xs)
  unfolding descends_from
  count-take-from k b zero xs d = omega arith
  count-take-from k b (suc n) [] d = omega arith
  count-take-from k b (suc n) (x ∷ xs) d =
      ground (arith, count-take-from k (key x) n xs, count-low k (key x) xs)

  count-take-descending :
      (k n : ℕ) (xs : List A)
      → is_descending xs ≡ true
      → count (reaches k) (take n xs) ≡ min n (count (reaches k) xs)
  unfolding is_descending
  count-take-descending k n [] d = count-take-from k 0 n [] (ground arith)
  count-take-descending k n (x ∷ xs) d = count-take-from k (key x) n (x ∷ xs) (ground (arith, d))

  -- What is cut off the sorted list has no larger key than what is left.
  pub take-sort_desc :
      (k n : ℕ) (xs : List A)
      → count (reaches k) (take n (sort_desc xs)) ≡ min n (count (reaches k) xs)
  take-sort_desc k n xs = ground (
    arith,
    count-take-descending k n (sort_desc xs) (sort-is_descending xs),
    count-sort_desc (reaches k) xs,
  )
