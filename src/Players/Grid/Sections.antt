-- ===== src/Players/Grid/Sections.antt =====
-- The categories of the grid's players.
use ipl_auction_app.Base.{
  ℕ, zero, suc, ◌≡◌, refl, sym, subst, ◌↔◌, arith, Bool, true, false, if◌then◌else◌, List, [], ◌∷◌,
  take, get_elem?, Option, none, some, Option-cases, Bool-cases, inl, inr, ◌⊎◌,
}
use ipl_auction_app.Accounts.Text.{Text, trim, is_empty}
use ipl_auction_app.Players.Grid.{
  Floats, GridPlayer, Row, is_header, price_text, grid_player, parse_rows,
}

module _ (fl : Floats) (name_key price_key : ℕ) where
  -- A row of the columns with a name: whether it is a header, with its name and price.
  abbrev pub NamedRow : Type 0
  NamedRow = Bool × Text × Text

  unfoldable pub named : Row → Option NamedRow
  named row = elim (row name_key) [
    | none ↦ none
    | some cell ↦
        let name = trim cell in
        let price = price_text (row price_key) in some (is_header name price, name, price)
  ]

  abbrev pub category_after : Text → Option NamedRow → Text
  category_after category none = category
  category_after category (some (header, name, price)) = if header then name else category

  -- The nearest header above the end of the rows, or the category before them.
  unfoldable pub last_header : Text → List Row → Text
  unfolding named
  last_header category [] = category
  last_header category (row ∷ rows) = last_header (category_after category (named row)) rows

  -- Row r names a player under a header: the player that comes of it.
  abbrev pub Lists : Text → List Row → GridPlayer fl.Float → ℕ → Row → Text → Text → Type 0
  Lists category rows p r row name price =
      (get_elem? rows r ≡ some row)
      × (named row ≡ some (false, name, price))
      × (is_empty (last_header category (take r rows)) ≡ false)
      × (p ≡ grid_player fl (last_header category (take r rows)) name price)

  abbrev pub IsListed : Text → List Row → GridPlayer fl.Float → Type 0
  IsListed category rows p =
      (r : ℕ) × (row : Row) × (name : Text) × (price : Text) × Lists category rows p r row name
        price

  abbrev pub parsed : Text → List Row → List (GridPlayer fl.Float)
  parsed category rows = parse_rows fl name_key price_key category rows

  -- What the row adds in front of the rest.
  abbrev with_row : Text → Option NamedRow → List (GridPlayer fl.Float) → List (GridPlayer fl.Float)
  with_row category none rest = rest
  with_row category (some (true, name, price)) rest = rest
  with_row category (some (false, name, price)) rest =
      if is_empty category then rest else grid_player fl category name price ∷ rest

  parse_row :
      (category : Text) (row : Row) (rows : List Row)
      → parsed category (row ∷ rows)
        ≡ with_row category (named row) (parsed (category_after category (named row)) rows)
  unfolding parse_rows named
  parse_row category row rows = elim (Option-cases (row name_key)) [
    | inl unnamed ↦ ground (arith, unnamed)
    | inr (cell, e) ↦ elim (Bool-cases (is_header (trim cell) (price_text (row price_key)))) [
      | inl header ↦ ground (arith, e, header)
      | inr entry ↦ ground (arith, e, entry)
    ]
  ]

  below :
      (category : Text) (row : Row) (rows : List Row) (p : GridPlayer fl.Float)
      → IsListed (category_after category (named row)) rows p
      → IsListed category (row ∷ rows) p
  unfolding last_header
  below category row rows p (r, row', name, price, listed) = (suc r, row', name, price, listed)

  head-or-tail :
      (i : ℕ) (p x : GridPlayer fl.Float) (xs : List (GridPlayer fl.Float))
      → get_elem? (x ∷ xs) i ≡ some p
      → (p ≡ x) ⊎ ((k : ℕ) × (get_elem? xs k ≡ some p))
  head-or-tail zero p x xs h = inl (cc)
  head-or-tail (suc k) p x xs h = inr (k, h)

  parsed-IsListed :
      (i : ℕ) (category : Text) (rows : List Row) (p : GridPlayer fl.Float)
      → get_elem? (parsed category rows) i ≡ some p
      → IsListed category rows p
  unfolding parse_rows last_header
  parsed-IsListed i category [] p h = cc
  parsed-IsListed i category (row ∷ rows) p h =
      go
        (λ k e.
          below category row rows p
            (parsed-IsListed k (category_after category (named row)) rows p e))
        (named row) refl (subst (λ ps. get_elem? ps i ≡ some p) (parse_row category row rows) h)
    where
      go :
          ((k : ℕ)
            → get_elem? (parsed (category_after category (named row)) rows) k ≡ some p
            → IsListed category (row ∷ rows) p)
          → (n : Option NamedRow) → named row ≡ n
          → get_elem? (with_row category n (parsed (category_after category (named row)) rows)) i
            ≡ some p
          → IsListed category (row ∷ rows) p
      go later none e at = later i at
      go later (some (true, name, price)) e at = later i at
      go later (some (false, name, price)) e at = elim (Bool-cases (is_empty category)) [
        | inl empty ↦ later i (ground (arith, at, empty))
        | inr full ↦
            let rest = parsed (category_after category (named row)) rows in
            let front : get_elem? (grid_player fl category name price ∷ rest) i ≡ some p =
              ground (arith, at, full) in
            elim (head-or-tail i p (grid_player fl category name price) rest front)
              as (λ _. IsListed category (row ∷ rows) p) [
                | inl same ↦ (0, row, name, price, (refl, e, full, same))
                | inr (k, ek) ↦ later k ek
              ]
      ]

  -- The parse gives the player.
  abbrev Gives : Text → List Row → GridPlayer fl.Float → Type 0
  Gives category rows p = (i : ℕ) × (get_elem? (parsed category rows) i ≡ some p)

  behind :
      (category : Text) (row : Row) (rows : List Row) (p : GridPlayer fl.Float)
      → Gives (category_after category (named row)) rows p
      → Gives category (row ∷ rows) p
  behind category row rows p (i, e) =
      let rest = parsed (category_after category (named row)) rows in
      subst (λ ps. (k : ℕ) × (get_elem? ps k ≡ some p)) (sym (parse_row category row rows))
        (go (named row))
    where
      go :
          (n : Option NamedRow)
          → (k : ℕ) × (get_elem?
                (with_row category n (parsed (category_after category (named row)) rows))
                k
              ≡ some p)
      go none = (i, e)
      go (some (true, name, price)) = (i, e)
      go (some (false, name, price)) = elim (Bool-cases (is_empty category)) [
        | inl empty ↦ (i, ground (arith, e, empty))
        | inr full ↦ (suc i, ground (arith, e, full))
      ]

  Listed-parsed :
      (category : Text) (rows : List Row) (p : GridPlayer fl.Float) (r : ℕ) (row : Row)
      (name price : Text)
      → Lists category rows p r row name price
      → Gives category rows p
  unfolding last_header
  Listed-parsed category [] p r row name price (at, e, full, same) = cc
  Listed-parsed category (x ∷ xs) p zero row name price (at, e, full, same) =
      let here : named x ≡ some (false, name, price) = ground (arith, at, e) in
      (
        0,
        subst (λ ps. get_elem? ps 0 ≡ some p) (sym (parse_row category x xs))
            (rw here (ground (arith, full, same))),
      )
  Listed-parsed category (x ∷ xs) p (suc r) row name price listed =
      behind category x xs p
        (Listed-parsed (category_after category (named x)) xs p r row name price listed)

-- The players of a pair of columns are those of the rows that name one below a header, with the
-- nearest header above as their category.
pub parse_rows_iff :
    (fl : Floats) (name_key price_key : ℕ) (rows : List Row) (p : GridPlayer fl.Float)
    → ((i : ℕ) × (get_elem? (parse_rows fl name_key price_key [] rows) i ≡ some p))
      ↔ IsListed fl name_key price_key [] rows p
parse_rows_iff fl name_key price_key rows p = (
  λ (i, e). parsed-IsListed fl name_key price_key i [] rows p e,
  λ (r, row, name, price, listed).
      Listed-parsed fl name_key price_key [] rows p r row name price listed,
)
