-- ===== src/Players/Seeding.antt =====
-- The seed script can run again.
use text.Mathlib.Text.{◌==◌ as ◌=ₛ◌}
use text.Mathlib.TextPositions.{eq_refl}
use text.Mathlib.TextEquality.{eq_iff}
use mathlib.Core.Bool.{false≢true}
use ipl_auction_app.Base.{
  ℕ, suc, String, ◌≡◌, refl, sym, ◌∙◌, ap, subst, arith, true, false, List, [], ◌∷◌, find, some,
  Bool-cases, inl, inr,
}
use ipl_auction_app.Rules.Types.{Player}
use ipl_auction_app.Players.Table.{ParsedPlayer, row_of, has_name, updated, upsert, seed}

-- The table has a row with the name and the data of a player.
record Has (p : ParsedPlayer) (table : List Player) : Type 0 where
  row : Player
  found : find (has_name p.name) table ≡ some row
  same : updated p row ≡ row

upsert-Has : (id : ℕ) (p : ParsedPlayer) (table : List Player) → Has p (upsert id p table)
unfolding upsert
upsert-Has id p [] = record {
  row = row_of id p;
  found = ground (arith, eq_refl p.name);
  same = refl;
}
upsert-Has id p (r ∷ rs) =
    elim (Bool-cases (has_name p.name r)) as (λ _. Has p (upsert id p (r ∷ rs))) [
      | inl hit ↦ record {
        row = updated p r;
        found = ground (arith, hit);
        same = ground (arith, hit);
      }
      | inr miss ↦
          let rest = upsert-Has id p rs in
          record { row = rest.row; found = ground (arith, miss, rest.found); same = rest.same }
    ]

named_apart : (a b c : String) → (a =ₛ b) ≡ true → (c =ₛ b) ≡ false → (a =ₛ c) ≡ false
named_apart a b c hit other = elim (Bool-cases (a =ₛ c)) [
  | inr apart ↦ apart
  | inl same ↦
      let turned = subst (λ x. (x =ₛ b) ≡ true) ((eq_iff a c).0 same) hit in
      absurd (false≢true (sym other ∙ turned))
]

-- Another player's upsert leaves the row.
upsert-Has_other :
    (id : ℕ) (p q : ParsedPlayer) (table : List Player)
    → (q.name =ₛ p.name) ≡ false
    → Has p table
    → Has p (upsert id q table)
unfolding upsert
upsert-Has_other id p q [] other h = absurd (ground (arith, h.found))
upsert-Has_other id p q (r ∷ rs) other h =
    elim (Bool-cases (has_name p.name r)) as (λ _. Has p (upsert id q (r ∷ rs))) [
      | inl hit ↦
          let miss = named_apart r.name p.name q.name hit other in
          record { row = h.row; found = ground (arith, hit, miss, h.found); same = h.same }
      | inr skip ↦
          let before : find (has_name p.name) rs ≡ some h.row = ground (arith, skip, h.found) in
          let rest =
            upsert-Has_other id p q rs other
              (record { row = h.row; found = before; same = h.same }) in
          elim (Bool-cases (has_name q.name r)) as (λ _. Has p (upsert id q (r ∷ rs))) [
            | inl taken ↦ record {
              row = h.row;
              found = ground (arith, skip, taken, before);
              same = h.same;
            }
            | inr left ↦ record {
              row = rest.row;
              found = ground (arith, skip, left, rest.found);
              same = rest.same;
            }
          ]
    ]

upsert_same :
    (id : ℕ) (p : ParsedPlayer) (table : List Player) → Has p table → upsert id p table ≡ table
unfolding upsert
upsert_same id p [] h = absurd (ground (arith, h.found))
upsert_same id p (r ∷ rs) h = elim (Bool-cases (has_name p.name r)) [
  | inl hit ↦
      let here : r ≡ h.row = ground (arith, hit, h.found) in ground (arith, hit, here, h.same)
  | inr miss ↦
      let rest =
        upsert_same id p rs
          (record { row = h.row; found = ground (arith, miss, h.found); same = h.same }) in
      ground (arith, miss, rest)
]

-- No player of the list has this one's name.
abbrev IsNew : ParsedPlayer → List ParsedPlayer → Type 0
IsNew p [] = Unit {0}
IsNew p (q ∷ qs) = ((q.name =ₛ p.name) ≡ false) × IsNew p qs

-- The names of a list are different.
abbrev pub IsDistinct : List ParsedPlayer → Type 0
IsDistinct [] = Unit {0}
IsDistinct (p ∷ ps) = IsNew p ps × IsDistinct ps

abbrev HasAll : List ParsedPlayer → List Player → Type 0
HasAll [] table = Unit {0}
HasAll (p ∷ ps) table = Has p table × HasAll ps table

seed-Has :
    (draw : ℕ → ℕ) (k : ℕ) (p : ParsedPlayer) (ps : List ParsedPlayer) (table : List Player)
    → IsNew p ps
    → Has p table
    → Has p (seed draw k ps table)
unfolding seed
seed-Has draw k p [] table new h = h
seed-Has draw k p (q ∷ qs) table (other, new) h =
    seed-Has draw (suc k) p qs (upsert (draw k) q table) new
      (upsert-Has_other (draw k) p q table other h)

seed-HasAll :
    (draw : ℕ → ℕ) (k : ℕ) (ps : List ParsedPlayer) (table : List Player)
    → IsDistinct ps
    → HasAll ps (seed draw k ps table)
unfolding seed
seed-HasAll draw k [] table d = tt
seed-HasAll draw k (p ∷ ps) table (new, d) = (
  seed-Has draw (suc k) p ps (upsert (draw k) p table) new (upsert-Has (draw k) p table),
  seed-HasAll draw (suc k) ps (upsert (draw k) p table) d,
)

seed_same :
    (draw : ℕ → ℕ) (k : ℕ) (ps : List ParsedPlayer) (table : List Player)
    → HasAll ps table
    → seed draw k ps table ≡ table
unfolding seed
seed_same draw k [] table h = refl
seed_same draw k (p ∷ ps) table (h, hs) =
    let same = upsert_same (draw k) p table h in
    ap (λ t. seed draw (suc k) ps t) same ∙ seed_same draw (suc k) ps table hs

-- A second run of the seed script over a list with different names changes nothing, whatever ids it
-- draws and whatever the table held before the first.
pub seed_again :
    (draw draw' : ℕ → ℕ) (k k' : ℕ) (ps : List ParsedPlayer) (table : List Player)
    → IsDistinct ps
    → seed draw' k' ps (seed draw k ps table) ≡ seed draw k ps table
seed_again draw draw' k k' ps table d =
    seed_same draw' k' ps (seed draw k ps table) (seed-HasAll draw k ps table d)
