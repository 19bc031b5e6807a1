-- ===== src/Store/Flags.antt =====
-- The flags of SET, as the client's `set` reads them.
use ipl_auction_app.Base.{
  ℕ, ◌+◌, ◌/◌, ltb, if◌then◌else◌, Bool, true, false, Option, none, some, List, [], ◌∷◌,
}

-- An argument: one of the words that the loop knows, or a number.
pub data Arg : Type 0 where
  ex px nx : Arg
  num : ℕ → Arg

pub record Flags : Type 0 where
  pub ttl_seconds : Option ℕ
  pub is_nx : Bool

-- `EX` and `PX` take the argument behind them, if it is there and not 0. `Number` of a word is NaN,
-- which is no time to live.
unfoldable pub read_flags : List Arg → Flags → Flags
read_flags [] f = f
read_flags (Arg.ex ∷ Arg.num n ∷ rest) f =
    let taken = read_flags rest (record f { ttl_seconds = some n }) in
    let left = read_flags rest f in if ltb 0 n then taken else left
read_flags (Arg.ex ∷ []) f = f
read_flags (Arg.ex ∷ _ ∷ rest) f = read_flags rest (record f { ttl_seconds = none })
read_flags (Arg.px ∷ Arg.num n ∷ rest) f =
    let taken = read_flags rest (record f { ttl_seconds = some ((n + 999) / 1000) }) in
    let left = read_flags rest f in if ltb 0 n then taken else left
read_flags (Arg.px ∷ []) f = f
read_flags (Arg.px ∷ _ ∷ rest) f = read_flags rest (record f { ttl_seconds = none })
read_flags (Arg.nx ∷ rest) f = read_flags rest (record f { is_nx = true })
read_flags (Arg.num n ∷ rest) f = read_flags rest f

abbrev pub no_flags : Flags
no_flags = record { ttl_seconds = none; is_nx = false }
