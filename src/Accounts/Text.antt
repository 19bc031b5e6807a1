-- ===== src/Accounts/Text.antt =====
-- Strings as lists of ASCII code units, with the string methods that the accounts and the invite codes
-- use.
use ipl_auction_app.Base.{
  ℕ, zero, suc, ◌+◌, ◌-◌, ◌==◌, leb, Bool, true, false, ◌&&◌, ◌||◌, if◌then◌else◌, List, [], ◌∷◌,
  Option, none, some,
}

abbrev pub Text : Type 0
Text = List ℕ

abbrev pub same_text : Text → Text → Bool
same_text [] [] = true
same_text [] (d ∷ ds) = false
same_text (c ∷ cs) [] = false
same_text (c ∷ cs) (d ∷ ds) = (c == d) && same_text cs ds

abbrev pub lower : ℕ → ℕ
lower c = if leb 65 c && leb c 90 then c + 32 else c

abbrev pub upper : ℕ → ℕ
upper c = if leb 97 c && leb c 122 then c - 32 else c

unfoldable pub to_lower_case : Text → Text
to_lower_case [] = []
to_lower_case (c ∷ cs) = lower c ∷ to_lower_case cs

unfoldable pub to_upper_case : Text → Text
to_upper_case [] = []
to_upper_case (c ∷ cs) = upper c ∷ to_upper_case cs

-- Tabulators, line ends and the space.
abbrev pub is_space : ℕ → Bool
is_space c = (leb 9 c && leb c 13) || (c == 32)

unfoldable pub trim_start : Text → Text
trim_start [] = []
trim_start (c ∷ cs) = let rest = trim_start cs in if is_space c then rest else c ∷ cs

abbrev pub is_empty : Text → Bool
is_empty [] = true
is_empty (c ∷ cs) = false

unfoldable pub trim_end : Text → Text
trim_end [] = []
trim_end (c ∷ cs) = let rest = trim_end cs in if is_space c && is_empty rest then [] else c ∷ rest

abbrev pub trim : Text → Text
trim t = trim_end (trim_start t)

unfoldable pub includes : ℕ → Text → Bool
includes c [] = false
includes c (d ∷ ds) = (c == d) || includes c ds

unfoldable pub starts_with : Text → Text → Bool
starts_with [] t = true
starts_with (p ∷ ps) [] = false
starts_with (p ∷ ps) (c ∷ cs) = (p == c) && starts_with ps cs

-- `t.slice(n)`.
unfoldable pub slice_from : ℕ → Text → Text
slice_from zero t = t
slice_from (suc n) [] = []
slice_from (suc n) (c ∷ cs) = slice_from n cs

-- `t.split(c)[0]`.
unfoldable pub split_head : ℕ → Text → Text
split_head c [] = []
split_head c (d ∷ ds) = let rest = split_head c ds in if c == d then [] else d ∷ rest

-- `t || …` of an optional string.
abbrev pub or_text : Option Text → Text → Text
or_text none d = d
or_text (some t) d = if is_empty t then d else t
