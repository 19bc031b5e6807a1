-- ===== src/Players/Grid.antt =====
-- packages/database/seeds/seedPlayers.ts: the workbook's grid of names and prices, read into players.
-- A cell is its text, `none` where it is null, empty or zero. The arithmetic of JavaScript's numbers is
-- a parameter.
pub mod Sections
use ipl_auction_app.Base.{
  ℕ, Bool, true, false, not, ◌&&◌, ◌||◌, if◌then◌else◌, List, [], ◌∷◌, ◌++◌, filter, Option, none,
  some, or_else,
}
use ipl_auction_app.Rules.Types.{
  PlayerRole, batter, pacer, spinner, allrounder, wk, PlayerNationality, indian, overseas,
}
use ipl_auction_app.Accounts.Text.{
  Text, to_lower_case, trim, is_empty, is_space, starts_with, same_text,
}

-- `parseFloat` and the number operations that the prices need.
pub record Floats : Type 1 where
  pub Float : Type 0
  pub parse_float : Text → Float
  pub is_nan : Float → Bool
  pub hundredfold : Float → Float
  pub below_ten : Float → Bool
  -- A whole number.
  pub whole : ℕ → Float

-- `t.includes(p)` for a nonempty p.
unfoldable pub includes_text : Text → Text → Bool
includes_text p [] = false
includes_text p (c ∷ cs) = starts_with p (c ∷ cs) || includes_text p cs

-- `t.endsWith(p)` for a nonempty p.
unfoldable pub ends_with : Text → Text → Bool
ends_with p [] = false
ends_with p (c ∷ cs) = same_text p (c ∷ cs) || ends_with p cs

-- `replace(/\s+/g, '')`.
abbrev pub without_space : Text → Text
without_space = filter (λ c. not (is_space c))

-- "cr", "l" and "lakh".
abbrev pub crore_mark : Text
crore_mark = 99 ∷ 114 ∷ []

abbrev pub l_mark : Text
l_mark = 108 ∷ []

abbrev pub lakh_mark : Text
lakh_mark = 108 ∷ 97 ∷ 107 ∷ 104 ∷ []

unfoldable pub price_of_text : (fl : Floats) → Text → fl.Float
unfolding ends_with
price_of_text fl str =
    let num = fl.parse_float str in
    if ends_with crore_mark str
    then fl.hundredfold num
    else if ends_with l_mark str || ends_with lakh_mark str
    then num
    else if fl.is_nan num
    then fl.whole 20
    else if fl.below_ten num
    then fl.hundredfold num
    else num

unfoldable pub parse_price_lakhs : (fl : Floats) → Text → fl.Float
unfolding price_of_text
parse_price_lakhs fl val =
    if is_empty val then fl.whole 20 else price_of_text fl (without_space (to_lower_case val))

-- The words that the script looks for in a category.
abbrev pub batters : Text
batters = 98 ∷ 97 ∷ 116 ∷ 116 ∷ 101 ∷ 114 ∷ 115 ∷ []

abbrev pub batting : Text
batting = 98 ∷ 97 ∷ 116 ∷ 116 ∷ 105 ∷ 110 ∷ 103 ∷ []

abbrev pub pacer_word : Text
pacer_word = 112 ∷ 97 ∷ 99 ∷ 101 ∷ 114 ∷ []

abbrev pub pacers : Text
pacers = 112 ∷ 97 ∷ 99 ∷ 101 ∷ 114 ∷ 115 ∷ []

abbrev pub bowler : Text
bowler = 98 ∷ 111 ∷ 119 ∷ 108 ∷ 101 ∷ 114 ∷ []

abbrev pub bowlers : Text
bowlers = 98 ∷ 111 ∷ 119 ∷ 108 ∷ 101 ∷ 114 ∷ 115 ∷ []

abbrev pub spinner_word : Text
spinner_word = 115 ∷ 112 ∷ 105 ∷ 110 ∷ 110 ∷ 101 ∷ 114 ∷ []

abbrev pub spinners : Text
spinners = 115 ∷ 112 ∷ 105 ∷ 110 ∷ 110 ∷ 101 ∷ 114 ∷ 115 ∷ []

abbrev pub allrounder_word : Text
allrounder_word = 97 ∷ 108 ∷ 108 ∷ 114 ∷ 111 ∷ 117 ∷ 110 ∷ 100 ∷ 101 ∷ 114 ∷ []

abbrev pub allrounders : Text
allrounders = 97 ∷ 108 ∷ 108 ∷ 114 ∷ 111 ∷ 117 ∷ 110 ∷ 100 ∷ 101 ∷ 114 ∷ 115 ∷ []

abbrev pub all_rounders : Text
all_rounders = 97 ∷ 108 ∷ 108 ∷ 32 ∷ 114 ∷ 111 ∷ 117 ∷ 110 ∷ 100 ∷ 101 ∷ 114 ∷ 115 ∷ []

abbrev pub wicket : Text
wicket = 119 ∷ 105 ∷ 99 ∷ 107 ∷ 101 ∷ 116 ∷ []

abbrev pub wk_word : Text
wk_word = 119 ∷ 107 ∷ []

abbrev pub premium : Text
premium = 112 ∷ 114 ∷ 101 ∷ 109 ∷ 105 ∷ 117 ∷ 109 ∷ []

abbrev pub marquee_word : Text
marquee_word = 109 ∷ 97 ∷ 114 ∷ 113 ∷ 117 ∷ 101 ∷ 101 ∷ []

abbrev pub uncapped : Text
uncapped = 117 ∷ 110 ∷ 99 ∷ 97 ∷ 112 ∷ 112 ∷ 101 ∷ 100 ∷ []

abbrev pub base_price : Text
base_price = 98 ∷ 97 ∷ 115 ∷ 101 ∷ 32 ∷ 112 ∷ 114 ∷ 105 ∷ 99 ∷ 101 ∷ []

abbrev pub retired : Text
retired = 114 ∷ 101 ∷ 116 ∷ 105 ∷ 114 ∷ 101 ∷ 100 ∷ []

abbrev pub overseas_word : Text
overseas_word = 111 ∷ 118 ∷ 101 ∷ 114 ∷ 115 ∷ 101 ∷ 97 ∷ 115 ∷ []

-- Any of the words.
unfoldable pub mentions : List Text → Text → Bool
unfolding includes_text
mentions [] t = false
mentions (p ∷ ps) t = includes_text p t || mentions ps t

unfoldable pub derive_role : Text → PlayerRole
unfolding mentions
derive_role category =
    let lower_category = to_lower_case category in
    if mentions (batters ∷ batting ∷ []) lower_category
    then batter
    else if mentions (pacers ∷ bowlers ∷ bowler ∷ pacer_word ∷ []) lower_category
    then pacer
    else if mentions (spinners ∷ spinner_word ∷ []) lower_category
    then spinner
    else if mentions (allrounders ∷ all_rounders ∷ allrounder_word ∷ []) lower_category
    then allrounder
    else if mentions (wicket ∷ wk_word ∷ []) lower_category
    then wk
    else batter

unfoldable pub is_marquee_category : Text → Bool
unfolding mentions
is_marquee_category category = mentions (premium ∷ marquee_word ∷ []) (to_lower_case category)

unfoldable pub is_capped_category : Text → Bool
unfolding includes_text
is_capped_category category = not (includes_text uncapped (to_lower_case category))

unfoldable pub derive_nationality : Text → PlayerNationality
unfolding mentions
derive_nationality category =
    if mentions (overseas_word ∷ retired ∷ []) (to_lower_case category) then overseas else indian

-- A `ParsedPlayer` of the grid, with its texts as they are read.
pub record GridPlayer (F : Type 0) : Type 0 where
  pub name : Text
  pub category : Text
  pub role : PlayerRole
  pub nationality : PlayerNationality
  pub is_marquee : Bool
  pub is_capped : Bool
  pub base_price_lakhs : F

abbrev pub Row : Type 0
Row = ℕ → Option Text

unfoldable pub is_header : Text → Text → Bool
unfolding includes_text mentions
is_header name price =
    includes_text base_price (to_lower_case price)
    || mentions (batters ∷ pacers ∷ spinners ∷ allrounders ∷ all_rounders ∷ wicket ∷ retired ∷ [])
        (to_lower_case name)

unfoldable pub grid_player : (fl : Floats) → Text → Text → Text → GridPlayer fl.Float
unfolding parse_price_lakhs derive_role is_marquee_category is_capped_category derive_nationality
grid_player fl category name price = record {
  name = name;
  category = category;
  role = derive_role category;
  nationality = derive_nationality category;
  is_marquee = is_marquee_category category;
  is_capped = is_capped_category category;
  base_price_lakhs = parse_price_lakhs fl price;
}

abbrev pub price_text : Option Text → Text
price_text none = []
price_text (some t) = trim t

-- The loop over the rows of one pair of columns, from a current category on.
unfoldable pub parse_rows : (fl : Floats) → ℕ → ℕ → Text → List Row → List (GridPlayer fl.Float)
unfolding is_header grid_player
parse_rows fl name_key price_key category [] = []
parse_rows fl name_key price_key category (row ∷ rows) = elim (row name_key) [
  | none ↦ parse_rows fl name_key price_key category rows
  | some cell ↦
      let name = trim cell in
      let price = price_text (row price_key) in
      let rest =
        parse_rows fl name_key price_key (if is_header name price then name else category) rows in
      if is_header name price || is_empty category
      then rest
      else grid_player fl category name price ∷ rest
]

unfoldable pub parse_columns : (fl : Floats) → List (ℕ × ℕ) → List Row → List (GridPlayer fl.Float)
unfolding parse_rows
parse_columns fl [] rows = []
parse_columns fl ((name_key, price_key) ∷ pairs) rows =
    parse_rows fl name_key price_key [] rows ++ parse_columns fl pairs rows

-- `__EMPTY` is key 0.
abbrev pub col_pairs : List (ℕ × ℕ)
col_pairs = (0, 1) ∷ (3, 4) ∷ (6, 7) ∷ (9, 10) ∷ (12, 13) ∷ (15, 16) ∷ (18, 19) ∷ []

unfoldable pub parse_grid : (fl : Floats) → List Row → List (GridPlayer fl.Float)
unfolding parse_columns
parse_grid fl rows = parse_columns fl col_pairs rows
