-- ===== src/Invites/Laws.antt =====
-- A room is found by its code, however it is typed, and who has joined sees it.
use ipl_auction_app.Base.{
  ℕ, zero, suc, ◌+◌, ◌≡◌, ◌≤◌, ◌<◌, refl, ◌∙◌, ap, subst, ◌⊎◌, arith, Bool, true, false, [], ◌∷◌,
  find, Option, none, some, Bool-cases, inl, inr, ==-refl, or_else, get_elem?, length, ◌==◌, ◌&&◌,
  not,
}
use ipl_auction_app.Room.Rows.{is_room_member}
use ipl_auction_app.Accounts.Text.{Text, upper, is_space, to_upper_case, trim_start, trim_end, trim}
use ipl_auction_app.Accounts.Laws.{same_text_refl}
use ipl_auction_app.Invites.Codes.{
  Entry, Directory, code_chars, Draws, code_from, generate_invite_code, has_code, new_entry,
  is_taken, create_attempts, create_room, get_room_by_code,
}

-- A character that upper case and trimming leave alone.
abbrev is_plain : ℕ → Bool
is_plain c = (upper c == c) && not (is_space c)

abbrev all_plain : Text → Bool
all_plain [] = true
all_plain (c ∷ cs) = is_plain c && all_plain cs

code_chars-plain : all_plain code_chars ≡ true
code_chars-plain = refl

get_elem?-plain :
    (t : Text) (i : ℕ)
    → all_plain t ≡ true
    → i < length t
    → is_plain (or_else (get_elem? t i) 0) ≡ true
get_elem?-plain [] i p h = absurd (omega (arith, h))
get_elem?-plain (c ∷ cs) zero p h = ground (arith, p)
get_elem?-plain (c ∷ cs) (suc i) p h = get_elem?-plain cs i (ground (arith, p)) (omega (arith, h))

code_from-plain :
    (draw : ℕ → ℕ) (i n : ℕ) → ((k : ℕ) → draw k < 32) → all_plain (code_from draw i n) ≡ true
unfolding code_from
code_from-plain draw i zero b = refl
code_from-plain draw i (suc n) b = ground (
  arith,
  get_elem?-plain code_chars (draw i) code_chars-plain (b i),
  code_from-plain draw (suc i) n b,
)

upper_plain : (c : ℕ) → is_plain c ≡ true → upper c ≡ c
upper_plain c p = ground (arith, p)

upper-plain : (t : Text) → all_plain t ≡ true → to_upper_case t ≡ t
unfolding to_upper_case
upper-plain [] p = refl
upper-plain (c ∷ cs) p =
    let head = upper_plain c (ground (arith, p)) in
    let tail = upper-plain cs (ground (arith, p)) in ground (arith, head, tail)

trim_end-plain : (t : Text) → all_plain t ≡ true → trim_end t ≡ t
unfolding trim_end
trim_end-plain [] p = refl
trim_end-plain (c ∷ cs) p = ground (arith, p, trim_end-plain cs (ground (arith, p)))

trim-plain : (t : Text) → all_plain t ≡ true → trim t ≡ t
unfolding trim_start
trim-plain [] p = trim_end-plain [] p
trim-plain (c ∷ cs) p =
    let start : trim_start (c ∷ cs) ≡ c ∷ cs = ground (arith, p) in
    ap trim_end start ∙ trim_end-plain (c ∷ cs) p

-- How a code reaches the table.
abbrev pub normal_code : Text → Text
normal_code t = trim (to_upper_case t)

code-normal :
    (draw : ℕ → ℕ)
    → ((k : ℕ) → draw k < 32)
    → normal_code (generate_invite_code draw) ≡ generate_invite_code draw
code-normal draw b =
    let plain = code_from-plain draw 0 6 b in
    ap trim (upper-plain (generate_invite_code draw) plain)
    ∙ trim-plain (generate_invite_code draw) plain

-- The room stands in the table, its code was free, its host is a member, and its code finds it.
pub record IsCreated (host : ℕ) (dir : Directory) (r : Option Entry × Directory) : Type 0 where
  pub entry : Entry
  pub result : r ≡ (some entry, entry ∷ dir)
  pub fresh : find (has_code entry.invite_code) dir ≡ none
  pub host_in : is_room_member host entry.db ≡ true
  pub found :
      (typed : Text)
      → normal_code typed ≡ normal_code entry.invite_code
      → get_room_by_code typed (entry ∷ dir) ≡ some entry

abbrev code_of : Draws → ℕ → Text
code_of draws k = generate_invite_code (draws.char_index k)

module _ (draws : Draws) (host : ℕ) (dir : Directory)
    (b : (k i : ℕ) → draws.char_index k i < 32) where
  attempt-IsCreated :
      (k : ℕ)
      → is_taken (draws.room_id k) (code_of draws k) dir ≡ false
      → let e = new_entry (draws.room_id k) (draws.member_id k) (code_of draws k) host in
        IsCreated host dir (some e, e ∷ dir)
  unfolding is_room_member get_room_by_code
  attempt-IsCreated k free =
      let code = code_of draws k in
      let normal = code-normal (draws.char_index k) (b k) in
      record {
        entry = new_entry (draws.room_id k) (draws.member_id k) code host;
        result = refl;
        fresh = ground (arith, free);
        host_in = ground (arith, ==-refl host);
        found = λ typed h. ground (arith, h ∙ normal, same_text_refl code);
      }

  abbrev e_of : ℕ → Entry
  e_of k = new_entry (draws.room_id k) (draws.member_id k) (code_of draws k) host

  abbrev taken_at : ℕ → Bool
  taken_at k = is_taken (draws.room_id k) (code_of draws k) dir

  attempts-taken :
      (left k : ℕ)
      → taken_at k ≡ true
      → create_attempts draws host left (suc k) dir ≡ create_attempts draws host (suc left) k dir
  unfolding create_attempts
  attempts-taken left k taken = rw taken refl

  attempts-free :
      (left k : ℕ)
      → taken_at k ≡ false
      → (some (e_of k), e_of k ∷ dir) ≡ create_attempts draws host (suc left) k dir
  unfolding create_attempts
  attempts-free left k free = rw free refl

  attempts-none : (k : ℕ) → create_attempts draws host 0 k dir ≡ (none, dir)
  unfolding create_attempts
  attempts-none k = refl

  -- A room was made, or every attempt from `k` on met a row.
  abbrev Attempted : ℕ → ℕ → Option Entry × Directory → Type 0
  Attempted left k r =
      IsCreated host dir r
      ⊎ ((r ≡ (none, dir)) × ((j : ℕ) → k ≤ j → j < k + left → taken_at j ≡ true))

  attempts-Attempted : (left k : ℕ) → Attempted left k (create_attempts draws host left k dir)
  attempts-Attempted zero k = inr (attempts-none k, λ j low high. absurd (omega (arith, low, high)))
  attempts-Attempted (suc left) k = elim (Bool-cases (taken_at k)) [
    | inl taken ↦
        subst (λ r. Attempted (suc left) k r) (attempts-taken left k taken)
          (widened (attempts-Attempted left (suc k)) taken)
    | inr free ↦
        subst (λ r. Attempted (suc left) k r) (attempts-free left k free)
          (inl (attempt-IsCreated k free))
  ]
    where
      widened :
          {r : Option Entry × Directory}
          → Attempted left (suc k) r
          → taken_at k ≡ true
          → Attempted (suc left) k r
      widened (inl made) taken = inl made
      widened (inr (same, rest)) taken = inr (
        same,
        λ j low high. elim (Bool-cases (j == k)) [
          | inl here ↦
              let e : k ≡ j = ground (arith, here) in subst (λ n. taken_at n ≡ true) e taken
          | inr later ↦ rest j (ground (arith, low, later)) (omega (arith, high))
        ],
      )

-- With indices inside the alphabet, a creation makes a room with a code that no room had, whose host is
-- a member and which the code finds in any case and with spaces around it; or each of the three attempts
-- met a room with its code or its id, and then nothing is written.
pub create_room-outcome :
    (draws : Draws) (host : ℕ) (dir : Directory)
    → ((k i : ℕ) → draws.char_index k i < 32)
    → IsCreated host dir (create_room draws host dir)
      ⊎ ((create_room draws host dir ≡ (none, dir))
          × ((j : ℕ)
              → j < 3
              → is_taken (draws.room_id j) (generate_invite_code (draws.char_index j)) dir ≡ true))
unfolding create_room
create_room-outcome draws host dir b = elim (attempts-Attempted draws host dir b 3 0) [
  | inl made ↦ inl made
  | inr (same, taken) ↦ inr (same, λ j h. taken j (omega arith) (omega (arith, h)))
]
