-- ===== src/Client/Rosters.antt =====
-- The franchises that the pages list: apps/frontend/src/app/room/[roomCode]/results/page.tsx and
-- auction/page.tsx beside it.
use ipl_auction_app.Base.{
  ℕ, ◌≤◌, ◌≡◌, refl, arith, min, Bool, true, false, not, is_some, if◌then◌else◌, List, [], ◌∷◌,
  ◌++◌, map, filter, find, count, count-append, reverse, Option, none, some, Bool-cases,
  Option-cases, inl, inr, count-absent,
}
use ipl_auction_app.Rules.Types.{FranchiseName, same, same_comm}
use ipl_auction_app.Franchise.{SquadRow}
use ipl_auction_app.Room.State.{Member, Db}
use ipl_auction_app.Room.Rows.{has_franchise}
use ipl_auction_app.Invites.Routes.{LobbyParticipant, participant}
use ipl_auction_app.Invites.Squads.{
  SquadPlayerRecord, same_key, participating, get_squad_players_for_room, records_of, record_of,
  has_member_id,
}

abbrev pub Key : Type 0
Key = Option FranchiseName

-- `Array.from(new Set(keys))`.
unfoldable pub unique : List Key → List Key
unique [] = []
unique (k ∷ ks) = k ∷ filter (λ j. not (same_key k j)) (unique ks)

-- `.map((p) => p.franchise).filter(Boolean)`.
unfoldable pub claimed_franchises : List LobbyParticipant → List Key
claimed_franchises [] = []
claimed_franchises (p ∷ ps) =
    let rest = claimed_franchises ps in if is_some p.franchise then p.franchise ∷ rest else rest

-- `Object.keys(squads)`: the keys as the server's loop makes them.
abbrev pub squad_keys : List SquadPlayerRecord → List Key
squad_keys rs = unique (map (λ (r : SquadPlayerRecord). r.franchise) rs)

abbrev pub from_participants : Option (List LobbyParticipant) → List Key
from_participants none = []
from_participants (some ps) = claimed_franchises ps

-- `loadResultsData`; the room's answer is `none` if the request failed.
unfoldable pub participating_franchises :
    Option (List LobbyParticipant) → List FranchiseName → List SquadPlayerRecord → List Key
unfolding claimed_franchises unique
participating_franchises room_participants from_squads records =
    unique
      (from_participants room_participants ++ (map (λ f. some f) from_squads ++ squad_keys records))

-- `opponentFranchises` of the auction page.
unfoldable pub opponent_franchises : List LobbyParticipant → Key → List Key
unfolding claimed_franchises unique
opponent_franchises ps mine = filter (λ k. not (same_key k mine)) (unique (claimed_franchises ps))

same_key_trans : (x k j : Key) → same_key x k ≡ true → same_key x j ≡ same_key k j
unfolding same
same_key_trans none none j h = refl
same_key_trans none (some g) j h = cc
same_key_trans (some f) none j h = cc
same_key_trans (some f) (some g) none h = refl
same_key_trans (some f) (some g) (some e) h = ground (arith, h)

same_key_comm : (x k : Key) → same_key x k ≡ same_key k x
same_key_comm none none = refl
same_key_comm none (some g) = refl
same_key_comm (some f) none = refl
same_key_comm (some f) (some g) = same_comm f g

count-without :
    (x k : Key) (ks : List Key)
    → count (same_key k) (filter (λ j. not (same_key x j)) ks)
      ≡ (if same_key x k then 0 else count (same_key k) ks)
count-without x k [] = ground arith
count-without x k (j ∷ js) = ground (
  arith,
  same_key_trans x k j,
  same_key_trans k x j,
  same_key_trans x j k,
  same_key_comm x k,
  same_key_comm k j,
  count-without x k js,
)

count-unique :
    (k : Key) (ks : List Key) → count (same_key k) (unique ks) ≡ min 1 (count (same_key k) ks)
unfolding unique
count-unique k [] = omega arith
count-unique k (x ∷ ks) =
    ground (arith, count-without x k (unique ks), count-unique k ks, same_key_comm x k)

count-claimed :
    (f : FranchiseName) (host : ℕ) (ms : List Member)
    → count (same_key (some f)) (claimed_franchises (map (participant host) ms))
      ≡ count (has_franchise f) ms
unfolding claimed_franchises
count-claimed f host [] = refl
count-claimed f host (m ∷ ms) = elim (Option-cases m.franchise) [
  | inl undecided ↦ ground (arith, undecided, count-claimed f host ms)
  | inr (g, chosen) ↦ ground (arith, chosen, same_comm f g, count-claimed f host ms)
]

count-participating :
    (f : FranchiseName) (ms : List Member)
    → count (same_key (some f)) (map (λ g. some g) (participating ms)) ≡ count (has_franchise f) ms
unfolding participating
count-participating f [] = refl
count-participating f (m ∷ ms) = elim (Option-cases m.franchise) [
  | inl undecided ↦ ground (arith, undecided, count-participating f ms)
  | inr (g, chosen) ↦ ground (arith, chosen, same_comm f g, count-participating f ms)
]

found-lacks :
    (p q : Member → Bool) (m : Member) (ms : List Member)
    → count p ms ≡ 0
    → find q ms ≡ some m
    → p m ≡ false
found-lacks p q m [] none_has h = cc
found-lacks p q m (x ∷ xs) none_has h = ground (arith, none_has, h, found-lacks p q m xs)

-- No purchase is shown for a franchise that no member has.
count-records :
    (f : FranchiseName) (ms : List Member) (rows : List SquadRow)
    → count (has_franchise f) ms ≡ 0
    → count (same_key (some f)) (map (λ (r : SquadPlayerRecord). r.franchise) (records_of ms rows))
      ≡ 0
unfolding records_of record_of
count-records f ms [] h = refl
count-records f ms (row ∷ rows) h =
    elim (Option-cases (find (has_member_id row.room_member_id) ms)) [
      | inl unknown ↦ ground (arith, unknown, count-records f ms rows h)
      | inr (m, known) ↦
          let lacks =
            found-lacks (has_franchise f) (has_member_id row.room_member_id) m ms h known in
          elim (Option-cases m.franchise) [
            | inl undecided ↦ ground (arith, known, undecided, count-records f ms rows h)
            | inr (g, chosen) ↦
                ground (arith, known, chosen, lacks, same_comm f g, count-records f ms rows h)
          ]
    ]

count-present : (p : Member → Bool) (ms : List Member) → is_some (find p ms) ≡ true → 1 ≤ count p ms
count-present p [] h = cc
count-present p (m ∷ ms) h = ground (arith, h, count-present p ms)

-- Whether or not the room's answer came, the results page lists a franchise once if a member of the
-- room has it, and not at all otherwise.
pub participating_franchises-once :
    (f : FranchiseName) (host : ℕ) (answered : Bool) (db : Db)
    → let room_participants = if answered then some (map (participant host) db.members) else none in
      count (same_key (some f)) (
        participating_franchises room_participants
          (participating db.members)
          (get_squad_players_for_room db))
      ≡ (if is_some (find (has_franchise f) db.members) then 1 else 0)
unfolding participating_franchises get_squad_players_for_room
participating_franchises-once f host answered db =
    let k = some f in
    let records = get_squad_players_for_room db in
    let squads = map (λ (r : SquadPlayerRecord). r.franchise) records in
    let first =
      from_participants (if answered then some (map (participant host) db.members) else none) in
    let second : List Key = map (λ g. some g) (participating db.members) in
    let shown = count-unique k (first ++ (second ++ unique squads)) in
    let parts = count-append (same_key k) first (second ++ unique squads) in
    let rest = count-append (same_key k) second (unique squads) in
    let bought = count-unique k squads in
    let teams = count-participating f db.members in
    let claims : count (same_key k) first ≤ count (has_franchise f) db.members =
      elim (Bool-cases answered) [
        | inl came ↦ ground (arith, came, count-claimed f host db.members)
        | inr failed ↦ ground (arith, failed)
      ] in
    elim (Bool-cases (is_some (find (has_franchise f) db.members))) [
      | inl has ↦
          let present = count-present (has_franchise f) db.members has in
          ground (arith, has, shown, parts, rest, teams, present)
      | inr lacks ↦
          let absent = count-absent (has_franchise f) db.members lacks in
          let unsold = count-records f db.members (reverse db.squad_players) absent in
          ground (arith, lacks, shown, parts, rest, bought, teams, claims, absent, unsold)
    ]

count-others :
    (k mine : Key) (ks : List Key)
    → count (same_key k) (filter (λ j. not (same_key j mine)) ks)
      ≡ (if same_key k mine then 0 else count (same_key k) ks)
count-others k mine [] = ground arith
count-others k mine (j ∷ js) = ground (
  arith,
  same_key_trans k j mine,
  same_key_trans j k mine,
  same_key_comm j k,
  count-others k mine js,
)

-- The tabs of the auction page hold a franchise once if a participant claimed it and it is not the
-- user's own, and not at all otherwise.
pub opponent_franchises-once :
    (k mine : Key) (ps : List LobbyParticipant)
    → count (same_key k) (opponent_franchises ps mine)
      ≡ (if same_key k mine then 0 else min 1 (count (same_key k) (claimed_franchises ps)))
unfolding opponent_franchises
opponent_franchises-once k mine ps = ground (
  arith,
  count-others k mine (unique (claimed_franchises ps)),
  count-unique k (claimed_franchises ps),
)
