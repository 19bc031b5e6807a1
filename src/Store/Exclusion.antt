-- ===== src/Store/Exclusion.antt =====
-- A lock that is held while the server is out, through whatever the process does.
use ipl_auction_app.Base.{
  ℕ, ◌+◌, ◌*◌, ◌/◌, ◌≡◌, ◌≤◌, ◌∙◌, ◌⊎◌, inl, inr, Bool, true, false, ◌&&◌, none, some, List, [],
  ◌∷◌, find, is_some, ◌==◌, ==-refl, arith, Bool-cases, ap,
}
use ipl_auction_app.Store.Memory.{get_memory_value, set_memory_value, delete_memory_key}
use ipl_auction_app.Store.Flags.{Arg, read_flags}
use ipl_auction_app.Store.Client.{RawRedis, Client, get, set, del, delete_all, eval}
use ipl_auction_app.Store.Lock.{acquire_lock, release_lock}
use ipl_auction_app.Store.Laws.{IsFree, acquire-free, acquire-held}

-- What the process does with the client, each at its time.
pub data Act : Type 0 where
  -- The token, the key and the time to live.
  acquires : ℕ → ℕ → ℕ → ℕ → Act
  -- The token and the key.
  releases : ℕ → ℕ → ℕ → Act
  reads : ℕ → ℕ → Act
  writes : ℕ → ℕ → ℕ → List Arg → Act
  deletes : ℕ → ℕ → Act

abbrev pub act_time : Act → ℕ
act_time (acquires now token key ttl_ms) = now
act_time (releases now token key) = now
act_time (reads now key) = now
act_time (writes now key v args) = now
act_time (deletes now key) = now

abbrev pub AreBy : ℕ → List Act → Type 0
AreBy deadline [] = Unit {0}
AreBy deadline (a ∷ acts) = (act_time a ≤ deadline) × AreBy deadline acts

-- The holder gives the lock back, or somebody writes or deletes its key.
abbrev pub ends_lock : ℕ → ℕ → Act → Bool
ends_lock key token (acquires now token' key' ttl_ms) = false
ends_lock key token (releases now token' key') = key' == key && token' == token
ends_lock key token (reads now key') = false
ends_lock key token (writes now key' v args) = key' == key
ends_lock key token (deletes now key') = key' == key

module _ {S : Type 0} (server : RawRedis S) where
  abbrev pub run_act : Act → Client S → Client S
  run_act (acquires now token key ttl_ms) c = (acquire_lock server now token key ttl_ms c).1
  run_act (releases now token key) c = (release_lock server now key token c).1
  run_act (reads now key) c = (get server now key c).1
  run_act (writes now key v args) c = (set server now key v args c).1
  run_act (deletes now key) c = (del server now (key ∷ []) c).1

  abbrev pub run_acts : List Act → Client S → Client S
  run_acts [] c = c
  run_acts (a ∷ acts) c = run_acts acts (run_act a c)

module _ {S : Type 0} (server : RawRedis S) (key token deadline : ℕ) where
  -- The token has the lock, and the server is out.
  record IsHeld (c : Client S) : Type 0 where
    stored : c.memory.store key ≡ some (record { value = token; expires_at = some deadline })
    out : c.is_healthy ≡ false

  acquires-IsHeld :
      (now token' key' ttl_ms : ℕ) (c : Client S)
      → now ≤ deadline
      → IsHeld c
      → IsHeld (acquire_lock server now token' key' ttl_ms c).1
  unfolding acquire_lock set read_flags set_memory_value get_memory_value
  acquires-IsHeld now token' key' ttl_ms c t h = record {
    stored = elim (Bool-cases (key' == key)) [
      | inl hit ↦
          let e : key' ≡ key = ground arith in
          ground (arith, h.stored, h.out, ap (λ k. c.memory.store k) e)
      | inr miss ↦ ground (arith, h.stored, h.out)
    ];
    out = ground (arith, h.out);
  }

  act-IsHeld :
      (a : Act) (c : Client S)
      → act_time a ≤ deadline
      → ends_lock key token a ≡ false
      → IsHeld c
      → IsHeld (run_act server a c)
  unfolding release_lock eval get set set_memory_value get_memory_value delete_memory_key del
      delete_all
  act-IsHeld (acquires now token' key' ttl_ms) c t n h =
      acquires-IsHeld now token' key' ttl_ms c t h
  act-IsHeld (releases now token' key') c t n h = record {
    stored = ground (arith, h.stored, h.out, n);
    out = ground (arith, h.out);
  }
  act-IsHeld (reads now key') c t n h = record {
    stored = ground (arith, h.stored, h.out);
    out = ground (arith, h.out);
  }
  act-IsHeld (writes now key' v args) c t n h = record {
    stored = ground (arith, h.stored, h.out, n);
    out = ground (arith, h.out);
  }
  act-IsHeld (deletes now key') c t n h = record {
    stored = ground (arith, h.stored, h.out, n);
    out = ground (arith, h.out);
  }

  acts-IsHeld :
      (acts : List Act) (c : Client S)
      → AreBy deadline acts
      → IsHeld c
      → IsHeld (run_acts server acts c) ⊎ (is_some (find (ends_lock key token) acts) ≡ true)
  acts-IsHeld [] c t h = inl h
  acts-IsHeld (a ∷ acts) c (t, ts) h = elim (Bool-cases (ends_lock key token a)) [
    | inl ends ↦ inr (ground (arith, ends))
    | inr other ↦ elim (acts-IsHeld acts (run_act server a c) ts (act-IsHeld a c t other h)) [
      | inl held ↦ inl held
      | inr later ↦ inr (ground (arith, other, later))
    ]
  ]

-- Where the server is out and nothing has stored the key, whoever asks for the lock for a whole number of
-- seconds, one at least, gets it. Whatever the process then does until that time is over, locks,
-- releases, reads, writes and deletions of any key in any order: either one of these ended the lock,
-- that is, the holder gave it back or somebody wrote or deleted its key, or the next one to ask for it in
-- time is refused, whoever it is, and the holder's release finds it.
pub mutual_exclusion :
    {S : Type 0} (server : RawRedis S) (t0 t token token' key seconds : ℕ) (acts : List Act)
    (c : Client S)
    → c.is_healthy ≡ false
    → IsFree server key c
    → 1 ≤ seconds
    → AreBy (t0 + seconds * 1000) acts
    → t ≤ t0 + seconds * 1000
    → let taken = acquire_lock server t0 token key (seconds * 1000) c in
      let d = run_acts server acts taken.1 in
      (taken.0 ≡ some token)
      × ((is_some (find (ends_lock key token) acts) ≡ true)
          ⊎ (((acquire_lock server t token' key (seconds * 1000) d).0 ≡ none)
              × ((release_lock server t key token d).0 ≡ true)))
unfolding release_lock eval get_memory_value
mutual_exclusion server t0 t token token' key seconds acts c out free one times time =
    let (got, stored, healthy) = acquire-free server t0 token key (seconds * 1000) c free in
    let e : (seconds * 1000 + 999) / 1000 ≡ seconds = omega arith in
    let deadline = t0 + seconds * 1000 in
    let begun : IsHeld server key token deadline
        (acquire_lock server t0 token key (seconds * 1000) c).1 =
      record { stored = ground (arith, stored, e); out = healthy ∙ out } in
    let d = run_acts server acts (acquire_lock server t0 token key (seconds * 1000) c).1 in
    (
      got,
      elim (acts-IsHeld server key token deadline acts
          (acquire_lock server t0 token key (seconds * 1000) c).1 times begun) [
            | inr ended ↦ inl ended
            | inl h ↦ inr (
              acquire-held server t token' key (seconds * 1000)
                  (record { value = token; expires_at = some deadline }) d h.stored (ground arith),
              ground (arith, h.stored, h.out, ==-refl token),
            )
          ],
    )
