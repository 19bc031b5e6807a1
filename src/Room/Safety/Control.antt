-- ===== src/Room/Safety/Control.antt =====
-- The timer, the host's controls and the dead man's switch keep the invariant.
use ipl_auction_app.Base.{
  ℕ, ◌==◌, ◌+◌, ◌*◌, ◌≡◌, refl, sym, ◌∙◌, ap, subst, inl, inr, false, Bool-cases, Option, none,
  some, arith, ltb,
}
use ipl_auction_app.Room.State.{
  RoomStatus, World, Room, TimerHandle, refetch, Message, emit, set_redis, set_db,
}
use ipl_auction_app.Room.Rows.{get_room_member_by_franchise, current_position, update_room_status}
use ipl_auction_app.Room.Queue.{get_next_player, rebuild_queue}
use ipl_auction_app.Room.Timer.{
  seconds_until, clear_timer, pause_timer, resume_timer, extend_timer, stored_or,
  get_remaining_seconds, set_auction_state,
}
use ipl_auction_app.Room.Engine.{run_expiry, tick}
use ipl_auction_app.Room.Bids.{accepts_bids}
use ipl_auction_app.Room.Host.{
  HostAction, pause, resume, skip, extend, end, forget_timer, announce_end, run_action, is_active,
  start_recovery, handle_host_disconnect, recover,
}
use ipl_auction_app.Room.Safety.Invariant.{IsOpen, IsSafe}
use ipl_auction_app.Room.Wallets.{load_all_franchise_states}
use ipl_auction_app.Room.Safety.Loads.{load_all_cached}
use ipl_auction_app.Room.Safety.Frame.{
  KeepsBlock, Keeps-IsOpen, Keeps-IsSafe, quiet-IsSafe, next_same, callback_none, callback_refetch,
}
use ipl_auction_app.Room.Safety.Rounds.{run_expiry-IsSafe, end_auction-IsSafe}

-- Steps that write the timer's keys, the auction's state and messages only.
pub timer_keys-KeepsBlock :
    (w v : World)
    → v.db ≡ w.db
    → v.redis.franchise_state ≡ w.redis.franchise_state
    → v.redis.current_player ≡ w.redis.current_player
    → v.redis.current_bid ≡ w.redis.current_bid
    → v.redis.current_bidder ≡ w.redis.current_bidder
    → v.redis.auction_queue ≡ w.redis.auction_queue
    → KeepsBlock w v
timer_keys-KeepsBlock w v d s p b l q = record {
  teams = record {
    states = λ f. ap (λ g. g f) s;
    members = λ f h. ap (get_room_member_by_franchise f) d ∙ h;
  };
  player = p;
  bid = b;
  bidder = l;
  next = next_same w v q d;
}

-- A room whose timer is off, in a state that takes no bids unless a player is on the block.
halted-IsSafe :
    {w v : World}
    → KeepsBlock w v
    → v.timer ≡ none
    → (accepts_bids w.redis.auction_state ≡ false → accepts_bids v.redis.auction_state ≡ false)
    → IsSafe w
    → IsSafe v
halted-IsSafe {v = v} k t a s = Keeps-IsSafe k.teams s (elim s.round [
  | inl o ↦ inl (Keeps-IsOpen k o (callback_none v.timer o.player t))
  | inr r ↦ inr (record { closed = a r.closed; stopped = t })
])

-- A timer started anew for the player on the block.
restarted-IsSafe :
    {w v : World} (d : ℕ)
    → KeepsBlock w v
    → v.timer ≡ some (record { deadline_ms = d; on_expiry = refetch })
    → IsSafe w
    → IsOpen w
    → IsSafe v
restarted-IsSafe {v = v} d k t s o =
    Keeps-IsSafe k.teams s (inl (Keeps-IsOpen k o (callback_refetch v.timer o.player _ t refl)))

pause-KeepsBlock : (w : World) → KeepsBlock w (pause_timer w).1
unfolding pause_timer
pause-KeepsBlock w =
    timer_keys-KeepsBlock w (pause_timer w).1 (ground arith) (ground arith) (ground arith)
      (ground arith) (ground arith) (ground arith)

-- `pauseTimer` at any moment, between two players too.
pub pause-IsSafe : (w : World) → IsSafe w → IsSafe (pause_timer w).1
unfolding pause_timer
pause-IsSafe w s = halted-IsSafe (pause-KeepsBlock w) (ground arith) (λ h. ground arith) s

pub resume-IsSafe : (w : World) → IsSafe w → IsOpen w → IsSafe (resume_timer refetch w)
unfolding resume_timer
resume-IsSafe w s o = elim (Bool-cases (ltb 0 (stored_or w.redis.timer_paused 0))) [
  | inl paused ↦
      rw (paused, resume_timer)
        (restarted-IsSafe (w.now + stored_or w.redis.timer_paused 0 * 1000)
          (timer_keys-KeepsBlock w _ refl refl refl refl refl refl) refl s o)
  | inr running ↦ rw (running, resume_timer) s
]

pub extend-IsSafe : (n : ℕ) (w : World) → IsSafe w → IsOpen w → IsSafe (extend_timer n refetch w).1
unfolding extend_timer
extend-IsSafe n w s o =
    restarted-IsSafe (w.now + (get_remaining_seconds w + n) * 1000)
      (timer_keys-KeepsBlock w (extend_timer n refetch w).1 refl refl refl refl refl refl) refl s o

pub forget-KeepsBlock : (w : World) → KeepsBlock w (forget_timer w)
unfolding forget_timer
forget-KeepsBlock w = timer_keys-KeepsBlock w (forget_timer w) refl refl refl refl refl refl

forget_stops : (w : World) → (forget_timer w).timer ≡ none
unfolding forget_timer
forget_stops w = refl

forget-IsSafe : (w : World) → IsSafe w → IsSafe (forget_timer w)
unfolding forget_timer
forget-IsSafe w s = halted-IsSafe (forget-KeepsBlock w) refl (λ h. h) s

forget-IsOpen : (w : World) → IsOpen w → IsOpen (forget_timer w)
unfolding forget_timer
forget-IsOpen w o = Keeps-IsOpen (forget-KeepsBlock w) o (callback_none none o.player refl)

-- A firing of the interval that is not the last.
pub emit-IsSafe : (m : Message) (w : World) → IsSafe w → IsSafe (emit m w)
unfolding emit
emit-IsSafe m w =
    quiet-IsSafe (timer_keys-KeepsBlock w (emit m w) refl refl refl refl refl refl) refl refl

abbrev expiring : ℕ → World → World
expiring left w =
    set_redis (λ r. record r { timer_deadline = none })
      (clear_timer (emit (Message.timer_tick left) w))

expiring-KeepsBlock : (left : ℕ) (w : World) → KeepsBlock w (expiring left w)
unfolding set_redis emit clear_timer
expiring-KeepsBlock left w = timer_keys-KeepsBlock w (expiring left w) refl refl refl refl refl refl

expired-IsSafe :
    (left : ℕ) (w : World) (h : TimerHandle)
    → IsSafe w
    → w.timer ≡ some h
    → IsSafe (run_expiry h.on_expiry (expiring left w))
unfolding set_redis emit clear_timer
expired-IsSafe left w h s e = elim s.round [
  | inl o ↦
      let k = expiring-KeepsBlock left w in
      run_expiry-IsSafe h.on_expiry (expiring left w) (halted-IsSafe k refl (λ q. q) s) refl
        (Keeps-IsOpen k o (callback_none none o.player refl)) o.player o.up (o.callback h e)
  | inr r ↦ absurd (ground (arith, r.stopped))
]

-- Every firing of the interval, the expiry of the time included.
pub tick-IsSafe : (w : World) → IsSafe w → IsSafe (tick w)
unfolding tick set_redis emit clear_timer
tick-IsSafe w s = go w.timer refl
  where
    go : (t : Option TimerHandle) → w.timer ≡ t → IsSafe (tick w)
    go none e = rw (e, tick) s
    go (some h) e =
        let left = seconds_until h.deadline_ms w.now in
        elim (Bool-cases (ltb 0 left)) [
          | inl more ↦ rw (e, more, tick) (emit-IsSafe (Message.timer_tick left) w s)
          | inr over ↦ rw (e, over, tick) (expired-IsSafe left w h s e)
        ]

announce_end-IsSafe : (w : World) → IsSafe w → IsSafe (announce_end w)
unfolding announce_end
announce_end-IsSafe w s =
    subst (λ v. IsSafe (emit (Message.auction_complete (load_all_franchise_states w).0) v))
      (sym (load_all_cached w s.is_cached)) (emit-IsSafe _ w s)

-- The actions that the host may take at any moment; the others want a player on the block.
abbrev pub IsTimely : HostAction → World → Type 0
IsTimely pause w = Unit {0}
IsTimely end w = Unit {0}
IsTimely _ w = IsOpen w

pub run_action-IsSafe :
    (a : HostAction) (w : World) → IsTimely a w → IsSafe w → IsSafe (run_action a w)
unfolding run_action
run_action-IsSafe pause w o s = pause-IsSafe w s
run_action-IsSafe resume w o s = resume-IsSafe w s o
run_action-IsSafe skip w o s =
    run_expiry-IsSafe refetch (forget_timer w) (forget-IsSafe w s) (forget_stops w)
      (forget-IsOpen w o) _ (forget-IsOpen w o).up tt
run_action-IsSafe extend w o s = extend-IsSafe 15 w s o
run_action-IsSafe end w o s = announce_end-IsSafe _ (end_auction-IsSafe _ (forget-IsSafe w s))

-- The room's status is a matter of its own.
status-KeepsBlock : (x : RoomStatus) (w : World) → KeepsBlock w (set_db (update_room_status x) w)
unfolding set_db update_room_status get_next_player current_position rebuild_queue set_redis
    get_room_member_by_franchise
status-KeepsBlock x w = record {
  teams = record { states = λ f. refl; members = λ f h. ground arith };
  player = refl;
  bid = refl;
  bidder = refl;
  next = ground arith;
}

status-IsSafe : (x : RoomStatus) (w : World) → IsSafe w → IsSafe (set_db (update_room_status x) w)
unfolding set_db
status-IsSafe x w s = quiet-IsSafe (status-KeepsBlock x w) refl refl s

status-IsOpen : (x : RoomStatus) (w : World) → IsOpen w → IsOpen (set_db (update_room_status x) w)
unfolding set_db
status-IsOpen x w o = Keeps-IsOpen (status-KeepsBlock x w) o o.callback

paused_stops : (w : World) → (pause_timer w).1.timer ≡ none
unfolding pause_timer
paused_stops w = ground arith

recovery-IsSafe : (token : ℕ) (w : World) → IsSafe w → IsSafe (start_recovery token w)
unfolding start_recovery emit set_redis set_auction_state
recovery-IsSafe token w s =
    let w' = (pause_timer w).1 in
    let v = set_db (update_room_status RoomStatus.waiting_host) w' in
    halted-IsSafe (timer_keys-KeepsBlock v (start_recovery token w) refl refl refl refl refl refl)
      (paused_stops w) (λ _. refl) (status-IsSafe RoomStatus.waiting_host w' (pause-IsSafe w s))

-- The loss of the host, at any moment.
pub host_disconnect-IsSafe :
    (token user : ℕ) (w : World) → IsSafe w → IsSafe (handle_host_disconnect token user w)
unfolding handle_host_disconnect
host_disconnect-IsSafe token user w s = go w.db.room refl
  where
    go : (r : Option Room) → w.db.room ≡ r → IsSafe (handle_host_disconnect token user w)
    go none e = rw (e, handle_host_disconnect) s
    go (some r) e = elim (Bool-cases (r.host_user_id == user)) [
      | inl host ↦ elim (Bool-cases (is_active r.status)) [
        | inl running ↦ rw (e, host, running, handle_host_disconnect) (recovery-IsSafe token w s)
        | inr other ↦ rw (e, host, other, handle_host_disconnect) s
      ]
      | inr guest ↦ rw (e, guest, handle_host_disconnect) s
    ]

-- The room that `handleHostReconnect` resumes.
abbrev returned : World → World
returned w = set_db (update_room_status RoomStatus.active) (
    set_redis (λ r. record r { host_deadman_token = none; host_deadman_deadline = none })
      (record w { dead_man_timer = none }))

-- The host's return while a player is on the block.
pub host_return-IsSafe : (w : World) → IsSafe w → IsOpen w → IsSafe (recover w)
unfolding recover set_redis
host_return-IsSafe w s o = emit-IsSafe _ _ (
    resume-IsSafe (returned w) (status-IsSafe RoomStatus.active _ (quiet-IsSafe k refl refl s))
      (status-IsOpen RoomStatus.active _ (Keeps-IsOpen k o o.callback)))
  where
    k : KeepsBlock w (
        set_redis
          (λ r. record r { host_deadman_token = none; host_deadman_deadline = none })
          (record w { dead_man_timer = none }))
    k = timer_keys-KeepsBlock w _ refl refl refl refl refl refl
