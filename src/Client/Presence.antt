-- ===== src/Client/Presence.antt =====
-- Who has left the tab or gone offline: the emitters and the alerts of
-- apps/frontend/src/app/room/[roomCode]/auction/page.tsx, and `auction:manager_presence` of
-- apps/backend/src/socket/handlers/auctionHandler.ts between them.
use ipl_auction_app.Base.{
  ℕ, zero, suc, ◌+◌, ◌-◌, ◌==◌, ◌≤◌, ◌≡◌, refl, arith, Bool, true, false, not, ◌&&◌, if◌then◌else◌,
  List, [], ◌∷◌, ◌++◌, length, filter, drop, Option, some, Bool-cases, inl, inr, ==-refl,
}
use ipl_auction_app.Accounts.Text.{Text, same_text, or_text}

-- "tab_switched", "active", "offline" and "online".
abbrev pub tab_switched : Text
tab_switched = 116 ∷ 97 ∷ 98 ∷ 95 ∷ 115 ∷ 119 ∷ 105 ∷ 116 ∷ 99 ∷ 104 ∷ 101 ∷ 100 ∷ []

abbrev pub active_reason : Text
active_reason = 97 ∷ 99 ∷ 116 ∷ 105 ∷ 118 ∷ 101 ∷ []

abbrev pub offline_reason : Text
offline_reason = 111 ∷ 102 ∷ 102 ∷ 108 ∷ 105 ∷ 110 ∷ 101 ∷ []

abbrev pub online_reason : Text
online_reason = 111 ∷ 110 ∷ 108 ∷ 105 ∷ 110 ∷ 101 ∷ []

-- What the browser notices.
pub data BrowserEvent : Type 0 where
  visibility : Bool → BrowserEvent
  goes_offline : BrowserEvent
  comes_online : BrowserEvent

-- What the page sends: whether the user is away, and why.
unfoldable pub presence_message : BrowserEvent → Bool × Option Text
presence_message (visibility hidden) =
    (hidden, some (if hidden then tab_switched else active_reason))
presence_message goes_offline = (true, some offline_reason)
presence_message comes_online = (false, some online_reason)

pub record PresencePayload : Type 0 where
  pub user_id : ℕ
  pub is_away : Bool
  pub reason : Text

-- The server's handler: what everybody else in the room gets.
unfoldable pub manager_presence : ℕ → Bool → Option Text → PresencePayload
manager_presence user is_away reason = record {
  user_id = user;
  is_away = is_away;
  reason = or_text reason (if is_away then tab_switched else active_reason);
}

-- The three texts of an alert.
pub data AlertKind : Type 0 where
  stepped_out went_offline returned : AlertKind

-- The user and the time make the alert's id.
pub record PresenceAlert : Type 0 where
  pub user_id : ℕ
  pub sent_at : ℕ
  pub kind : AlertKind

pub record AwayStatus : Type 0 where
  pub is_away : Bool
  pub reason : Text

pub record PresenceState : Type 0 where
  pub away_managers : ℕ → Option AwayStatus
  -- The oldest first.
  pub presence_alerts : List PresenceAlert

abbrev pub alert_kind : PresencePayload → AlertKind
alert_kind p =
    if p.is_away
    then (if same_text p.reason tab_switched then stepped_out else went_offline)
    else returned

-- `alerts.slice(-3)`.
abbrev pub last_three : List PresenceAlert → List PresenceAlert
last_three alerts = drop (length alerts - 3) alerts

-- `onPresenceAlert` in the browser of `me`.
unfoldable pub on_presence_alert : ℕ → ℕ → PresencePayload → PresenceState → PresenceState
on_presence_alert me now p s =
    let status : AwayStatus = record { is_away = p.is_away; reason = p.reason } in
    let away = λ (u : ℕ). if u == p.user_id then some status else s.away_managers u in
    if p.user_id == me then record s { away_managers = away } else record s {
      away_managers = away;
      presence_alerts =
          last_three s.presence_alerts
          ++ record { user_id = p.user_id; sent_at = now; kind = alert_kind p } ∷ [];
    }

abbrev pub has_alert_id : ℕ → ℕ → PresenceAlert → Bool
has_alert_id user at a = a.user_id == user && a.sent_at == at

-- The timeout of an alert after six seconds.
unfoldable pub dismiss : ℕ → ℕ → PresenceState → PresenceState
dismiss user at s = record s {
  presence_alerts = filter (λ a. not (has_alert_id user at a)) s.presence_alerts;
}

-- What happens to a page: somebody's browser notices something, or a timeout ends.
pub data PresenceEvent : Type 0 where
  notices : ℕ → ℕ → BrowserEvent → PresenceEvent
  times_out : ℕ → ℕ → PresenceEvent

-- The message of a user's page, through the server.
unfoldable pub presence_payload : ℕ → BrowserEvent → PresencePayload
unfolding presence_message manager_presence
presence_payload user e =
    let (is_away, reason) = presence_message e in manager_presence user is_away reason

-- A user's event in the browser of another.
unfoldable pub presence_seen : ℕ → ℕ → ℕ → BrowserEvent → PresenceState → PresenceState
unfolding presence_payload on_presence_alert
presence_seen me user now e s = on_presence_alert me now (presence_payload user e) s

unfoldable pub presence_after : ℕ → List PresenceEvent → PresenceState → PresenceState
unfolding presence_seen dismiss
presence_after me [] s = s
presence_after me (notices user now e ∷ es) s = presence_after me es (presence_seen me user now e s)
presence_after me (times_out user at ∷ es) s = presence_after me es (dismiss user at s)

length-drop : (n : ℕ) (xs : List PresenceAlert) → length (drop n xs) ≡ length xs - n
length-drop zero xs = omega arith
length-drop (suc n) [] = omega arith
length-drop (suc n) (x ∷ xs) = omega (arith, length-drop n xs)

length-append : (xs ys : List PresenceAlert) → length (xs ++ ys) ≡ length xs + length ys
length-append [] ys = omega arith
length-append (x ∷ xs) ys = omega (arith, length-append xs ys)

length-filter :
    (p : PresenceAlert → Bool) (xs : List PresenceAlert) → length (filter p xs) ≤ length xs
length-filter p [] = omega arith
length-filter p (x ∷ xs) = ground (arith, length-filter p xs)

alert-four :
    (me now : ℕ) (p : PresencePayload) (s : PresenceState)
    → length s.presence_alerts ≤ 4
    → length (on_presence_alert me now p s).presence_alerts ≤ 4
unfolding on_presence_alert
alert-four me now p s h =
    let new : PresenceAlert = record { user_id = p.user_id; sent_at = now; kind = alert_kind p } in
    let longer = length-append (last_three s.presence_alerts) (new ∷ []) in
    let kept = length-drop (length s.presence_alerts - 3) s.presence_alerts in
    elim (Bool-cases (p.user_id == me)) [
      | inl own ↦ rw own h
      | inr other ↦ rw other (omega (arith, h, kept, longer))
    ]

-- However many users come and go, a page that starts with at most four alerts never shows more.
pub presence_after-four :
    (me : ℕ) (es : List PresenceEvent) (s : PresenceState)
    → length s.presence_alerts ≤ 4
    → length (presence_after me es s).presence_alerts ≤ 4
unfolding presence_after presence_seen dismiss
presence_after-four me [] s h = h
presence_after-four me (notices user now e ∷ es) s h =
    presence_after-four me es (presence_seen me user now e s)
      (alert-four me now (presence_payload user e) s h)
presence_after-four me (times_out user at ∷ es) s h =
    presence_after-four me es (dismiss user at s)
      (omega (arith, h, length-filter (λ a. not (has_alert_id user at a)) s.presence_alerts))

-- The alert that an event calls for, and whether it takes the user away.
abbrev pub expected_kind : BrowserEvent → AlertKind
expected_kind (visibility hidden) = if hidden then stepped_out else returned
expected_kind goes_offline = went_offline
expected_kind comes_online = returned

abbrev pub takes_away : BrowserEvent → Bool
takes_away (visibility hidden) = hidden
takes_away goes_offline = true
takes_away comes_online = false

-- What another user's browser notices is shown to everybody else: the alert that fits it comes behind
-- the last three, and the user counts as away exactly after hiding the tab or losing the connection.
pub presence_seen-alert :
    (me user now : ℕ) (e : BrowserEvent) (s : PresenceState)
    → (user == me) ≡ false
    → let v = presence_seen me user now e s in
      (v.presence_alerts
        ≡ last_three s.presence_alerts
          ++ record { user_id = user; sent_at = now; kind = expected_kind e } ∷ [])
      × ((t : AwayStatus) × (v.away_managers user ≡ some t) × (t.is_away ≡ takes_away e))
unfolding presence_seen on_presence_alert presence_payload presence_message manager_presence
presence_seen-alert me user now (visibility true) s h = (
  ground (arith, h),
  (record { is_away = true; reason = tab_switched }, ground (arith, h, ==-refl user), refl),
)
presence_seen-alert me user now (visibility false) s h = (
  ground (arith, h),
  (record { is_away = false; reason = active_reason }, ground (arith, h, ==-refl user), refl),
)
presence_seen-alert me user now goes_offline s h = (
  ground (arith, h),
  (record { is_away = true; reason = offline_reason }, ground (arith, h, ==-refl user), refl),
)
presence_seen-alert me user now comes_online s h = (
  ground (arith, h),
  (record { is_away = false; reason = online_reason }, ground (arith, h, ==-refl user), refl),
)
