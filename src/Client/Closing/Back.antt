-- ===== src/Client/Closing/Back.antt =====
-- The reconnect after the closing of a socket, in packages/client/src/client.ts
use vicoop_bridge.Prelude.{
  ℕ, ◌+◌, ◌≡◌, ◌≤◌, refl, sym, ap, subst, max, String, Bool, true, false, not, ◌||◌, Option, none,
  some, List, [], ◌∷◌, ◌∙◌, ◌==◌, nat_eq, option_eq, string_eq, arith, is_some, get_or, length,
  ==_iff, if◌then◌else◌, if_both, if_else, if_then, option_at, option_both, if_cases, ◌⊎◌, inl, inr,
  leb,
}
use vicoop_bridge.Client.State.{Client, open_socket, write_run, pending_age_limit}
use vicoop_bridge.Client.Pending.{
  on_expiry_timer, disconnect_if, release_run, remove_pending_execution, schedule_pending_expiry,
  fail_reliable_run, run_of, expire_execution, expire_each, expire_pending_frames, stop_run,
  distinct, expired_executions,
}
use vicoop_bridge.Client.Connection.{
  lose_socket, schedule_reconnect, on_close, on_reconnect_timer, connect,
}
use vicoop_bridge.Client.Closing.{lose_socket-rest_of, is_final}

-- How long the client waits at least before it connects again
abbrev pub floor_of : Client → (code : ℕ) → ℕ
floor_of s code = if code == 4009 then get_or s.opts.collision_backoff_ms 300000 else 0

-- After the wait that this close asked for, the client has a new socket and what it retained.
abbrev pub IsBack : Client → (w : ℕ) → Client → Type 0
IsBack s w z = (z.ws ≡ some w) × (z.pending ≡ s.pending)

-- A reconnect is due after the longer of these waits.
abbrev IsWaiting : Client → (computed floor : ℕ) → Client → Type 0
IsWaiting s computed floor z =
    (z.reconnect_timer ≡ some (s.now + max computed floor))
    × (z.stopped ≡ false)
    × (z.pending ≡ s.pending)
    × (z.now ≡ s.now)
    × (z.expiry_timer ≡ s.expiry_timer)

schedule_reconnect-IsWaiting :
    (s : Client) (computed floor : ℕ)
    → s.stopped ≡ false
    → s.reconnect_timer ≡ none
    → IsWaiting s computed floor (schedule_reconnect (lose_socket s) computed floor)
unfolding schedule_reconnect
schedule_reconnect-IsWaiting s computed floor runs quiet =
    let same = lose_socket-rest_of s in
    let timer : (lose_socket s).reconnect_timer ≡ none = ap (λ v. v.3) same ∙ quiet in
    let stopped : (lose_socket s).stopped ≡ false = ap (λ v. v.1) same ∙ runs in
    if_else (λ (z : Client). IsWaiting s computed floor z)
      ((lose_socket s).stopped || is_some (lose_socket s).reconnect_timer) (lose_socket s)
      (ground (arith, timer, stopped))
      (
        ap (λ n. some (n + max computed floor)) (ap (λ v. v.4) same),
        stopped,
        ap (λ v. v.5) same,
        ap (λ v. v.4) same,
        ap (λ v. v.6) same,
      )

on_close-IsWaiting :
    (s : Client) (w code computed : ℕ)
    → s.ws ≡ some w
    → is_final code ≡ false
    → s.stopped ≡ false
    → s.reconnect_timer ≡ none
    → IsWaiting s computed (floor_of s code) (on_close s w code computed)
unfolding on_close
on_close-IsWaiting s w code computed current other runs quiet =
    if_else (λ (z : Client). IsWaiting s computed (floor_of s code) z) (not (s.ws == some w)) s
      (ground (arith, ==_iff s.ws (some w), current))
      (if_else (λ (z : Client). IsWaiting s computed (floor_of s code) z) (is_final code) _ other
        (by_code (code == 4009)))
  where
    collision : ℕ
    collision = get_or s.opts.collision_backoff_ms 300000

    by_code :
        (b : Bool)
        → IsWaiting s computed (if b then collision else 0) (
            if b
            then schedule_reconnect (lose_socket s) computed collision
            else schedule_reconnect (lose_socket s) computed 0)
    by_code true = schedule_reconnect-IsWaiting s computed collision runs quiet
    by_code false = schedule_reconnect-IsWaiting s computed 0 runs quiet

on_reconnect_timer-IsBack :
    (s : Client) (w due : ℕ)
    → s.stopped ≡ false
    → s.reconnect_timer ≡ some due
    → due ≤ s.now
    → IsBack s w (on_reconnect_timer s w)
unfolding on_reconnect_timer connect
on_reconnect_timer-IsBack s w due runs armed le =
    option_at (λ (z : Client). IsBack s w z) s.reconnect_timer s _ armed
      (if_then (λ (z : Client). IsBack s w z) (leb due s.now) s (ground (arith, le))
        (if_else (λ (z : Client). IsBack s w z) s.stopped _ runs (refl, refl)))

-- Time passes; both timers fire if they are due, the one that drops expired frames first.
abbrev pub wait_and_reconnect : (ms w : ℕ) → Client → Client
wait_and_reconnect ms w s = on_reconnect_timer (on_expiry_timer (record s { now = s.now + ms })) w

-- What the expiry of frames leaves alone
abbrev timing : Client → Bool × Option ℕ × ℕ
timing s = (s.stopped, s.reconnect_timer, s.now)

abbrev SameTiming : Client → Client → Type 0
SameTiming s z = timing z ≡ timing s

disconnect_if-SameTiming :
    (disconnect : Bool) (s : Client) → SameTiming s (disconnect_if disconnect s)
unfolding disconnect_if
disconnect_if-SameTiming disconnect s =
    option_both (SameTiming s) (open_socket s) refl
      λ w e. if_both (SameTiming s) disconnect refl refl

release_run-SameTiming : (s : Client) (x : Option String) → SameTiming s (release_run s x)
unfolding remove_pending_execution schedule_pending_expiry
release_run-SameTiming s none = refl
release_run-SameTiming s (some x) = refl

fail_reliable_run-SameTiming :
    (s : Client) (r : ℕ) (disconnect : Bool) → SameTiming s (fail_reliable_run s r disconnect)
unfolding fail_reliable_run
fail_reliable_run-SameTiming s r disconnect =
    let halted = write_run s r (stop_run (s.runs r)) in
    let released = release_run halted (s.runs r).execution_id in
    let same : SameTiming s (disconnect_if disconnect released) =
      disconnect_if-SameTiming disconnect released
      ∙ release_run-SameTiming halted (s.runs r).execution_id in
    if_both (SameTiming s) (s.runs r).suppressed {s = s} {t = disconnect_if disconnect released}
      refl same

expire_execution-SameTiming : (s : Client) (x : String) → SameTiming s (expire_execution s x)
unfolding expire_execution remove_pending_execution schedule_pending_expiry
expire_execution-SameTiming s x =
    option_both (SameTiming s) (run_of s x)
      (disconnect_if-SameTiming true (remove_pending_execution s x))
      λ r e. fail_reliable_run-SameTiming s r (is_some (open_socket s))

expire_each-SameTiming : (s : Client) (xs : List String) → SameTiming s (expire_each s xs)
unfolding expire_each
expire_each-SameTiming s [] = refl
expire_each-SameTiming s (x ∷ xs) =
    expire_each-SameTiming (expire_execution s x) xs ∙ expire_execution-SameTiming s x

expire_pending_frames-SameTiming : (s : Client) → SameTiming s (expire_pending_frames s)
unfolding expire_pending_frames schedule_pending_expiry
expire_pending_frames-SameTiming s =
    let kept = expire_each s (distinct (expired_executions s)) in
    let same : SameTiming s (schedule_pending_expiry kept) =
      expire_each-SameTiming s (distinct (expired_executions s)) in
    if_both (SameTiming s) (leb (pending_age_limit s) 0 || leb (length s.pending) 0) {s = s}
      {t = schedule_pending_expiry kept} refl same

on_expiry_timer-SameTiming : (s : Client) → SameTiming s (on_expiry_timer s)
unfolding on_expiry_timer
on_expiry_timer-SameTiming s = option_both (SameTiming s) s.expiry_timer refl λ due e.
    if_both (SameTiming s) (leb due s.now)
      {s = expire_pending_frames (record s { expiry_timer = none })} {t = s}
      (expire_pending_frames-SameTiming (record s { expiry_timer = none })) refl

-- The expiry timer does nothing before it is due.
on_expiry_timer-kept :
    (s : Client)
    → ((on_expiry_timer s).pending ≡ s.pending)
      ⊎ ((due : ℕ) × (s.expiry_timer ≡ some due) × (due ≤ s.now))
unfolding on_expiry_timer
on_expiry_timer-kept s =
    option_both Q s.expiry_timer (inl refl)
      λ due e. if_cases Q (leb due s.now) (λ le. inr (due, e, ground (arith, le))) λ early. inl refl
  where
    Q : Client → Type 0
    Q z = (z.pending ≡ s.pending) ⊎ ((due : ℕ) × (s.expiry_timer ≡ some due) × (due ≤ s.now))

max_le : (a b n : ℕ) → a ≤ n → b ≤ n → max a b ≤ n
max_le a b n h k = ground (arith, h, k)

-- When the current socket of a client that is not stopped, and has no reconnect under way, closes
-- for any other reason than a final code, then the client connects again with any new socket once
-- it has waited for the computed delay and the floor of the close code, whatever the timer for the
-- expiry of frames does by then; and it still retains its frames, unless that timer was due within
-- the wait.
pub on_close-IsBack :
    (s : Client) (w code computed ms w' : ℕ)
    → s.ws ≡ some w
    → is_final code ≡ false
    → s.stopped ≡ false
    → s.reconnect_timer ≡ none
    → computed ≤ ms
    → floor_of s code ≤ ms
    → let back = wait_and_reconnect ms w' (on_close s w code computed) in
      (back.ws ≡ some w')
      × ((back.pending ≡ s.pending)
          ⊎ ((due : ℕ) × (s.expiry_timer ≡ some due) × (due ≤ s.now + ms)))
on_close-IsBack s w code computed ms w' current other runs quiet le le' =
    let h = on_close-IsWaiting s w code computed current other runs quiet in
    let z = on_close s w code computed in
    let waited = record z { now = z.now + ms } in
    let later = on_expiry_timer waited in
    let same = on_expiry_timer-SameTiming waited in
    let back =
      on_reconnect_timer-IsBack later w' (s.now + max computed (floor_of s code))
        (ap (λ v. v.0) same ∙ h.1) (ap (λ v. v.1) same ∙ h.0)
        (subst (λ n. s.now + max computed (floor_of s code) ≤ n)
          (sym (ap (λ v. v.2) same ∙ ap (λ n. n + ms) h.3))
          (omega (arith, max_le computed (floor_of s code) ms le le'))) in
    (
      back.0,
      elim (on_expiry_timer-kept waited) [
        | inl kept ↦ inl (back.1 ∙ kept ∙ h.2)
        | inr (due, e, over) ↦ inr (due, sym h.4 ∙ e, subst (λ n. due ≤ n + ms) h.3 over)
      ],
    )
