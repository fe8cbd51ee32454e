-- ===== src/Client/Delivery.antt =====
-- What `sendTaskFrame` and `flushPendingFrames` of packages/client/src/client.ts do with a frame.
use mathlib.Core.List.{append-nil}
use vicoop_bridge.Prelude.{
  ℕ, ◌+◌, ◌≡◌, ◌<◌, ◌∙◌, sym, ap, subst, refl, ◌⊎◌, inl, inr, String, true, false, Option, some,
  List, [], ◌∷◌, ◌++◌, map, arith, keep, All, leb, if◌then◌else◌, ==_self, nat_eq, string_eq,
  option_eq, if_else, option_at, if_both, option_both,
}
use vicoop_bridge.Protocol.{UpFrame}
use vicoop_bridge.Client.State.{
  Client, PendingFrame, SocketCall, send, call_socket, open_socket, pending_age_limit,
  pending_retention_enabled, write_run,
}
use vicoop_bridge.Client.Pending.{
  number_frame, task_of, exceeds, retain, transmit, count_seq, ready_on, schedule_pending_expiry,
  expire_each, distinct, expired_executions, expire_pending_frames, fail_reliable_run,
  remove_pending_execution, disconnect_if, release_run, stop_run,
}
use vicoop_bridge.Client.Pending.Sending.{
  send_task_frame, send_numbered, send_reliable_failure_and_disconnect, new_entry, retain_if_on,
  flush_each, flush_pending_frames,
}
use vicoop_bridge.Client.Retained.{numbers, numbers-remove}

-- The retained frames, as the calls that send them again
abbrev pub resent : List PendingFrame → List SocketCall
resent es = map (λ (e : PendingFrame). send e.encoded) es

resent-append :
    (cs : List SocketCall) (c : SocketCall) (ds : List SocketCall)
    → (cs ++ c ∷ []) ++ ds ≡ cs ++ c ∷ ds
resent-append [] c ds = refl
resent-append (b ∷ cs) c ds = ap (λ ws. b ∷ ws) (resent-append cs c ds)

abbrev pub Fits : Client → PendingFrame → Type 0
Fits s e = exceeds s.max_frame_bytes e.bytes ≡ false

abbrev pub IsUnexpired : Client → PendingFrame → Type 0
IsUnexpired s e = s.now < e.created_at + pending_age_limit s

expired_executions-none :
    (s : Client) (es : List PendingFrame)
    → All (IsUnexpired s) es
    → keep (λ e. leb (e.created_at + pending_age_limit s) s.now) es ≡ []
expired_executions-none s [] h = refl
expired_executions-none s (e ∷ es) h = ground (arith, expired_executions-none s es h.1, h.0)

-- Where nothing has expired, at most the timer is set again.
pub expire_pending_frames-none {ℓ} :
    (Q : Client → Type ℓ) (s : Client)
    → All (IsUnexpired s) s.pending
    → Q s
    → Q (schedule_pending_expiry s)
    → Q (expire_pending_frames s)
unfolding expire_pending_frames expire_each distinct
expire_pending_frames-none Q s h on_same on_set =
    if_both Q _ {t = schedule_pending_expiry (expire_each s (distinct (expired_executions s)))}
      on_same (subst (λ z. Q (schedule_pending_expiry z)) (sym same) on_set)
  where
    same : expire_each s (distinct (expired_executions s)) ≡ s
    same =
        ap (λ es. expire_each s (distinct (map (λ (e : PendingFrame). e.execution_id) es)))
          (expired_executions-none s s.pending h)

module _ (byte_length : UpFrame → ℕ) where
  flush_each-resent :
      (s : Client) (w : ℕ) (es : List PendingFrame)
      → All (Fits s) es
      → ((flush_each byte_length s w es).calls w ≡ s.calls w ++ resent es)
        × ((flush_each byte_length s w es).pending ≡ s.pending)
  unfolding flush_each
  flush_each-resent s w [] h = (sym (append-nil (s.calls w)), refl)
  flush_each-resent s w (e ∷ es) h =
      let rest = flush_each-resent (call_socket s w (send e.encoded)) w es h.1 in
      rw h.0
        (rest.0 ∙ rw (==_self w) (resent-append (s.calls w) (send e.encoded) (resent es)), rest.1)

  abbrev pub IsResent : Client → ℕ → Client → Type 0
  IsResent s w z = (z.calls w ≡ s.calls w ++ resent s.pending) × (z.pending ≡ s.pending)

  flush_ready-IsResent :
      (s : Client) (w : ℕ)
      → ready_on s w ≡ true
      → All (Fits s) s.pending
      → IsResent s w (if ready_on s w then flush_each byte_length s w s.pending else s)
  flush_ready-IsResent s w ready fits = rw ready (flush_each-resent s w s.pending fits)

  -- On an open connection that is ready for a replay, a flush sends every retained frame again,
  -- oldest first and nothing else, and goes on retaining them, if none has expired and none is
  -- longer than the server takes.
  pub flush_pending_frames-IsResent :
      (s : Client) (w : ℕ)
      → ready_on s w ≡ true
      → All (IsUnexpired s) s.pending
      → All (Fits s) s.pending
      → IsResent s w (flush_pending_frames byte_length s w)
  unfolding flush_pending_frames schedule_pending_expiry
  flush_pending_frames-IsResent s w ready unexpired fits =
      subst
        (λ b. IsResent s w (
          if b
          then (let s1 = expire_pending_frames s in
              if ready_on s1 w then flush_each byte_length s1 w s1.pending else s1)
          else s))
        (sym ready)
        (expire_pending_frames-none
          (λ z. IsResent s w (if ready_on z w then flush_each byte_length z w z.pending else z)) s
          unexpired (flush_ready-IsResent s w ready fits)
          (flush_ready-IsResent (schedule_pending_expiry s) w ready fits))

  -- The frame that a run sends next.
  abbrev pub next_frame : Client → ℕ → String → UpFrame → UpFrame
  next_frame s r x f = number_frame f x (s.runs r).next_seq

  abbrev pub next_entry : Client → ℕ → String → UpFrame → PendingFrame
  next_entry s r x f =
      new_entry byte_length s (task_of f) x (s.runs r).next_seq (next_frame s r x f)

  -- A frame of a run of `x` is retained as the last one, or its run has failed.
  abbrev pub IsKeptOrFailed : Client → ℕ → String → UpFrame → Client → Type 0
  IsKeptOrFailed s r x f z =
      (z.pending ≡ s.pending ++ next_entry s r x f ∷ [])
      ⊎ ((z.runs r).suppressed ≡ true) × (numbers x z.pending ≡ [])

  module _ (s : Client) (r : ℕ) (x : String) (f : UpFrame) where
    abbrev IsFailed : Client → Type 0
    IsFailed z = ((z.runs r).suppressed ≡ true) × (numbers x z.pending ≡ [])

    abbrev IsAppended : Client → Type 0
    IsAppended z = z.pending ≡ s.pending ++ next_entry s r x f ∷ []

    fail_reliable_run-IsFailed :
        (s.runs r).suppressed ≡ false
        → (s.runs r).execution_id ≡ some x
        → IsFailed (fail_reliable_run (count_seq s r) r false)
    unfolding fail_reliable_run disconnect_if remove_pending_execution schedule_pending_expiry
    fail_reliable_run-IsFailed live own =
        if_else (λ z. IsFailed z) (c.runs r).suppressed c (ground (arith, ==_self r, live))
          (disconnected (release_run stopped (c.runs r).execution_id) released)
      where
        disconnected : (z : Client) → IsFailed z → IsFailed (disconnect_if false z)
        disconnected z h = option_both (λ y. IsFailed y) (open_socket z) h λ w e. h

        c : Client
        c = count_seq s r

        stopped : Client
        stopped = write_run c r (stop_run (c.runs r))

        release_own :
            (z : Client) (o : Option String)
            → o ≡ some x
            → ((z.runs r).suppressed ≡ true)
            → IsFailed (release_run z o)
        release_own z o e quiet =
            subst (λ o. IsFailed (release_run z o)) (sym e)
              (quiet, rw (numbers-remove x x z.pending, ==_self x) refl)

        released : IsFailed (release_run stopped (c.runs r).execution_id)
        released =
            release_own stopped (c.runs r).execution_id (ground (arith, ==_self r, own))
              (ground (arith, ==_self r))

    sent_numbered :
        (s.runs r).suppressed ≡ false
        → (s.runs r).execution_id ≡ some x
        → pending_retention_enabled s ≡ true
        → IsKeptOrFailed s r x f (
            send_numbered byte_length
              (count_seq s r)
              r
              (task_of f)
              x
              (s.runs r).next_seq
              (next_frame s r x f))
    unfolding send_numbered send_reliable_failure_and_disconnect transmit retain
        schedule_pending_expiry
    sent_numbered live own on =
        if_both (λ (z : Client). IsKeptOrFailed s r x f z) _
          (inr (
            option_both (λ z. IsFailed z) (open_socket failed) (fail_reliable_run-IsFailed live own)
              λ w e.
                if_both (λ z. IsFailed z) _ (fail_reliable_run-IsFailed live own)
                  (fail_reliable_run-IsFailed live own)))
          (inl (
            option_both (λ (z : Client). IsAppended z) (open_socket kept) appended
              λ w e. if_both (λ (z : Client). IsAppended z) kept.replay_ready appended appended))
      where
        failed : Client
        failed = fail_reliable_run (count_seq s r) r false

        kept : Client
        kept = retain_if_on (count_seq s r) (next_entry s r x f)

        appended : IsAppended kept
        appended = rw on refl

    -- Where frames are retained, a frame that a run of an execution sends, while it is not
    -- suppressed, is never lost silently: either it is retained, as the last one and with the run's
    -- next number, or the run is suppressed and nothing is retained of its execution.
    pub send_task_frame-kept :
        (s.runs r).suppressed ≡ false
        → (s.runs r).execution_id ≡ some x
        → pending_retention_enabled s ≡ true
        → IsKeptOrFailed s r x f (send_task_frame byte_length s r f)
    unfolding send_task_frame
    send_task_frame-kept live own on =
        if_else (λ z. IsKeptOrFailed s r x f z) (s.runs r).suppressed s live
          (option_at (λ z. IsKeptOrFailed s r x f z) (s.runs r).execution_id _ _ own
            (sent_numbered live own on))
