-- ===== src/Client/Closing.antt =====
-- The ends of a connection, in packages/client/src/client.ts: `stop` and the closing of a socket.
pub mod Back
use vicoop_bridge.Prelude.{
  ℕ, ◌+◌, ◌≡◌, ◌≤◌, refl, sym, ap, subst, max, String, Bool, true, false, not, ◌||◌, Option, none,
  some, List, [], ◌∷◌, ◌∙◌, Dict, ◌==◌, nat_eq, option_eq, string_eq, arith, All, is_some, get_or,
  length, values, ==_iff, ==_self, if◌then◌else◌, if_both, if_else, if_then, option_at, option_both,
  if_cases, ◌⊎◌, inl, inr, leb,
}
use vicoop_bridge.Client.State.{
  Client, ClientRun, PendingFrame, end_socket, close, open_socket, write_run, pending_age_limit,
}
use vicoop_bridge.Client.Pending.{
  drop_pending_frames, on_expiry_timer, disconnect_if, release_run, remove_pending_execution,
  schedule_pending_expiry, fail_reliable_run, run_of, expire_execution, expire_each,
  expire_pending_frames, stop_run, distinct, expired_executions,
}
use vicoop_bridge.Client.Connection.{
  stop, without_socket, lose_socket, give_up, schedule_reconnect, on_close, on_reconnect_timer,
  connect,
}
use vicoop_bridge.Client.Connection.Runs.{
  stop_at, abort_each, abort_runs, abort_unretained_each, abort_unretained_runs, is_retained,
}

abbrev IsStoppedRun : (ℕ → ClientRun) → ℕ → Type 0
IsStoppedRun runs r = ((runs r).suppressed ≡ true) × ((runs r).aborted ≡ true)

abort_each-stays :
    (s : Client) (rs : List ℕ) (r : ℕ)
    → IsStoppedRun s.runs r
    → IsStoppedRun (abort_each s rs).runs r
unfolding abort_each
abort_each-stays s [] r h = h
abort_each-stays s (q ∷ rs) r h =
    abort_each-stays (stop_at s q) rs r
      (ground (arith, ==_iff q r, h.0), ground (arith, ==_iff q r, h.1))

abort_each-All : (s : Client) (rs : List ℕ) → All (IsStoppedRun (abort_each s rs).runs) rs
unfolding abort_each
abort_each-All s [] = tt
abort_each-All s (r ∷ rs) = (
  abort_each-stays (stop_at s r) rs r (rw (==_self r) refl, rw (==_self r) refl),
  abort_each-All (stop_at s r) rs,
)

-- What aborting runs leaves alone
abbrev Rest : Type 0
Rest = Dict String ℕ × Bool × Option ℕ × Option ℕ × ℕ × List PendingFrame × Option ℕ

abbrev rest_of : Client → Rest
rest_of s = (s.inflight, s.stopped, s.ws, s.reconnect_timer, s.now, s.pending, s.expiry_timer)

abort_each-rest_of : (s : Client) (rs : List ℕ) → rest_of (abort_each s rs) ≡ rest_of s
unfolding abort_each
abort_each-rest_of s [] = refl
abort_each-rest_of s (r ∷ rs) = abort_each-rest_of (stop_at s r) rs

abort_unretained_each-rest_of :
    (s : Client) (rs : List ℕ) → rest_of (abort_unretained_each s rs) ≡ rest_of s
unfolding abort_unretained_each
abort_unretained_each-rest_of s [] = refl
abort_unretained_each-rest_of s (r ∷ rs) =
    abort_unretained_each-rest_of (if is_retained s r then s else stop_at s r) rs
    ∙ if_both (λ (z : Client). rest_of z ≡ rest_of s) (is_retained s r) refl refl

-- A client that is stopped for good: it does not reconnect, keeps no frame, and every run that it
-- has in flight is aborted and suppressed.
pub record IsDone (s : Client) : Type 0 where
  pub is_stopped : s.stopped ≡ true
  pub no_reconnect : s.reconnect_timer ≡ none
  pub no_pending : (s.pending ≡ []) × (s.pending_bytes ≡ 0) × (s.expiry_timer ≡ none)
  pub no_run : All (IsStoppedRun s.runs) (values s.inflight)

-- Runs are aborted in a client that is otherwise at its end.
abort_runs-IsDone :
    (s : Client)
    → s.stopped ≡ true
    → s.reconnect_timer ≡ none
    → IsDone (drop_pending_frames (abort_runs s))
unfolding abort_runs drop_pending_frames
abort_runs-IsDone s halted quiet =
    let same = abort_each-rest_of s (values s.inflight) in
    record {
      is_stopped = ap (λ v. v.1) same ∙ halted;
      no_reconnect = ap (λ v. v.3) same ∙ quiet;
      no_pending = (refl, refl, refl);
      no_run =
          subst (λ m. All (IsStoppedRun (abort_each s (values s.inflight)).runs) (values m))
            (sym (ap (λ v. v.0) same)) (abort_each-All s (values s.inflight));
    }

-- After `stop`, the client does not reconnect, retains no frame, and every run in flight is aborted
-- and suppressed.
pub stop-IsDone : (s : Client) → IsDone (stop s)
unfolding stop
stop-IsDone s = option_both (λ (z : Client). IsDone z) stopped.ws done λ w e. ended stopped w done
  where
    stopping : Client
    stopping = record s {
      stopped = true;
      reconnect_timer = none;
      reset_timer = none;
      heartbeat = none;
      awaiting_pong = false;
    }

    stopped : Client
    stopped = drop_pending_frames (abort_runs stopping)

    ended : (z : Client) (w : ℕ) → IsDone z → IsDone (end_socket z w close)
    ended z w h = record {
      is_stopped = h.is_stopped;
      no_reconnect = h.no_reconnect;
      no_pending = h.no_pending;
      no_run = h.no_run;
    }

    done : IsDone stopped
    done = abort_runs-IsDone stopping refl refl

lose_socket-rest_of : (s : Client) → rest_of (lose_socket s) ≡ rest_of (without_socket s)
unfolding lose_socket abort_unretained_runs
lose_socket-rest_of s = abort_unretained_each-rest_of (without_socket s) (values s.inflight)

give_up-IsDone : (s : Client) (code : ℕ) → IsDone (give_up s code)
unfolding give_up
give_up-IsDone s code =
    let done = abort_runs-IsDone (record s { stopped = true; reconnect_timer = none }) refl refl in
    record {
      is_stopped = done.is_stopped;
      no_reconnect = done.no_reconnect;
      no_pending = done.no_pending;
      no_run = done.no_run;
    }

-- Does this code say that the server will not have the client again?
abbrev pub is_final : ℕ → Bool
is_final code = code == 4014 || code == 4005

-- When the current socket closes because the client was deleted or its token refused, the client is
-- stopped without a reconnect, retains no frame, every run in flight is aborted and suppressed, and
-- `onFatal` is told the code.
pub on_close-IsDone :
    (s : Client) (w code computed : ℕ)
    → s.ws ≡ some w
    → is_final code ≡ true
    → IsDone (on_close s w code computed) × ((on_close s w code computed).fatal ≡ some code)
unfolding on_close
on_close-IsDone s w code computed current final =
    if_else (λ (z : Client). IsDone z × (z.fatal ≡ some code)) (not (s.ws == some w)) s
      (ground (arith, ==_iff s.ws (some w), current))
      (if_then (λ (z : Client). IsDone z × (z.fatal ≡ some code)) (is_final code) _ final
        (give_up-IsDone (lose_socket s) code, refl))
