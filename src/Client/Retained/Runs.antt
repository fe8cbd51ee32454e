-- ===== src/Client/Retained/Runs.antt =====
-- The starts and the ends of runs, in packages/client/src/client.ts, keep the invariant of the
-- replay buffer.
use vicoop_bridge.Prelude.{
  ℕ, ◌≡◌, ◌≢◌, String, true, Option, none, some, List, [], ◌∷◌, ◌==◌, string_eq, nat_eq, option_eq,
  arith, refl, ==_iff, option_both, if_both, lookup, values, if◌then◌else◌,
}
use vicoop_bridge.Protocol.{UpFrame}
use vicoop_bridge.Client.State.{Client}
use vicoop_bridge.Client.Pending.{
  remove_pending_execution, schedule_pending_expiry, stop_run, release_run,
}
use vicoop_bridge.Client.Connection.Runs.{
  stop_at, abort_each, abort_runs, is_retained, abort_unretained_each, abort_unretained_runs,
  new_run, displace_run, begin_run, end_run, emit_frame, cancel_run, cancel_task,
}
use vicoop_bridge.Client.Retained.{IsRetained, numbers, numbers-remove}
use vicoop_bridge.Client.Retained.Laws.{new-Retains}
use vicoop_bridge.Client.Retained.Buffer.{
  write_run-IsRetained, remove_pending_execution-IsRetained, release_run-IsRetained,
}
use vicoop_bridge.Client.Retained.Sending.{send_task_frame-IsRetained}

pub stop_at-IsRetained : (s : Client) (r : ℕ) → IsRetained s → IsRetained (stop_at s r)
stop_at-IsRetained s r v = write_run-IsRetained s r (stop_run (s.runs r)) refl refl v

abort_each-IsRetained : (s : Client) (rs : List ℕ) → IsRetained s → IsRetained (abort_each s rs)
unfolding abort_each
abort_each-IsRetained s [] v = v
abort_each-IsRetained s (r ∷ rest) v =
    abort_each-IsRetained (stop_at s r) rest (stop_at-IsRetained s r v)

pub abort_runs-IsRetained : (s : Client) → IsRetained s → IsRetained (abort_runs s)
unfolding abort_runs
abort_runs-IsRetained s v = abort_each-IsRetained s (values s.inflight) v

abort_unretained_each-IsRetained :
    (s : Client) (rs : List ℕ) → IsRetained s → IsRetained (abort_unretained_each s rs)
unfolding abort_unretained_each
abort_unretained_each-IsRetained s [] v = v
abort_unretained_each-IsRetained s (r ∷ rest) v =
    abort_unretained_each-IsRetained (if is_retained s r then s else stop_at s r) rest
      (if_both (λ (z : Client). IsRetained z) (is_retained s r) v (stop_at-IsRetained s r v))

pub abort_unretained_runs-IsRetained :
    (s : Client) → IsRetained s → IsRetained (abort_unretained_runs s)
unfolding abort_unretained_runs
abort_unretained_runs-IsRetained s v = abort_unretained_each-IsRetained s (values s.inflight) v

pub emit_frame-IsRetained :
    (byte_length : UpFrame → ℕ) (s : Client) (r : ℕ) (f : UpFrame)
    → IsRetained s
    → IsRetained (emit_frame byte_length s r f)
unfolding emit_frame
emit_frame-IsRetained byte_length s r f v =
    if_both (λ (z : Client). IsRetained z) (s.runs r).suppressed v
      (send_task_frame-IsRetained byte_length s r f v)

cancel_run-IsRetained :
    (s : Client) (r : ℕ) (o : Option String) → IsRetained s → IsRetained (cancel_run s r o)
cancel_run-IsRetained s r none v =
    write_run-IsRetained s r (record (s.runs r) { aborted = true }) refl refl v
cancel_run-IsRetained s r (some x) v =
    remove_pending_execution-IsRetained (stop_at s r) x (stop_at-IsRetained s r v)

pub cancel_task-IsRetained :
    (s : Client) (t : String) (o : Option String) → IsRetained s → IsRetained (cancel_task s t o)
unfolding cancel_task
cancel_task-IsRetained s t o v =
    option_both (λ (z : Client). IsRetained z) (lookup t s.inflight) v
      λ r e. if_both (λ (z : Client). IsRetained z) _ v (cancel_run-IsRetained s r o v)

pub end_run-IsRetained :
    (s : Client) (t : String) (r : ℕ) → IsRetained s → IsRetained (end_run s t r)
unfolding end_run
end_run-IsRetained s t r v =
    if_both (λ (z : Client). IsRetained z) (lookup t s.inflight == some r) v v

-- An execution that no run has, and of which nothing is retained
abbrev pub IsFresh : Client → String → Type 0
IsFresh s x = (numbers x s.pending ≡ []) × ((r : ℕ) → (s.runs r).execution_id ≢ some x)

remove_pending_execution-IsFresh :
    (s : Client) (x y : String) → IsFresh s x → IsFresh (remove_pending_execution s y) x
unfolding remove_pending_execution schedule_pending_expiry
remove_pending_execution-IsFresh s x y h =
    (rw (numbers-remove x y s.pending, h.0) (ground arith), h.1)

stop_at-IsFresh : (s : Client) (r : ℕ) (x : String) → IsFresh s x → IsFresh (stop_at s r) x
stop_at-IsFresh s r x h = (h.0, λ q e. h.1 q (ground (arith, ==_iff r q, e)))

release_run-IsFresh :
    (s : Client) (o : Option String) (x : String) → IsFresh s x → IsFresh (release_run s o) x
release_run-IsFresh s none x h = h
release_run-IsFresh s (some y) x h = remove_pending_execution-IsFresh s x y h

displace_run-IsFresh :
    (s : Client) (o : Option ℕ) (x : String) → IsFresh s x → IsFresh (displace_run s o) x
unfolding displace_run
displace_run-IsFresh s none x h = h
displace_run-IsFresh s (some r) x h =
    release_run-IsFresh (stop_at s r) (s.runs r).execution_id x (stop_at-IsFresh s r x h)

displace_run-IsRetained : (s : Client) (o : Option ℕ) → IsRetained s → IsRetained (displace_run s o)
unfolding displace_run
displace_run-IsRetained s none v = v
displace_run-IsRetained s (some r) v =
    release_run-IsRetained (stop_at s r) (s.runs r).execution_id (stop_at-IsRetained s r v)

-- The server names no execution twice.
abbrev pub IsNew : Client → Option String → Type 0
IsNew s o = (x : String) → o ≡ some x → IsFresh s x

pub begin_run-IsRetained :
    (s : Client) (t : String) (o : Option String)
    → IsNew s o
    → IsRetained s
    → IsRetained (begin_run s t o)
unfolding begin_run
begin_run-IsRetained s t o fresh v =
    new-Retains s1.opts s1.pending s1.pending_bytes s1.runs s1.next_run (new_run o) refl
      (λ x e. displace_run-IsFresh s (lookup t s.inflight) x (fresh x e))
      (displace_run-IsRetained s (lookup t s.inflight) v)
  where
    s1 : Client
    s1 = displace_run s (lookup t s.inflight)
