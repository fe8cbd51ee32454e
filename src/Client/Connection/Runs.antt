-- ===== src/Client/Connection/Runs.antt =====
-- The runs of packages/client/src/client.ts: their start, their cancellation and their end.
use vicoop_bridge.Prelude.{
  ℕ, ◌+◌, String, Bool, true, false, not, ◌&&◌, Option, none, some, List, [], ◌∷◌, ◌==◌, string_eq,
  nat_eq, option_eq, if◌then◌else◌, is_some, lookup, insert, remove, values,
}
use vicoop_bridge.Protocol.{UpFrame}
use vicoop_bridge.Client.State.{Client, ClientRun, write_run, pending_retention_enabled}
use vicoop_bridge.Client.Pending.{release_run, stop_run, remove_pending_execution}
use vicoop_bridge.Client.Pending.Sending.{send_task_frame}

abbrev pub stop_at : Client → ℕ → Client
stop_at s r = write_run s r (stop_run (s.runs r))

unfoldable pub abort_each : Client → List ℕ → Client
abort_each s [] = s
abort_each s (r ∷ rest) = abort_each (stop_at s r) rest

unfoldable pub abort_runs : Client → Client
unfolding abort_each values
abort_runs s = abort_each s (values s.inflight)

-- Does a run keep its frames for the next connection?
abbrev pub is_retained : Client → ℕ → Bool
is_retained s r = is_some (s.runs r).execution_id && pending_retention_enabled s

unfoldable pub abort_unretained_each : Client → List ℕ → Client
abort_unretained_each s [] = s
abort_unretained_each s (r ∷ rest) =
    abort_unretained_each (if is_retained s r then s else stop_at s r) rest

unfoldable pub abort_unretained_runs : Client → Client
unfolding abort_unretained_each values
abort_unretained_runs s = abort_unretained_each s (values s.inflight)

abbrev pub new_run : Option String → ClientRun
new_run execution_id = record {
  aborted = false;
  suppressed = false;
  execution_id = execution_id;
  next_seq = 0;
}

-- The run that an assignment displaces.
unfoldable pub displace_run : Client → Option ℕ → Client
unfolding remove_pending_execution
displace_run s none = s
displace_run s (some r) = release_run (stop_at s r) (s.runs r).execution_id

-- The part of `runTask` before it waits for the backend.
unfoldable pub begin_run : Client → (task_id : String) (execution_id : Option String) → Client
unfolding displace_run lookup insert
begin_run s task_id execution_id =
    let s1 = displace_run s (lookup task_id s.inflight) in
    let r = s1.next_run in
    record (write_run s1 r (new_run execution_id)) {
      next_run = r + 1;
      inflight = insert task_id r s1.inflight;
    }

-- The last part: the table forgets the run, unless another one has taken its place.
unfoldable pub end_run : Client → (task_id : String) → ℕ → Client
unfolding lookup remove
end_run s task_id r =
    if lookup task_id s.inflight == some r
    then record s { inflight = remove task_id s.inflight }
    else s

-- A frame that the backend emits.
unfoldable pub emit_frame : (UpFrame → ℕ) → Client → ℕ → UpFrame → Client
unfolding send_task_frame
emit_frame byte_length s r f =
    if (s.runs r).suppressed then s else send_task_frame byte_length s r f

-- A cancellation of an execution also gives up its frames; one without an execution only aborts.
abbrev pub cancel_run : Client → ℕ → Option String → Client
cancel_run s r none = write_run s r (record (s.runs r) { aborted = true })
cancel_run s r (some x) = remove_pending_execution (stop_at s r) x

unfoldable pub cancel_task : Client → (task_id : String) (execution_id : Option String) → Client
unfolding lookup remove_pending_execution
cancel_task s task_id execution_id = elim (lookup task_id s.inflight) [
  | none ↦ s
  | some r ↦
      if is_some execution_id && not (execution_id == (s.runs r).execution_id)
      then s
      else cancel_run s r execution_id
]
