-- ===== src/Client/Pending.antt =====
-- The replay buffer of packages/client/src/client.ts: frames that the server has not acknowledged
-- stay until it has, or until a limit is met, which ends their execution.
pub mod Sending
use vicoop_bridge.Prelude.{
  ℕ, ◌+◌, ◌-◌, max, String, Bool, true, false, not, ◌&&◌, ◌||◌, Option, none, some, List, [], ◌∷◌,
  ◌++◌, ◌==◌, string_eq, ltb, leb, if◌then◌else◌, length, keep, map, find_first, includes, values,
  is_some, option_eq,
}
use vicoop_bridge.Protocol.{
  UpFrame, hello, approval_request, approval_received, task_status, task_artifact, task_complete,
  task_fail, pong, usage_response, TaskRef,
}
use vicoop_bridge.Client.State.{
  Client, ClientRun, PendingFrame, SocketCall, send, send_and_terminate, pending_frame_limit,
  pending_byte_limit, pending_age_limit, pending_retention_enabled, write_run, call_socket,
  terminate_socket, open_socket,
}

abbrev pub sum_bytes : List PendingFrame → ℕ
sum_bytes [] = 0
sum_bytes (e ∷ rest) = e.bytes + sum_bytes rest

-- `{ ...frame, executionId, seq }`
abbrev readdress : TaskRef → String → ℕ → TaskRef
readdress f x n = record f { execution_id = some x; seq = some n }

unfoldable pub number_frame : UpFrame → String → ℕ → UpFrame
number_frame (approval_request f q) x n = approval_request (readdress f x n) q
number_frame (approval_received f id d) x n = approval_received (readdress f x n) id d
number_frame (task_status f w m) x n = task_status (readdress f x n) w m
number_frame (task_artifact f a b c) x n = task_artifact (readdress f x n) a b c
number_frame (task_complete f w u) x n = task_complete (readdress f x n) w u
number_frame (task_fail f e) x n = task_fail (readdress f x n) e
number_frame (hello f) x n = hello f
number_frame pong x n = pong
number_frame (usage_response id) x n = usage_response id

-- `frame.taskId` of a task frame
unfoldable pub task_of : UpFrame → String
task_of (approval_request f q) = f.task_id
task_of (approval_received f id d) = f.task_id
task_of (task_status f w m) = f.task_id
task_of (task_artifact f a b c) = f.task_id
task_of (task_complete f w u) = f.task_id
task_of (task_fail f e) = f.task_id
task_of _ = ""

unfoldable pub schedule_pending_expiry : Client → Client
schedule_pending_expiry s = record s {
  expiry_timer = elim s.pending [
    | [] ↦ none
    | oldest ∷ _ ↦
        if leb (pending_age_limit s) 0
        then none
        else some (max s.now (oldest.created_at + pending_age_limit s))
  ];
}

-- Keep the entries that pass, and take the bytes of the others off the count.
abbrev pub keep_pending : (PendingFrame → Bool) → Client → Client
keep_pending p s = schedule_pending_expiry (record s {
  pending = keep p s.pending;
  pending_bytes = s.pending_bytes - sum_bytes (keep (λ e. not (p e)) s.pending);
})

unfoldable pub remove_pending_execution : Client → String → Client
unfolding schedule_pending_expiry
remove_pending_execution s x = keep_pending (λ e. not (e.execution_id == x)) s

unfoldable pub acknowledge_frames : Client → String → ℕ → Client
unfolding schedule_pending_expiry
acknowledge_frames s x accepted =
    keep_pending (λ e. not (e.execution_id == x) || ltb accepted e.seq) s

unfoldable pub drop_pending_frames : Client → Client
drop_pending_frames s = record s { expiry_timer = none; pending = []; pending_bytes = 0 }

abbrev pub stop_run : ClientRun → ClientRun
stop_run run = record run { suppressed = true; aborted = true }

-- `if (disconnect && this.ws?.readyState === WebSocket.OPEN) this.ws.terminate()`
unfoldable pub disconnect_if : Bool → Client → Client
disconnect_if disconnect s = elim (open_socket s) [
  | none ↦ s
  | some w ↦ if disconnect then terminate_socket s w else s
]

abbrev pub release_run : Client → Option String → Client
release_run s none = s
release_run s (some x) = remove_pending_execution s x

unfoldable pub fail_reliable_run : Client → ℕ → (disconnect : Bool) → Client
unfolding remove_pending_execution disconnect_if
fail_reliable_run s r disconnect =
    if (s.runs r).suppressed
    then s
    else disconnect_if disconnect
        (release_run (write_run s r (stop_run (s.runs r))) (s.runs r).execution_id)

abbrev pub exceeds : Option ℕ → ℕ → Bool
exceeds none bytes = false
exceeds (some limit) bytes = ltb limit bytes

unfoldable pub retain : Client → PendingFrame → Client
unfolding schedule_pending_expiry
retain s e =
    schedule_pending_expiry
      (record s { pending = s.pending ++ e ∷ []; pending_bytes = s.pending_bytes + e.bytes })

-- A frame goes out at once only on a connection that is ready for it.
unfoldable pub transmit : Client → UpFrame → Client
transmit s f = elim (open_socket s) [
  | none ↦ s
  | some w ↦ if s.replay_ready then call_socket s w (send f) else s
]

-- `this.send(frame)`
unfoldable pub send_frame : Client → UpFrame → Client
send_frame s f = elim (open_socket s) [ none ↦ s | some w ↦ call_socket s w (send f) ]

-- `run.nextSeq++`
abbrev pub count_seq : Client → ℕ → Client
count_seq s r = write_run s r (record (s.runs r) { next_seq = (s.runs r).next_seq + 1 })

-- The run that is in flight for an execution.
unfoldable pub run_of : Client → String → Option ℕ
run_of s x = find_first (λ r. (s.runs r).execution_id == some x) (values s.inflight)

-- One round of `expirePendingFrames`.
unfoldable pub expire_execution : Client → String → Client
unfolding run_of fail_reliable_run remove_pending_execution disconnect_if
expire_execution s x = elim (run_of s x) [
  | some r ↦ fail_reliable_run s r (is_some (open_socket s))
  | none ↦ disconnect_if true (remove_pending_execution s x)
]

unfoldable pub expire_each : Client → List String → Client
unfolding expire_execution
expire_each s [] = s
expire_each s (x ∷ rest) = expire_each (expire_execution s x) rest

-- `new Set(...)`, in the order of insertion
unfoldable pub distinct : List String → List String
distinct [] = []
distinct (x ∷ rest) = x ∷ keep (λ y. not (y == x)) (distinct rest)

-- `Date.now() - ageLimit` may be negative, so the test has the limit on the other side.
abbrev pub expired_executions : Client → List String
expired_executions s =
    map (λ (e : PendingFrame). e.execution_id)
      (keep (λ e. leb (e.created_at + pending_age_limit s) s.now) s.pending)

unfoldable pub expire_pending_frames : Client → Client
unfolding expire_each distinct schedule_pending_expiry
expire_pending_frames s =
    if leb (pending_age_limit s) 0 || leb (length s.pending) 0
    then s
    else schedule_pending_expiry (expire_each s (distinct (expired_executions s)))

abbrev pub ready_on : Client → ℕ → Bool
ready_on s w = s.replay_ready && s.is_open w

-- The timer of `schedulePendingExpiry`.
unfoldable pub on_expiry_timer : Client → Client
unfolding expire_pending_frames
on_expiry_timer s = elim s.expiry_timer [
  | none ↦ s
  | some due ↦ if leb due s.now then expire_pending_frames (record s { expiry_timer = none }) else s
]
