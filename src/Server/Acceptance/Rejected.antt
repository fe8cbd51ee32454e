-- ===== src/Server/Acceptance/Rejected.antt =====
-- What becomes of the frames of a replay-capable execution that come out of order
-- (packages/server/src/ws.ts).
use vicoop_bridge.Prelude.{
  ℕ, ◌-◌, ◌≡◌, ◌<◌, ◌++◌, [], ◌∷◌, List, refl, sym, String, true, none, some, arith, get_or, lookup,
  remove, lookup-remove, ==_self, string_eq, nat_eq, option_eq, if◌then◌else◌,
}
use vicoop_bridge.Protocol.{TaskRef, DownFrame}
use vicoop_bridge.Server.State.{
  Registry, TerminalError, call_sink, SinkCall, push_status, push_artifact, finish, send, call_ws,
}
use vicoop_bridge.Server.Approvals.{set_approvals, invalidate}
use vicoop_bridge.Server.Registry.{
  fail_binding, terminal_event, clear_grace_hold, fail_task_binding, resume_binding,
}
use vicoop_bridge.Server.Registry.Sound.{is_finished, IsSound}
use vicoop_bridge.Server.Acceptance.{
  Peer, handled, accept_task_frame, acknowledge, fail_closed, gap_message,
}
use vicoop_bridge.Server.Acceptance.Preservation.{send_to_agent-SameTables}
use vicoop_bridge.Server.Acceptance.Once.{IsOfExecution, stale_frame, gap_frame}

is_finished-finish : (xs : List SinkCall) → is_finished (xs ++ finish ∷ []) ≡ true
is_finished-finish [] = refl
is_finished-finish (finish ∷ xs) = refl
is_finished-finish (push_status _ ∷ xs) = is_finished-finish xs
is_finished-finish (push_artifact _ ∷ xs) = is_finished-finish xs

call_sink-finish : (s : Registry) (r : ℕ) → is_finished ((call_sink s r finish).heap r).sink ≡ true
unfolding call_sink
call_sink-finish s r = rw (==_self r) (is_finished-finish (s.heap r).sink)

fail_binding-finished :
    (s : Registry) (r : ℕ) (e : TerminalError)
    → is_finished ((fail_binding s r e).heap r).sink ≡ true
unfolding fail_binding
fail_binding-finished s r e =
    let s1 : Registry = set_approvals s (invalidate (s.heap r) s.approvals) in
    call_sink-finish (call_sink s1 r (push_status (terminal_event s1 r e))) r

-- What is left of a registry once a bound execution has been failed.
failed_state : Registry → ℕ → (code message : String) → Registry
failed_state s r code message =
    let s1 : Registry =
      fail_binding (clear_grace_hold s (s.heap r).task_id r) r
        (record { code = code; message = message; message_id_suffix = code }) in
    record s1 { bindings = remove (s.heap r).task_id s1.bindings }

fail_task_binding-bound :
    (s : Registry) (r : ℕ) (code message : String)
    → lookup (s.heap r).task_id s.bindings ≡ some r
    → fail_task_binding s r code message ≡ failed_state s r code message
unfolding fail_task_binding failed_state
fail_task_binding-bound s r code message b = rw (b, fail_task_binding) (rw (==_self (some r)))

failed_state-ends :
    (s : Registry) (r : ℕ) (code message : String)
    → (is_finished ((failed_state s r code message).heap r).sink ≡ true)
      × (lookup (s.heap r).task_id (failed_state s r code message).bindings ≡ none)
unfolding failed_state
failed_state-ends s r code message = (
  fail_binding-finished (clear_grace_hold s (s.heap r).task_id r) r
      (record { code = code; message = message; message_id_suffix = code }),
  rw lookup-remove (rw (==_self (s.heap r).task_id)),
)

fail_task_binding-ends :
    (s : Registry) (r : ℕ) (code message : String)
    → lookup (s.heap r).task_id s.bindings ≡ some r
    → (is_finished ((fail_task_binding s r code message).heap r).sink ≡ true)
      × (lookup (s.heap r).task_id (fail_task_binding s r code message).bindings ≡ none)
fail_task_binding-ends s r code message b =
    rw (fail_task_binding-bound s r code message b) (failed_state-ends s r code message)

fail_closed-ends :
    (s : Registry) (r : ℕ) (code message : String)
    → lookup (s.heap r).task_id s.bindings ≡ some r
    → ((fail_closed s r code message).1 ≡ handled)
      × (is_finished ((fail_closed s r code message).0.heap r).sink ≡ true)
      × (lookup (s.heap r).task_id (fail_closed s r code message).0.bindings ≡ none)
unfolding fail_closed
fail_closed-ends s r code message b =
    let s1 : Registry = fail_task_binding s r code message in
    let (finished, released) = fail_task_binding-ends s r code message b in
    let same =
      send_to_agent-SameTables s1 (s1.heap r).agent_id
        (DownFrame.task_cancel (s1.heap r).task_id (s1.heap r).execution_id) in
    (refl, rw same.heap finished, rw same.bindings released)

-- In a sound registry, a frame of the current execution, from the agent that owns its binding,
-- whose number is above the one expected, is not accepted: the stream of the binding is closed and
-- its task id is released.
pub accept_task_frame-gap :
    (p : Peer) (s : Registry) (f : TaskRef) (r : ℕ) (x : String) (n : ℕ)
    → IsSound s
    → IsOfExecution p s f r x n
    → get_or (s.heap r).next_client_seq 0 < n
    → ((accept_task_frame p s f).1 ≡ handled)
      × (is_finished ((accept_task_frame p s f).0.heap r).sink ≡ true)
      × (lookup f.task_id (accept_task_frame p s f).0.bindings ≡ none)
accept_task_frame-gap p s f r x n v h lt =
    let k = v.keyed f.task_id r h.bound in
    rw (gap_frame p s f r x n h lt) (
      rw (sym k) (
        fail_closed-ends s r "client_frame_gap"
          (gap_message (get_or (s.heap r).next_client_seq 0) n) (rw k h.bound)))

-- A frame of the current execution, from the agent that owns its binding, whose number was counted
-- before, changes no object and no binding; if the socket is open, the last counted number is
-- acknowledged again, and nothing else is sent.
pub accept_task_frame-stale :
    (p : Peer) (s : Registry) (f : TaskRef) (r : ℕ) (x : String) (n m : ℕ)
    → IsOfExecution p s f r x n
    → (s.heap r).next_client_seq ≡ some m
    → n < m
    → let (s', result) = accept_task_frame p s f in
      (result ≡ handled)
      × (s'.heap ≡ s.heap)
      × (s'.bindings ≡ s.bindings)
      × (s'.wire ≡ (
          if p.is_open
          then (call_ws s p.ws (send (DownFrame.task_ack (s.heap r).task_id x (m - 1)))).wire
          else s.wire))
unfolding acknowledge resume_binding
accept_task_frame-stale p s f r x n m h e lt =
    let before : n < get_or (s.heap r).next_client_seq 0 = ground arith in
    rw (stale_frame p s f r x n h before) (rw (h.replayable, acknowledge) (rw e (ground arith)))
