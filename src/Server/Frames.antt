-- ===== src/Server/Frames.antt =====
-- `processAuthedFrame` of packages/server/src/ws.ts: what each frame of an authenticated connection
-- does to the binding that it is accepted for.
pub mod Preservation
pub mod Replay
use vicoop_bridge.Prelude.{
  ℕ, ◌+◌, ◌-◌, Bool, true, false, Option, none, some, get_or, if◌then◌else◌, lookup, includes,
  string_eq, String, ◌⧺◌, [], ◌∷◌,
}
use vicoop_bridge.Protocol.{
  Json, UpFrame, hello, approval_request, approval_received, task_status, task_artifact,
  task_complete, task_fail, pong, usage_response, TaskRef, WireStatus, Artifact, ApprovalRequest,
  ApprovalDecision, TaskUsage, WireError, DownFrame, remote_approval_capability, failed, instant,
  Role, text,
}
use vicoop_bridge.Server.State.{
  StatusEvent, TaskBinding, Registry, push_status, push_artifact, finish, close, update, call_sink,
  call_ws,
}
use vicoop_bridge.Server.TerminalError.{error_metadata, error_extensions}
use vicoop_bridge.Server.Approvals.{
  RequestResult, requested, refused, request, waiting, acknowledge_received, send_to_agent,
}
use vicoop_bridge.Server.Registry.{fail_task_binding, unbind_task, note_server_close}
use vicoop_bridge.Server.Receipts.{remember_terminal_receipt}
use vicoop_bridge.Server.WireStatus.{
  is_heartbeat_status_frame, wire_status_to_a2x, artifact_to_a2x, approval_status, decision_status,
}
use vicoop_bridge.Server.Acceptance.{
  Peer, Acceptance, accepted, handled, unknown, acknowledge, accept_task_frame,
}

abbrev write_binding : Registry → ℕ → TaskBinding → Registry
write_binding s r b = record s { heap = update s.heap r b }

-- A status that does not end the task, with the ids that the event is addressed by.
push_working : Registry → ℕ → (task_id : String) → WireStatus → Option Json → Registry
unfolding call_sink wire_status_to_a2x
push_working s r task_id status metadata = call_sink s r (
    push_status (record {
      task_id = task_id;
      context_id = (s.heap r).context_id;
      final = false;
      status = wire_status_to_a2x status task_id (s.heap r).context_id;
      metadata = metadata;
    }))

-- Does the connected client of this agent take remote approvals?
takes_approvals : Registry → String → Bool
takes_approvals s agent_id = elim (lookup agent_id s.agents) [
  | none ↦ false
  | some conn ↦ elim conn.protocol_capabilities [
    | none ↦ false
    | some caps ↦ includes caps remote_approval_capability
  ]
]

invalid_approval : Registry → ℕ → Registry
unfolding send_to_agent fail_task_binding
invalid_approval s r =
    let b = s.heap r in
    let s1 = (send_to_agent s b.agent_id (DownFrame.task_cancel b.task_id b.execution_id)).0 in
    fail_task_binding s1 r "invalid_approval_request" "Invalid remote approval request"

finish_request : Peer → Registry → ℕ → RequestResult → Registry
unfolding push_working approval_status acknowledge invalid_approval
finish_request p s r (refused _) = invalid_approval s r
finish_request p s r (requested s1 a) =
    acknowledge p (push_working s1 r (s1.heap r).task_id (approval_status s1.now a) none) r

on_approval_request : Peer → Registry → ℕ → ApprovalRequest → Registry
unfolding takes_approvals finish_request request invalid_approval
on_approval_request p s r q =
    if takes_approvals s (s.heap r).agent_id
    then finish_request p s r (request s r q)
    else invalid_approval s r

on_approval_received : Peer → Registry → ℕ → (request_id : String) → ApprovalDecision → Registry
unfolding acknowledge_received acknowledge push_working decision_status
on_approval_received p s r request_id d =
    let (s1, received) = acknowledge_received s r request_id d in
    elim received [
      | none ↦ acknowledge p s1 r
      | some a ↦
          acknowledge p
            (push_working s1 r (s1.heap r).task_id
              (decision_status s1.now request_id d a.decided_by) none)
            r
    ]

count_heartbeat : Registry → ℕ → Option Json → Registry
unfolding is_heartbeat_status_frame
count_heartbeat s r metadata =
    let b = s.heap r in
    if is_heartbeat_status_frame metadata
    then write_binding s r (record b { heartbeats = some (get_or b.heartbeats 0 + 1) })
    else s

-- While an approval waits, the task shows that instead of the backend's own status.
on_task_status : Peer → Registry → ℕ → TaskRef → WireStatus → Option Json → Registry
unfolding count_heartbeat waiting push_working approval_status acknowledge
on_task_status p s r f status metadata =
    let s1 = count_heartbeat s r metadata in
    let shown : WireStatus = elim (waiting s1.approvals (s1.heap r)) [
      | none ↦ status
      | some a ↦ approval_status s1.now a
    ] in
    acknowledge p (push_working s1 r f.task_id shown metadata) r

on_task_artifact :
    Peer → Registry → ℕ → TaskRef → Artifact → (append last_chunk : Option Bool) → Registry
unfolding artifact_to_a2x call_sink acknowledge
on_task_artifact p s r f artifact append last_chunk =
    acknowledge p
      (call_sink s r (
        push_artifact (record {
          task_id = f.task_id;
          context_id = (s.heap r).context_id;
          artifact = artifact_to_a2x artifact;
          append = append;
          last_chunk = last_chunk;
        })))
      r

-- A replay-capable execution leaves a receipt for the number that it accepted last.
keep_receipt : Registry → ℕ → Registry
unfolding remember_terminal_receipt
keep_receipt s r = record s {
  terminal_receipts = elim (s.heap r).execution_id [
    | none ↦ s.terminal_receipts
    | some _ ↦ elim (s.heap r).next_client_seq [
      | none ↦ s.terminal_receipts
      | some next ↦ (remember_terminal_receipt s r (next - 1)).terminal_receipts
    ]
  ];
}

-- The end of a terminal frame: close the stream, keep a receipt, release the task id, acknowledge.
settle : Peer → Registry → ℕ → (task_id : String) → StatusEvent → Registry
unfolding call_sink keep_receipt unbind_task acknowledge
settle p s r task_id event =
    let closed = call_sink (call_sink s r (push_status event)) r finish in
    acknowledge p (unbind_task (keep_receipt closed r) task_id r) r

on_task_complete : Peer → Registry → ℕ → TaskRef → WireStatus → Option TaskUsage → Registry
unfolding wire_status_to_a2x settle
on_task_complete p s r f status usage =
    let b = s.heap r in
    let s1 : Registry = elim usage [
      | none ↦ s
      | some u ↦ write_binding s r (record b { usage = some u })
    ] in
    settle p s1 r f.task_id (record {
      task_id = f.task_id;
      context_id = b.context_id;
      final = true;
      status = wire_status_to_a2x status f.task_id b.context_id;
      metadata = none;
    })

on_task_fail : Peer → Registry → ℕ → TaskRef → WireError → Registry
unfolding settle
on_task_fail p s r f e =
    let b = s.heap r in
    settle p s r f.task_id (record {
      task_id = f.task_id;
      context_id = b.context_id;
      final = true;
      status = record {
        state = failed;
        timestamp = some (instant s.now);
        message = some (record {
          message_id = f.task_id ⧺ "-err";
          role = Role.agent;
          parts = text (e.code ⧺ ": " ⧺ e.message) ∷ [];
          metadata = error_metadata e.code e.message b.requested_extensions;
          extensions = error_extensions b.requested_extensions;
          task_id = f.task_id;
          context_id = b.context_id;
        });
      };
      metadata = none;
    })

-- A frame that is not accepted for a binding has no further effect.
on_accepted : Registry × Acceptance → (Registry → ℕ → Registry) → Registry
on_accepted (s, accepted r) act = act s r
on_accepted (s, handled) act = s
on_accepted (s, unknown) act = s

unfoldable pub process_authed_frame : Peer → Registry → UpFrame → Registry
unfolding accept_task_frame on_accepted on_approval_request on_approval_received on_task_status
    on_task_artifact on_task_complete on_task_fail note_server_close call_ws
process_authed_frame p s (approval_request f q) =
    on_accepted (accept_task_frame p s f) λ s1 r. on_approval_request p s1 r q
process_authed_frame p s (approval_received f request_id d) =
    on_accepted (accept_task_frame p s f) λ s1 r. on_approval_received p s1 r request_id d
process_authed_frame p s (task_status f status metadata) =
    on_accepted (accept_task_frame p s f) λ s1 r. on_task_status p s1 r f status metadata
process_authed_frame p s (task_artifact f artifact append last_chunk) =
    on_accepted (accept_task_frame p s f)
      λ s1 r. on_task_artifact p s1 r f artifact append last_chunk
process_authed_frame p s (task_complete f status usage) =
    on_accepted (accept_task_frame p s f) λ s1 r. on_task_complete p s1 r f status usage
process_authed_frame p s (task_fail f e) =
    on_accepted (accept_task_frame p s f) λ s1 r. on_task_fail p s1 r f e
process_authed_frame p s (usage_response _) = s
process_authed_frame p s pong = s
process_authed_frame p s (hello _) = call_ws (note_server_close s p.ws) p.ws (close 4007)
