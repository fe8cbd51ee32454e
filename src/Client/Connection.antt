-- ===== src/Client/Connection.antt =====
-- The connection of packages/client/src/client.ts: the handlers of a socket's events, of the frames
-- that the server sends and of the timers.
--
-- An event names the socket that its handler was attached to. The random delay of a reconnect is an
-- argument.
pub mod Runs
use vicoop_bridge.Prelude.{
  ℕ, ◌+◌, max, String, Bool, true, false, not, ◌&&◌, ◌||◌, Option, none, some, List, [], ◌∷◌, ◌++◌,
  ◌==◌, string_eq, nat_eq, option_eq, ltb, leb, if◌then◌else◌, includes, forall_in, is_some, get_or,
}
use vicoop_bridge.Protocol.{
  UpFrame, DownFrame, ApprovalDecision, hello, protocol_version, task_replay_capability,
  remote_approval_capability, caller_context_v1_capability, caller_context_v2_capability,
  caller_runtime_v1_capability, execution_scope_v1_capability,
  federated_execution_scope_v1_capability,
}
use vicoop_bridge.Client.State.{
  ClientOptions, Client, SocketCall, send, close, ping, call_socket, end_socket, terminate_socket,
  pending_retention_enabled,
}
use vicoop_bridge.Client.Pending.{drop_pending_frames, acknowledge_frames, send_frame}
use vicoop_bridge.Client.Pending.Sending.{flush_pending_frames}
use Runs.{abort_runs, abort_unretained_runs, cancel_task, begin_run}

-- `connect`, with the socket that it creates
unfoldable pub connect : Client → ℕ → Client
connect s w = if s.stopped then s else record s {
  replay_ready = false;
  caller_scope_ready = false;
  federated_scope_ready = false;
  max_frame_bytes = none;
  ws = some w;
}

unfoldable pub stop : Client → Client
unfolding drop_pending_frames abort_runs
stop s =
    let s1 = drop_pending_frames (
      abort_runs (record s {
        stopped = true;
        reconnect_timer = none;
        reset_timer = none;
        heartbeat = none;
        awaiting_pong = false;
      })) in
    elim s1.ws [ none ↦ s1 | some w ↦ end_socket s1 w close ]

abbrev caller_scope_capabilities : List String
caller_scope_capabilities =
    task_replay_capability ∷ caller_context_v2_capability ∷ execution_scope_v1_capability
    ∷ caller_runtime_v1_capability ∷ []

-- `stop`, and `onFatal` with the code of a policy violation
unfoldable pub refuse_isolation : Client → Client
unfolding stop
refuse_isolation s = record (stop s) { fatal = some 1008 }

-- What an acknowledged hello says that the server supports.
abbrev pub negotiate : Client → List String → Client
negotiate s capabilities = record s {
  approvals_ready = includes capabilities remote_approval_capability;
  federated_scope_ready = includes capabilities federated_execution_scope_v1_capability;
  caller_scope_ready = forall_in (includes capabilities) caller_scope_capabilities;
}

unfoldable pub on_hello_ack :
    (UpFrame → ℕ) → Client → ℕ → List String → (max_frame_bytes : ℕ) → Client
unfolding refuse_isolation flush_pending_frames
on_hello_ack byte_length s w capabilities max_frame_bytes =
    let s1 = negotiate s capabilities in
    if s.opts.requires_caller_scope && not s1.caller_scope_ready
    then refuse_isolation s1
    else if not (includes capabilities task_replay_capability)
    then s1
    else flush_pending_frames byte_length
        (record s1 { replay_ready = true; max_frame_bytes = some max_frame_bytes }) w

unfoldable pub on_task_assign :
    Client → (task_id : String) (execution_id : Option String) (federated : Bool) → Client
unfolding refuse_isolation begin_run
on_task_assign s task_id execution_id federated =
    if s.opts.requires_caller_scope
      && (not s.caller_scope_ready || federated && not s.federated_scope_ready)
    then refuse_isolation s
    else begin_run (record s { replay_ready = s.replay_ready && is_some execution_id }) task_id
        execution_id

-- The answer of a backend comes later, by `send_frame`.
unfoldable pub handle_usage_request : Client → (request_id : String) → Client
unfolding send_frame
handle_usage_request s request_id =
    if s.opts.has_usage then s else send_frame s (UpFrame.usage_response request_id)

abbrev pub resolve_approval :
    Client → (task_id execution_id request_id : String) → ApprovalDecision → Client
resolve_approval s t x q d =
    if s.approvals_ready then record s { resolutions = s.resolutions ++ (t, x, q, d) ∷ [] } else s

-- The `switch` on the type of a frame.
unfoldable pub on_frame : (UpFrame → ℕ) → Client → ℕ → DownFrame → Client
unfolding on_hello_ack on_task_assign handle_usage_request acknowledge_frames cancel_task send_frame
on_frame byte_length s w (DownFrame.hello_ack capabilities grace_ms max_frame_bytes) =
    on_hello_ack byte_length s w capabilities max_frame_bytes
on_frame byte_length s w (DownFrame.approval_resolve t x q d) = resolve_approval s t x q d
on_frame byte_length s w (DownFrame.task_ack t x accepted) = acknowledge_frames s x accepted
on_frame byte_length s w (DownFrame.task_assign t x federated) = on_task_assign s t x federated
on_frame byte_length s w (DownFrame.task_cancel t x) = cancel_task s t x
on_frame byte_length s w DownFrame.ping = send_frame s UpFrame.pong
on_frame byte_length s w (DownFrame.usage_request q) = handle_usage_request s q

-- A message: `none` is one that does not parse. A socket that has been replaced is not heard.
unfoldable pub on_message : (UpFrame → ℕ) → Client → ℕ → Option DownFrame → Client
unfolding on_frame
on_message byte_length s w none = s
on_message byte_length s w (some f) = if s.ws == some w then on_frame byte_length s w f else s

-- `floor` is the least delay that a close code asks for.
unfoldable pub schedule_reconnect : Client → (computed : ℕ) (floor : ℕ) → Client
schedule_reconnect s computed floor =
    if s.stopped || is_some s.reconnect_timer then s else record s {
      reconnect_attempt = s.reconnect_attempt + 1;
      reconnect_timer = some (s.now + max computed floor);
    }

abbrev pub without_socket : Client → Client
without_socket s = record s {
  ws = none;
  reset_timer = none;
  heartbeat = none;
  awaiting_pong = false;
  approvals_ready = false;
}

-- The socket is gone, and every run that cannot be resumed ends with it.
unfoldable pub lose_socket : Client → Client
unfolding abort_unretained_runs
lose_socket s = abort_unretained_runs (without_socket s)

-- The server will not have this client again.
unfoldable pub give_up : Client → (code : ℕ) → Client
unfolding abort_runs drop_pending_frames
give_up s code =
    record (drop_pending_frames
      (abort_runs (record s { stopped = true; reconnect_timer = none }))) { fatal = some code }

unfoldable pub on_close : Client → ℕ → (code computed : ℕ) → Client
unfolding lose_socket give_up schedule_reconnect
on_close s w code computed =
    if not (s.ws == some w)
    then s
    else if code == 4014 || code == 4005
    then give_up (lose_socket s) code
    else if code == 4009
    then schedule_reconnect (lose_socket s) computed (get_or s.opts.collision_backoff_ms 300000)
    else schedule_reconnect (lose_socket s) computed 0

-- The timer of a reconnect fires and `connect` makes the socket `w`.
unfoldable pub on_reconnect_timer : Client → ℕ → Client
unfolding connect
on_reconnect_timer s w = elim s.reconnect_timer [
  | none ↦ s
  | some due ↦ if leb due s.now then connect (record s { reconnect_timer = none }) w else s
]

unfoldable pub schedule_reconnect_attempt_reset : Client → ℕ → Client
schedule_reconnect_attempt_reset s w =
    if leb (get_or s.opts.reconnect_stable_ms 60000) 0
    then record s { reset_timer = none; reconnect_attempt = 0 }
    else record s { reset_timer = some w }

unfoldable pub on_reset_timer : Client → Client
on_reset_timer s = elim s.reset_timer [
  | none ↦ s
  | some w ↦
      if not s.stopped && (s.ws == some w) && s.is_open w
      then record s { reset_timer = none; reconnect_attempt = 0 }
      else record s { reset_timer = none }
]

unfoldable pub start_heartbeat : Client → ℕ → Client
start_heartbeat s w = record s {
  heartbeat = if leb (get_or s.opts.heartbeat_interval_ms 30000) 0 then none else some w;
  awaiting_pong = false;
}

-- A round of the heartbeat; `throws` is whether `ws.ping()` does.
abbrev pub beat : Client → ℕ → Bool → Client
beat s w throws =
    let waiting = record s { awaiting_pong = true } in
    if s.awaiting_pong
    then terminate_socket s w
    else if throws
    then terminate_socket waiting w
    else call_socket waiting w ping

unfoldable pub on_heartbeat : Client → Bool → Client
on_heartbeat s throws = elim s.heartbeat [
  | none ↦ s
  | some w ↦ if s.stopped || not (s.ws == some w) || not (s.is_open w) then s else beat s w throws
]

unfoldable pub on_pong : Client → ℕ → Client
on_pong s w = if s.ws == some w then record s { awaiting_pong = false } else s

-- The socket has opened.
unfoldable pub on_open : Client → ℕ → Client
unfolding schedule_reconnect_attempt_reset start_heartbeat
on_open s w = start_heartbeat (schedule_reconnect_attempt_reset s w) w

abbrev offered : ClientOptions → List String
offered opts =
    caller_context_v2_capability
      ∷ caller_context_v1_capability
      ∷ task_replay_capability
      ∷ (if opts.remote_approvals then remote_approval_capability ∷ [] else [])
    ++ (if opts.requires_caller_scope
        then execution_scope_v1_capability ∷ caller_runtime_v1_capability
          ∷ federated_execution_scope_v1_capability ∷ []
        else [])

-- The capability probe has settled on a card: the hello goes to the socket that it was made for.
unfoldable pub send_hello : Client → ℕ → (agent_card : Option String) → Client
send_hello s w agent_card =
    if s.is_open w
    then call_socket s w (
        send (
          hello (record {
            agent_id = s.opts.agent_id;
            agent_card = agent_card;
            backend_kind = s.opts.backend_kind;
            version = protocol_version;
            token = s.opts.token;
            protocol_capabilities = some (offered s.opts);
          })))
    else s

-- The callback of a send that ends the connection: with an error, or after a last failure.
unfoldable pub on_sent : Client → ℕ → Client
on_sent s w = if s.ws == some w then terminate_socket s w else s
