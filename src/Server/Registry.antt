-- ===== src/Server/Registry.antt =====
-- packages/server/src/registry.ts: which client serves which agent, which execution a task id is
-- bound to, and which bindings wait out a dropped connection.
pub mod Sound
pub mod Preservation
pub mod Operations
pub mod Release
pub mod Hold
pub mod Disconnect
use vicoop_bridge.Prelude.{
  ℕ, suc, ◌+◌, String, Bool, true, false, not, ◌&&◌, ◌||◌, Option, none, some, List, [], ◌∷◌, ◌++◌,
  ◌==◌, string_eq, nat_eq, option_eq, leb, ltb, if◌then◌else◌, is_some, includes, lookup, insert,
  remove, values,
}
use Prim.Native.String
use vicoop_bridge.Protocol.{Role, failed, instant, text, task_replay_capability}
use vicoop_bridge.Server.State.{
  StatusEvent, TaskBinding, ClientConnection, TerminalError, HoldVia, disconnect, reconnect,
  GraceHold, GraceTimer, Registry, push_status, finish, close, update, call_sink, call_ws,
}
use vicoop_bridge.Server.Approvals.{get_binding, invalidate, set_approvals}
use vicoop_bridge.Server.TerminalError.{error_metadata, error_extensions}

abbrev pub disconnected_error : TerminalError
disconnected_error = record {
  code = "disconnected";
  message = "client disconnected mid-task";
  message_id_suffix = "disc";
}

abbrev pub replaced_error : TerminalError
replaced_error = record {
  code = "superseded";
  message = "superseded by a reconnect from the same client token";
  message_id_suffix = "superseded";
}

abbrev pub displaced_error : TerminalError
displaced_error = record {
  code = "task_superseded";
  message = "task superseded by a newer request for the same task id";
  message_id_suffix = "superseded";
}

-- A close that this server did not decide, so that a reconnect may follow.
unfoldable pub is_graceable_close_code : Option ℕ → Bool
is_graceable_close_code none = true
is_graceable_close_code (some code) = if code == 1000 then false else ltb code 4000 || ltb 4999 code

abbrev pub supports_replay : ClientConnection → Bool
supports_replay conn = elim conn.protocol_capabilities [
  | none ↦ false
  | some caps ↦ includes caps task_replay_capability
]

abbrev pub clear_timeout : Registry → ℕ → Registry
clear_timeout s id = record s { timers = remove id s.timers }

-- Delete a hold and its timer.
abbrev pub drop_hold : Registry → String → GraceHold → Registry
drop_hold s task_id hold = record s {
  timers = remove hold.timer s.timers;
  grace_holds = remove task_id s.grace_holds;
}

-- `clearGraceHold(taskId, binding)`; every caller of it gives the binding.
unfoldable pub clear_grace_hold : Registry → String → ℕ → Registry
clear_grace_hold s task_id r = record s {
  timers = elim (lookup task_id s.grace_holds) [
    | none ↦ s.timers
    | some hold ↦ if hold.binding == r then remove hold.timer s.timers else s.timers
  ];
  grace_holds = elim (lookup task_id s.grace_holds) [
    | none ↦ s.grace_holds
    | some hold ↦ if hold.binding == r then remove task_id s.grace_holds else s.grace_holds
  ];
}

-- The failed status that ends a binding's stream.
unfoldable pub terminal_event : Registry → ℕ → TerminalError → StatusEvent
terminal_event s r e = record {
  task_id = b.task_id;
  context_id = b.context_id;
  final = true;
  status = record {
    state = failed;
    timestamp = some (instant s.now);
    message = some (record {
      message_id = String.◌++◌ b.task_id (String.◌++◌ "-" e.message_id_suffix);
      role = Role.agent;
      parts = text e.message ∷ [];
      metadata = error_metadata e.code e.message b.requested_extensions;
      extensions = error_extensions b.requested_extensions;
      task_id = b.task_id;
      context_id = b.context_id;
    });
  };
  metadata = none;
}
  where
    b : TaskBinding
    b = s.heap r

unfoldable pub fail_binding : Registry → ℕ → TerminalError → Registry
unfolding call_sink
fail_binding s r e =
    let s1 = set_approvals s (invalidate (s.heap r) s.approvals) in
    call_sink (call_sink s1 r (push_status (terminal_event s1 r e))) r finish

-- `if (this.bindings.get(taskId) === binding) this.bindings.delete(taskId)`
unfoldable pub delete_if_bound : Registry → String → ℕ → Registry
delete_if_bound s task_id r =
    if get_binding s task_id == some r then record s { bindings = remove task_id s.bindings } else s

-- One round of `failBindingsForAgent`.
unfoldable pub fail_one : String → TerminalError → Registry → ℕ → Registry
unfolding clear_grace_hold fail_binding delete_if_bound
fail_one agent_id e s r =
    let task_id = (s.heap r).task_id in
    if (s.heap r).agent_id == agent_id
    then delete_if_bound (fail_binding (clear_grace_hold s task_id r) r e) task_id r
    else s

unfoldable pub fail_each : String → TerminalError → Registry → List ℕ → Registry
fail_each agent_id e s [] = s
fail_each agent_id e s (r ∷ rest) = fail_each agent_id e (fail_one agent_id e s r) rest

unfoldable pub fail_bindings_for_agent : Registry → String → TerminalError → Registry
unfolding fail_each
fail_bindings_for_agent s agent_id e = fail_each agent_id e s (values s.bindings)

arm_hold : Registry → ℕ → Option ℕ → HoldVia → TerminalError → Registry
arm_hold s r close_code via e = record s {
  timers =
      insert s.next_timer
        (record { due = s.now + s.disconnect_grace_ms; binding = r; terminal_error = e }) s.timers;
  next_timer = suc s.next_timer;
  grace_holds =
      insert (s.heap r).task_id
        (record {
          timer = s.next_timer;
          binding = r;
          held_at = s.now;
          via = via;
          close_code = close_code;
        })
        s.grace_holds;
}

-- One round of `holdBindingsForAgent`: a hold that is pending keeps its deadline.
unfoldable pub hold_one : String → Option ℕ → HoldVia → TerminalError → Registry → ℕ → Registry
unfolding arm_hold
hold_one agent_id close_code via e s r =
    if (s.heap r).agent_id == agent_id && not (is_some (lookup (s.heap r).task_id s.grace_holds))
    then arm_hold s r close_code via e
    else s

unfoldable pub hold_each :
    String → Option ℕ → HoldVia → TerminalError → Registry → List ℕ → Registry
hold_each agent_id close_code via e s [] = s
hold_each agent_id close_code via e s (r ∷ rest) =
    hold_each agent_id close_code via e (hold_one agent_id close_code via e s r) rest

unfoldable pub hold_bindings_for_agent :
    Registry → String → Option ℕ → HoldVia → TerminalError → Registry
unfolding hold_each
hold_bindings_for_agent s agent_id close_code via e =
    if leb s.disconnect_grace_ms 0
    then fail_bindings_for_agent s agent_id e
    else hold_each agent_id close_code via e s (values s.bindings)

-- The callback of a hold's timer.
expire_hold : Registry → GraceTimer → Registry
unfolding fail_binding
expire_hold s t =
    let task_id = (s.heap t.binding).task_id in
    let s1 = record s { grace_holds = remove task_id s.grace_holds } in
    if get_binding s1 task_id == some t.binding
    then (let s2 = fail_binding s1 t.binding t.terminal_error in
        record s2 { bindings = remove task_id s2.bindings })
    else s1

-- An armed timer fires once its time has come.
unfoldable pub fire_timer : Registry → ℕ → Registry
unfolding expire_hold
fire_timer s id = elim (lookup id s.timers) [
  | none ↦ s
  | some t ↦ if leb t.due s.now then expire_hold (clear_timeout s id) t else s
]

-- The hold that a frame of this agent for this task ends.
unfoldable pub resumed_hold : Registry → (task_id agent_id : String) → Option GraceHold
resumed_hold s task_id agent_id = elim (lookup task_id s.grace_holds) [
  | none ↦ none
  | some hold ↦
      if (s.heap hold.binding).agent_id == agent_id && get_binding s task_id == some hold.binding
      then some hold
      else none
]

unfoldable pub resume_binding : Registry → (task_id agent_id : String) → Registry
unfolding resumed_hold
resume_binding s task_id agent_id = record s {
  timers = elim (resumed_hold s task_id agent_id) [
    | none ↦ s.timers
    | some hold ↦ remove hold.timer s.timers
  ];
  grace_holds = elim (resumed_hold s task_id agent_id) [
    | none ↦ s.grace_holds
    | some _ ↦ remove task_id s.grace_holds
  ];
}

-- The calls of the agent-change listeners, which cannot fail the caller.
abbrev pub notify_agent_change : Registry → String → Registry
notify_agent_change s agent_id = record s { agent_changes = s.agent_changes ++ agent_id ∷ [] }

unfoldable pub note_server_close : Registry → ℕ → Registry
note_server_close s w = record s { server_closed = update s.server_closed w true }

-- Deal with the in-flight tasks of a connection that a same-token reconnect displaces.
unfoldable pub displace : Registry → String → ClientConnection → Registry
displace s agent_id existing =
    if s.server_closed existing.ws
    then fail_bindings_for_agent s agent_id disconnected_error
    else (if supports_replay existing
        then hold_bindings_for_agent s agent_id none reconnect replaced_error
        else fail_bindings_for_agent s agent_id replaced_error)

abbrev pub set_agent : Registry → ClientConnection → Registry
set_agent s conn =
    notify_agent_change (record s { agents = insert conn.agent_id conn s.agents }) conn.agent_id

-- The Boolean is `ok`; its only failure is an agent that another client serves.
unfoldable pub register_agent : Registry → ClientConnection → Registry × Bool
unfolding displace call_ws
register_agent s conn = elim (lookup conn.agent_id s.agents) [
  | none ↦ (set_agent s conn, true)
  | some existing ↦
      if existing.client_id == conn.client_id
      then (
        set_agent (displace (call_ws s existing.ws (close 4009)) conn.agent_id existing) conn,
        true,
      )
      else (s, false)
]

unfoldable pub unregister_agent : Registry → String → ℕ → Option ℕ → Registry
unregister_agent s agent_id ws close_code = elim (lookup agent_id s.agents) [
  | none ↦ s
  | some existing ↦
      let s1 = notify_agent_change (record s { agents = remove agent_id s.agents }) agent_id in
      if not (existing.ws == ws)
      then s
      else (if supports_replay existing
            && is_graceable_close_code close_code
            && not (s.server_closed ws)
          then hold_bindings_for_agent s1 agent_id close_code disconnect disconnected_error
          else fail_bindings_for_agent s1 agent_id disconnected_error)
]

disconnect_each : String → Registry → List ClientConnection → Registry × ℕ
unfolding note_server_close call_ws
disconnect_each client_id s [] = (s, 0)
disconnect_each client_id s (conn ∷ rest) =
    let mine = conn.client_id == client_id in
    let s1 = if mine then call_ws (note_server_close s conn.ws) conn.ws (close 4014) else s in
    let (s2, closed) = disconnect_each client_id s1 rest in
    (s2, (if mine then closed + 1 else closed))

unfoldable pub disconnect_client : Registry → String → Registry × ℕ
unfolding disconnect_each
disconnect_client s client_id = disconnect_each client_id s (values s.agents)

-- End the binding that a newer request for the same task id displaces.
displace_binding : Registry → String → ℕ → Registry
unfolding clear_grace_hold fail_binding
displace_binding s task_id existing =
    fail_binding (clear_grace_hold s task_id existing) existing displaced_error

unfoldable pub bind_task : Registry → ℕ → Registry × Bool
unfolding displace_binding
bind_task s r =
    let b = s.heap r in
    let installed = λ (t : Registry). record t { bindings = insert b.task_id r t.bindings } in
    elim (get_binding s b.task_id) [
      | none ↦ (installed s, true)
      | some existing ↦
          if not ((s.heap existing).agent_id == b.agent_id)
          then (s, false)
          else (if existing == r
              then (installed s, true)
              else (installed (displace_binding s b.task_id existing), true))
    ]

unfoldable pub fail_task_binding : Registry → ℕ → (code message : String) → Registry
unfolding clear_grace_hold fail_binding
fail_task_binding s r code message =
    let task_id = (s.heap r).task_id in
    if get_binding s task_id == some r
    then (let s1 =
          fail_binding (clear_grace_hold s task_id r) r
            (record { code = code; message = message; message_id_suffix = code }) in
        record s1 { bindings = remove task_id s1.bindings })
    else s

unfoldable pub unbind_task : Registry → String → ℕ → Registry
unfolding clear_grace_hold
unbind_task s task_id r =
    let s1 = set_approvals s (invalidate (s.heap r) s.approvals) in
    if get_binding s1 task_id == some r
    then (let s2 = clear_grace_hold s1 task_id r in
        record s2 { bindings = remove task_id s2.bindings })
    else s1
