-- ===== src/Server/Connection.antt =====
-- `handleConnection` of packages/server/src/ws.ts: the life of one socket, from hello to close, with
-- packages/server/src/card-resolver.ts. The token lookup is asynchronous: `on_message` starts it and
-- `on_authenticated` is its continuation, so a close may come between them.
pub mod Preservation
pub mod Authority
use vicoop_bridge.Prelude.{
  ℕ, ◌*◌, String, Bool, true, false, not, ◌&&◌, Option, none, some, List, [], ◌∷◌, ◌++◌, ◌==◌,
  string_eq, if◌then◌else◌, includes, get_or, is_some,
}
use vicoop_bridge.Protocol.{
  HelloFrame, UpFrame, hello, DownFrame, protocol_version, task_replay_capability,
  remote_approval_capability, caller_context_v2_capability, caller_runtime_v1_capability,
  execution_scope_v1_capability, federated_execution_scope_v1_capability,
}
use vicoop_bridge.Server.State.{ClientConnection, Registry, send, close, call_ws}
use vicoop_bridge.Server.Registry.{register_agent, unregister_agent, note_server_close}
use vicoop_bridge.Server.Frames.{process_authed_frame}
use vicoop_bridge.Server.AgentIds.{is_reserved_agent_id}

pub record Connection : Type 0 where
  pub ws : ℕ
  pub agent_id : Option String
  pub authed : Bool
  pub hello_processing : Bool
  pub observed_close_code : Option ℕ
  pub hello_timeout : Bool  -- is the timer armed?

-- The row of `agents` that a token belongs to; its pricing is not modelled.
pub record ClientRow : Type 0 where
  pub id : String
  pub client_id : String
  pub allowed_callers : List String

abbrev pub max_ingress_bytes : ℕ
max_ingress_bytes = 16 * 1024 * 1024

abbrev canonical_cards : List String
canonical_cards = "claude" ∷ "codex" ∷ "echo" ∷ "openclaw" ∷ "vicoop-codex" ∷ []

pub data ResolvedCard : Type 0 where
  inline canonical : ResolvedCard
  unresolved : ℕ → ResolvedCard

unfoldable pub resolve_hello_agent_card : HelloFrame → ResolvedCard
resolve_hello_agent_card f = if is_some f.agent_card then inline else elim f.backend_kind [
  | none ↦ unresolved 4012
  | some kind ↦
      if kind == ""
      then unresolved 4012
      else (if includes canonical_cards kind then canonical else unresolved 4013)
]

-- The connection that a resolved hello registers.
connection_of : ℕ → HelloFrame → ClientRow → ClientConnection
connection_of w f row = record {
  agent_id = f.agent_id;
  client_id = row.client_id;
  protocol_capabilities = f.protocol_capabilities;
  allowed_callers = row.allowed_callers;
  ws = w;
}

register_resolved : Registry → ℕ → HelloFrame → ClientRow → Registry × Option ℕ
unfolding connection_of register_agent
register_resolved s w f row =
    let (s1, registered) = register_agent s (connection_of w f row) in
    (s1, (if registered then none else some 4006))

-- The result is the code to close with, if the hello is refused.
unfoldable pub authenticate_and_register :
    Registry → ℕ → HelloFrame → Option ClientRow → Registry × Option ℕ
unfolding resolve_hello_agent_card register_resolved
authenticate_and_register s w f found =
    if is_reserved_agent_id f.agent_id then (s, some 4011) else elim found [
      | none ↦ (s, some 4005)
      | some row ↦
          if not (row.id == f.agent_id) then (s, some 4008) else elim (resolve_hello_agent_card f) [
            | unresolved code ↦ (s, some code)
            | _ ↦ register_resolved s w f row
          ]
    ]

abbrev offered : List String → String → Bool
offered caps capability = includes caps capability

abbrev only_if : Bool → List String → List String
only_if b caps = if b then caps else []

-- packages/protocol/src/index.ts
unfoldable pub supports_execution_scope_v1 : List String → Bool
supports_execution_scope_v1 caps =
    offered caps execution_scope_v1_capability
    && offered caps caller_context_v2_capability
    && offered caps task_replay_capability

unfoldable pub hello_ack_capabilities : List String → List String
unfolding supports_execution_scope_v1
hello_ack_capabilities caps =
    task_replay_capability
      ∷ only_if (offered caps remote_approval_capability) (remote_approval_capability ∷ [])
    ++ (only_if (offered caps caller_context_v2_capability) (caller_context_v2_capability ∷ [])
        ++ only_if (supports_execution_scope_v1 caps) (
            execution_scope_v1_capability
            ∷ only_if (offered caps caller_runtime_v1_capability) (
                caller_runtime_v1_capability
                ∷ only_if (offered caps federated_execution_scope_v1_capability)
                    (federated_execution_scope_v1_capability ∷ []))))

acknowledge_hello : Registry → ℕ → HelloFrame → Registry
unfolding hello_ack_capabilities call_ws
acknowledge_hello s w f =
    let caps = get_or f.protocol_capabilities [] in
    if offered caps task_replay_capability
    then call_ws s w (
        send (
          DownFrame.hello_ack (hello_ack_capabilities caps) s.disconnect_grace_ms
            max_ingress_bytes))
    else s

-- The socket went away while the token was looked up: hand the identity to the close handler that
-- is still to come, or do the work of the one that has run.
reconcile : Registry → Connection → HelloFrame → Registry × Connection
unfolding unregister_agent
reconcile s c f = elim c.observed_close_code [
  | none ↦ (s, record c { agent_id = some f.agent_id })
  | some code ↦ (unregister_agent s f.agent_id c.ws (some code), c)
]

-- A lookup that throws closes with 1011.
pub data LookupResult : Type 0 where
  looked_up : Option ClientRow → LookupResult
  threw : LookupResult

on_registered :
    Connection → (is_open : Bool) → HelloFrame → Registry × Option ℕ → Registry × Connection
unfolding call_ws reconcile acknowledge_hello
on_registered c is_open f (s, some code) = (call_ws s c.ws (close code), c)
on_registered c is_open f (s, none) =
    if is_open
    then (
      acknowledge_hello s c.ws f,
      record c { agent_id = some f.agent_id; authed = true; hello_timeout = false },
    )
    else reconcile s c f

unfoldable pub on_authenticated :
    Registry → Connection → (is_open : Bool) → HelloFrame → LookupResult → Registry × Connection
unfolding call_ws on_registered authenticate_and_register
on_authenticated s c is_open f threw = (call_ws s c.ws (close 1011), c)
on_authenticated s c is_open f (looked_up found) =
    on_registered c is_open f (authenticate_and_register s c.ws f found)

-- This server's verdict on a connection, which no close code that is observed later can undo.
condemn : Registry → Connection → ℕ → Registry × Connection
unfolding note_server_close call_ws
condemn s c code = (call_ws (note_server_close s c.ws) c.ws (close code), c)

before_hello : Registry → Connection → UpFrame → Registry × Connection
unfolding call_ws condemn
before_hello s c (hello f) =
    if f.version == protocol_version
    then (s, (if c.hello_processing then c else record c { hello_processing = true }))
    else (call_ws s c.ws (close 4004), c)
before_hello s c _ = condemn s c 4003

-- `none` is a message that does not parse.
unfoldable pub on_message :
    Registry → Connection → (is_open : Bool) → Option UpFrame → Registry × Connection
unfolding condemn before_hello process_authed_frame
on_message s c is_open none = condemn s c 4002
on_message s c is_open (some frame) =
    if c.authed
    then (
      process_authed_frame (record { ws = c.ws; is_open = is_open; agent_id = c.agent_id }) s frame,
      c,
    )
    else before_hello s c frame

unfoldable pub on_hello_timeout : Registry → Connection → Registry × Connection
unfolding condemn
on_hello_timeout s c =
    let c1 = record c { hello_timeout = false } in if c.authed then (s, c1) else condemn s c1 4001

unfoldable pub on_close : Registry → Connection → ℕ → Registry × Connection
unfolding unregister_agent
on_close s c code =
    let c1 = record c { hello_timeout = false; observed_close_code = some code } in
    elim c.agent_id [
      | none ↦ (s, c1)
      | some agent_id ↦ (unregister_agent s agent_id c.ws (some code), c1)
    ]

-- A message over the ingress limit is refused by the transport before it is parsed.
unfoldable pub on_error : Registry → Connection → (oversized : Bool) → Registry × Connection
unfolding note_server_close
on_error s c oversized = ((if oversized then note_server_close s c.ws else s), c)
