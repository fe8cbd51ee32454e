-- ===== src/Server/Executor/Request.antt =====
-- What `executeStream` of packages/server/src/executor.ts starts from: the request, the binding and the
-- events that it makes.
use vicoop_bridge.Prelude.{
  ℕ, String, Bool, true, false, ◌⧺◌, string_eq, Option, none, some, List, [], ◌∷◌, if◌then◌else◌,
  get_or, includes, lookup,
}
use vicoop_bridge.Protocol.{
  Json, object, WirePart, text_part, file_part, data_part, A2xPart, text, json, file, agent, failed,
  instant, A2xMessage, task_replay_capability,
}
use vicoop_bridge.Server.State.{StatusEvent, TaskBinding, Registry}
use vicoop_bridge.Server.TerminalError.{error_metadata, error_extensions}
use vicoop_bridge.Server.ExecutionScope.{ExecutionScope}
use vicoop_bridge.Server.Payments.{GateParams}
use vicoop_bridge.Server.Executor.Artifacts.{append_history_message}
use vicoop_bridge.Server.Executor.Stream.{Task, Turn}

-- A part of a request: of the wire's shape already, or the SDK's flat one
pub data RequestPart : Type 0 where
  wire : WirePart → RequestPart
  flat : A2xPart → RequestPart

-- `none` where the conversion throws.
abbrev pub part_to_wire : RequestPart → Option WirePart
part_to_wire (wire p) = some p
part_to_wire (flat (text s)) = some (text_part s)
part_to_wire (flat (json (object fields))) = some (data_part (object fields))
part_to_wire (flat (json _)) = none
part_to_wire (flat (file none none filename media_type)) = none
part_to_wire (flat (file raw url filename media_type)) =
    some (file_part (record { name = filename; mime_type = media_type; bytes = raw; uri = url }))

unfoldable pub parts_to_wire : List RequestPart → Option (List WirePart)
parts_to_wire [] = some []
parts_to_wire (p ∷ parts) =
    let rest = parts_to_wire parts in
    elim (part_to_wire p) [
      | none ↦ none
      | some w ↦ elim rest [ none ↦ none | some ws ↦ some (w ∷ ws) ]
    ]

-- What a request brings. `fresh_id` is a random text, `scope` what `resolveExecutionScope` gives,
-- `has_caller` whether a caller context is serialized, and `is_gated` whether the agent has a price.
pub record Request : Type 0 where
  pub agent_id : String
  pub params : GateParams
  pub task : Task
  pub message : A2xMessage
  pub parts : List RequestPart
  pub principal_id : Option String
  pub actor_id : Option String
  pub authorization_profile : Option String
  pub authorization_key : Option String
  pub scope : Option ExecutionScope
  pub has_caller : Bool
  pub fresh_id : String
  pub is_gated : Bool
  pub is_upto : Bool
  pub x402_version : ℕ

unfoldable pub has_capability : Registry → String → String → Bool
has_capability s agent_id capability = elim (lookup agent_id s.agents) [
  | none ↦ false
  | some conn ↦ includes (get_or conn.protocol_capabilities []) capability
]

-- The binding of a turn; only a client that can replay has a numbered execution.
unfoldable pub new_binding : Registry → Request → (execution_id : String) → TaskBinding
unfolding has_capability
new_binding s q execution_id =
    let replays = has_capability s q.agent_id task_replay_capability in
    record {
      agent_id = q.agent_id;
      task_id = q.params.task_id;
      execution_id = if replays then some execution_id else none;
      next_client_seq = if replays then some 0 else none;
      context_id = q.params.context_id;
      sink = [];
      principal_id = q.principal_id;
      actor_id = q.actor_id;
      authorization_profile = q.authorization_profile;
      authorization_key = q.authorization_key;
      requested_extensions = q.message.extensions;
      heartbeats = none;
      usage = none;
    }

abbrev pub new_turn : Request → Turn
new_turn q = record {
  params = q.params;
  settlement = none;
  execution_id = none;
  prior_artifacts = [];
  task = q.task;
  history = append_history_message q.task.history (some q.message);
  accumulated = [];
  saw_final = false;
  delivery_authorized = false;
  closed = false;
  calls = [];
  yielded = [];
  frames = [];
  saved = [];
}

abbrev pub plain_failure :
    Request
    → (message_id reason : String) → (metadata : Option Json) → Option (List String)
    → StatusEvent
plain_failure q message_id reason metadata extensions = record {
  task_id = q.params.task_id;
  context_id = q.params.context_id;
  final = true;
  status = record {
    state = failed;
    timestamp = some (instant q.params.now);
    message = some (record {
      message_id = message_id;
      role = agent;
      parts = text reason ∷ [];
      metadata = metadata;
      extensions = extensions;
      task_id = q.params.task_id;
      context_id = q.params.context_id;
    });
  };
  metadata = none;
}

-- A failure with its code, for callers that asked for it
abbrev pub coded_failure : Request → (suffix code reason : String) → StatusEvent
coded_failure q suffix code reason =
    plain_failure q (q.params.task_id ⧺ "-" ⧺ suffix) reason
      (error_metadata code reason q.message.extensions) (error_extensions q.message.extensions)
