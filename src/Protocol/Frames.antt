-- ===== src/Protocol/Frames.antt =====
-- The frame schemas of packages/protocol/src/index.ts and the capabilities that they negotiate.
use vicoop_bridge.Prelude.{ℕ, String, Bool, List, Option}
use vicoop_bridge.Protocol.Values.{Json}
use vicoop_bridge.Protocol.Content.{WireStatus, Artifact, TaskUsage}

abbrev pub protocol_version : String
protocol_version = "0.1"

abbrev pub task_replay_capability : String
task_replay_capability = "task-replay-v1"

abbrev pub remote_approval_capability : String
remote_approval_capability = "remote-tool-approval-v1"

abbrev pub caller_context_v1_capability : String
caller_context_v1_capability = "caller-context-v1"

abbrev pub caller_context_v2_capability : String
caller_context_v2_capability = "caller-context-v2"

abbrev pub caller_runtime_v1_capability : String
caller_runtime_v1_capability = "caller-runtime-v1"

abbrev pub execution_scope_v1_capability : String
execution_scope_v1_capability = "execution-scope-v1"

abbrev pub federated_execution_scope_v1_capability : String
federated_execution_scope_v1_capability = "federated-execution-scope-v1"

abbrev pub openai_compat_extension_uri : String
openai_compat_extension_uri = "https://github.com/planetarium/oai2a2a/extensions/openai-compat/v1"

abbrev pub approval_extension_uri : String
approval_extension_uri =
    "https://github.com/planetarium/vicoop-bridge/blob/main/docs/tool-approval-v1.md"

pub record HelloFrame : Type 0 where
  pub agent_id : String
  pub agent_card : Option String  -- the card, of which only the name is read
  pub backend_kind : Option String
  pub version : String
  pub token : String
  pub protocol_capabilities : Option (List String)

-- What every task frame carries beside its payload.
pub record TaskRef : Type 0 where
  pub task_id : String
  pub execution_id : Option String
  pub seq : Option ℕ

pub data ApprovalDecision : Type 0 where
  allow_once deny : ApprovalDecision

pub record ApprovalRequest : Type 0 where
  pub request_id : String
  pub tool_name : String
  pub input : Json
  pub expires_at : String
  pub expires_ms : ℕ  -- `Date.parse(expiresAt)`
  pub json_length : ℕ  -- the length of its JSON text

pub record WireError : Type 0 where
  pub code : String
  pub message : String

pub data UpFrame : Type 0 where
  hello : HelloFrame → UpFrame
  approval_request : TaskRef → ApprovalRequest → UpFrame
  approval_received : TaskRef → (request_id : String) → ApprovalDecision → UpFrame
  task_status : TaskRef → WireStatus → (metadata : Option Json) → UpFrame
  task_artifact : TaskRef → Artifact → (append last_chunk : Option Bool) → UpFrame
  task_complete : TaskRef → WireStatus → Option TaskUsage → UpFrame
  task_fail : TaskRef → WireError → UpFrame
  pong : UpFrame
  usage_response : (request_id : String) → UpFrame

pub data DownFrame : Type 0 where
  hello_ack : (capabilities : List String) (grace_ms max_frame_bytes : ℕ) → DownFrame
  approval_resolve : (task_id execution_id request_id : String) → ApprovalDecision → DownFrame
  task_ack : (task_id execution_id : String) (accepted_seq : ℕ) → DownFrame
  -- `federated`: is the policy of its execution scope `federated-principal-v1`?
  task_assign : (task_id : String) (execution_id : Option String) (federated : Bool) → DownFrame
  task_cancel : (task_id : String) (execution_id : Option String) → DownFrame
  ping : DownFrame
  usage_request : (request_id : String) → DownFrame
