-- ===== src/Server/WireStatus.antt =====
-- The translations of packages/server/src/ws.ts from wire frames to A2A events, and
-- `approvalStatus` of packages/server/src/tool-approvals.ts.
use vicoop_bridge.Prelude.{
  ℕ, String, Bool, Option, none, some, [], ◌∷◌, map, ◌⧺◌, encode_uri_component,
}
use vicoop_bridge.Protocol.{
  Json, object, text, array, nil, cons, empty, field, member, is_true, openai_compat_extension_uri,
  approval_extension_uri, text_part, WireMessage, WireStatus, Artifact, agent, auth_required,
  working, instant, A2xMessage, A2xStatus, A2xArtifact, part_to_a2x, ApprovalDecision, allow_once,
  deny,
}
use vicoop_bridge.Server.State.{ToolApproval}

-- `metadata[<URI>].heartbeat === true`
unfoldable pub is_heartbeat_status_frame : Option Json → Bool
is_heartbeat_status_frame metadata =
    is_true (member "heartbeat" (member openai_compat_extension_uri metadata))

wire_message_to_a2x : WireMessage → (task_id context_id : String) → A2xMessage
wire_message_to_a2x m task_id context_id = record {
  message_id = m.message_id;
  role = m.role;
  parts = map part_to_a2x m.parts;
  metadata = m.metadata;
  extensions = m.extensions;
  task_id = task_id;
  context_id = context_id;
}

unfoldable pub wire_status_to_a2x : WireStatus → (task_id context_id : String) → A2xStatus
unfolding wire_message_to_a2x
wire_status_to_a2x status task_id context_id = record {
  state = status.state;
  timestamp = status.timestamp;
  message = elim status.message [
    | none ↦ none
    | some m ↦ some (wire_message_to_a2x m task_id context_id)
  ];
}

unfoldable pub artifact_to_a2x : Artifact → A2xArtifact
artifact_to_a2x a = record {
  artifact_id = a.artifact_id;
  name = a.name;
  metadata = a.metadata;
  extensions = a.extensions;
  parts = map part_to_a2x a.parts;
}

abbrev pub decision_text : ApprovalDecision → String
decision_text allow_once = "allow_once"
decision_text deny = "deny"

approval_metadata : ToolApproval → Json
approval_metadata a = object (
    field approval_extension_uri
      (object (
        field "requestId" (text a.request.request_id) (
          field "executionId" (text a.execution_id) (
            field "toolName" (text a.request.tool_name) (
              field "input" a.request.input (
                field "expiresAt" (text a.request.expires_at) (
                  field "decisions" (array (cons (text "allow_once") (cons (text "deny") nil))) (
                    field "decisionUrl" (text ("/admin-api" ⧺ path))
                      (field "requesterApprovalUrl" (text path) empty)))))))))
      empty)
  where
    path : String
    path = "/agents/" ⧺ encode_uri_component a.agent_id ⧺ "/approvals/" ⧺ a.request.request_id

-- What a task shows while one of its tool calls waits for a decision.
unfoldable pub approval_status : (now : ℕ) → ToolApproval → WireStatus
unfolding approval_metadata
approval_status now a = record {
  state = auth_required;
  timestamp = some (instant now);
  message = some (record {
    role = agent;
    message_id = a.request.request_id;
    parts = text_part ("Owner approval required for " ⧺ a.request.tool_name) ∷ [];
    metadata = some (approval_metadata a);
    extensions = some (approval_extension_uri ∷ []);
  });
}

-- The status that reports a decision that the client has consumed.
unfoldable pub decision_status :
    (now : ℕ) (request_id : String) → ApprovalDecision → (decided_by : Option String) → WireStatus
decision_status now request_id d decided_by = record {
  state = working;
  timestamp = some (instant now);
  message = some (record {
    role = agent;
    message_id = request_id ⧺ "-decision";
    parts = text_part ("Tool approval: " ⧺ decision_text d) ∷ [];
    metadata = some (
        object (
          field approval_extension_uri
            (object (
              field "requestId" (text request_id) (
                field "decision" (text (decision_text d)) (elim decided_by [
                  | none ↦ empty
                  | some principal ↦ field "decidedBy" (text principal) empty
                ]))))
            empty));
    extensions = none;
  });
}
