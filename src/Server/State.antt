-- ===== src/Server/State.antt =====
-- The state of packages/server/src/registry.ts and tool-approvals.ts.
--
-- A `TaskBinding` is an object that the registry, the grace holds and the executor share and that
-- the frame handlers mutate. So bindings live in a `heap`, a reference is a number, and `===` on
-- bindings is equality of references. A sink is the list of the calls made on it. A socket is a
-- number too: `wire` lists the calls made on it, oldest first. `now` is `Date.now()`.
use vicoop_bridge.Prelude.{
  ℕ, String, Bool, false, List, [], ◌∷◌, ◌++◌, Option, ◌==◌, nat_eq, if◌then◌else◌, Dict,
}
use vicoop_bridge.Protocol.{
  Json, A2xStatus, A2xArtifact, TaskUsage, ApprovalDecision, ApprovalRequest, DownFrame,
}

pub record StatusEvent : Type 0 where
  pub task_id : String
  pub context_id : String
  pub final : Bool
  pub status : A2xStatus
  pub metadata : Option Json

pub record ArtifactEvent : Type 0 where
  pub task_id : String
  pub context_id : String
  pub artifact : A2xArtifact
  pub append : Option Bool
  pub last_chunk : Option Bool

-- The calls of the `TaskSink` interface.
pub data SinkCall : Type 0 where
  push_status : StatusEvent → SinkCall
  push_artifact : ArtifactEvent → SinkCall
  finish : SinkCall

pub record TaskBinding : Type 0 where
  pub agent_id : String
  pub task_id : String
  pub execution_id : Option String
  pub next_client_seq : Option ℕ
  pub context_id : String
  pub sink : List SinkCall
  pub principal_id : Option String
  pub actor_id : Option String
  pub authorization_profile : Option String
  pub authorization_key : Option String
  pub requested_extensions : Option (List String)
  pub heartbeats : Option ℕ
  pub usage : Option TaskUsage

-- The fields of `ClientConnection` that the modelled code reads.
pub record ClientConnection : Type 0 where
  pub agent_id : String
  pub client_id : String
  pub protocol_capabilities : Option (List String)
  pub allowed_callers : List String
  pub ws : ℕ

pub record TerminalError : Type 0 where
  pub code : String
  pub message : String
  pub message_id_suffix : String

pub data HoldVia : Type 0 where
  disconnect reconnect : HoldVia

pub record GraceHold : Type 0 where
  pub timer : ℕ
  pub binding : ℕ
  pub held_at : ℕ
  pub via : HoldVia
  pub close_code : Option ℕ

-- An armed `setTimeout`: when it fires, and what its callback closed over.
pub record GraceTimer : Type 0 where
  pub due : ℕ
  pub binding : ℕ
  pub terminal_error : TerminalError

pub record TerminalReceipt : Type 0 where
  pub agent_id : String
  pub task_id : String
  pub accepted_seq : ℕ
  pub expires_at : ℕ

pub data ApprovalState : Type 0 where
  pending decided received expired invalidated : ApprovalState

pub data ApprovalAuthority : Type 0 where
  owner requester : ApprovalAuthority

pub record ToolApproval : Type 0 where
  pub request : ApprovalRequest
  pub open request use *
  pub agent_id : String
  pub task_id : String
  pub execution_id : String
  pub state : ApprovalState
  pub decision : Option ApprovalDecision
  pub decided_by : Option String
  pub decided_via : Option ApprovalAuthority

pub record ApprovalOrigin : Type 0 where
  pub principal_id : Option String
  pub actor_id : Option String
  pub authorization_profile : Option String
  pub authorization_key : Option String

-- `timers` lists the requests whose tick is armed.
pub record ToolApprovals : Type 0 where
  pub entries : Dict String ToolApproval
  pub origins : Dict String ApprovalOrigin
  pub timers : Dict String ℕ

pub data WsCall : Type 0 where
  send : DownFrame → WsCall
  close : ℕ → WsCall

pub record Registry : Type 0 where
  pub now : ℕ
  pub heap : ℕ → TaskBinding
  pub agents : Dict String ClientConnection
  pub bindings : Dict String ℕ
  pub grace_holds : Dict String GraceHold
  pub timers : Dict ℕ GraceTimer
  pub next_timer : ℕ
  pub terminal_receipts : Dict String TerminalReceipt
  pub server_closed : ℕ → Bool
  pub disconnect_grace_ms : ℕ
  pub approvals : ToolApprovals
  pub wire : ℕ → List WsCall
  pub agent_changes : List String  -- the calls of the agent-change listeners

-- A write through a reference.
abbrev pub update {ℓ} : {A : Type ℓ} → (ℕ → A) → ℕ → A → ℕ → A
update f r v q = if r == q then v else f q

-- A call on the sink of the binding behind a reference.
unfoldable pub call_sink : Registry → ℕ → SinkCall → Registry
call_sink s r c = record s { heap = update s.heap r (record b { sink = b.sink ++ c ∷ [] }) }
  where
    b : TaskBinding
    b = s.heap r

unfoldable pub call_ws : Registry → ℕ → WsCall → Registry
call_ws s w c = record s { wire = update s.wire w (s.wire w ++ c ∷ []) }

-- The registry before any client has connected.
unfoldable pub new_registry : (grace_ms : ℕ) (heap : ℕ → TaskBinding) → Registry
new_registry grace_ms heap = record {
  now = 0;
  heap = heap;
  agents = [];
  bindings = [];
  grace_holds = [];
  timers = [];
  next_timer = 0;
  terminal_receipts = [];
  server_closed = λ w. false;
  disconnect_grace_ms = grace_ms;
  approvals = record { entries = []; origins = []; timers = [] };
  wire = λ w. [];
  agent_changes = [];
}
