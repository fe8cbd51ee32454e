-- ===== src/Server/Fixtures.antt =====
-- A registry with one connected agent and one task in flight, for the tests.
use vicoop_bridge.Prelude.{
  ℕ, refl, true, false, none, some, [], ◌∷◌, lookup, insert, nat_eq, string_eq, option_eq,
}
use vicoop_bridge.Protocol.{TaskRef, HelloFrame, null, allow_once, task_replay_capability}
use vicoop_bridge.Server.State.{
  Registry, TaskBinding, ClientConnection, ToolApproval, decided, owner, new_registry,
}
use vicoop_bridge.Server.Registry.{register_agent, bind_task}
use vicoop_bridge.Server.Registry.Sound.{IsSound}
use vicoop_bridge.Server.Registry.Operations.{register_agent-IsSound, bind_task-IsSound}
use vicoop_bridge.Server.Acceptance.{Peer}
use vicoop_bridge.Server.Connection.{Connection, ClientRow}
use vicoop_bridge.Server.Reachable.{starts, IsReachable-IsSound}

abbrev pub task : TaskBinding
task = record {
  agent_id = "alpha";
  task_id = "t1";
  execution_id = some "e1";
  next_client_seq = some 2;
  context_id = "c1";
  sink = [];
  principal_id = some "p1";
  actor_id = none;
  authorization_profile = none;
  authorization_key = none;
  requested_extensions = none;
  heartbeats = none;
  usage = none;
}

abbrev pub client : ClientConnection
client = record {
  agent_id = "alpha";
  client_id = "k1";
  protocol_capabilities = some (task_replay_capability ∷ []);
  allowed_callers = [];
  ws = 7;
}

abbrev pub approval : ToolApproval
approval = record {
  request = record {
    request_id = "q1";
    tool_name = "shell";
    input = null;
    expires_at = "later";
    expires_ms = 600000;
    json_length = 20;
  };
  agent_id = "alpha";
  task_id = "t1";
  execution_id = "e1";
  state = decided;
  decision = some allow_once;
  decided_by = some "p1";
  decided_via = some owner;
}

abbrev pub in_flight : Registry
in_flight = record {
  now = 0;
  heap = λ r. task;
  agents = ("alpha", client) ∷ [];
  bindings = ("t1", 0) ∷ [];
  grace_holds = [];
  timers = [];
  next_timer = 0;
  terminal_receipts =
      ("e0", record { agent_id = "alpha"; task_id = "t0"; accepted_seq = 4; expires_at = 60000 })
      ∷ [];
  server_closed = λ w. false;
  disconnect_grace_ms = 30000;
  approvals = record { entries = ("q1", approval) ∷ []; origins = []; timers = [] };
  wire = λ w. [];
  agent_changes = "alpha" ∷ [];
}

abbrev pub peer : Peer
peer = record { ws = 7; is_open = true; agent_id = some "alpha" }

abbrev pub frame : ℕ → TaskRef
frame n = record { task_id = "t1"; execution_id = some "e1"; seq = some n }

pub in_flight-IsSound : IsSound in_flight
unfolding bind_task register_agent new_registry lookup insert
in_flight-IsSound =
    bind_task-IsSound (register_agent (new_registry 30000 (λ r. task)) client).0 0 refl (
      register_agent-IsSound (new_registry 30000 (λ r. task)) client
        (IsReachable-IsSound {grace_ms = 30000} {heap = λ r. task} starts))

abbrev pub connection : Connection
connection = record {
  ws = 7;
  agent_id = none;
  authed = false;
  hello_processing = false;
  observed_close_code = none;
  hello_timeout = true;
}

abbrev pub greeting : HelloFrame
greeting = record {
  agent_id = "alpha";
  agent_card = none;
  backend_kind = some "echo";
  version = "0.1";
  token = "secret";
  protocol_capabilities = some (task_replay_capability ∷ []);
}

abbrev pub row : ClientRow
row = record { id = "alpha"; client_id = "k1"; allowed_callers = [] }
