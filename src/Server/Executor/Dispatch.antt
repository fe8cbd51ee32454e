-- ===== src/Server/Executor/Dispatch.antt =====
-- `executeStream` of packages/server/src/executor.ts up to its loop: the checks, the payment gate,
-- and the dispatch to the connected client.
--
-- The source waits between the gate and the dispatch, and for the store inside the dispatch, so
-- `admit` and `begin_turn` are given the registry as it is then. What the store answers is an
-- argument. Saves that fail are left out.
pub mod Untouched
pub mod Sound
use vicoop_bridge.Prelude.{
  ℕ, String, Bool, true, false, not, ◌&&◌, ◌||◌, ◌==◌, string_eq, ◌⧺◌, Option, none, some, List, [],
  ◌∷◌, ◌++◌, if◌then◌else◌, get_or, includes, is_some, lookup,
}
use vicoop_bridge.Protocol.{
  Json, object, WirePart, WireFile, text_part, file_part, data_part, A2xPart, text, json, file,
  agent, failed, instant, TaskUsage, A2xStatus, A2xMessage, A2xArtifact, DownFrame,
  task_replay_capability, caller_runtime_v1_capability,
}
use vicoop_bridge.Server.State.{StatusEvent, TaskBinding, Registry}
use vicoop_bridge.Server.TerminalError.{error_metadata, error_extensions}
use vicoop_bridge.Server.Approvals.{get_binding, send_to_agent}
use vicoop_bridge.Server.Registry.{bind_task, unbind_task}
use vicoop_bridge.Server.ExecutionScope.{
  ExecutionScope, Policy, federated_principal_v1, direct_principal_v1,
}
use vicoop_bridge.Server.Payments.{
  MerchantCall, Sdk, GateParams, X402GateOutcome, goes_on, halts, open_gate,
}
use vicoop_bridge.Server.Executor.Artifacts.{append_history_message}
use vicoop_bridge.Server.Executor.Settlement.{settle_terminal}
use vicoop_bridge.Server.Executor.Request.{
  Request, parts_to_wire, has_capability, new_turn, plain_failure, coded_failure,
}
use vicoop_bridge.Server.Executor.Stream.{TaskOutput, shows, Task, SavedTask, Turn, yield}

-- End a turn before its dispatch: the status is the task's, it is yielded and saved.
unfoldable pub end_turn : Turn → StatusEvent → Turn
unfolding append_history_message
end_turn t event =
    let history = append_history_message t.history event.status.message in
    yield
      (record t {
        closed = true;
        history = history;
        task = record t.task { status = event.status; history = history };
        saved =
            t.saved ++ record { status = event.status; history = history; artifacts = none } ∷ [];
      })
      (shows event)

abbrev pub gated : Request → Turn → X402GateOutcome × List MerchantCall → Turn
gated q t (halts event, calls) = end_turn (record t { calls = calls }) event
gated q t (goes_on settlement, calls) = record t { settlement = settlement; calls = calls }

module _ (sdk : Sdk) where
  -- The checks that come before the task is bound
  unfoldable pub admit : Registry → Request → Turn
  unfolding has_capability end_turn open_gate append_history_message
  admit s q =
      if has_capability s q.agent_id caller_runtime_v1_capability && not (is_some q.scope)
      then end_turn (new_turn q) (
          plain_failure q q.fresh_id
            "container runtime requires a supported authenticated caller scope" none none)
      else if q.is_gated
      then gated q (new_turn q) (open_gate sdk q.params q.is_upto q.x402_version q.message)
      else new_turn q

-- The store: it cannot read tasks, or reading threw; it cannot record dispatches; or it has recorded
-- this one, which it does for a task that it has, or that threw.
pub data StoreAnswer : Type 0 where
  no_lookup : StoreAnswer
  threw : StoreAnswer
  unsupported : (current : Option Task) → StoreAnswer
  recorded : (current : Task) → StoreAnswer
  unrecorded : (current : Option Task) → StoreAnswer

pub data Dispatched : Type 0 where
  interrupted : Task → Dispatched
  rejected : (suffix code reason : String) → Dispatched
  bound : (sent : Bool) → Dispatched

abbrev pub not_owned : Dispatched
not_owned = rejected "owner-mismatch" "task_owner_mismatch" "task ownership validation failed"

abbrev pub not_recorded : Dispatched
not_recorded = rejected "persist-failed" "task_persist_failed" "task dispatch could not be recorded"

abbrev pub is_federated : Request → Bool
is_federated q = q.has_caller && elim q.scope [
  | none ↦ false
  | some scope ↦ elim scope.policy [ direct_principal_v1 ↦ false | federated_principal_v1 ↦ true ]
]

abbrev pub assign_frame : Registry → ℕ → Request → DownFrame
assign_frame s r q = DownFrame.task_assign q.params.task_id (s.heap r).execution_id (is_federated q)

-- Bind and send. A part that cannot be converted throws after the task has been bound.
unfoldable pub dispatch : Registry → ℕ → Request → Registry × Dispatched
unfolding bind_task parts_to_wire send_to_agent
dispatch s r q =
    let (s1, was_bound) = bind_task s r in
    if not was_bound then (s1, not_owned) else elim (parts_to_wire q.parts) [
      | none ↦ (s1, not_recorded)
      | some parts ↦
          let (s2, sent) = send_to_agent s1 q.agent_id (assign_frame s1 r q) in (s2, bound sent)
    ]

abbrev pub is_held_by_other : Registry → Request → Bool
is_held_by_other s q = elim (get_binding s q.params.task_id) [
  | none ↦ false
  | some holder ↦ not ((s.heap holder).agent_id == q.agent_id)
]

unfoldable pub dispatch_stored :
    Sdk → Registry → ℕ → Request → Option Task → (marked : Bool) → Registry × Dispatched
unfolding dispatch
dispatch_stored sdk s r q current marked =
    let go : Registry × Dispatched =
      if is_held_by_other s q
      then (s, not_owned)
      else if marked
      then dispatch s r q
      else (s, not_recorded) in
    elim current [
      | none ↦ go
      | some stored ↦ if sdk.is_terminal stored.status.state then (s, interrupted stored) else go
    ]

unfoldable pub dispatch_guarded : Sdk → Registry → ℕ → Request → StoreAnswer → Registry × Dispatched
unfolding dispatch dispatch_stored
dispatch_guarded sdk s r q no_lookup = dispatch s r q
dispatch_guarded sdk s r q threw = (s, not_recorded)
dispatch_guarded sdk s r q (unsupported current) = dispatch_stored sdk s r q current true
dispatch_guarded sdk s r q (recorded current) = dispatch_stored sdk s r q (some current) true
dispatch_guarded sdk s r q (unrecorded current) = dispatch_stored sdk s r q current false

abbrev pub stored_event : Request → Task → StatusEvent
stored_event q stored = record {
  task_id = q.params.task_id;
  context_id = q.params.context_id;
  final = true;
  status = stored.status;
  metadata = none;
}

-- The turn of a task that had ended already
abbrev pub interrupt : Turn → Task → StatusEvent × List MerchantCall → Turn
interrupt t stored (terminal, calls) =
    yield
      (record t { closed = true; calls = calls; task = record stored { status = terminal.status } })
      (shows terminal)

abbrev pub fail_turn : Turn → StatusEvent × List MerchantCall → Turn
fail_turn t (terminal, calls) = end_turn (record t { calls = calls }) terminal

-- An execution of a client that can replay shows only its own artifacts.
abbrev pub streaming : Registry → ℕ → Turn → Turn
streaming s r t = record t {
  execution_id = (s.heap r).execution_id;
  prior_artifacts = if is_some (s.heap r).execution_id then [] else t.task.artifacts;
  task = record t.task {
    history = t.history;
    artifacts = if is_some (s.heap r).execution_id then [] else t.task.artifacts;
  };
}

abbrev pub unreachable : Request → StatusEvent
unreachable q = coded_failure q "unreach" "client_not_connected" "client not connected"

module _ (sdk : Sdk) (count_of : String → Option ℕ) where
  -- The terminal event of a turn that never streams
  unfoldable pub settle_now :
      Turn → StatusEvent → Option TaskUsage → StatusEvent × List MerchantCall
  unfolding settle_terminal
  settle_now t event usage = elim t.settlement [
    | none ↦ (event, t.calls)
    | some s ↦ settle_terminal sdk count_of t.params s event usage t.calls
  ]

  unfoldable pub after_dispatch : ℕ → Request → Turn → Registry × Dispatched → Registry × Turn
  unfolding settle_now end_turn unbind_task
  after_dispatch r q t (s, interrupted stored) =
      (s, interrupt t stored (settle_now t (stored_event q stored) (s.heap r).usage))
  after_dispatch r q t (s, rejected suffix code reason) =
      (s, fail_turn t (settle_now t (coded_failure q suffix code reason) (s.heap r).usage))
  after_dispatch r q t (s, bound false) = (
    unbind_task s q.params.task_id r,
    fail_turn t (settle_now t (unreachable q) (s.heap r).usage),
  )
  after_dispatch r q t (s, bound true) = (s, streaming s r t)

  -- `r` is the binding that the executor has made for this turn.
  unfoldable pub begin_turn : Registry → ℕ → Request → Turn → StoreAnswer → Registry × Turn
  unfolding dispatch_guarded after_dispatch
  begin_turn s r q t store =
      let begun = after_dispatch r q t (dispatch_guarded sdk s r q store) in
      if t.closed then (s, t) else begun
