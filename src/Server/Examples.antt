-- ===== src/Server/Examples.antt =====
-- The theorems on packages/server/src at concrete registries, agents and frames.
use vicoop_bridge.Prelude.{
  ℕ, ◌≡◌, ◌≢◌, refl, true, false, none, some, Option, lookup, insert, nat_eq, string_eq, option_eq,
  arith,
}
use vicoop_bridge.Protocol.{pong, task_complete, completed, allow_once}
use vicoop_bridge.Server.State.{ToolApproval, decided, owner, new_registry}
use vicoop_bridge.Server.Registry.{bind_task, unregister_agent, is_graceable_close_code}
use vicoop_bridge.Server.Registry.Sound.{IsSound}
use vicoop_bridge.Server.Registry.Hold.{IsHeld}
use vicoop_bridge.Server.Registry.Release.{IsReleased}
use vicoop_bridge.Server.Registry.Disconnect.{unregister_agent-IsHeld, unregister_agent-IsReleased}
use vicoop_bridge.Server.Acceptance.{accepted, accept_task_frame}
use vicoop_bridge.Server.Acceptance.Effect.{IsResumed, accept_task_frame-IsResumed}
use vicoop_bridge.Server.Acceptance.Laws.{IsAcceptable, accept_task_frame-IsAcceptable}
use vicoop_bridge.Server.Acceptance.Once.{IsOfExecution, accept_task_frame-once}
use vicoop_bridge.Server.Approvals.{acknowledge_received}
use vicoop_bridge.Server.Approvals.Decisions.{acknowledge_received-granted}
use vicoop_bridge.Server.Connection.{ClientRow, on_message, authenticate_and_register}
use vicoop_bridge.Server.Connection.Authority.{
  SameTasks, on_message-unauthenticated, authenticate_and_register-owner,
}
use vicoop_bridge.Server.Reachable.{starts, then_, binds, message, IsReachable-IsSound}
use vicoop_bridge.Server.AgentIds.{is_reserved_agent_id}
use vicoop_bridge.Server.Fixtures.{
  task, client, in_flight, peer, frame, connection, greeting, row, in_flight-IsSound,
}

accepted_in_order : (accept_task_frame peer in_flight (frame 2)).1 ≡ accepted 0
unfolding accept_task_frame lookup
accepted_in_order = refl

accept_task_frame-IsAcceptable_example : IsAcceptable peer in_flight (frame 2) 0
accept_task_frame-IsAcceptable_example =
    accept_task_frame-IsAcceptable peer in_flight (frame 2) 0 accepted_in_order

accept_task_frame-IsResumed_example :
    ((accept_task_frame peer in_flight (frame 2)).1 ≡ accepted 0)
    × IsResumed in_flight (frame 2) 0 (accept_task_frame peer in_flight (frame 2)).0
unfolding lookup
accept_task_frame-IsResumed_example =
    accept_task_frame-IsResumed peer in_flight (frame 2) 0 in_flight-IsSound
      (record { bound = refl; owner = refl; execution = refl; seq = refl })

accept_task_frame-once_example :
    (accept_task_frame peer (accept_task_frame peer in_flight (frame 2)).0 (frame 2)).1 ≢ accepted 0
accept_task_frame-once_example =
    accept_task_frame-once peer peer in_flight (frame 2) 0 0 "e1" refl accepted_in_order

frame-IsOfExecution : (n : ℕ) → IsOfExecution peer in_flight (frame n) 0 "e1" n
unfolding lookup
frame-IsOfExecution n = record {
  bound = refl;
  owner = refl;
  replayable = refl;
  execution = refl;
  seq = refl;
}

unregister_agent-IsHeld_example :
    IsHeld "alpha" in_flight (unregister_agent in_flight "alpha" 7 (some 1006))
unfolding lookup is_graceable_close_code
unregister_agent-IsHeld_example =
    unregister_agent-IsHeld in_flight "alpha" client (some 1006) refl refl (omega arith)
      in_flight-IsSound

unregister_agent-IsReleased_example :
    IsReleased "alpha" in_flight (unregister_agent in_flight "alpha" 7 (some 1000))
unfolding lookup is_graceable_close_code
unregister_agent-IsReleased_example =
    unregister_agent-IsReleased in_flight "alpha" client (some 1000) refl refl in_flight-IsSound

IsReachable-IsSound_example :
    IsSound
      (on_message (bind_task (new_registry 30000 (λ r. task)) 0).0 connection true (some pong)).0
unfolding new_registry
IsReachable-IsSound_example =
    IsReachable-IsSound {grace_ms = 30000} {heap = λ r. task}
      (then_ (then_ starts (binds 0 refl)) (message connection true (some pong)))

acknowledge_received-granted_example :
    (a : ToolApproval) × (lookup "q1" in_flight.approvals.entries ≡ some a)
    × (a.state ≡ decided)
    × (a.decision ≡ some allow_once)
    × (some a.execution_id ≡ (in_flight.heap 0).execution_id)
    × (a.agent_id ≡ (in_flight.heap 0).agent_id)
unfolding acknowledge_received lookup insert
acknowledge_received-granted_example = acknowledge_received-granted in_flight 0 "q1" refl

on_message-unauthenticated_example :
    SameTasks in_flight
      (on_message in_flight connection true (
        some (
          task_complete
            (frame 2)
            (record { state = completed; message = none; timestamp = none })
            none))).0
on_message-unauthenticated_example =
    on_message-unauthenticated in_flight connection true
      (some (
        task_complete (frame 2) (record { state = completed; message = none; timestamp = none })
          none))
      refl

authenticate_and_register-owner_example :
    (is_reserved_agent_id "alpha" ≡ false)
    × (r : ClientRow) × (◌≡◌ {A = Option ClientRow} (some row) (some r))
    × (r.id ≡ "alpha")
unfolding authenticate_and_register lookup is_reserved_agent_id
authenticate_and_register-owner_example =
    authenticate_and_register-owner in_flight 9 greeting (some row) refl
