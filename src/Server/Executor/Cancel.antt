-- ===== src/Server/Executor/Cancel.antt =====
-- `cancel` of packages/server/src/executor.ts, and what it does to the queue of a stream.
--
-- The binding's sink is the queue, so that `binding.sink.pushStatus` and `finish` are `push` and `end`.
use vicoop_bridge.Prelude.{
  ℕ, ◌≡◌, refl, String, Bool, true, false, not, ◌==◌, string_eq, Option, none, some, [], ◌∷◌, ◌++◌,
  if◌then◌else◌, is_some, Bool-cases, inl, inr, arith,
}
use vicoop_bridge.Protocol.{canceled, instant, A2xStatus, DownFrame}
use vicoop_bridge.Server.State.{StatusEvent, Registry, call_sink, push_status, finish}
use vicoop_bridge.Server.Approvals.{get_binding, send_to_agent}
use vicoop_bridge.Server.EventQueue.{AsyncEventQueue, is_shut, push, end, abort, next}
use vicoop_bridge.Server.Payments.{GateParams, Sdk}
use vicoop_bridge.Server.Executor.Stream.{Task}

abbrev pub canceled_status : GateParams → A2xStatus
canceled_status at = record { state = canceled; timestamp = some (instant at.now); message = none }

abbrev pub cancel_event : GateParams → StatusEvent
cancel_event at = record {
  task_id = at.task_id;
  context_id = at.context_id;
  final = true;
  status = canceled_status at;
  metadata = none;
}

-- Tell the client, and end the stream with the canceled status. The Boolean is whether the task
-- could be canceled.
unfoldable pub cancel_bound :
    Registry → (agent_id : String) → GateParams → Option ℕ → Registry × Bool
unfolding send_to_agent call_sink
cancel_bound s agent_id at none =
    ((send_to_agent s agent_id (DownFrame.task_cancel at.task_id none)).0, true)
cancel_bound s agent_id at (some r) =
    let told =
      (send_to_agent s agent_id (DownFrame.task_cancel at.task_id (s.heap r).execution_id)).0 in
    if not ((s.heap r).agent_id == agent_id)
    then (s, false)
    else (call_sink (call_sink told r (push_status (cancel_event at))) r finish, true)

unfoldable pub cancel_current :
    Sdk → Registry → (agent_id : String) → GateParams → Task → Registry × Bool
unfolding cancel_bound
cancel_current sdk s agent_id at stored =
    if sdk.is_terminal stored.status.state
    then (s, false)
    else cancel_bound s agent_id at (get_binding s at.task_id)

module _ {ℓ κ} {T : Type ℓ} {E : Type κ} where
  -- The canceled status, the end, and then the abort
  unfoldable pub cancel_queue : AsyncEventQueue T E → T → AsyncEventQueue T E
  unfolding push end abort
  cancel_queue q event = abort (end (push q event))

  -- When a stream is canceled while its queue is open, the generator yields the canceled status
  -- exactly if it was waiting at that moment; one that was busy ends without it at the next read.
  pub cancel_queue-received :
      (q : AsyncEventQueue T E) (event : T)
      → is_shut q ≡ false
      → (next (cancel_queue q event)).received
        ≡ (if q.waiter then q.received ++ event ∷ [] else q.received)
  unfolding cancel_queue push end abort next
  cancel_queue-received q event live =
      let still_open : q.closed ≡ false = ground arith in
      elim (Bool-cases q.waiter) [
        | inl waits ↦ elim (Bool-cases (is_some q.ending)) [
          | inl ended ↦ rw live (rw waits (rw still_open (rw ended refl)))
          | inr runs ↦ rw live (rw waits (rw still_open (rw runs refl)))
        ]
        | inr busy ↦ elim (Bool-cases (is_some q.ending)) [
          | inl ended ↦ rw live (rw busy (rw still_open (rw ended refl)))
          | inr runs ↦ rw live (rw busy (rw still_open (rw runs refl)))
        ]
      ]
