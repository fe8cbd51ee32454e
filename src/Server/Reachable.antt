-- ===== src/Server/Reachable.antt =====
-- The events that packages/server/src/ws.ts and the executor put to the registry, as steps of a
-- relation, and the registries that any interleaving of them reaches.
use vicoop_bridge.Prelude.{
  ℕ, ◌+◌, ◌≡◌, ◌≢◌, String, Bool, true, false, some, Option, nat_eq, string_eq, lookup, if_both,
}
use vicoop_bridge.Protocol.{ApprovalDecision, HelloFrame, UpFrame}
use vicoop_bridge.Server.State.{ApprovalAuthority, TaskBinding, Registry, new_registry, update}
use vicoop_bridge.Server.Registry.{
  bind_task, unbind_task, fail_task_binding, fire_timer, disconnect_client,
}
use vicoop_bridge.Server.Connection.{
  Connection, LookupResult, on_message, on_authenticated, on_close, on_hello_timeout, on_error,
}
use vicoop_bridge.Server.Registry.Sound.{is_finished, IsSound, write_unowned-Sound}
use vicoop_bridge.Server.Registry.Operations.{
  bind_task-IsSound, unbind_task-IsSound, fail_task_binding-IsSound, fire_timer-IsSound,
  disconnect_client-IsSound,
}
use vicoop_bridge.Server.Approvals.{decide}
use vicoop_bridge.Server.ApprovalTick.{on_tick}
use vicoop_bridge.Server.ApprovalTick.Preservation.{decide-IsSound, on_tick-IsSound}
use vicoop_bridge.Server.Connection.Preservation.{
  on_message-IsSound, on_authenticated-IsSound, on_close-IsSound,
}

-- One event. A socket's events come in any order, whatever the state of its connection.
pub data Step (s : Registry) : Registry → Type 0 where
  time_passes : (ms : ℕ) → Step s (record s { now = s.now + ms })
  -- The executor makes a binding object, at a reference that nothing is bound to.
  creates :
      (r : ℕ) (b : TaskBinding)
      → ((t : String) → lookup t s.bindings ≢ some r)
      → Step s (record s { heap = update s.heap r b })
  binds : (r : ℕ) → is_finished (s.heap r).sink ≡ false → Step s (bind_task s r).0
  unbinds : (t : String) (r : ℕ) → Step s (unbind_task s t r)
  fails : (r : ℕ) (code message : String) → Step s (fail_task_binding s r code message)
  timer_fires : (id : ℕ) → Step s (fire_timer s id)
  decides :
      (id principal : String) (d : ApprovalDecision) (via : ApprovalAuthority)
      → Step s (decide s id d principal via).0
  approval_ticks : (id : String) → Step s (on_tick s id)
  disconnects : (client_id : String) → Step s (disconnect_client s client_id).0
  message :
      (c : Connection) (is_open : Bool) (m : Option UpFrame) → Step s (on_message s c is_open m).0
  authenticated :
      (c : Connection) (is_open : Bool) (f : HelloFrame) (l : LookupResult)
      → Step s (on_authenticated s c is_open f l).0
  closed : (c : Connection) (code : ℕ) → Step s (on_close s c code).0
  hello_times_out : (c : Connection) → Step s (on_hello_timeout s c).0
  errs : (c : Connection) (oversized : Bool) → Step s (on_error s c oversized).0

pub data IsReachable (grace_ms : ℕ) (heap : ℕ → TaskBinding) : Registry → Type 0 where
  starts : IsReachable grace_ms heap (new_registry grace_ms heap)
  then_ : {s s' : Registry} → IsReachable grace_ms heap s → Step s s' → IsReachable grace_ms heap s'

Step-IsSound : {s s' : Registry} → Step s s' → IsSound s → IsSound s'
unfolding on_hello_timeout on_error
Step-IsSound (time_passes ms) v = v
Step-IsSound {s} (creates r b h) v = write_unowned-Sound v r b h
Step-IsSound {s} (binds r o) v = bind_task-IsSound s r o v
Step-IsSound {s} (unbinds t r) v = unbind_task-IsSound s t r v
Step-IsSound {s} (fails r code text_) v = fail_task_binding-IsSound s r code text_ v
Step-IsSound {s} (timer_fires id) v = fire_timer-IsSound s id v
Step-IsSound {s} (decides id principal d via) v = decide-IsSound s id principal d via v
Step-IsSound {s} (approval_ticks id) v = on_tick-IsSound s id v
Step-IsSound {s} (disconnects client_id) v = disconnect_client-IsSound s client_id v
Step-IsSound {s} (message c is_open m) v = on_message-IsSound s c is_open m v
Step-IsSound {s} (authenticated c is_open f l) v = on_authenticated-IsSound s c is_open f l v
Step-IsSound {s} (closed c code) v = on_close-IsSound s c code v
Step-IsSound {s} (hello_times_out c) v =
    if_both (λ (z : Registry × Connection). IsSound z.0) c.authed v v
Step-IsSound {s} (errs c true) v = v
Step-IsSound {s} (errs c false) v = v

new_registry-IsSound :
    (grace_ms : ℕ) (heap : ℕ → TaskBinding) → IsSound (new_registry grace_ms heap)
unfolding new_registry lookup
new_registry-IsSound grace_ms heap = record {
  distinct = tt;
  keyed = λ t r h. cc;
  streaming = λ t r h. cc;
  held = λ t r h. cc;
  timed = λ t r h. cc;
  armed = λ t r h. cc;
  fresh = λ t r h. cc;
}

-- In every registry that any sequence of events reaches from an empty one (socket messages, hellos,
-- closes, timers, approval decisions and ticks, task bindings and their releases, the passing of
-- time), a task id is bound to at most one object, which carries that task id and whose stream is
-- open; every grace hold is on the binding that its task id is bound to and has an armed timer; and
-- every armed timer is that of such a hold.
pub IsReachable-IsSound :
    {grace_ms : ℕ} {heap : ℕ → TaskBinding} {s : Registry} → IsReachable grace_ms heap s → IsSound s
IsReachable-IsSound {grace_ms} {heap} starts = new_registry-IsSound grace_ms heap
IsReachable-IsSound (then_ h step) = Step-IsSound step (IsReachable-IsSound h)
