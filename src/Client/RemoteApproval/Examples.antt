-- ===== src/Client/RemoteApproval/Examples.antt =====
-- The broker of packages/client/src/remote-approval.ts with one request.
use vicoop_bridge.Prelude.{
  ◌≡◌, refl, true, false, none, some, [], ◌∷◌, lookup, insert, remove, values, string_eq, nat_eq,
}
use vicoop_bridge.Protocol.{null, allow_once, deny}
use vicoop_bridge.Client.RemoteApproval.{
  ApprovalRun, ToolCall, RemoteApprovalBroker, new_broker, request, resolve,
}
use vicoop_bridge.Client.RemoteApproval.Decisions.{
  IsDenial, IsAnswered, asks, hears, Step-IsAnswered,
}
use vicoop_bridge.Client.RemoteApproval.Single.{IsSingle, starts, then_, IsReachable-IsSingle}

abbrev task_run : ApprovalRun
task_run = record { task_id = "t1"; execution_id = some "e1"; enabled = true; lifecycle = 0 }

abbrev shell : ToolCall
shell = record { tool_name = "shell"; tool_name_length = 5; input = some null; input_bytes = 4 }

abbrev asked : RemoteApprovalBroker
asked = (request (λ ms. "later") (new_broker 600000) task_run shell "q1" false false false).0

allowed : (resolve asked "t1" "e1" "q1" allow_once false).answers ≡ ("q1", allow_once) ∷ []
unfolding new_broker request resolve lookup insert remove values
allowed = refl

-- A second request of the execution is denied, and so is a decision that names another task.
denied_at_once : (request (λ ms. "later") asked task_run shell "q2" false false false).1 ≡ some deny
unfolding new_broker request lookup insert remove values
denied_at_once = refl

unheard : (resolve asked "t2" "e1" "q1" allow_once false).answers ≡ []
unfolding new_broker request resolve lookup insert remove values
unheard = refl

Step-IsAnswered_example :
    IsDenial none
    × IsAnswered asked
        (some ("t1", "e1", "q1", allow_once))
        (resolve asked "t1" "e1" "q1" allow_once false)
Step-IsAnswered_example = Step-IsAnswered {s = asked} (hears "t1" "e1" "q1" allow_once false)

IsReachable-IsSingle_example : IsSingle asked.pending
IsReachable-IsSingle_example =
    IsReachable-IsSingle {timeout_ms = 600000}
      (then_ starts (asks (λ ms. "later") task_run shell "q1" false false false))
