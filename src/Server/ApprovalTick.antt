-- ===== src/Server/ApprovalTick.antt =====
-- The timer callback of packages/server/src/tool-approvals.ts: once a second, an approval is found
-- gone, expired, or still waiting.
pub mod Preservation
use vicoop_bridge.Prelude.{String, none, some, leb, if◌then◌else◌, lookup, remove, string_eq}
use vicoop_bridge.Protocol.{deny, DownFrame}
use vicoop_bridge.Server.State.{ToolApproval, expired, Registry, ToolApprovals}
use vicoop_bridge.Server.Approvals.{
  get_binding, send_to_agent, live, is_open, is_decided, clear, arm_tick, put_entry, set_approvals,
  deliver,
}
use vicoop_bridge.Server.Registry.{fail_task_binding}

-- `a.state = 'expired'; a.decision = 'deny'`, and the client is told.
deny_expired : Registry → ToolApproval → Registry
unfolding deliver
deny_expired s a =
    let a' : ToolApproval = record a { state = expired; decision = some deny } in
    let s1 = deliver (set_approvals s (put_entry s.approvals a')) a' in
    set_approvals s1 (clear s1.approvals a.request.request_id)

-- The expiry of an approval ends the execution that waits for it.
end_waiting : Registry → ToolApproval → Registry
unfolding send_to_agent fail_task_binding
end_waiting s a = elim (get_binding s a.task_id) [
  | none ↦ s
  | some r ↦
      fail_task_binding
        (send_to_agent s a.agent_id (DownFrame.task_cancel a.task_id (some a.execution_id))).0 r
        "approval_expired" "Remote tool approval expired"
]

unfoldable pub expire_approval : Registry → ToolApproval → Registry
unfolding deny_expired end_waiting
expire_approval s a = end_waiting (deny_expired s a) a

forget : ToolApprovals → String → ToolApprovals
forget p id = record {
  entries = remove id p.entries;
  origins = remove id p.origins;
  timers = remove id p.timers;
}

-- Arm the next tick.
again : Registry → String → Registry
again s id = set_approvals s (arm_tick s.now s.approvals id)

tick : Registry → ToolApproval → Registry
unfolding live forget expire_approval deliver again
tick s a =
    if live s a
    then (if is_open a.state
        then (if leb a.request.expires_ms s.now
            then expire_approval s a
            else again (if is_decided a.state then deliver s a else s) a.request.request_id)
        else s)
    else set_approvals s (forget s.approvals a.request.request_id)

-- The tick of a request whose time has come: a timer fires once.
unfoldable pub on_tick : Registry → (request_id : String) → Registry
unfolding tick
on_tick s id = elim (lookup id s.approvals.timers) [
  | none ↦ s
  | some due ↦ elim (lookup id s.approvals.entries) [
    | none ↦ s
    | some a ↦ if leb due s.now then tick (set_approvals s (clear s.approvals id)) a else s
  ]
]
