-- ===== src/Server/ApprovalTick/Preservation.antt =====
-- The decisions and the ticks of packages/server/src/tool-approvals.ts and the soundness of the
-- registry.
use vicoop_bridge.Prelude.{
  String, some, leb, lookup, string_eq, Option-cases, inl, inr, arith, if_both, if◌then◌else◌,
}
use vicoop_bridge.Protocol.{ApprovalDecision, deny}
use vicoop_bridge.Server.State.{ToolApproval, expired, ApprovalAuthority, Registry}
use vicoop_bridge.Server.Approvals.{
  live, is_open, is_decided, deliver, decide, set_approvals, clear, put_entry,
}
use vicoop_bridge.Server.ApprovalTick.{
  deny_expired, end_waiting, expire_approval, again, tick, on_tick,
}
use vicoop_bridge.Server.Registry.Sound.{IsSound}
use vicoop_bridge.Server.Registry.Operations.{fail_task_binding-IsSound}
use vicoop_bridge.Server.Acceptance.Preservation.{
  SameTables, SameTables-IsSound, send_to_agent-SameTables,
}

deliver-SameTables : (s : Registry) (a : ToolApproval) → SameTables s (deliver s a)
unfolding deliver
deliver-SameTables s a = ground arith

decide-SameTables :
    (s : Registry) (id principal : String) (d : ApprovalDecision) (via : ApprovalAuthority)
    → SameTables s (decide s id d principal via).0
unfolding decide
decide-SameTables s id principal d via = ground arith

pub decide-IsSound :
    (s : Registry) (id principal : String) (d : ApprovalDecision) (via : ApprovalAuthority)
    → IsSound s
    → IsSound (decide s id d principal via).0
decide-IsSound s id principal d via = SameTables-IsSound (decide-SameTables s id principal d via)

deny_expired-IsSound : (s : Registry) (a : ToolApproval) → IsSound s → IsSound (deny_expired s a)
unfolding deny_expired
deny_expired-IsSound s a v =
    let a' : ToolApproval = record a { state = expired; decision = some deny } in
    SameTables-IsSound (deliver-SameTables (set_approvals s (put_entry s.approvals a')) a') v

end_waiting-IsSound : (s : Registry) (a : ToolApproval) → IsSound s → IsSound (end_waiting s a)
unfolding end_waiting
end_waiting-IsSound s a v = elim (Option-cases (lookup a.task_id s.bindings)) [
  | inl e ↦ rw (e, end_waiting) v
  | inr (r, e) ↦
      rw (e, end_waiting)
        (fail_task_binding-IsSound _ r _ _ (SameTables-IsSound (send_to_agent-SameTables s _ _) v))
]

expire_approval-IsSound :
    (s : Registry) (a : ToolApproval) → IsSound s → IsSound (expire_approval s a)
unfolding expire_approval
expire_approval-IsSound s a v =
    end_waiting-IsSound (deny_expired s a) a (deny_expired-IsSound s a v)

tick-IsSound : (s : Registry) (a : ToolApproval) → IsSound s → IsSound (tick s a)
unfolding tick
tick-IsSound s a v =
    if_both (λ (z : Registry). IsSound z) (live s a)
      (if_both (λ (z : Registry). IsSound z) (is_open a.state)
        (if_both (λ (z : Registry). IsSound z) (leb a.request.expires_ms s.now)
          (expire_approval-IsSound s a v) waits)
        v)
      v
  where
    waits : IsSound (again (if is_decided a.state then deliver s a else s) a.request.request_id)
    waits =
        if_both (λ (z : Registry). IsSound z) (is_decided a.state)
          (SameTables-IsSound (deliver-SameTables s a) v) v

pub on_tick-IsSound : (s : Registry) (id : String) → IsSound s → IsSound (on_tick s id)
unfolding on_tick
on_tick-IsSound s id v = elim (Option-cases (lookup id s.approvals.timers)) [
  | inl e ↦ rw (e, on_tick) v
  | inr (due, e) ↦
      rw (e, on_tick)
        (elim (Option-cases (lookup id s.approvals.entries)) [
          | inl n ↦ rw n v
          | inr (a, n) ↦ rw n (
              if_both (λ (z : Registry). IsSound z) (leb due s.now)
                (tick-IsSound (set_approvals s (clear s.approvals id)) a v) v)
        ])
]
