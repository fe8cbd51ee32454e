-- ===== src/Server/Approvals/Decisions.antt =====
-- What a decision on a tool approval commits to (packages/server/src/tool-approvals.ts).
use vicoop_bridge.Prelude.{
  ℕ, ◌≡◌, String, true, some, arith, ==_iff, string_eq, nat_eq, option_eq, lookup, Bool-cases,
  Option-cases, inl, inr, is_some,
}
use vicoop_bridge.Protocol.{allow_once}
use vicoop_bridge.Server.State.{Registry, ToolApproval, decided, TaskBinding}
use vicoop_bridge.Server.Approvals.{acknowledge_received, may_receive, decision_eq, authority_eq}

may_receive-granted :
    (b : TaskBinding) (a : ToolApproval)
    → may_receive b a allow_once ≡ true
    → (a.state ≡ decided)
      × (a.decision ≡ some allow_once)
      × (some a.execution_id ≡ b.execution_id)
      × (a.agent_id ≡ b.agent_id)
may_receive-granted b a h = ground (
  arith,
  ==_iff a.decision (some allow_once),
  ==_iff (some a.execution_id) b.execution_id,
  ==_iff a.agent_id b.agent_id,
)

-- If a client's acknowledgement of an allowed tool call is taken, then the approval of that request
-- was decided on the server, its decision was to allow, and it belongs to the execution and the
-- agent of the binding that the acknowledgement came for.
pub acknowledge_received-granted :
    (s : Registry) (r : ℕ) (id : String)
    → is_some (acknowledge_received s r id allow_once).1 ≡ true
    → (a : ToolApproval) × (lookup id s.approvals.entries ≡ some a)
      × (a.state ≡ decided)
      × (a.decision ≡ some allow_once)
      × (some a.execution_id ≡ (s.heap r).execution_id)
      × (a.agent_id ≡ (s.heap r).agent_id)
unfolding acknowledge_received
acknowledge_received-granted s r id h = elim (Option-cases (lookup id s.approvals.entries)) [
  | inl e ↦ cc (rw (e, acknowledge_received) at h)
  | inr (a, e) ↦ elim (Bool-cases (may_receive (s.heap r) a allow_once)) [
    | inl yes_ ↦
        let (state, decision, execution, agent) = may_receive-granted (s.heap r) a yes_ in
        (a, e, state, decision, execution, agent)
    | inr no_ ↦ cc (rw no_ at (rw (e, acknowledge_received) at h))
  ]
]
