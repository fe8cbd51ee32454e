-- ===== src/Server/Approvals.antt =====
-- packages/server/src/tool-approvals.ts: a tool approval is scoped to one execution of one task.
-- Its timer callback is in ApprovalTick.antt, behind the registry whose bindings it fails. Audit
-- events are not modelled.
pub mod Decisions
use vicoop_bridge.Prelude.{
  ℕ, ◌+◌, ◌*◌, String, Bool, true, false, ◌&&◌, ◌||◌, Option, none, some, List, [], ◌∷◌, ◌==◌,
  string_eq, nat_eq, option_eq, Eq, leb, ltb, if◌then◌else◌, is_some, get_or, find_first, keep,
  lookup, insert, remove, values, ◌≡◌, ◌↔◌, arith,
}
use vicoop_bridge.Protocol.{ApprovalDecision, allow_once, deny, ApprovalRequest, DownFrame}
use vicoop_bridge.Server.State.{
  TaskBinding, ToolApproval, ToolApprovals, ApprovalState, pending, decided, received,
  ApprovalAuthority, owner, requester, Registry, call_ws, send,
}

abbrev decision_beq : ApprovalDecision → ApprovalDecision → Bool
decision_beq allow_once allow_once = true
decision_beq deny deny = true
decision_beq _ _ = false

pub decision_beq_iff : (c d : ApprovalDecision) → (decision_beq c d ≡ true) ↔ (c ≡ d)
decision_beq_iff c d = ground arith

instance abbrev pub decision_eq : Eq ApprovalDecision
decision_eq = record { same = decision_beq; same_iff = decision_beq_iff }

abbrev authority_beq : ApprovalAuthority → ApprovalAuthority → Bool
authority_beq owner owner = true
authority_beq requester requester = true
authority_beq _ _ = false

pub authority_beq_iff : (c d : ApprovalAuthority) → (authority_beq c d ≡ true) ↔ (c ≡ d)
authority_beq_iff c d = ground arith

instance abbrev pub authority_eq : Eq ApprovalAuthority
authority_eq = record { same = authority_beq; same_iff = authority_beq_iff }

abbrev pub is_pending : ApprovalState → Bool
is_pending pending = true
is_pending _ = false

-- `a.state === 'pending' || a.state === 'decided'`
abbrev pub is_open : ApprovalState → Bool
is_open pending = true
is_open decided = true
is_open _ = false

abbrev pub is_decided : ApprovalState → Bool
is_decided decided = true
is_decided _ = false

-- Registry.getBinding
abbrev pub get_binding : Registry → String → Option ℕ
get_binding s task_id = lookup task_id s.bindings

-- Registry.sendToAgent
unfoldable pub send_to_agent : Registry → String → DownFrame → Registry × Bool
unfolding call_ws
send_to_agent s agent_id frame = elim (lookup agent_id s.agents) [
  | none ↦ (s, false)
  | some conn ↦ (call_ws s conn.ws (send frame), true)
]

-- The live binding of an approval, if its execution is still current.
unfoldable pub live_binding : Registry → ToolApproval → Option ℕ
live_binding s a = elim (get_binding s a.task_id) [
  | none ↦ none
  | some r ↦
      let b = s.heap r in
      if b.agent_id == a.agent_id && b.execution_id == some a.execution_id then some r else none
]

unfoldable pub live : Registry → ToolApproval → Bool
unfolding live_binding
live s a = is_some (live_binding s a)

-- A text that is there and not empty, as `if (text)` tests it.
abbrev pub truthy : Option String → Option String
truthy none = none
truthy (some t) = if t == "" then none else some t

-- `a.executionId === binding.executionId && a.taskId === binding.taskId`
abbrev pub raised_by : TaskBinding → ToolApproval → Bool
raised_by b a = some a.execution_id == b.execution_id && a.task_id == b.task_id

unfoldable pub waiting : ToolApprovals → TaskBinding → Option ToolApproval
waiting p b = find_first (λ a. raised_by b a && is_open a.state) (values p.entries)

-- The approvals that an owner may still decide.
unfoldable pub list : Registry → List ToolApproval
unfolding live
list s = keep (λ a. live s a && is_open a.state) (values s.approvals.entries)

abbrev pub clear : ToolApprovals → String → ToolApprovals
clear p request_id = record p { timers = remove request_id p.timers }

-- The timer of `tick`: one second from now.
abbrev pub arm_tick : ℕ → ToolApprovals → String → ToolApprovals
arm_tick now p request_id = record p {
  timers = insert request_id (now + 1000) (remove request_id p.timers);
}

-- `a` is the object in the map, so a write to it is a write to its entry.
abbrev pub put_entry : ToolApprovals → ToolApproval → ToolApprovals
put_entry p a = record p { entries = insert a.request.request_id a p.entries }

abbrev pub set_approvals : Registry → ToolApprovals → Registry
set_approvals s p = record s { approvals = p }

pub data RequestError : Type 0 where
  requires_replay invalid_expiry too_large duplicate : RequestError

pub data RequestResult : Type 0 where
  requested : Registry → ToolApproval → RequestResult
  refused : RequestError → RequestResult

open_request : Registry → TaskBinding → String → ApprovalRequest → RequestResult
open_request s b execution_id q =
    requested (set_approvals s (arm_tick s.now with_origin q.request_id)) a
  where
    a : ToolApproval
    a = record {
      request = q;
      agent_id = b.agent_id;
      task_id = b.task_id;
      execution_id = execution_id;
      state = pending;
      decision = none;
      decided_by = none;
      decided_via = none;
    }

    with_origin : ToolApprovals
    with_origin = record s.approvals {
      entries = insert q.request_id a s.approvals.entries;
      origins =
          insert q.request_id
            (record {
              principal_id = b.principal_id;
              actor_id = b.actor_id;
              authorization_profile = b.authorization_profile;
              authorization_key = b.authorization_key;
            })
            s.approvals.origins;
    }

unfoldable pub request : Registry → ℕ → ApprovalRequest → RequestResult
unfolding open_request waiting
request s r q = elim (truthy (s.heap r).execution_id) [
  | none ↦ refused requires_replay
  | some execution_id ↦
      if leb q.expires_ms s.now || ltb (s.now + 11 * 60000) q.expires_ms
      then refused invalid_expiry
      else (if ltb 70000 q.json_length
          then refused too_large
          else (if is_some (lookup q.request_id s.approvals.entries)
                || is_some (waiting s.approvals (s.heap r))
              then refused duplicate
              else open_request s (s.heap r) execution_id q))
]

unfoldable pub deliver : Registry → ToolApproval → Registry
unfolding live send_to_agent
deliver s a = elim a.decision [
  | none ↦ s
  | some d ↦
      if live s a
      then (send_to_agent s a.agent_id
          (DownFrame.approval_resolve a.task_id a.execution_id a.request.request_id d)).0
      else s
]

-- A repeated decision of the same principal by the same authority is accepted again.
abbrev same_decision : ToolApproval → ApprovalDecision → String → ApprovalAuthority → Bool
same_decision a d principal via =
    a.decision == some d && a.decided_by == some principal && get_or a.decided_via owner == via

decide_found :
    Registry
    → ToolApproval
    → ApprovalDecision
    → String
    → ApprovalAuthority
    → Registry × Option ToolApproval
unfolding live deliver
decide_found s a d principal via =
    if leb a.request.expires_ms s.now || (if live s a then false else true)
    then (s, none)
    else elim a.state [
      | pending ↦ (deliver (set_approvals s (put_entry s.approvals a')) a', some a')
      | decided ↦ again
      | received ↦ again
      | _ ↦ (s, none)
    ]
  where
    a' : ToolApproval
    a' = record a {
      state = decided;
      decision = some d;
      decided_by = some principal;
      decided_via = some via;
    }

    again : Registry × Option ToolApproval
    again = (s, (if same_decision a d principal via then some a else none))

unfoldable pub decide :
    Registry
    → String
    → ApprovalDecision
    → String
    → ApprovalAuthority
    → Registry × Option ToolApproval
unfolding decide_found
decide s id d principal via = elim (lookup id s.approvals.entries) [
  | none ↦ (s, none)
  | some a ↦ decide_found s a d principal via
]

-- A client may deny locally, but cannot acknowledge an allow that the server never granted.
abbrev may_receive : TaskBinding → ToolApproval → ApprovalDecision → Bool
may_receive b a d =
    raised_by b a
    && a.agent_id == b.agent_id
    && is_open a.state
    && (if d == allow_once then is_decided a.state && a.decision == some allow_once else true)

unfoldable pub acknowledge_received :
    Registry → ℕ → String → ApprovalDecision → Registry × Option ToolApproval
acknowledge_received s r id d = elim (lookup id s.approvals.entries) [
  | none ↦ (s, none)
  | some a ↦
      let a' : ToolApproval = record a { state = received; decision = some d } in
      if may_receive (s.heap r) a d
      then (set_approvals s (clear (put_entry s.approvals a') a.request.request_id), some a')
      else (s, none)
]

-- One round of the loop of `invalidate`: the entry leaves the map, whatever its state.
invalidate_one : TaskBinding → ToolApproval → ToolApprovals → ToolApprovals
invalidate_one b a p =
    if raised_by b a
    then (record {
      entries = remove a.request.request_id p.entries;
      origins = remove a.request.request_id p.origins;
      timers = remove a.request.request_id p.timers;
    })
    else p

invalidate_each : TaskBinding → List ToolApproval → ToolApprovals → ToolApprovals
unfolding invalidate_one
invalidate_each b [] p = p
invalidate_each b (a ∷ rest) p = invalidate_each b rest (invalidate_one b a p)

unfoldable pub invalidate : TaskBinding → ToolApprovals → ToolApprovals
unfolding invalidate_each
invalidate b p = invalidate_each b (values p.entries) p
