-- ===== src/Server/UsageRpc.antt =====
-- packages/server/src/usage-rpc.ts: questions about usage to a connected agent, matched to the answers
-- by an id. What the promises came to stands in `outcomes`, oldest first.
pub mod Once
mod Examples
use vicoop_bridge.Prelude.{
  ℕ, ◌+◌, String, Bool, true, false, Option, none, some, List, [], ◌∷◌, ◌++◌, Dict, ◌==◌, string_eq,
  leb, if◌then◌else◌, get_or, lookup, insert, remove,
}
use vicoop_bridge.Protocol.{DownFrame, Json}
use vicoop_bridge.Server.State.{Registry}
use vicoop_bridge.Server.Approvals.{send_to_agent}

pub record PendingUsage : Type 0 where
  pub agent_id : String
  pub due : ℕ  -- when its timer fires

-- What a `usage.response` says; an error may lack its code.
pub data UsageAnswer : Type 0 where
  usage : Json → UsageAnswer
  failed : (code : Option String) → UsageAnswer

-- What a promise came to: the usage, or the code of an error
pub data UsageOutcome : Type 0 where
  resolved : Json → UsageOutcome
  rejected : (code : String) → UsageOutcome

pub record UsageRpc : Type 0 where
  pub now : ℕ
  pub registry : Registry
  pub pending : Dict String PendingUsage
  pub outcomes : List (String × UsageOutcome)

unfoldable pub new_usage_rpc : Registry → UsageRpc
new_usage_rpc registry = record { now = 0; registry = registry; pending = []; outcomes = [] }

-- Settle a request, and forget it.
unfoldable pub settle_usage : UsageRpc → String → UsageOutcome → UsageRpc
unfolding remove
settle_usage s id o = record s {
  pending = remove id s.pending;
  outcomes = s.outcomes ++ (id, o) ∷ [];
}

-- The id is random.
unfoldable pub request_usage :
    UsageRpc → (agent_id : String) → (timeout_ms : ℕ) → (id : String) → UsageRpc
unfolding insert settle_usage send_to_agent
request_usage s agent_id timeout_ms id =
    let sent = send_to_agent s.registry agent_id (DownFrame.usage_request id) in
    let waiting = record s {
      registry = sent.0;
      pending = insert id (record { agent_id = agent_id; due = s.now + timeout_ms }) s.pending;
    } in
    if sent.1 then waiting else settle_usage waiting id (rejected "offline")

unfoldable pub on_usage_timer : UsageRpc → String → UsageRpc
unfolding lookup settle_usage
on_usage_timer s id = elim (lookup id s.pending) [
  | none ↦ s
  | some p ↦ if leb p.due s.now then settle_usage s id (rejected "timeout") else s
]

abbrev pub outcome_of : UsageAnswer → UsageOutcome
outcome_of (usage u) = resolved u
outcome_of (failed code) = rejected (get_or code "usage_failed")

-- Only the agent that was asked may answer.
unfoldable pub resolve_usage_response : UsageRpc → (agent_id id : String) → UsageAnswer → UsageRpc
unfolding lookup settle_usage
resolve_usage_response s agent_id id a = elim (lookup id s.pending) [
  | none ↦ s
  | some p ↦ if p.agent_id == agent_id then settle_usage s id (outcome_of a) else s
]
