-- ===== src/Server/UsageRpc/Once.antt =====
-- Every question of packages/server/src/usage-rpc.ts is answered once.
use vicoop_bridge.Prelude.{
  ℕ, ◌+◌, ◌≡◌, subst, refl, String, Bool, true, false, List, [], ◌∷◌, ◌++◌, ◌==◌, string_eq,
  if◌then◌else◌, lookup, insert, lookup-insert, lookup-remove, is_some, arith, ==_iff, ==_self,
  if_both, option_both, Bool-cases, inl, inr,
}
use vicoop_bridge.Protocol.{DownFrame}
use vicoop_bridge.Server.State.{Registry}
use vicoop_bridge.Server.Approvals.{send_to_agent}
use vicoop_bridge.Server.UsageRpc.{
  PendingUsage, UsageAnswer, UsageOutcome, rejected, UsageRpc, new_usage_rpc, settle_usage,
  request_usage, on_usage_timer, outcome_of, resolve_usage_response,
}

-- How often a request has been settled, and whether it waits
abbrev pub count_settled : String → List (String × UsageOutcome) → ℕ
count_settled id [] = 0
count_settled id ((j, o) ∷ rest) = (if j == id then 1 else 0) + count_settled id rest

abbrev pub count_asked : String → List String → ℕ
count_asked id [] = 0
count_asked id (j ∷ rest) = (if j == id then 1 else 0) + count_asked id rest

abbrev pub is_pending : String → UsageRpc → Bool
is_pending id s = is_some (lookup id s.pending)

-- Every request that was asked either waits or has been settled once.
abbrev pub IsSettledOnce : List String → UsageRpc → Type 0
IsSettledOnce asked s =
    (id : String)
    → count_settled id s.outcomes + (if is_pending id s then 1 else 0) ≡ count_asked id asked

count_settled-append :
    (id : String) (os : List (String × UsageOutcome)) (j : String) (o : UsageOutcome)
    → count_settled id (os ++ (j, o) ∷ []) ≡ count_settled id os + (if j == id then 1 else 0)
count_settled-append id [] j o = omega arith
count_settled-append id ((i, p) ∷ os) j o = omega (arith, count_settled-append id os j o)

settle_usage-IsSettledOnce :
    (asked : List String) (s : UsageRpc) (id : String) (o : UsageOutcome)
    → is_pending id s ≡ true
    → IsSettledOnce asked s
    → IsSettledOnce asked (settle_usage s id o)
unfolding settle_usage
settle_usage-IsSettledOnce asked s id o waits v j = elim (Bool-cases (id == j)) [
  | inl hit ↦
      let waits' : is_pending j s ≡ true =
        subst (λ i. is_pending i s ≡ true) ((==_iff id j).0 hit) waits in
      rw (count_settled-append j s.outcomes id o, lookup-remove id j s.pending)
        (rw hit (omega (arith, rw waits' at (v j))))
  | inr miss ↦
      rw (count_settled-append j s.outcomes id o, lookup-remove id j s.pending)
        (rw miss (omega (arith, v j)))
]

-- One event; a random id is new.
pub data Step (s : UsageRpc) : List String → UsageRpc → Type 0 where
  time_passes : (ms : ℕ) → Step s [] (record s { now = s.now + ms })
  server_acts : (registry : Registry) → Step s [] (record s { registry = registry })
  asks :
      (agent_id : String) (timeout_ms : ℕ) (id : String)
      → is_pending id s ≡ false
      → Step s (id ∷ []) (request_usage s agent_id timeout_ms id)
  times_out : (id : String) → Step s [] (on_usage_timer s id)
  hears :
      (agent_id id : String) (a : UsageAnswer) → Step s [] (resolve_usage_response s agent_id id a)

-- The requests that have been asked, latest first
pub data IsReachable : List String → UsageRpc → Type 0 where
  starts : (registry : Registry) → IsReachable [] (new_usage_rpc registry)
  then_ :
      {asked : List String} {s z : UsageRpc} {ids : List String}
      → IsReachable asked s
      → Step s ids z
      → IsReachable (ids ++ asked) z

asked-IsSettledOnce :
    (asked : List String) (s : UsageRpc) (registry : Registry) (id : String) (p : PendingUsage)
    → is_pending id s ≡ false
    → IsSettledOnce asked s
    → IsSettledOnce (id ∷ asked) (record s { registry = registry; pending = insert id p s.pending })
asked-IsSettledOnce asked s registry id p free v j = elim (Bool-cases (id == j)) [
  | inl hit ↦
      let free' : is_pending j s ≡ false =
        subst (λ i. is_pending i s ≡ false) ((==_iff id j).0 hit) free in
      rw (lookup-insert id j p s.pending) (rw hit (omega (arith, rw free' at (v j))))
  | inr miss ↦ rw (lookup-insert id j p s.pending) (rw miss (omega (arith, v j)))
]

request_usage-IsSettledOnce :
    (asked : List String) (s : UsageRpc) (agent_id : String) (timeout_ms : ℕ) (id : String)
    → is_pending id s ≡ false
    → IsSettledOnce asked s
    → IsSettledOnce (id ∷ asked) (request_usage s agent_id timeout_ms id)
unfolding request_usage
request_usage-IsSettledOnce asked s agent_id timeout_ms id free v =
    if_both (λ (z : UsageRpc). IsSettledOnce (id ∷ asked) z) sent.1 waits
      (settle_usage-IsSettledOnce (id ∷ asked) waiting id (rejected "offline")
        (rw (lookup-insert id id p s.pending, ==_self id) refl) waits)
  where
    sent : Registry × Bool
    sent = send_to_agent s.registry agent_id (DownFrame.usage_request id)

    p : PendingUsage
    p = record { agent_id = agent_id; due = s.now + timeout_ms }

    waiting : UsageRpc
    waiting = record s { registry = sent.0; pending = insert id p s.pending }

    waits : IsSettledOnce (id ∷ asked) waiting
    waits = asked-IsSettledOnce asked s sent.0 id p free v

Step-IsSettledOnce :
    (asked : List String) {ids : List String} {s z : UsageRpc}
    → Step s ids z
    → IsSettledOnce asked s
    → IsSettledOnce (ids ++ asked) z
unfolding on_usage_timer resolve_usage_response
Step-IsSettledOnce asked (time_passes ms) v = v
Step-IsSettledOnce asked (server_acts registry) v = v
Step-IsSettledOnce asked {s = s} (asks agent_id timeout_ms id free) v =
    request_usage-IsSettledOnce asked s agent_id timeout_ms id free v
Step-IsSettledOnce asked {s = s} (times_out id) v =
    option_both (λ (z : UsageRpc). IsSettledOnce asked z) (lookup id s.pending) v
      λ p e.
        if_both (λ (z : UsageRpc). IsSettledOnce asked z) _
          (settle_usage-IsSettledOnce asked s id (rejected "timeout") (rw e refl) v) v
Step-IsSettledOnce asked {s = s} (hears agent_id id a) v =
    option_both (λ (z : UsageRpc). IsSettledOnce asked z) (lookup id s.pending) v
      λ p e.
        if_both (λ (z : UsageRpc). IsSettledOnce asked z) _
          (settle_usage-IsSettledOnce asked s id (outcome_of a) (rw e refl) v) v

-- However questions about usage are asked (each under an id that no waiting request has), answered,
-- timed out or refused because the agent is offline, in any order and at any time, each id has been
-- asked exactly as often as it has been settled, plus once if a request waits under it: a request
-- waits or is settled once, and nothing else is settled.
pub IsReachable-IsSettledOnce :
    {asked : List String} {s : UsageRpc} → IsReachable asked s → IsSettledOnce asked s
unfolding new_usage_rpc lookup
IsReachable-IsSettledOnce (starts registry) = λ id. omega arith
IsReachable-IsSettledOnce (then_ {asked} h step) =
    Step-IsSettledOnce asked step (IsReachable-IsSettledOnce h)
