-- ===== src/Server/UsageRpc/Examples.antt =====
-- Questions of packages/server/src/usage-rpc.ts to one connected agent.
use vicoop_bridge.Prelude.{◌≡◌, refl, [], ◌∷◌, lookup, insert, remove, string_eq}
use vicoop_bridge.Protocol.{null}
use vicoop_bridge.Server.Approvals.{send_to_agent}
use vicoop_bridge.Server.UsageRpc.{
  UsageRpc, usage, resolved, rejected, new_usage_rpc, request_usage, resolve_usage_response,
  settle_usage,
}
use vicoop_bridge.Server.UsageRpc.Once.{
  IsSettledOnce, starts, then_, asks, hears, IsReachable-IsSettledOnce,
}
use vicoop_bridge.Server.Fixtures.{in_flight}

abbrev asked : UsageRpc
asked = request_usage (new_usage_rpc in_flight) "alpha" 10000 "q1"

answered_by_the_agent :
    (resolve_usage_response asked "alpha" "q1" (usage null)).outcomes ≡ ("q1", resolved null) ∷ []
unfolding new_usage_rpc request_usage resolve_usage_response send_to_agent settle_usage lookup
    insert remove
answered_by_the_agent = refl

other_agents_are_not_heard : (resolve_usage_response asked "beta" "q1" (usage null)).outcomes ≡ []
unfolding new_usage_rpc request_usage resolve_usage_response send_to_agent lookup insert
other_agents_are_not_heard = refl

offline :
    (request_usage (new_usage_rpc in_flight) "beta" 10000 "q2").outcomes
    ≡ ("q2", rejected "offline") ∷ []
unfolding new_usage_rpc request_usage send_to_agent settle_usage lookup insert remove
offline = refl

IsReachable-IsSettledOnce_example :
    IsSettledOnce ("q1" ∷ []) (resolve_usage_response asked "alpha" "q1" (usage null))
unfolding new_usage_rpc lookup
IsReachable-IsSettledOnce_example = IsReachable-IsSettledOnce (
    then_ (then_ (starts in_flight) (asks "alpha" 10000 "q1" refl))
      (hears "alpha" "q1" (usage null)))
