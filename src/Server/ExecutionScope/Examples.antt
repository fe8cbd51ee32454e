-- ===== src/Server/ExecutionScope/Examples.antt =====
-- Execution scopes of packages/server/src/execution-scope.ts at concrete callers.
use vicoop_bridge.Prelude.{◌≡◌, ◌⊎◌, refl, none, some, [], ◌∷◌, ◌++◌, nat_eq, string_eq, option_eq}
use vicoop_bridge.Protocol.{
  task_replay_capability, caller_context_v2_capability, execution_scope_v1_capability,
  federated_execution_scope_v1_capability,
}
use vicoop_bridge.Protocol.FederatedPrincipal.{
  Text, FederatedPrincipalInput, did_web, encode_principal, parse_federated_principal,
}
use vicoop_bridge.Server.Connection.{supports_execution_scope_v1}
use vicoop_bridge.Server.ExecutionScope.{
  ScopeInput, oauth_federation_profile, scope_of, resolve_execution_scope,
}
use vicoop_bridge.Server.ExecutionScope.Preimage.{execution_scope_preimage-injective}
use vicoop_bridge.Server.ExecutionScope.Authority.{
  IsDirect, IsHandoff, resolve_execution_scope-authority,
}

-- Sixteen, and then sixty-four, digits
abbrev sixteen : Text → Text
sixteen s =
    b'a' ∷ b'0' ∷ b'a' ∷ b'1' ∷ b'a' ∷ b'2' ∷ b'a' ∷ b'3' ∷ b'a' ∷ b'4' ∷ b'a' ∷ b'5' ∷ b'a' ∷ b'6'
    ∷ b'a' ∷ b'7' ∷ s

abbrev hash : Text → Text
hash s = sixteen (sixteen (sixteen (sixteen [])))

abbrev agent : Text
agent = b'a' ∷ b'b' ∷ []

abbrev tuple : FederatedPrincipalInput
tuple = record { issuer = did_web ++ b'a' ∷ []; method = b'm' ∷ []; subject = b'u' ∷ [] }

abbrev handoff : ScopeInput
handoff = record {
  agent_id = agent;
  principal_id = some (b'u' ∷ []);
  actor_id = some (did_web ++ b'a' ∷ []);
  authorization_key = some (encode_principal tuple);
  authorization_profile = some oauth_federation_profile;
  capabilities = some (
      task_replay_capability ∷ caller_context_v2_capability ∷ execution_scope_v1_capability
      ∷ federated_execution_scope_v1_capability ∷ []);
}

opened : resolve_execution_scope hash handoff ≡ some (scope_of hash agent (encode_principal tuple))
unfolding resolve_execution_scope supports_execution_scope_v1 parse_federated_principal
opened = refl

resolve_execution_scope-authority_example :
    IsDirect handoff (scope_of hash agent (encode_principal tuple))
    ⊎ IsHandoff handoff (scope_of hash agent (encode_principal tuple))
resolve_execution_scope-authority_example =
    resolve_execution_scope-authority handoff (scope_of hash agent (encode_principal tuple)) hash
      opened

-- The name of a federated caller is refused as the id of a direct one.
refused :
    resolve_execution_scope hash (record {
      agent_id = agent;
      principal_id = some (encode_principal tuple);
      actor_id = none;
      authorization_key = none;
      authorization_profile = none;
      capabilities = handoff.capabilities;
    })
    ≡ none
unfolding resolve_execution_scope supports_execution_scope_v1 parse_federated_principal
refused = refl

execution_scope_preimage-injective_example : (agent ≡ agent) × (agent ≡ agent)
execution_scope_preimage-injective_example =
    execution_scope_preimage-injective agent agent agent agent refl
