-- ===== src/Server/ExecutionScope/Authority.antt =====
-- For which principal `resolveExecutionScope` of packages/server/src/execution-scope.ts opens a scope.
use vicoop_bridge.Prelude.{
  ◌≡◌, ◌∙◌, sym, ap, refl, ◌⊎◌, inl, inr, true, false, not, ◌||◌, Option, none, some, [], string_eq,
  option_eq, is_some, get_or, arith, ==_iff, Bool-cases, Option-cases, if_not, and_both, if_some,
  option_from,
}
use vicoop_bridge.Protocol.FederatedPrincipal.{
  Text, FederatedPrincipalInput, parse_federated_principal,
}
use vicoop_bridge.Protocol.FederatedPrincipal.RoundTrip.{text_same_of}
use vicoop_bridge.Server.Connection.{supports_execution_scope_v1}
use vicoop_bridge.Server.ExecutionScope.{
  direct_principal_v1, federated_principal_v1, execution_scope_policy, ScopeInput, ExecutionScope,
  oauth_federation_profile, is_missing, is_same, is_handoff, federated_principal_id,
  direct_principal_id, is_key, key_of_tuple, handoff_key, checked_scope, is_delegated,
  scope_principal_id, is_scope, scope_of, resolve_execution_scope,
}

-- A caller that was not delegated, under its own id
pub record IsDirect (input : ScopeInput) (scope : ExecutionScope) : Type 0 where
  pub principal : input.principal_id ≡ some scope.principal_id
  pub undelegated : is_delegated input ≡ false
  pub policy : scope.policy ≡ direct_principal_v1

-- The tuple of an OAuth handoff, whose issuer is the actor and whose subject is the principal
pub record IsHandoff (input : ScopeInput) (scope : ExecutionScope) : Type 0 where
  pub tuple : FederatedPrincipalInput
  pub parsed : parse_federated_principal scope.principal_id ≡ some tuple
  pub key : input.authorization_key ≡ some scope.principal_id
  pub profile : input.authorization_profile ≡ some oauth_federation_profile
  pub actor : input.actor_id ≡ some tuple.issuer
  pub principal : input.principal_id ≡ some tuple.subject
  pub policy : scope.policy ≡ federated_principal_v1

is_same-lem : (s : Text) (o : Option Text) → is_same s o ≡ true → o ≡ some s
is_same-lem s none h = cc
is_same-lem s (some t) h = ap some (sym (text_same_of s t h))

execution_scope_policy-some :
    (p : Text) (tuple : FederatedPrincipalInput)
    → parse_federated_principal p ≡ some tuple
    → execution_scope_policy p ≡ federated_principal_v1
unfolding execution_scope_policy
execution_scope_policy-some p tuple h = rw (h, execution_scope_policy) refl

execution_scope_policy-none :
    (p : Text)
    → is_some (parse_federated_principal p) ≡ false
    → execution_scope_policy p ≡ direct_principal_v1
unfolding execution_scope_policy
execution_scope_policy-none p h = elim (Option-cases (parse_federated_principal p)) [
  | inl e ↦ rw (e, execution_scope_policy) refl
  | inr (tuple, e) ↦ cc (rw e at h)
]

is_missing-lem : (o : Option Text) → is_missing o ≡ false → o ≡ some (get_or o [])
is_missing-lem none h = cc
is_missing-lem (some p) h = refl

module _ (input : ScopeInput) (scope : ExecutionScope) where
  handoff_key-IsHandoff :
      (key : Text)
      → input.authorization_key ≡ some key
      → handoff_key input key ≡ some scope.principal_id
      → scope.policy ≡ execution_scope_policy scope.principal_id
      → IsHandoff input scope
  unfolding handoff_key
  handoff_key-IsHandoff key has_key h policy =
      let (is_one, found) = if_not (not (is_key input key)) _ scope.principal_id h in
      let (tuple, parsed, rest) =
        option_from (parse_federated_principal key) (key_of_tuple input key) scope.principal_id
          found in
      let (handed, same) = if_some (is_handoff tuple input) key scope.principal_id rest in
      let both =
        and_both (is_same tuple.issuer input.actor_id) (is_same tuple.subject input.principal_id)
          handed in
      let parsed' : parse_federated_principal scope.principal_id ≡ some tuple =
        ap parse_federated_principal same ∙ parsed in
      record {
        tuple = tuple;
        parsed = parsed';
        key = has_key ∙ ap some (sym same);
        profile =
            ground
              (arith, is_one, ==_iff input.authorization_profile (some oauth_federation_profile));
        actor = is_same-lem tuple.issuer input.actor_id both.0;
        principal = is_same-lem tuple.subject input.principal_id both.1;
        policy = policy ∙ execution_scope_policy-some scope.principal_id tuple parsed';
      }

  federated_principal_id-IsHandoff :
      federated_principal_id input ≡ some scope.principal_id
      → scope.policy ≡ execution_scope_policy scope.principal_id
      → IsHandoff input scope
  unfolding federated_principal_id
  federated_principal_id-IsHandoff h policy =
      let (key, has_key, rest) =
        option_from input.authorization_key (handoff_key input) scope.principal_id h in
      handoff_key-IsHandoff key has_key rest policy

  direct_principal_id-IsDirect :
      (p : Text)
      → input.principal_id ≡ some p
      → is_delegated input ≡ false
      → direct_principal_id p ≡ some scope.principal_id
      → scope.policy ≡ execution_scope_policy scope.principal_id
      → IsDirect input scope
  unfolding direct_principal_id execution_scope_policy
  direct_principal_id-IsDirect p has undelegated h policy =
      let (unnamed, found) =
        if_not (is_some (parse_federated_principal p)) (some p) scope.principal_id h in
      let same : p ≡ scope.principal_id = some_same found in
      record {
        principal = has ∙ ap some same;
        undelegated = undelegated;
        policy =
            policy ∙ ap execution_scope_policy (sym same) ∙ execution_scope_policy-none p unnamed;
      }
    where
      some_same : {a b : Text} → some a ≡ some b → a ≡ b
      some_same e = cc

  scope_principal_id-lem :
      scope_principal_id input ≡ some scope.principal_id
      → scope.policy ≡ execution_scope_policy scope.principal_id
      → IsDirect input scope ⊎ IsHandoff input scope
  unfolding scope_principal_id
  scope_principal_id-lem h policy =
      let (present, found) =
        if_not
          (not (supports_execution_scope_v1 (get_or input.capabilities []))
            || is_missing input.principal_id)
          _ scope.principal_id h in
      elim (Bool-cases (is_delegated input)) [
        | inl delegated ↦ inr (federated_principal_id-IsHandoff (rw delegated at found) policy)
        | inr undelegated ↦ inl (
            direct_principal_id-IsDirect (get_or input.principal_id [])
              (is_missing-lem input.principal_id (ground (arith, present))) undelegated
              (rw undelegated at found) policy)
      ]

  -- An execution scope is opened either for a caller that was not delegated, under its own id and
  -- with the policy for direct callers; or for the tuple that the key of an OAuth handoff names,
  -- whose issuer is the authenticated actor and whose subject is the principal, with the policy for
  -- federated callers.
  pub resolve_execution_scope-authority :
      (sha256 : Text → Text)
      → resolve_execution_scope sha256 input ≡ some scope
      → IsDirect input scope ⊎ IsHandoff input scope
  unfolding resolve_execution_scope
  resolve_execution_scope-authority sha256 h =
      let (p, opened, found) =
        option_from (scope_principal_id input)
          (λ p. checked_scope (scope_of sha256 input.agent_id p)) scope h in
      let (valid, same) =
        if_some (is_scope (scope_of sha256 input.agent_id p)) (scope_of sha256 input.agent_id p)
          scope found in
      let own : p ≡ scope.principal_id = ap (λ (z : ExecutionScope). z.principal_id) (sym same) in
      scope_principal_id-lem (opened ∙ ap some own)
        (ap (λ (z : ExecutionScope). z.policy) same ∙ ap execution_scope_policy own)
