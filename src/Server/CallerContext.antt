-- ===== src/Server/CallerContext.antt =====
-- packages/server/src/caller-context.ts, and the caller that packages/server/src/executor.ts puts into
-- a task. Whoever calls hands over attestations of the schema's shape, of any length.
pub mod RoundTrip
mod Examples
use vicoop_bridge.Prelude.{
  String, string_eq, Bool, true, false, not, ◌&&◌, ◌||◌, Option, none, some, List, [], ◌∷◌,
  includes, is_some, if◌then◌else◌,
}
use vicoop_bridge.Protocol.{caller_context_v1_capability, caller_context_v2_capability}
use vicoop_bridge.Protocol.FederatedPrincipal.{Text}
use vicoop_bridge.Protocol.CallerContext.{
  CallerAttestation, CallerContextV1, CallerContextV2, is_caller_context_v1, is_caller_context_v2,
}

pub data CallerContextWireVersion : Type 0 where
  v1 v2 : CallerContextWireVersion

abbrev pub select_caller_context_version : List String → Option CallerContextWireVersion
select_caller_context_version capabilities =
    if includes capabilities caller_context_v2_capability
    then some v2
    else if includes capabilities caller_context_v1_capability
    then some v1
    else none

pub record CallerInput : Type 0 where
  pub principal_id : Option Text
  pub actor_id : Option Text
  pub attestations : Option (List CallerAttestation)

abbrev pub unless_none : Option (List CallerAttestation) → Option (List CallerAttestation)
unless_none none = none
unless_none (some []) = none
unless_none (some (a ∷ rest)) = some (a ∷ rest)

-- `isEmpty`
abbrev pub is_empty_context : CallerContextV2 → Bool
is_empty_context c =
    not (is_some c.principal) && not (is_some c.actor) && not (is_some (unless_none c.attestations))

abbrev pub serialize_caller_context_v2 : CallerContextV2 → Option CallerContextV2
serialize_caller_context_v2 c =
    if is_caller_context_v2 c && not (is_empty_context c) then some c else none

abbrev pub candidate : CallerInput → CallerContextV2
candidate input = record {
  principal = input.principal_id;
  actor = input.actor_id;
  attestations = unless_none input.attestations;
}

unfoldable pub create_canonical_caller_context : CallerInput → Option CallerContextV2
create_canonical_caller_context input =
    let c = candidate input in
    if is_caller_context_v2 c && not (is_empty_context c) then some c else none

unfoldable pub canonicalize_caller_context_v1 : CallerContextV1 → Option CallerContextV2
unfolding create_canonical_caller_context
canonicalize_caller_context_v1 c =
    create_canonical_caller_context
      (record { principal_id = c.authenticated; actor_id = none; attestations = c.presented })

abbrev pub as_v1 : CallerContextV2 → CallerContextV1
as_v1 c = record { authenticated = c.principal; presented = unless_none c.attestations }

-- v1 has no place for an actor.
unfoldable pub serialize_caller_context_v1 : CallerContextV2 → Option CallerContextV1
serialize_caller_context_v1 c =
    let w = as_v1 c in
    if not (is_some c.actor)
      && is_caller_context_v1 w
      && (is_some w.authenticated || is_some (unless_none w.presented))
    then some w
    else none

pub data WireCaller : Type 0 where
  in_v1 : CallerContextV1 → WireCaller
  in_v2 : CallerContextV2 → WireCaller

abbrev pub wrap {ℓ} : {A : Type ℓ} → (A → WireCaller) → Option A → Option WireCaller
wrap f none = none
wrap f (some a) = some (f a)

unfoldable pub serialize_caller_context :
    Option CallerContextV2 → Option CallerContextWireVersion → Option WireCaller
unfolding serialize_caller_context_v1
serialize_caller_context (some c) (some v2) = wrap in_v2 (serialize_caller_context_v2 c)
serialize_caller_context (some c) (some v1) = wrap in_v1 (serialize_caller_context_v1 c)
serialize_caller_context _ _ = none

abbrev pub has_caller_input : CallerInput → Bool
has_caller_input input =
    is_some input.principal_id || is_some input.actor_id || is_some (unless_none input.attestations)

-- The caller of a task for an agent of these capabilities
unfoldable pub task_caller : List String → CallerInput → Option WireCaller
unfolding create_canonical_caller_context serialize_caller_context
task_caller capabilities input =
    let version = select_caller_context_version capabilities in
    serialize_caller_context
      (if is_some version && has_caller_input input
        then create_canonical_caller_context input
        else none)
      version
