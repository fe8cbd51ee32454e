-- ===== src/Server/CallerContext/Examples.antt =====
-- A caller with one attestation, for an agent that understands v1 only
use vicoop_bridge.Prelude.{◌≡◌, refl, String, true, none, some, List, [], ◌∷◌}
use vicoop_bridge.Protocol.{caller_context_v1_capability}
use vicoop_bridge.Protocol.CallerContext.{CallerAttestation}
use vicoop_bridge.Server.CallerContext.{
  CallerInput, WireCaller, v1, candidate, create_canonical_caller_context, task_caller,
}
use vicoop_bridge.Server.CallerContext.RoundTrip.{is_wire_caller, read_back, task_caller-read_back}

abbrev badge : CallerAttestation
badge = record {
  credential_id = b'c' ∷ [];
  issuer = b'i' ∷ [];
  subject = b's' ∷ [];
  method = b'm' ∷ [];
  assurance = none;
  platform = none;
  observed_invocation = none;
  profile = none;
}

abbrev input : CallerInput
input = record {
  principal_id = some (b'u' ∷ []);
  actor_id = none;
  attestations = some (badge ∷ []);
}

abbrev v1_only : List String
v1_only = caller_context_v1_capability ∷ []

made : create_canonical_caller_context input ≡ some (candidate input)
unfolding create_canonical_caller_context
made = refl

task_caller-read_back_example :
    (wire : WireCaller) × (task_caller v1_only input ≡ some wire)
    × (is_wire_caller wire ≡ true)
    × (read_back wire ≡ some (candidate input))
task_caller-read_back_example =
    task_caller-read_back v1_only v1 input (candidate input) refl made refl
