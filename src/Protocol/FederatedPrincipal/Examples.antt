-- ===== src/Protocol/FederatedPrincipal/Examples.antt =====
-- Names of federated callers of packages/protocol/src/federated-principal.ts.
use vicoop_bridge.Prelude.{◌≡◌, ◌↔◌, refl, some, none, [], ◌∷◌, ◌++◌, nat_eq}
use vicoop_bridge.Protocol.FederatedPrincipal.{
  FederatedPrincipalInput, federated_prefix, did_web, format_federated_principal,
  parse_federated_principal, take_length_prefixed, encode_principal,
}
use vicoop_bridge.Protocol.FederatedPrincipal.RoundTrip.{parse_federated_principal_iff}

-- The issuer `did:web:a`, a method with a colon and a subject outside ASCII
abbrev caller : FederatedPrincipalInput
caller = record {
  issuer = did_web ++ b'a' ∷ [];
  method = b'm' ∷ b':' ∷ b'1' ∷ [];
  subject = 233 ∷ 128512 ∷ [];
}

named : format_federated_principal caller ≡ some (encode_principal caller)
unfolding format_federated_principal
named = refl

parse_federated_principal_iff_example :
    (parse_federated_principal (encode_principal caller) ≡ some caller)
    ↔ (format_federated_principal caller ≡ some (encode_principal caller))
parse_federated_principal_iff_example =
    parse_federated_principal_iff (encode_principal caller) caller

-- A length with a leading zero is not read.
leading_zero : parse_federated_principal (federated_prefix ++ b'0' ∷ b'1' ∷ b':' ∷ b'a' ∷ []) ≡ none
unfolding parse_federated_principal take_length_prefixed
leading_zero = refl
