-- ===== src/Server/ExecutionScope.antt =====
-- packages/server/src/execution-scope.ts, and the policy and the hash preimage of
-- packages/protocol/src/federated-principal.ts.
--
-- `sha256` is the hash of a text's bytes as hexadecimal digits.
pub mod Preimage
pub mod Authority
mod Examples
use vicoop_bridge.Prelude.{
  ℕ, zero, suc, ◌+◌, ◌/◌, ◌%◌, String, Bool, true, false, not, ◌&&◌, ◌||◌, Option, none, some, List,
  [], ◌∷◌, ◌++◌, ◌==◌, nat_eq, string_eq, option_eq, ltb, leb, if◌then◌else◌, is_some, get_or,
  length, includes, forall_in,
}
use vicoop_bridge.Protocol.{federated_execution_scope_v1_capability}
use vicoop_bridge.Protocol.FederatedPrincipal.{
  Text, text_same, utf16_length, is_empty, FederatedPrincipalInput, parse_federated_principal,
}
use vicoop_bridge.Server.Connection.{supports_execution_scope_v1}

pub data Policy : Type 0 where
  direct_principal_v1 federated_principal_v1 : Policy

abbrev pub policy_text : Policy → Text
policy_text direct_principal_v1 =
    b'd' ∷ b'i' ∷ b'r' ∷ b'e' ∷ b'c' ∷ b't' ∷ b'-' ∷ b'p' ∷ b'r' ∷ b'i' ∷ b'n' ∷ b'c' ∷ b'i' ∷ b'p'
    ∷ b'a' ∷ b'l' ∷ b'-' ∷ b'v' ∷ b'1' ∷ []
policy_text federated_principal_v1 =
    b'f' ∷ b'e' ∷ b'd' ∷ b'e' ∷ b'r' ∷ b'a' ∷ b't' ∷ b'e' ∷ b'd' ∷ b'-' ∷ b'p' ∷ b'r' ∷ b'i' ∷ b'n'
    ∷ b'c' ∷ b'i' ∷ b'p' ∷ b'a' ∷ b'l' ∷ b'-' ∷ b'v' ∷ b'1' ∷ []

unfoldable pub execution_scope_policy : Text → Policy
unfolding parse_federated_principal
execution_scope_policy principal_id = elim (parse_federated_principal principal_id) [
  | none ↦ direct_principal_v1
  | some _ ↦ federated_principal_v1
]

abbrev pub hex_digit : ℕ → ℕ
hex_digit d = if ltb d 10 then 48 + d else 87 + d

-- `\uXXXX`
abbrev pub unicode_escape : ℕ → Text
unicode_escape c =
    b'\\'
    ∷ b'u'
    ∷ hex_digit (c / 4096)
    ∷ hex_digit (c / 256 % 16)
    ∷ hex_digit (c / 16 % 16)
    ∷ hex_digit (c % 16)
    ∷ []

-- A character of a JSON string; a surrogate on its own is escaped.
abbrev pub json_char : ℕ → Text
json_char c =
    if c == 34
    then b'\\' ∷ 34 ∷ []
    else if c == 92
    then b'\\' ∷ 92 ∷ []
    else if c == 8
    then b'\\' ∷ b'b' ∷ []
    else if c == 9
    then b'\\' ∷ b't' ∷ []
    else if c == 10
    then b'\\' ∷ b'n' ∷ []
    else if c == 12
    then b'\\' ∷ b'f' ∷ []
    else if c == 13
    then b'\\' ∷ b'r' ∷ []
    else if ltb c 32 || leb 55296 c && leb c 57343
    then unicode_escape c
    else c ∷ []

-- The rest of a JSON string with its closing quote, and what follows
abbrev pub close_string : Text → Text → Text
close_string [] after = 34 ∷ after
close_string (c ∷ s) after = json_char c ++ close_string s after

abbrev pub json_string : Text → Text → Text
json_string s after = 34 ∷ close_string s after

-- `vicoop-execution-scope`
abbrev pub scope_tag : Text
scope_tag =
    b'v' ∷ b'i' ∷ b'c' ∷ b'o' ∷ b'o' ∷ b'p' ∷ b'-' ∷ b'e' ∷ b'x' ∷ b'e' ∷ b'c' ∷ b'u' ∷ b't' ∷ b'i'
    ∷ b'o' ∷ b'n' ∷ b'-' ∷ b's' ∷ b'c' ∷ b'o' ∷ b'p' ∷ b'e' ∷ []

-- The JSON array of the tag, the policy, the agent and the principal
unfoldable pub execution_scope_preimage : (agent_id principal_id : Text) → Text
unfolding execution_scope_policy
execution_scope_preimage agent_id principal_id =
    b'['
    ∷ json_string scope_tag (
        b','
        ∷ json_string (policy_text (execution_scope_policy principal_id))
            (b',' ∷ json_string agent_id (b',' ∷ json_string principal_id (b']' ∷ []))))

-- `authorization_profile` is a text that is only compared.
pub record ScopeInput : Type 0 where
  pub agent_id : Text
  pub principal_id : Option Text
  pub actor_id : Option Text
  pub authorization_key : Option Text
  pub authorization_profile : Option String
  pub capabilities : Option (List String)

pub record ExecutionScope : Type 0 where
  pub policy : Policy
  pub id : Text
  pub agent_id : Text
  pub principal_id : Text

abbrev pub oauth_federation_profile : String
oauth_federation_profile = "https://mentionable.dev/ns/oauth-federation/v0.1"

-- `!value` of an optional text
abbrev pub is_missing : Option Text → Bool
is_missing none = true
is_missing (some s) = is_empty s

abbrev pub is_same : Text → Option Text → Bool
is_same s none = false
is_same s (some t) = text_same s t

-- Does the tuple of an authorization key name this actor and this principal?
abbrev pub is_handoff : FederatedPrincipalInput → ScopeInput → Bool
is_handoff tuple input =
    is_same tuple.issuer input.actor_id && is_same tuple.subject input.principal_id

-- Is this key given by an authenticated OAuth handoff?
abbrev pub is_key : ScopeInput → Text → Bool
is_key input key =
    includes (get_or input.capabilities []) federated_execution_scope_v1_capability
    && (input.authorization_profile == some oauth_federation_profile)
    && not (is_empty key)

abbrev pub key_of_tuple : ScopeInput → Text → FederatedPrincipalInput → Option Text
key_of_tuple input key tuple = if is_handoff tuple input then some key else none

unfoldable pub handoff_key : ScopeInput → Text → Option Text
unfolding parse_federated_principal
handoff_key input key =
    if not (is_key input key) then none else elim (parse_federated_principal key) [
      | none ↦ none
      | some tuple ↦ key_of_tuple input key tuple
    ]

unfoldable pub federated_principal_id : ScopeInput → Option Text
unfolding handoff_key
federated_principal_id input = elim input.authorization_key [
  | none ↦ none
  | some key ↦ handoff_key input key
]

-- A direct identity may not be the name of a federated one.
unfoldable pub direct_principal_id : Text → Option Text
unfolding parse_federated_principal
direct_principal_id principal_id =
    if is_some (parse_federated_principal principal_id) then none else some principal_id

abbrev pub is_delegated : ScopeInput → Bool
is_delegated input =
    is_some input.actor_id || is_some input.authorization_key || is_some input.authorization_profile

-- The principal that a scope is for
unfoldable pub scope_principal_id : ScopeInput → Option Text
unfolding federated_principal_id direct_principal_id
scope_principal_id input =
    if not (supports_execution_scope_v1 (get_or input.capabilities []))
      || is_missing input.principal_id
    then none
    else if is_delegated input
    then federated_principal_id input
    else direct_principal_id (get_or input.principal_id [])

abbrev pub is_hex : ℕ → Bool
is_hex c = (leb b'a' c && leb c b'f') || leb b'0' c && leb c b'9'

-- The schema of a scope: `min(1)` and `max(512)` count UTF-16 units.
abbrev pub is_id_text : Text → Bool
is_id_text s = not (is_empty s) && leb (utf16_length s) 512

abbrev pub is_scope : ExecutionScope → Bool
is_scope s =
    (length s.id == 64)
    && forall_in is_hex s.id
    && is_id_text s.agent_id
    && is_id_text s.principal_id

-- `safeParse`
abbrev pub checked_scope : ExecutionScope → Option ExecutionScope
checked_scope scope = if is_scope scope then some scope else none

unfoldable pub scope_of : (sha256 : Text → Text) → (agent_id principal_id : Text) → ExecutionScope
unfolding execution_scope_policy execution_scope_preimage
scope_of sha256 agent_id principal_id = record {
  policy = execution_scope_policy principal_id;
  id = sha256 (execution_scope_preimage agent_id principal_id);
  agent_id = agent_id;
  principal_id = principal_id;
}

unfoldable pub resolve_execution_scope : (sha256 : Text → Text) → ScopeInput → Option ExecutionScope
unfolding scope_principal_id scope_of
resolve_execution_scope sha256 input = elim (scope_principal_id input) [
  | none ↦ none
  | some principal_id ↦ checked_scope (scope_of sha256 input.agent_id principal_id)
]
