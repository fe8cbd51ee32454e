-- ===== src/Server/Principal.antt =====
-- packages/server/src/auth/principal.ts: the entries of `allowed_callers`, and who satisfies them.
-- A text is a list of code points; `toLowerCase` is the parameter `lower`. The attestations of an
-- exchanged token are left out.
pub mod Unverified
mod Examples
use vicoop_bridge.Prelude.{
  ℕ, Bool, true, false, not, ◌&&◌, ◌||◌, Option, none, some, List, [], ◌∷◌, ◌++◌, ◌==◌, nat_eq, leb,
  if◌then◌else◌, length, exists, forall_in,
}
use vicoop_bridge.Protocol.FederatedPrincipal.{
  Text, text_same, strip_prefix, is_empty, is_digit, trim, FederatedPrincipalInput,
  format_federated_principal, parse_federated_principal,
}

pub data ParsedPrincipal : Type 0 where
  eth : (address : Text) → ParsedPrincipal
  google_sub : (sub : Text) → ParsedPrincipal
  google_email : (email : Text) → ParsedPrincipal
  google_domain : (domain : Text) → ParsedPrincipal
  api_key : (key_id : Text) → ParsedPrincipal
  federated : FederatedPrincipalInput → ParsedPrincipal

pub record TokenExchange : Type 0 where
  pub token_id : Text
  pub profile_id : Text
  pub agent_id : Text
  pub resource : Text
  pub actor_id : Text
  pub scopes : List Text
  pub allowed_caller : Text
  pub task_id : Option Text

pub record VerifiedCaller : Type 0 where
  pub principal_id : Text
  pub actor_id : Option Text
  pub token_exchange : Option TokenExchange
  pub email : Option Text
  pub email_verified : Option Bool
  pub hosted_domain : Option Text

abbrev pub eth_prefix : Text
eth_prefix = b'e' ∷ b't' ∷ b'h' ∷ b':' ∷ []

abbrev pub google_prefix : Text
google_prefix = b'g' ∷ b'o' ∷ b'o' ∷ b'g' ∷ b'l' ∷ b'e' ∷ b':' ∷ []

abbrev pub google_sub_prefix : Text
google_sub_prefix = b'g' ∷ b'o' ∷ b'o' ∷ b'g' ∷ b'l' ∷ b'e' ∷ b':' ∷ b's' ∷ b'u' ∷ b'b' ∷ b':' ∷ []

abbrev pub google_email_prefix : Text
google_email_prefix =
    b'g' ∷ b'o' ∷ b'o' ∷ b'g' ∷ b'l' ∷ b'e' ∷ b':' ∷ b'e' ∷ b'm' ∷ b'a' ∷ b'i' ∷ b'l' ∷ b':' ∷ []

abbrev pub google_domain_prefix : Text
google_domain_prefix =
    b'g' ∷ b'o' ∷ b'o' ∷ b'g' ∷ b'l' ∷ b'e' ∷ b':' ∷ b'd' ∷ b'o' ∷ b'm' ∷ b'a' ∷ b'i' ∷ b'n' ∷ b':'
    ∷ []

abbrev pub api_key_prefix : Text
api_key_prefix = b'a' ∷ b'p' ∷ b'i' ∷ b'k' ∷ b'e' ∷ b'y' ∷ b':' ∷ []

abbrev pub is_lower_letter : ℕ → Bool
is_lower_letter c = leb b'a' c && leb c b'z'

abbrev pub is_capital : ℕ → Bool
is_capital c = leb b'A' c && leb c b'Z'

-- `[0-9a-f]` in either case
abbrev pub is_hex : ℕ → Bool
is_hex c = is_digit c || leb b'a' c && leb c b'f' || leb b'A' c && leb c b'F'

-- `^0x[0-9a-f]{40}$` in either case
abbrev pub is_eth_address : Text → Bool
is_eth_address (z ∷ x ∷ s) =
    (z == b'0') && ((x == b'x') || (x == b'X')) && (length s == 40) && forall_in is_hex s
is_eth_address _ = false

abbrev pub is_domain_char : ℕ → Bool
is_domain_char c = is_lower_letter c || is_digit c || (c == b'-')

-- What is left of a domain, after a label that is filled, and after a dot
abbrev pub is_domain_from : (filled dotted : Bool) → Text → Bool
is_domain_from filled dotted [] = filled && dotted
is_domain_from filled dotted (c ∷ s) =
    let dot = c == b'.' in
    let rest = is_domain_from (not dot) (dotted || dot) s in
    (if dot then filled else is_domain_char c) && rest

-- `^[a-z0-9-]+(?:\.[a-z0-9-]+)+$`
abbrev pub is_domain : Text → Bool
is_domain = is_domain_from false false

-- `^[A-Za-z0-9_-]+$`
abbrev pub is_api_key_id : Text → Bool
is_api_key_id s =
    not (is_empty s)
    && forall_in
        (λ c. is_capital c || is_lower_letter c || is_digit c || (c == b'_') || (c == b'-')) s

-- What stands before the first at sign, and after it
abbrev pub split_at_sign : Text → Option (Text × Text)
split_at_sign [] = none
split_at_sign (c ∷ s) =
    let rest = split_at_sign s in
    if c == b'@' then some ([], s) else elim rest [ none ↦ none | some p ↦ some (c ∷ p.0, p.1) ]

-- One at sign, with something before it and after it
abbrev pub is_email : Text → Bool
is_email email = elim (split_at_sign email) [
  | none ↦ false
  | some p ↦ not (exists (λ c. c == b'@') p.1) && not (is_empty p.0) && not (is_empty p.1)
]

abbrev pub parse_google_domain : (lower : Text → Text) → Text → Option ParsedPrincipal
parse_google_domain lower domain =
    if is_empty domain
    then none
    else if is_domain (lower domain)
    then some (google_domain (lower domain))
    else none

abbrev pub parse_federated : Text → Option ParsedPrincipal
parse_federated s = elim (parse_federated_principal s) [ none ↦ none | some p ↦ some (federated p) ]

abbrev pub parse_from_api_key : (lower : Text → Text) → Text → Option ParsedPrincipal
parse_from_api_key lower s = elim (strip_prefix api_key_prefix s) [
  | none ↦ parse_federated s
  | some key_id ↦ if is_api_key_id key_id then some (api_key key_id) else none
]

abbrev pub parse_from_google : (lower : Text → Text) → Text → Option ParsedPrincipal
parse_from_google lower s = elim (strip_prefix google_sub_prefix s) [
  | some sub ↦ if is_empty sub then none else some (google_sub sub)
  | none ↦ elim (strip_prefix google_email_prefix s) [
    | some email ↦ if is_email email then some (google_email (lower email)) else none
    | none ↦ elim (strip_prefix google_domain_prefix s) [
      | some domain ↦ parse_google_domain lower domain
      | none ↦ parse_from_api_key lower s
    ]
  ]
]

-- An empty text has none of the prefixes.
unfoldable pub parse_principal : (lower : Text → Text) → Text → Option ParsedPrincipal
unfolding parse_federated_principal
parse_principal lower s = elim (strip_prefix eth_prefix s) [
  | some address ↦ if is_eth_address address then some (eth (lower address)) else none
  | none ↦ parse_from_google lower s
]

abbrev pub print_principal : ParsedPrincipal → Option Text
print_principal (eth address) = some (eth_prefix ++ address)
print_principal (google_sub sub) = some (google_sub_prefix ++ sub)
print_principal (google_email email) = some (google_email_prefix ++ email)
print_principal (google_domain domain) = some (google_domain_prefix ++ domain)
print_principal (api_key key_id) = some (api_key_prefix ++ key_id)
print_principal (federated p) = format_federated_principal p

-- An Ethereum address may stand alone.
unfoldable pub validate_principal : (lower : Text → Text) → Text → Option Text
unfolding parse_principal format_federated_principal
validate_principal lower raw =
    let trimmed = trim raw in
    if is_eth_address trimmed
    then some (eth_prefix ++ lower trimmed)
    else elim (parse_principal lower trimmed) [ none ↦ none | some p ↦ print_principal p ]

abbrev pub ends_with : (suffix s : Text) → Bool
ends_with suffix [] = text_same suffix []
ends_with suffix (c ∷ s) = let rest = ends_with suffix s in text_same suffix (c ∷ s) || rest

-- `=== true`
abbrev pub is_verified : VerifiedCaller → Bool
is_verified caller = elim caller.email_verified [ none ↦ false | some verified ↦ verified ]

abbrev pub has_domain : (lower : Text → Text) → (domain : Text) → VerifiedCaller → Bool
has_domain lower domain caller =
    (elim caller.hosted_domain [
      | none ↦ false
      | some hosted ↦ not (is_empty hosted) && text_same (lower hosted) domain
    ])
    || (elim caller.email [
      | none ↦ false
      | some email ↦ not (is_empty email) && ends_with (b'@' ∷ domain) (lower email)
    ])

abbrev pub has_email : (lower : Text → Text) → (wanted : Text) → VerifiedCaller → Bool
has_email lower wanted caller = elim caller.email [
  | none ↦ false
  | some email ↦ not (is_empty email) && text_same (lower email) wanted
]

abbrev pub match_parsed :
    (lower : Text → Text) → (entry : Text) → ParsedPrincipal → VerifiedCaller → Bool
match_parsed lower entry (eth address) caller = elim (strip_prefix eth_prefix caller.principal_id) [
  | none ↦ false
  | some caller_address ↦ text_same (lower caller_address) address
]
match_parsed lower entry (google_sub sub) caller =
    text_same caller.principal_id (google_prefix ++ sub)
match_parsed lower entry (google_email email) caller =
    if is_verified caller then has_email lower email caller else false
match_parsed lower entry (google_domain domain) caller =
    if is_verified caller then has_domain lower domain caller else false
match_parsed lower entry (api_key key_id) caller =
    text_same caller.principal_id (api_key_prefix ++ key_id)
match_parsed lower entry (federated p) caller = elim caller.token_exchange [
  | none ↦ false
  | some exchange ↦ text_same exchange.allowed_caller entry
]

unfoldable pub match_principal : (lower : Text → Text) → (entry : Text) → VerifiedCaller → Bool
unfolding parse_principal
match_principal lower entry caller = elim (parse_principal lower entry) [
  | none ↦ false
  | some p ↦ match_parsed lower entry p caller
]
