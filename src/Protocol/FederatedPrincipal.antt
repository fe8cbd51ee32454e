-- ===== src/Protocol/FederatedPrincipal.antt =====
-- packages/protocol/src/federated-principal.ts: the name of a federated caller.
--
-- A text is the list of the code points that `for (const ch of text)` visits. It has fewer bytes in
-- UTF-8 and units in UTF-16 than 2 ^ 53.
pub mod Decimal
pub mod RoundTrip
mod Examples
use vicoop_bridge.Prelude.{
  ℕ, zero, suc, ◌+◌, ◌-◌, ◌*◌, ◌/◌, ◌%◌, ◌^◌, Bool, true, false, not, ◌&&◌, ◌||◌, Option, none,
  some, List, [], ◌∷◌, ◌++◌, ◌==◌, nat_eq, ltb, leb, if◌then◌else◌, length, exists, forall_in,
}

abbrev pub Text : Type 0
Text = List ℕ

-- `===` on texts
abbrev pub text_same : Text → Text → Bool
text_same [] [] = true
text_same (c ∷ s) (d ∷ t) = let rest = text_same s t in (c == d) && rest
text_same _ _ = false

pub record FederatedPrincipalInput : Type 0 where
  pub issuer : Text
  pub method : Text
  pub subject : Text

abbrev pub char_utf8_length : ℕ → ℕ
char_utf8_length c = if ltb c 128 then 1 else if ltb c 2048 then 2 else if ltb c 65536 then 3 else 4

abbrev pub utf8_length : Text → ℕ
utf8_length [] = 0
utf8_length (c ∷ s) = char_utf8_length c + utf8_length s

-- `text.length`
abbrev pub utf16_length : Text → ℕ
utf16_length [] = 0
utf16_length (c ∷ s) = (if ltb c 65536 then 1 else 2) + utf16_length s

-- `federated:v1:`
abbrev pub federated_prefix : Text
federated_prefix =
    b'f' ∷ b'e' ∷ b'd' ∷ b'e' ∷ b'r' ∷ b'a' ∷ b't' ∷ b'e' ∷ b'd' ∷ b':' ∷ b'v' ∷ b'1' ∷ b':' ∷ []

-- `did:web:`
abbrev pub did_web : Text
did_web = b'd' ∷ b'i' ∷ b'd' ∷ b':' ∷ b'w' ∷ b'e' ∷ b'b' ∷ b':' ∷ []

abbrev pub max_federated_principal_bytes : ℕ
max_federated_principal_bytes = 512

-- What is left of a text that starts with a prefix
abbrev pub strip_prefix : Text → Text → Option Text
strip_prefix [] t = some t
strip_prefix (c ∷ s) [] = none
strip_prefix (c ∷ s) (d ∷ t) = let rest = strip_prefix s t in if c == d then rest else none

abbrev pub starts_with : Text → Text → Bool
starts_with s t = elim (strip_prefix s t) [ none ↦ false | some _ ↦ true ]

-- `\s`, which are also the characters that `trim` takes off
abbrev pub is_space : ℕ → Bool
is_space c =
    (leb 9 c && leb c 13)
    || (c == 32)
    || (c == 160)
    || (c == 5760)
    || (leb 8192 c && leb c 8202)
    || (c == 8232)
    || (c == 8233)
    || (c == 8239)
    || (c == 8287)
    || (c == 12288)
    || (c == 65279)

abbrev pub trim_start : Text → Text
trim_start [] = []
trim_start (c ∷ s) = let rest = trim_start s in if is_space c then rest else c ∷ s

abbrev pub is_empty : Text → Bool
is_empty [] = true
is_empty (c ∷ s) = false

abbrev pub trim_end : Text → Text
trim_end [] = []
trim_end (c ∷ s) = let rest = trim_end s in if is_empty rest && is_space c then [] else c ∷ rest

abbrev pub trim : Text → Text
trim s = trim_end (trim_start s)

abbrev pub is_digit : ℕ → Bool
is_digit c = leb b'0' c && leb c b'9'

-- `${n}`: a number has no more digits than its value plus one.
abbrev pub digits_from : (fuel n : ℕ) → Text
digits_from zero n = []
digits_from (suc fuel) n =
    let more = digits_from fuel (n / 10) in
    if ltb n 10 then (b'0' + n) ∷ [] else more ++ (b'0' + n % 10) ∷ []

abbrev pub digits : ℕ → Text
digits n = digits_from (suc n) n

-- The value of a text of digits that comes after `acc`
abbrev pub value_from : ℕ → Text → ℕ
value_from acc [] = acc
value_from acc (c ∷ s) = value_from (acc * 10 + (c - b'0')) s

-- `^(?:0|[1-9][0-9]*)$`
abbrev pub is_length : Text → Bool
is_length [] = false
is_length (c ∷ s) = (is_empty s && (c == b'0')) || leb b'1' c && leb c b'9' && forall_in is_digit s

abbrev pub max_safe_integer : ℕ
max_safe_integer = 2 ^ 53 - 1

-- What stands before the first colon, and after it
abbrev pub split_colon : Text → Option (Text × Text)
split_colon [] = none
split_colon (c ∷ s) =
    let rest = split_colon s in
    if c == b':' then some ([], s) else elim rest [ none ↦ none | some p ↦ some (c ∷ p.0, p.1) ]

-- The loop that consumes `n` bytes of whole characters
abbrev pub take_bytes : ℕ → Text → Option (Text × Text)
take_bytes n [] = if n == 0 then some ([], []) else none
take_bytes n (c ∷ s) =
    let rest = take_bytes (n - char_utf8_length c) s in
    if n == 0
    then some ([], c ∷ s)
    else if ltb n (char_utf8_length c)
    then none
    else elim rest [ none ↦ none | some p ↦ some (c ∷ p.0, p.1) ]

abbrev pub take_body : (raw_length body : Text) → Option (Text × Text)
take_body raw_length body =
    let byte_length = value_from 0 raw_length in
    let taken = take_bytes byte_length body in
    if not (is_length raw_length)
    then none
    else if ltb max_safe_integer byte_length || leb byte_length 0
    then none
    else taken

unfoldable pub take_length_prefixed : Text → Option (Text × Text)
take_length_prefixed input = elim (split_colon input) [ none ↦ none | some p ↦ take_body p.0 p.1 ]

abbrev pub component : Text → Text
component s = digits (utf8_length s) ++ b':' ∷ s

abbrev pub encode_principal : FederatedPrincipalInput → Text
encode_principal p =
    federated_prefix ++ component p.issuer ++ component p.method ++ component p.subject

abbrev pub is_trimmed : Text → Bool
is_trimmed s = text_same (trim s) s

-- The parts that have a name
abbrev pub is_formattable : FederatedPrincipalInput → Bool
is_formattable p =
    is_trimmed p.issuer
    && is_trimmed p.method
    && is_trimmed p.subject
    && starts_with did_web p.issuer
    && not (is_empty p.method)
    && not (is_empty p.subject)
    && not (exists is_space p.issuer)
    && leb (utf16_length p.issuer) 512
    && leb (utf16_length p.method) 256
    && leb (utf16_length p.subject) 512
    && leb (utf8_length (encode_principal p)) max_federated_principal_bytes

unfoldable pub format_federated_principal : FederatedPrincipalInput → Option Text
format_federated_principal p = if is_formattable p then some (encode_principal p) else none

-- `canonical === value`
unfoldable pub if_canonical : Text → FederatedPrincipalInput → Option FederatedPrincipalInput
unfolding format_federated_principal
if_canonical value p = elim (format_federated_principal p) [
  | none ↦ none
  | some canonical ↦ if text_same canonical value then some p else none
]

unfoldable pub parse_subject : (value issuer method : Text) → Text → Option FederatedPrincipalInput
unfolding take_length_prefixed if_canonical
parse_subject value issuer method rest = elim (take_length_prefixed rest) [
  | none ↦ none
  | some p ↦
      if is_empty p.1
      then if_canonical value (record { issuer = issuer; method = method; subject = p.0 })
      else none
]

unfoldable pub parse_method : (value issuer : Text) → Text → Option FederatedPrincipalInput
unfolding take_length_prefixed parse_subject
parse_method value issuer rest = elim (take_length_prefixed rest) [
  | none ↦ none
  | some p ↦ parse_subject value issuer p.0 p.1
]

unfoldable pub parse_issuer : (value : Text) → Text → Option FederatedPrincipalInput
unfolding take_length_prefixed parse_method
parse_issuer value rest = elim (take_length_prefixed rest) [
  | none ↦ none
  | some p ↦ parse_method value p.0 p.1
]

unfoldable pub parse_federated_principal : Text → Option FederatedPrincipalInput
unfolding parse_issuer
parse_federated_principal value = elim (strip_prefix federated_prefix value) [
  | none ↦ none
  | some rest ↦ parse_issuer value rest
]
