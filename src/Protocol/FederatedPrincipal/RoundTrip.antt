-- ===== src/Protocol/FederatedPrincipal/RoundTrip.antt =====
-- `formatFederatedPrincipal` and `parseFederatedPrincipal` of
-- packages/protocol/src/federated-principal.ts are inverse to each other.
use mathlib.Core.List.{append-nil, append_assoc}
use vicoop_bridge.Prelude.{
  ℕ, ◌+◌, ◌-◌, ◌≤◌, ◌<◌, ◌≡◌, ◌∙◌, ◌↔◌, sym, ap, subst, refl, Bool, true, false, not, ◌&&◌, ◌||◌,
  Option, none, some, [], ◌∷◌, ◌++◌, nat_eq, ltb, leb, if◌then◌else◌, forall_in, arith, ==_iff,
  ==_self, exists, option_at, option_from, if_some, if_else,
}
use vicoop_bridge.Protocol.FederatedPrincipal.{
  Text, text_same, FederatedPrincipalInput, char_utf8_length, utf8_length, federated_prefix,
  strip_prefix, is_empty, is_digit, digits, value_from, is_length, max_safe_integer, split_colon,
  take_bytes, take_body, take_length_prefixed, component, encode_principal, is_formattable,
  is_trimmed, is_space, utf16_length, format_federated_principal, if_canonical, parse_subject,
  parse_method, parse_issuer, parse_federated_principal, did_web, starts_with,
  max_federated_principal_bytes,
}
use vicoop_bridge.Protocol.FederatedPrincipal.Decimal.{
  digits-IsLength, value_from-digits, digits-all,
}

text_same_self : (s : Text) → text_same s s ≡ true
text_same_self [] = refl
text_same_self (c ∷ s) = rw (==_self c, text_same_self s) refl

pub text_same_of : (s t : Text) → text_same s t ≡ true → s ≡ t
text_same_of [] [] h = refl
text_same_of [] (d ∷ t) h = cc
text_same_of (c ∷ s) [] h = cc
text_same_of (c ∷ s) (d ∷ t) h =
    let head : c ≡ d = ground (arith, ==_iff c d, h) in
    let tail : s ≡ t = text_same_of s t (ground (arith, h)) in
    ap (λ e. e ∷ s) head ∙ ap (λ u. d ∷ u) tail

-- The loop takes exactly the characters whose bytes it counts.
take_bytes-append : (s t : Text) → take_bytes (utf8_length s) (s ++ t) ≡ some (s, t)
take_bytes-append [] [] = refl
take_bytes-append [] (c ∷ t) = refl
take_bytes-append (c ∷ s) t =
    let rest : take_bytes (char_utf8_length c + utf8_length s - char_utf8_length c) (s ++ t)
        ≡ some (s, t) =
      ap (λ n. take_bytes n (s ++ t)) (omega arith) ∙ take_bytes-append s t in
    ground (arith, rest)

split_colon-append :
    (s t : Text) → forall_in is_digit s ≡ true → split_colon (s ++ b':' ∷ t) ≡ some (s, t)
split_colon-append [] t h = refl
split_colon-append (c ∷ s) t h =
    ground (arith, h, split_colon-append s t (ground (arith, h)), ==_iff c b':')

utf8_length-positive : (s : Text) → is_empty s ≡ false → 0 < utf8_length s
utf8_length-positive [] h = cc
utf8_length-positive (c ∷ s) h = ground arith

take_body-digits :
    (s t : Text)
    → 0 < utf8_length s
    → utf8_length s ≤ max_safe_integer
    → take_body (digits (utf8_length s)) (s ++ t) ≡ some (s, t)
take_body-digits s t positive le =
    let n : ℕ = utf8_length s in
    if_else (λ z. z ≡ some (s, t)) (not (is_length (digits n))) none
      (ground (arith, digits-IsLength n positive))
      (if_else (λ z. z ≡ some (s, t))
        (ltb max_safe_integer (value_from 0 (digits n)) || leb (value_from 0 (digits n)) 0) none
        (ground (arith, value_from-digits n, positive, le))
        (ap (λ m. take_bytes m (s ++ t)) (value_from-digits n) ∙ take_bytes-append s t))

take_length_prefixed-split :
    (input raw_length body : Text)
    → split_colon input ≡ some (raw_length, body)
    → take_length_prefixed input ≡ take_body raw_length body
unfolding take_length_prefixed
take_length_prefixed-split input raw_length body e =
    option_at (λ z. z ≡ take_body raw_length body) (split_colon input) none (λ p. take_body p.0 p.1)
      e refl

-- What `component` writes is taken off again.
take_length_prefixed-component :
    (s t : Text)
    → is_empty s ≡ false
    → utf8_length s ≤ max_safe_integer
    → take_length_prefixed (component s ++ t) ≡ some (s, t)
take_length_prefixed-component s t h le =
    let positive = utf8_length-positive s h in
    ap take_length_prefixed (append_assoc (digits (utf8_length s)) (b':' ∷ s) t)
    ∙ take_length_prefixed-split (digits (utf8_length s) ++ b':' ∷ (s ++ t))
        (digits (utf8_length s)) (s ++ t)
        (split_colon-append (digits (utf8_length s)) (s ++ t) (digits-all (utf8_length s) positive))
    ∙ take_body-digits s t positive le

leb_le : (a b : ℕ) → leb a b ≡ true → a ≤ b
leb_le a b h = ground (arith, h)

not-true : (b : Bool) → not b ≡ true → b ≡ false
not-true true h = cc
not-true false h = refl

conditions :
    (a b c did method subject d e f g short : Bool)
    → (a && b && c && did && method && subject && d && e && f && g && short) ≡ true
    → (did ≡ true) × (method ≡ true) × (subject ≡ true) × (short ≡ true)
conditions a b c did method subject d e f g short h =
    (ground (arith, h), ground (arith, h), ground (arith, h), ground (arith, h))

format_federated_principal-lem :
    (p : FederatedPrincipalInput) (value : Text)
    → format_federated_principal p ≡ some value
    → (is_formattable p ≡ true) × (value ≡ encode_principal p)
unfolding format_federated_principal
format_federated_principal-lem p value h = if_some (is_formattable p) (encode_principal p) value h

if_canonical-formatted :
    (p : FederatedPrincipalInput) (value : Text)
    → format_federated_principal p ≡ some value
    → if_canonical value p ≡ some p
unfolding if_canonical
if_canonical-formatted p value h =
    option_at (λ z. z ≡ some p) (format_federated_principal p) none
      (λ canonical. if text_same canonical value then some p else none) h
      (rw (text_same_self value) refl)

-- The conditions that the parser needs of the parts
record IsEncodable (p : FederatedPrincipalInput) : Type 0 where
  has_issuer : is_empty p.issuer ≡ false
  has_method : is_empty p.method ≡ false
  has_subject : is_empty p.subject ≡ false
  small_issuer : utf8_length p.issuer ≤ max_safe_integer
  small_method : utf8_length p.method ≤ max_safe_integer
  small_subject : utf8_length p.subject ≤ max_safe_integer

utf8_length-append : (s t : Text) → utf8_length (s ++ t) ≡ utf8_length s + utf8_length t
utf8_length-append [] t = omega arith
utf8_length-append (c ∷ s) t = omega (arith, utf8_length-append s t)

starts_with-did_web : (s : Text) → starts_with did_web s ≡ true → is_empty s ≡ false
starts_with-did_web [] h = cc
starts_with-did_web (c ∷ s) h = refl

component-le : (s : Text) → utf8_length s ≤ utf8_length (component s)
component-le s = omega (arith, utf8_length-append (digits (utf8_length s)) (b':' ∷ s))

encode_principal_assoc :
    (p : FederatedPrincipalInput)
    → encode_principal p
      ≡ federated_prefix ++ (component p.issuer ++ (component p.method ++ component p.subject))
encode_principal_assoc p =
    append_assoc (federated_prefix ++ component p.issuer) (component p.method) (component p.subject)
    ∙ append_assoc federated_prefix (component p.issuer) (component p.method ++ component p.subject)

encode_principal-length :
    (p : FederatedPrincipalInput)
    → utf8_length p.issuer + utf8_length p.method + utf8_length p.subject
      ≤ utf8_length (encode_principal p)
encode_principal-length p =
    let i = component p.issuer in
    let m = component p.method in
    let s = component p.subject in
    omega (
      arith,
      ap utf8_length (encode_principal_assoc p),
      utf8_length-append federated_prefix (i ++ (m ++ s)),
      utf8_length-append i (m ++ s),
      utf8_length-append m s,
      component-le p.issuer,
      component-le p.method,
      component-le p.subject,
    )

is_formattable-IsEncodable : (p : FederatedPrincipalInput) → is_formattable p ≡ true → IsEncodable p
is_formattable-IsEncodable p h =
    let (did, method, subject, short) =
      conditions (is_trimmed p.issuer) (is_trimmed p.method) (is_trimmed p.subject)
        (starts_with did_web p.issuer) (not (is_empty p.method)) (not (is_empty p.subject))
        (not (exists is_space p.issuer)) (leb (utf16_length p.issuer) 512)
        (leb (utf16_length p.method) 256) (leb (utf16_length p.subject) 512)
        (leb (utf8_length (encode_principal p)) max_federated_principal_bytes) h in
    let le : utf8_length (encode_principal p) ≤ 512 =
      leb_le (utf8_length (encode_principal p)) 512 short in
    let sum = encode_principal-length p in
    record {
      has_issuer = starts_with-did_web p.issuer did;
      has_method = not-true (is_empty p.method) method;
      has_subject = not-true (is_empty p.subject) subject;
      small_issuer = omega (arith, le, sum);
      small_method = omega (arith, le, sum);
      small_subject = omega (arith, le, sum);
    }

parse_encoded :
    (p : FederatedPrincipalInput) (value : Text)
    → IsEncodable p
    → format_federated_principal p ≡ some value
    → value ≡ encode_principal p
    → parse_federated_principal value ≡ some p
unfolding parse_federated_principal parse_issuer parse_method parse_subject
parse_encoded p value v h e =
    let i = component p.issuer in
    let m = component p.method in
    let s = component p.subject in
    let stripped : strip_prefix federated_prefix value ≡ some (i ++ (m ++ s)) =
      ap (strip_prefix federated_prefix) (e ∙ encode_principal_assoc p) in
    let issuer = take_length_prefixed-component p.issuer (m ++ s) v.has_issuer v.small_issuer in
    let method = take_length_prefixed-component p.method s v.has_method v.small_method in
    let subject : take_length_prefixed s ≡ some (p.subject, []) =
      ap take_length_prefixed (sym (append-nil s))
      ∙ take_length_prefixed-component p.subject [] v.has_subject v.small_subject in
    option_at (λ z. z ≡ some p) (strip_prefix federated_prefix value) none (parse_issuer value)
      stripped
      (option_at (λ z. z ≡ some p) (take_length_prefixed (i ++ (m ++ s))) none
        (λ q. parse_method value q.0 q.1) issuer
        (option_at (λ z. z ≡ some p) (take_length_prefixed (m ++ s)) none
          (λ q. parse_subject value p.issuer q.0 q.1) method
          (option_at (λ z. z ≡ some p) (take_length_prefixed s) none
            (λ q.
              if is_empty q.1
              then if_canonical value
                  (record { issuer = p.issuer; method = p.method; subject = q.0 })
              else none)
            subject (if_canonical-formatted p value h))))

if_canonical-lem :
    (value : Text) (q p : FederatedPrincipalInput)
    → if_canonical value q ≡ some p
    → format_federated_principal p ≡ some value
unfolding if_canonical
if_canonical-lem value q p h =
    let (canonical, formatted, same) =
      option_from (format_federated_principal q)
        (λ canonical. if text_same canonical value then some q else none) p h in
    let (equal, found) = if_some (text_same canonical value) q p same in
    subst (λ z. format_federated_principal z ≡ some value) (sym found)
      (formatted ∙ ap some (text_same_of canonical value equal))

parse_subject-lem :
    (value issuer method rest : Text) (p : FederatedPrincipalInput)
    → parse_subject value issuer method rest ≡ some p
    → format_federated_principal p ≡ some value
unfolding parse_subject
parse_subject-lem value issuer method rest p h =
    let (q, taken, found) =
      option_from (take_length_prefixed rest)
        (λ q.
          if is_empty q.1
          then if_canonical value (record { issuer = issuer; method = method; subject = q.0 })
          else none)
        p h in
    if_canonical-lem value (record { issuer = issuer; method = method; subject = q.0 }) p
      (if_found (is_empty q.1)
        (if_canonical value (record { issuer = issuer; method = method; subject = q.0 })) found)
  where
    if_found :
        (c : Bool) (x : Option FederatedPrincipalInput)
        → (if c then x else none) ≡ some p
        → x ≡ some p
    if_found true x e = e
    if_found false x e = cc

parse_method-lem :
    (value issuer rest : Text) (p : FederatedPrincipalInput)
    → parse_method value issuer rest ≡ some p
    → format_federated_principal p ≡ some value
unfolding parse_method
parse_method-lem value issuer rest p h =
    let (q, taken, found) =
      option_from (take_length_prefixed rest) (λ q. parse_subject value issuer q.0 q.1) p h in
    parse_subject-lem value issuer q.0 q.1 p found

parse_issuer-lem :
    (value rest : Text) (p : FederatedPrincipalInput)
    → parse_issuer value rest ≡ some p
    → format_federated_principal p ≡ some value
unfolding parse_issuer
parse_issuer-lem value rest p h =
    let (q, taken, found) =
      option_from (take_length_prefixed rest) (λ q. parse_method value q.0 q.1) p h in
    parse_method-lem value q.0 q.1 p found

parsed-formatted :
    (value : Text) (p : FederatedPrincipalInput)
    → parse_federated_principal value ≡ some p
    → format_federated_principal p ≡ some value
unfolding parse_federated_principal
parsed-formatted value p h =
    let (rest, stripped, found) =
      option_from (strip_prefix federated_prefix value) (parse_issuer value) p h in
    parse_issuer-lem value rest p found

-- A name is read as a tuple exactly if it is the name that is written for that tuple: what is
-- written is read back, and only canonical names are read.
pub parse_federated_principal_iff :
    (value : Text) (p : FederatedPrincipalInput)
    → (parse_federated_principal value ≡ some p) ↔ (format_federated_principal p ≡ some value)
parse_federated_principal_iff value p = (parsed-formatted value p, formatted)
  where
    formatted : format_federated_principal p ≡ some value → parse_federated_principal value ≡ some p
    formatted h =
        let (can, e) = format_federated_principal-lem p value h in
        parse_encoded p value (is_formattable-IsEncodable p can) h e

-- No two tuples have the same name.
pub format_federated_principal-injective :
    (p q : FederatedPrincipalInput) (value : Text)
    → format_federated_principal p ≡ some value
    → format_federated_principal q ≡ some value
    → p ≡ q
format_federated_principal-injective p q value h k = some_same (
    sym ((parse_federated_principal_iff value p).1 h) ∙ (parse_federated_principal_iff value q).1 k)
  where
    some_same : {a b : FederatedPrincipalInput} → some a ≡ some b → a ≡ b
    some_same e = cc
