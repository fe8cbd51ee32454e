-- ===== src/Server/Executor/Metadata/Forwarded.antt =====
-- Which metadata reaches the client, in packages/server/src/executor.ts.
use Prim.Native.Char.{code}
use vicoop_bridge.Prelude.{
  ℕ, List, [], ◌∷◌, Bool, not, ◌&&◌, exists, option_eq, nat_eq, ◌≡◌, ◌∙◌, refl, String, true, false,
  ◌==◌, string_eq, Option, none, some, if◌then◌else◌, Bool-cases, inl, inr, arith, ==_iff,
}
use vicoop_bridge.Protocol.{
  unless_empty, get_field-without_keys, Json, object, Fields, empty, field, get_field, member, null,
  boolean, number, text, array,
}
use vicoop_bridge.Server.Executor.Metadata.{
  is_withheld, is_internal, is_evidence, without_evidence, field_unless_empty, strip_mentionable,
  strip_fields, strip_internal_metadata,
}

-- The names that the transport owns
abbrev pub transport_names : List String
transport_names =
    "caller" ∷ "callerContext" ∷ "caller_context" ∷ "executionScope" ∷ "execution_scope" ∷ []

-- The code of the first character
abbrev pub initial : String → Option ℕ
initial String.[] = none
initial (String.◌∷◌ c rest) = some (code c)

-- Only names of the caller's own: without an underscore in front, and none of the transport's
abbrev pub is_own_name : String → Bool
is_own_name key =
    not (initial key == some b'_') && not (exists (λ name. key == name) transport_names)

is_withheld-lem : (key : String) → is_withheld key ≡ not (is_own_name key)
unfolding is_withheld is_internal
is_withheld-lem String.[] = refl
is_withheld-lem (String.◌∷◌ c rest) = ground arith

-- `metadata[key]`
abbrev pub forwarded : Option Fields → String → Option Json
forwarded none key = none
forwarded (some fields) key = get_field key fields

without_evidence-get_field :
    (fields : Fields) (key : String)
    → is_evidence key ≡ true
    → get_field key (without_evidence fields) ≡ none
unfolding without_evidence
without_evidence-get_field fields key h = get_field-without_keys is_evidence key fields ∙ rw h refl

-- What is put under another key does not matter.
field_unless_empty-get_field :
    (name key : String) (fields rest : Fields)
    → (name == key) ≡ false
    → get_field key (field_unless_empty name fields rest) ≡ get_field key rest
unfolding get_field
field_unless_empty-get_field name key empty rest h = refl
field_unless_empty-get_field name key (field k v fields) rest h = rw h refl

strip_mentionable-get_field :
    (name key : String) (value : Json) (rest : Fields)
    → (name == key) ≡ false
    → get_field key (strip_mentionable name value rest) ≡ get_field key rest
unfolding get_field
strip_mentionable-get_field name key (object fields) rest h =
    field_unless_empty-get_field name key (without_evidence fields) rest h
strip_mentionable-get_field name key null rest h = rw h refl
strip_mentionable-get_field name key (boolean _) rest h = rw h refl
strip_mentionable-get_field name key (number _) rest h = rw h refl
strip_mentionable-get_field name key (text _) rest h = rw h refl
strip_mentionable-get_field name key (array _) rest h = rw h refl

strip_fields-get_field :
    (fields : Fields) (key : String)
    → (key == "mentionable") ≡ false
    → get_field key (strip_fields fields) ≡ (if is_withheld key then none else get_field key fields)
unfolding strip_fields get_field
strip_fields-get_field empty key h = ground arith
strip_fields-get_field (field k v rest) key h = elim (Bool-cases (is_withheld k)) [
  | inl gone ↦ rw gone (ground (arith, strip_fields-get_field rest key h, ==_iff k key))
  | inr kept ↦ rw kept (elim (Bool-cases (k == "mentionable")) [
    | inl named ↦ rw named (
        ground (
          arith,
          strip_mentionable-get_field k key v (strip_fields rest),
          strip_fields-get_field rest key h,
          ==_iff k key,
          ==_iff k "mentionable",
          ==_iff key "mentionable",
        ))
    | inr other ↦ rw other (ground (arith, strip_fields-get_field rest key h, ==_iff k key))
  ])
]

-- What an object under `mentionable` shows of its evidence
field_unless_empty-hidden :
    (k evidence : String) (fields rest : Fields)
    → is_evidence evidence ≡ true
    → (k == "mentionable") ≡ true
    → member evidence (get_field "mentionable" rest) ≡ none
    → get_field evidence fields ≡ none
    → member evidence (get_field "mentionable" (field_unless_empty k fields rest)) ≡ none
unfolding get_field member
field_unless_empty-hidden k evidence empty rest h named hidden gone = hidden
field_unless_empty-hidden k evidence (field i v fields) rest h named hidden gone = rw named gone

strip_mentionable-hidden :
    (k evidence : String) (value : Json) (rest : Fields)
    → is_evidence evidence ≡ true
    → (k == "mentionable") ≡ true
    → member evidence (get_field "mentionable" rest) ≡ none
    → member evidence (get_field "mentionable" (strip_mentionable k value rest)) ≡ none
unfolding get_field member
strip_mentionable-hidden k evidence (object fields) rest h named hidden =
    field_unless_empty-hidden k evidence (without_evidence fields) rest h named hidden
      (without_evidence-get_field fields evidence h)
strip_mentionable-hidden k evidence null rest h named hidden = rw named refl
strip_mentionable-hidden k evidence (boolean _) rest h named hidden = rw named refl
strip_mentionable-hidden k evidence (number _) rest h named hidden = rw named refl
strip_mentionable-hidden k evidence (text _) rest h named hidden = rw named refl
strip_mentionable-hidden k evidence (array _) rest h named hidden = rw named refl

strip_fields-hidden :
    (fields : Fields) (evidence : String)
    → is_evidence evidence ≡ true
    → member evidence (get_field "mentionable" (strip_fields fields)) ≡ none
unfolding strip_fields get_field member
strip_fields-hidden empty evidence h = refl
strip_fields-hidden (field k v rest) evidence h = elim (Bool-cases (is_withheld k)) [
  | inl gone ↦ rw gone (strip_fields-hidden rest evidence h)
  | inr kept ↦ rw kept (elim (Bool-cases (k == "mentionable")) [
    | inl named ↦ rw named (
        strip_mentionable-hidden k evidence v (strip_fields rest) h named
          (strip_fields-hidden rest evidence h))
    | inr other ↦ rw other (rw other (strip_fields-hidden rest evidence h))
  ])
]

if_not :
    (own : Bool) (found : Option Json)
    → (if not own then none else found) ≡ (if own then found else none)
if_not true found = refl
if_not false found = refl

forwarded-unless_empty :
    (fields : Fields) (key : String) → forwarded (unless_empty fields) key ≡ get_field key fields
unfolding get_field
forwarded-unless_empty empty key = refl
forwarded-unless_empty (field k v rest) key = refl

-- Of a message's metadata, a key other than `mentionable` is forwarded to the client with its value
-- exactly if it neither starts with an underscore nor has a name that the transport owns; and what
-- is forwarded under `mentionable` never shows identity evidence or credentials.
pub strip_internal_metadata-forwarded :
    (metadata : Fields) (key : String)
    → (key == "mentionable") ≡ false
    → let out = strip_internal_metadata (some metadata) in
      (forwarded out key ≡ (if is_own_name key then get_field key metadata else none))
      × (member "identity_evidence" (forwarded out "mentionable") ≡ none)
      × (member "verifiable_credentials" (forwarded out "mentionable") ≡ none)
unfolding strip_internal_metadata
strip_internal_metadata-forwarded metadata key h = (
  rw (forwarded-unless_empty (strip_fields metadata) key) (
      rw (strip_fields-get_field metadata key h)
        (rw (is_withheld-lem key) (if_not (is_own_name key) (get_field key metadata)))),
  rw (forwarded-unless_empty (strip_fields metadata) "mentionable")
      (strip_fields-hidden metadata "identity_evidence" refl),
  rw (forwarded-unless_empty (strip_fields metadata) "mentionable")
      (strip_fields-hidden metadata "verifiable_credentials" refl),
)
