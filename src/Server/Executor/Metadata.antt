-- ===== src/Server/Executor/Metadata.antt =====
-- `stripInternalMetadata` of packages/server/src/executor.ts: what of a message's metadata is
-- forwarded to the connected client.
pub mod Forwarded
use Prim.Native.Char.{code}
use Prim.Native.String
use vicoop_bridge.Prelude.{
  ◌≡◌, refl, String, Bool, true, false, ◌||◌, ◌==◌, string_eq, nat_eq, Option, none, some,
  if◌then◌else◌,
}
use vicoop_bridge.Protocol.{
  unless_empty, without_keys, Json, object, Fields, empty, field, get_field,
}

-- `key.startsWith('_')`
unfoldable pub is_internal : String → Bool
is_internal String.[] = false
is_internal (String.◌∷◌ c rest) = code c == b'_'

-- Internal keys, and the names that the transport owns
unfoldable pub is_withheld : String → Bool
unfolding is_internal
is_withheld key =
    is_internal key
    || (key == "caller")
    || (key == "callerContext")
    || (key == "caller_context")
    || (key == "executionScope")
    || (key == "execution_scope")

abbrev pub is_evidence : String → Bool
is_evidence key = (key == "identity_evidence") || (key == "verifiable_credentials")

unfoldable pub without_evidence : Fields → Fields
unfolding without_keys
without_evidence = without_keys is_evidence

-- An object that is left empty is dropped.
abbrev pub field_unless_empty : String → Fields → Fields → Fields
field_unless_empty key empty rest = rest
field_unless_empty key (field k v fields) rest = field key (object (field k v fields)) rest

abbrev pub strip_mentionable : String → Json → Fields → Fields
strip_mentionable key (object fields) rest = field_unless_empty key (without_evidence fields) rest
strip_mentionable key value rest = field key value rest

unfoldable pub strip_fields : Fields → Fields
unfolding is_withheld without_evidence
strip_fields empty = empty
strip_fields (field key value rest) =
    let later = strip_fields rest in
    if is_withheld key
    then later
    else (if key == "mentionable" then strip_mentionable key value later else field key value later)

unfoldable pub strip_internal_metadata : Option Fields → Option Fields
unfolding strip_fields
strip_internal_metadata none = none
strip_internal_metadata (some metadata) = unless_empty (strip_fields metadata)
