-- ===== src/Server/TaskStore/Marker.antt =====
-- The dispatch marker of packages/server/src/execution-marker.ts, and the metadata that
-- packages/server/src/postgres-task-store.ts takes off before it writes a task.
use vicoop_bridge.Prelude.{
  ◌≡◌, ◌∙◌, ap, refl, String, Bool, false, ◌||◌, ◌==◌, string_eq, Option, none, some, if◌then◌else◌,
  is_some, if_both,
}
use vicoop_bridge.Protocol.{
  Json, null, boolean, number, array, object, text, Fields, empty, field, get_field, set_field,
  without_keys, unless_empty, fields_of, member, get_field-without_keys, get_field-set_field,
  A2xMessage, approval_extension_uri, openai_compat_extension_uri,
}

-- The text under a name
abbrev pub text_at : Option Json → Option String
text_at (some (text s)) = some s
text_at _ = none

abbrev pub field_at : String → Option Fields → Option Json
field_at key none = none
field_at key (some fields) = get_field key fields

unfoldable pub execution_marker : Option Fields → Option String
execution_marker metadata =
    text_at (member "executionId" (field_at approval_extension_uri metadata))

abbrev pub all_fields : Option Fields → Fields
all_fields none = empty
all_fields (some fields) = fields

abbrev pub marker : String → Json
marker id = object (field "executionId" (text id) empty)

abbrev pub without_marker : Option Fields → Fields
without_marker metadata = without_keys (λ key. key == approval_extension_uri) (all_fields metadata)

unfoldable pub with_execution_marker : Option Fields → Option String → Option Fields
unfolding without_keys set_field
with_execution_marker metadata none = unless_empty (without_marker metadata)
with_execution_marker metadata (some id) =
    some (set_field approval_extension_uri (marker id) (without_marker metadata))

-- The keys that `stripTaskMetadata` takes off
abbrev pub is_dropped_of_task : String → Bool
is_dropped_of_task key =
    (key == "_bearerToken")
    || (key == "_principalId")
    || (key == "_actorId")
    || (key == "_authorizationProfile")
    || (key == "_authorizationKey")
    || (key == "_identityVcPresented")

-- The keys that `stripMessageMetadata` takes off
abbrev pub is_dropped_of_message : String → Bool
is_dropped_of_message key =
    (key == "_bearerToken")
    || (key == "_principalId")
    || (key == "_actorId")
    || (key == "_authorizationProfile")
    || (key == "_authorizationKey")
    || (key == "_identityVcPresented")

unfoldable pub strip_task_metadata : Option Fields → Option Fields
unfolding without_keys
strip_task_metadata none = none
strip_task_metadata (some metadata) = unless_empty (without_keys is_dropped_of_task metadata)

abbrev pub object_unless_empty : Fields → Option Json
object_unless_empty empty = none
object_unless_empty (field k v rest) = some (object (field k v rest))

unfoldable pub strip_message_metadata : A2xMessage → A2xMessage
unfolding without_keys
strip_message_metadata message = record message {
  metadata = object_unless_empty (without_keys is_dropped_of_message (fields_of message.metadata));
}

-- The extension without its request
abbrev pub put_extension : Fields → Fields → Fields
put_extension metadata empty = without_keys (λ key. key == openai_compat_extension_uri) metadata
put_extension metadata (field k v rest) =
    set_field openai_compat_extension_uri (object (field k v rest)) metadata

abbrev pub without_request : Fields → Option Json → Option Fields
without_request metadata (some (object extension)) =
    if is_some (get_field "chat_completions_request" extension)
    then unless_empty
        (put_extension metadata (without_keys (λ key. key == "chat_completions_request") extension))
    else some metadata
without_request metadata _ = some metadata

unfoldable pub strip_persisted_envelope : Option Fields → Option Fields
unfolding get_field without_keys set_field
strip_persisted_envelope none = none
strip_persisted_envelope (some metadata) =
    without_request metadata (get_field openai_compat_extension_uri metadata)

pub field_at-unless_empty :
    (key : String) (fields : Fields) → field_at key (unless_empty fields) ≡ get_field key fields
unfolding get_field
field_at-unless_empty key empty = refl
field_at-unless_empty key (field k v rest) = refl

-- A marker that is put on is read.
pub execution_marker-with_execution_marker :
    (metadata : Option Fields) (id : Option String)
    → execution_marker (with_execution_marker metadata id) ≡ id
unfolding execution_marker with_execution_marker get_field member
execution_marker-with_execution_marker metadata none =
    rw (field_at-unless_empty approval_extension_uri (without_marker metadata)) (
      rw
        (get_field-without_keys (λ key. key == approval_extension_uri) approval_extension_uri
          (all_fields metadata))
        refl)
execution_marker-with_execution_marker metadata (some id) =
    rw
      (get_field-set_field approval_extension_uri approval_extension_uri (marker id)
        (without_marker metadata))
      refl

-- Nothing else touches the marker.
same_field :
    (metadata metadata' : Option Fields)
    → field_at approval_extension_uri metadata' ≡ field_at approval_extension_uri metadata
    → execution_marker metadata' ≡ execution_marker metadata
unfolding execution_marker
same_field metadata metadata' e = ap (λ j. text_at (member "executionId" j)) e

untaken :
    (taken : String → Bool) (key : String) (fields : Fields)
    → taken key ≡ false
    → field_at key (unless_empty (without_keys taken fields)) ≡ get_field key fields
untaken taken key fields h =
    field_at-unless_empty key (without_keys taken fields)
    ∙ get_field-without_keys taken key fields
    ∙ rw h refl

pub execution_marker-strip_task_metadata :
    (metadata : Option Fields)
    → execution_marker (strip_task_metadata metadata) ≡ execution_marker metadata
unfolding strip_task_metadata
execution_marker-strip_task_metadata none = refl
execution_marker-strip_task_metadata (some metadata) =
    same_field (some metadata) (unless_empty (without_keys is_dropped_of_task metadata))
      (untaken is_dropped_of_task approval_extension_uri metadata refl)

put_extension-get_field :
    (metadata extension : Fields)
    → get_field approval_extension_uri (put_extension metadata extension)
      ≡ get_field approval_extension_uri metadata
put_extension-get_field metadata empty =
    get_field-without_keys (λ key. key == openai_compat_extension_uri) approval_extension_uri
      metadata
put_extension-get_field metadata (field k v rest) =
    get_field-set_field openai_compat_extension_uri approval_extension_uri (object (field k v rest))
      metadata

without_request-marker :
    (metadata : Fields) (extension : Option Json)
    → field_at approval_extension_uri (without_request metadata extension)
      ≡ get_field approval_extension_uri metadata
without_request-marker metadata none = refl
without_request-marker metadata (some null) = refl
without_request-marker metadata (some (boolean _)) = refl
without_request-marker metadata (some (number _)) = refl
without_request-marker metadata (some (text _)) = refl
without_request-marker metadata (some (array _)) = refl
without_request-marker metadata (some (object extension)) =
    if_both
      (λ (z : Option Fields).
        field_at approval_extension_uri z ≡ get_field approval_extension_uri metadata)
      (is_some (get_field "chat_completions_request" extension))
      (field_at-unless_empty approval_extension_uri (put_extension metadata rest)
        ∙ put_extension-get_field metadata rest)
      refl
  where
    rest : Fields
    rest = without_keys (λ key. key == "chat_completions_request") extension

pub execution_marker-strip_persisted_envelope :
    (metadata : Option Fields)
    → execution_marker (strip_persisted_envelope metadata) ≡ execution_marker metadata
unfolding strip_persisted_envelope
execution_marker-strip_persisted_envelope none = refl
execution_marker-strip_persisted_envelope (some metadata) =
    same_field (some metadata)
      (without_request metadata (get_field openai_compat_extension_uri metadata))
      (without_request-marker metadata (get_field openai_compat_extension_uri metadata))
