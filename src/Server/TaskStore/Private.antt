-- ===== src/Server/TaskStore/Private.antt =====
-- What a request hands over does not stay in a row of packages/server/src/postgres-task-store.ts.
use vicoop_bridge.Prelude.{
  ◌≡◌, ◌∙◌, refl, subst, String, Bool, true, Option, none, some, List, [], ◌∷◌, map, All, All-map,
  if_both, if◌then◌else◌,
}
use vicoop_bridge.Protocol.{
  Fields, empty, field, get_field, member, fields_of, without_keys, get_field-without_keys,
  A2xMessage, A2xStatus,
}
use vicoop_bridge.Server.TaskStore.Marker.{
  field_at, field_at-unless_empty, is_dropped_of_task, is_dropped_of_message, object_unless_empty,
  with_execution_marker, strip_task_metadata, strip_message_metadata, strip_persisted_envelope,
}
use vicoop_bridge.Server.TaskStore.{
  StoredTask, Row, ExecutionWriter, TaskUpdate, sanitized, create_task, mark_execution, update_task,
  is_after_cancel, is_stale,
}
use vicoop_bridge.Server.TaskStore.Latest.{IsReachable, creates, marks, writes, new_task, begun}

-- The names under which a request hands over its token, its principal and its authorization
abbrev pub request_names : List String
request_names =
    "_bearerToken" ∷ "_principalId" ∷ "_actorId" ∷ "_authorizationProfile" ∷ "_authorizationKey"
    ∷ "_identityVcPresented" ∷ []

abbrev pub IsPrivateMessage : A2xMessage → Type 0
IsPrivateMessage message = All (λ name. member name message.metadata ≡ none) request_names

abbrev pub IsPrivateStatus : A2xStatus → Type 0
IsPrivateStatus status =
    (message : A2xMessage) → status.message ≡ some message → IsPrivateMessage message

-- No token, principal or authorization of a request, in the task or in a message of it
pub record IsPrivate (task : StoredTask) : Type 0 where
  pub metadata : All (λ name. field_at name task.metadata ≡ none) request_names
  pub history : All IsPrivateMessage task.history
  pub status : IsPrivateStatus task.status

member-object_unless_empty :
    (key : String) (fields : Fields)
    → member key (object_unless_empty fields) ≡ get_field key fields
unfolding member get_field
member-object_unless_empty key empty = refl
member-object_unless_empty key (field k v rest) = refl

strip_message_metadata-none :
    (message : A2xMessage) (key : String)
    → is_dropped_of_message key ≡ true
    → member key (strip_message_metadata message).metadata ≡ none
unfolding strip_message_metadata
strip_message_metadata-none message key h =
    member-object_unless_empty key (without_keys is_dropped_of_message (fields_of message.metadata))
    ∙ get_field-without_keys is_dropped_of_message key (fields_of message.metadata)
    ∙ rw h refl

strip_message_metadata-IsPrivateMessage :
    (message : A2xMessage) → IsPrivateMessage (strip_message_metadata message)
strip_message_metadata-IsPrivateMessage message =
    All-map request_names (strip_message_metadata-none message)
      (refl, (refl, (refl, (refl, (refl, (refl, tt))))))

map-IsPrivateMessage :
    (history : List A2xMessage) → All IsPrivateMessage (map strip_message_metadata history)
map-IsPrivateMessage [] = tt
map-IsPrivateMessage (m ∷ history) =
    (strip_message_metadata-IsPrivateMessage m, map-IsPrivateMessage history)

strip_task_metadata-none :
    (metadata : Option Fields) (key : String)
    → is_dropped_of_task key ≡ true
    → field_at key (strip_task_metadata metadata) ≡ none
unfolding strip_task_metadata
strip_task_metadata-none none key h = refl
strip_task_metadata-none (some metadata) key h =
    field_at-unless_empty key (without_keys is_dropped_of_task metadata)
    ∙ get_field-without_keys is_dropped_of_task key metadata
    ∙ rw h refl

strip_task_metadata-names :
    (metadata : Option Fields)
    → All (λ name. field_at name (strip_task_metadata metadata) ≡ none) request_names
strip_task_metadata-names metadata =
    All-map request_names (strip_task_metadata-none metadata)
      (refl, (refl, (refl, (refl, (refl, (refl, tt))))))

status-IsPrivate :
    (found : Option A2xMessage) (message : A2xMessage)
    → elim found [ none ↦ none | some m ↦ some (strip_message_metadata m) ] ≡ some message
    → IsPrivateMessage message
status-IsPrivate none message e = cc
status-IsPrivate (some m) message e =
    subst IsPrivateMessage {x = strip_message_metadata m} {y = message} (cc)
      (strip_message_metadata-IsPrivateMessage m)

sanitized-IsPrivate : (preserve : Bool) (task : StoredTask) → IsPrivate (sanitized preserve task)
unfolding sanitized
sanitized-IsPrivate preserve task = record {
  metadata =
      strip_task_metadata-names
        (if preserve then task.metadata else strip_persisted_envelope task.metadata);
  history = map-IsPrivateMessage task.history;
  status = status-IsPrivate task.status.message;
}

update_task-IsPrivate :
    (preserve : Bool) (w : ExecutionWriter) (row : Row) (u : TaskUpdate)
    → IsPrivate row.task
    → IsPrivate (update_task preserve w row u).0.task
unfolding update_task
update_task-IsPrivate preserve w row u before =
    if_both Q (is_after_cancel w row) before
      (if_both Q (is_stale w row) before (sanitized-IsPrivate preserve _))
  where
    Q : Row × StoredTask → Type 0
    Q z = IsPrivate z.0.task

-- However requests make, mark and write a task, no token, principal or authorization that a request
-- carries stays in the metadata of the stored task, of a message of its history or of the message
-- of its status.
pub reachable-IsPrivate :
    (preserve : Bool) (latest : Option String) (row : Row)
    → IsReachable preserve latest row
    → IsPrivate row.task
unfolding create_task mark_execution
reachable-IsPrivate preserve _ _ (creates now metadata) =
    sanitized-IsPrivate preserve (record (new_task now) {
      metadata = with_execution_marker (strip_task_metadata metadata) none;
    })
reachable-IsPrivate preserve _ _ (marks {row = row} r now random execution_id artifacts) =
    sanitized-IsPrivate preserve (record (begun now row execution_id) {
      metadata = with_execution_marker row.task.metadata execution_id;
    })
reachable-IsPrivate preserve latest _ (writes {row = row} r w u) =
    update_task-IsPrivate preserve w row u (reachable-IsPrivate preserve latest row r)
