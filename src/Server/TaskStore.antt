-- ===== src/Server/TaskStore.antt =====
-- packages/server/src/postgres-task-store.ts: who may write the row of a task.
--
-- A transaction locks the row, so that a step reads and writes it as a whole. A row is that of one
-- task of the store's agent, with parts of the SDK's shape. `preserve` is `persistRequestEnvelope`.
pub mod Marker
pub mod Latest
pub mod Superseded
pub mod Private
mod Examples
use vicoop_bridge.Prelude.{
  ℕ, String, Bool, true, false, not, ◌&&◌, ◌||◌, ◌==◌, string_eq, option_eq, Option, none, some,
  List, [], ◌∷◌, map, if◌then◌else◌, is_some, get_or,
}
use vicoop_bridge.Protocol.{
  Fields, TaskState, canceled, working, submitted, instant, A2xMessage, A2xStatus, A2xArtifact,
}
use vicoop_bridge.Server.TaskStore.Marker.{
  execution_marker, with_execution_marker, strip_task_metadata, strip_message_metadata,
  strip_persisted_envelope,
}

pub record StoredTask : Type 0 where
  pub status : A2xStatus
  pub history : List A2xMessage
  pub artifacts : List A2xArtifact
  pub metadata : Option Fields

pub record Row : Type 0 where
  pub task : StoredTask
  pub dispatch_id : Option String

-- A request without a writer is one that is neither of a message nor marked.
-- `artifacts` is the executor's own array: a write takes what it holds by then.
pub record ExecutionWriter : Type 0 where
  pub message : Bool
  pub marked : Bool
  pub dispatch_id : Option String
  pub execution_id : Option String
  pub artifacts : Option (List A2xArtifact)

pub record TaskUpdate : Type 0 where
  pub status : Option A2xStatus
  pub history : Option (List A2xMessage)
  pub artifacts : Option (List A2xArtifact)
  pub metadata : Option Fields

abbrev pub strip_status : A2xStatus → A2xStatus
strip_status status = record status {
  message = elim status.message [ none ↦ none | some m ↦ some (strip_message_metadata m) ];
}

-- `stripSensitiveMetadata`: what of a task is written
unfoldable pub sanitized : (preserve : Bool) → StoredTask → StoredTask
unfolding strip_task_metadata strip_message_metadata strip_persisted_envelope
sanitized preserve task = record {
  status = strip_status task.status;
  history = map strip_message_metadata task.history;
  artifacts = task.artifacts;
  metadata =
      strip_task_metadata
        (if preserve then task.metadata else strip_persisted_envelope task.metadata);
}

abbrev pub write_task : (preserve : Bool) → Row → StoredTask → Row
write_task preserve row task = record row { task = sanitized preserve task }

-- A caller cannot choose the marker.
unfoldable pub create_task : (preserve : Bool) (now : ℕ) (metadata : Option Fields) → Row
unfolding sanitized with_execution_marker strip_task_metadata
create_task preserve now metadata = record {
  task = sanitized preserve (record {
    status = record { state = submitted; timestamp = some (instant now); message = none };
    history = [];
    artifacts = [];
    metadata = with_execution_marker (strip_task_metadata metadata) none;
  });
  dispatch_id = none;
}

-- `random` is the id of a dispatch without an execution.
unfoldable pub mark_execution :
    (preserve : Bool) (now : ℕ) (random : String)
    → Row
    → (execution_id : Option String) → List A2xArtifact
    → Row × ExecutionWriter
unfolding sanitized with_execution_marker
mark_execution preserve now random row execution_id artifacts =
    let id = get_or execution_id random in
    (
      record {
        task = sanitized preserve (record row.task {
          status = record { state = working; timestamp = some (instant now); message = none };
          artifacts = if is_some execution_id then [] else row.task.artifacts;
          metadata = with_execution_marker row.task.metadata execution_id;
        });
        dispatch_id = some id;
      },
      record {
        message = true;
        marked = true;
        dispatch_id = some id;
        execution_id = execution_id;
        artifacts = if is_some execution_id then some artifacts else none;
      },
    )

abbrev pub is_canceled : TaskState → Bool
is_canceled canceled = true
is_canceled _ = false

-- Does a detached request come after a cancellation?
abbrev pub is_after_cancel : ExecutionWriter → Row → Bool
is_after_cancel w row =
    w.message
    && is_canceled row.task.status.state
    && (not w.marked || w.dispatch_id == row.dispatch_id)

-- Is the write not persisted, because another dispatch owns the row?
abbrev pub is_stale : ExecutionWriter → Row → Bool
is_stale w row =
    w.message
    && (if w.marked then not (w.dispatch_id == row.dispatch_id) else is_some row.dispatch_id)

abbrev pub own_artifacts : ExecutionWriter → List A2xArtifact → List A2xArtifact
own_artifacts w artifacts = if w.marked then get_or w.artifacts artifacts else artifacts

abbrev pub updated : ExecutionWriter → StoredTask → TaskUpdate → StoredTask
updated w existing u = record {
  status = get_or u.status existing.status;
  history = get_or u.history existing.history;
  artifacts = own_artifacts w (get_or u.artifacts existing.artifacts);
  metadata = elim u.metadata [ none ↦ existing.metadata | some metadata ↦ some metadata ];
}

abbrev pub label : ExecutionWriter → Option String
label w = if w.marked then w.execution_id else none

-- The row, and the task that the caller sees
unfoldable pub update_task :
    (preserve : Bool) → ExecutionWriter → Row → TaskUpdate → Row × StoredTask
unfolding sanitized with_execution_marker execution_marker
update_task preserve w row u =
    let next = updated w row.task u in
    let own = record next { metadata = with_execution_marker next.metadata (label w) } in
    let kept = record next {
      metadata = with_execution_marker next.metadata (execution_marker row.task.metadata);
    } in
    if is_after_cancel w row
    then (row, row.task)
    else if is_stale w row
    then (row, own)
    else (write_task preserve row kept, kept)
