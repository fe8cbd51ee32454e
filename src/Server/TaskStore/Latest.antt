-- ===== src/Server/TaskStore/Latest.antt =====
-- The marker of a row of packages/server/src/postgres-task-store.ts over the row's history
use vicoop_bridge.Prelude.{
  ◌≡◌, ◌∙◌, refl, ℕ, String, Bool, Option, none, some, List, [], is_some, if_both, if◌then◌else◌,
}
use vicoop_bridge.Protocol.{Fields, A2xArtifact, submitted, working, instant}
use vicoop_bridge.Server.TaskStore.Marker.{
  execution_marker, with_execution_marker, strip_task_metadata,
  execution_marker-with_execution_marker, execution_marker-strip_task_metadata,
  execution_marker-strip_persisted_envelope,
}
use vicoop_bridge.Server.TaskStore.{
  StoredTask, Row, ExecutionWriter, TaskUpdate, sanitized, create_task, mark_execution, update_task,
  is_after_cancel, is_stale, updated,
}

-- The rows that the store's operations reach, with the execution of the latest dispatch: any
-- request marks it, and any request at all writes it.
pub data IsReachable (preserve : Bool) : Option String → Row → Type 0 where
  creates :
      (now : ℕ) (metadata : Option Fields)
      → IsReachable preserve none (create_task preserve now metadata)
  marks :
      {latest : Option String} {row : Row}
      → IsReachable preserve latest row
      → (now : ℕ) (random : String) (execution_id : Option String) (artifacts : List A2xArtifact)
      → IsReachable preserve execution_id
          (mark_execution preserve now random row execution_id artifacts).0
  writes :
      {latest : Option String} {row : Row}
      → IsReachable preserve latest row
      → (w : ExecutionWriter) (u : TaskUpdate)
      → IsReachable preserve latest (update_task preserve w row u).0

sanitized-marker :
    (preserve : Bool) (task : StoredTask)
    → execution_marker (sanitized preserve task).metadata ≡ execution_marker task.metadata
unfolding sanitized
sanitized-marker preserve task =
    execution_marker-strip_task_metadata _
    ∙ if_both (λ (z : Option Fields). execution_marker z ≡ execution_marker task.metadata) preserve
        refl (execution_marker-strip_persisted_envelope task.metadata)

-- A task that is written with a marker put on
put_on :
    (preserve : Bool) (task : StoredTask) (metadata : Option Fields) (id : Option String)
    → execution_marker
        (sanitized preserve (record task { metadata = with_execution_marker metadata id })).metadata
      ≡ id
put_on preserve task metadata id =
    sanitized-marker preserve (record task { metadata = with_execution_marker metadata id })
    ∙ execution_marker-with_execution_marker metadata id

update_task-marker :
    (preserve : Bool) (w : ExecutionWriter) (row : Row) (u : TaskUpdate)
    → execution_marker (update_task preserve w row u).0.task.metadata
      ≡ execution_marker row.task.metadata
unfolding update_task
update_task-marker preserve w row u = if_both Q (is_after_cancel w row) refl (
    if_both Q (is_stale w row) refl (
      put_on preserve (updated w row.task u) (updated w row.task u).metadata
        (execution_marker row.task.metadata)))
  where
    Q : Row × StoredTask → Type 0
    Q z = execution_marker z.0.task.metadata ≡ execution_marker row.task.metadata

-- What is made and marked, before its marker is put on
abbrev pub new_task : ℕ → StoredTask
new_task now = record {
  status = record { state = submitted; timestamp = some (instant now); message = none };
  history = [];
  artifacts = [];
  metadata = none;
}

abbrev pub begun : ℕ → Row → Option String → StoredTask
begun now row execution_id = record row.task {
  status = record { state = working; timestamp = some (instant now); message = none };
  artifacts = if is_some execution_id then [] else row.task.artifacts;
}

-- Whatever a task was made with, and however requests mark and write it, the marker that its row
-- shows is that of the execution that was marked last, and none if that dispatch had no execution
-- or there was none.
pub execution_marker-latest :
    (preserve : Bool) (latest : Option String) (row : Row)
    → IsReachable preserve latest row
    → execution_marker row.task.metadata ≡ latest
unfolding create_task mark_execution
execution_marker-latest preserve _ _ (creates now metadata) =
    put_on preserve (new_task now) (strip_task_metadata metadata) none
execution_marker-latest preserve _ _ (marks {row = row} r now random execution_id artifacts) =
    put_on preserve (begun now row execution_id) row.task.metadata execution_id
execution_marker-latest preserve latest _ (writes {row = row} r w u) =
    update_task-marker preserve w row u ∙ execution_marker-latest preserve latest row r
