-- ===== src/Server/TaskStore/Superseded.antt =====
-- Late writes to a row of packages/server/src/postgres-task-store.ts: those of a dispatch that
-- another one superseded, and those of a message whose task was canceled.
use vicoop_bridge.Prelude.{
  ◌≡◌, ◌≢◌, refl, ℕ, String, Bool, true, false, not, ◌&&◌, ◌||◌, ◌==◌, string_eq, option_eq, Option,
  List, get_or, is_some, Bool-cases, inl, inr, if◌then◌else◌, arith,
}
use vicoop_bridge.Protocol.{A2xArtifact}
use vicoop_bridge.Server.TaskStore.{
  Row, ExecutionWriter, TaskUpdate, mark_execution, update_task, is_canceled, is_after_cancel,
}

-- The rows that are reached without a dispatch of the id `mine`
pub data IsAfter (preserve : Bool) (mine : String) (row : Row) : Row → Type 0 where
  here : IsAfter preserve mine row row
  marks :
      {later : Row}
      → IsAfter preserve mine row later
      → (now : ℕ) (random : String) (execution_id : Option String) (artifacts : List A2xArtifact)
      → get_or execution_id random ≢ mine
      → IsAfter preserve mine row
          (mark_execution preserve now random later execution_id artifacts).0
  writes :
      {later : Row}
      → IsAfter preserve mine row later
      → (w : ExecutionWriter) (u : TaskUpdate)
      → IsAfter preserve mine row (update_task preserve w later u).0

canceled_or_stale :
    (message marked same canceled known : Bool)
    → message ≡ true
    → canceled ≡ true
    → (message && canceled && (not marked || same)) ≡ false
    → (message && (if marked then not same else known)) ≡ true
canceled_or_stale message marked same canceled known m c e = ground arith

-- A write of a message request never changes the row of a canceled task, whether it has marked its
-- dispatch, has been superseded or has marked none.
pub update_task-canceled :
    (preserve : Bool) (row : Row) (w : ExecutionWriter) (u : TaskUpdate)
    → is_canceled row.task.status.state ≡ true
    → w.message ≡ true
    → (update_task preserve w row u).0 ≡ row
unfolding update_task
update_task-canceled preserve row w u canceled message = elim (Bool-cases (is_after_cancel w row)) [
  | inl after ↦ rw after refl
  | inr before ↦ rw before (
      rw
        (canceled_or_stale w.message w.marked (w.dispatch_id == row.dispatch_id)
          (is_canceled row.task.status.state) (is_some row.dispatch_id) message canceled before)
        refl)
]
