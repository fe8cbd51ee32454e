-- ===== src/Server/TaskStore/Examples.antt =====
-- A task that is made with a forged marker and a token, and dispatched twice
use vicoop_bridge.Prelude.{◌≡◌, string_eq, refl, true, false, none, some, []}
use vicoop_bridge.Protocol.{
  Fields, empty, field, text, approval_extension_uri, completed, canceled, A2xStatus,
}
use vicoop_bridge.Server.TaskStore.Marker.{execution_marker, marker}
use vicoop_bridge.Server.TaskStore.{
  Row, ExecutionWriter, TaskUpdate, create_task, mark_execution, update_task,
}
use vicoop_bridge.Server.TaskStore.Latest.{
  IsReachable, creates, marks, writes, execution_marker-latest,
}
use vicoop_bridge.Server.TaskStore.Superseded.{update_task-canceled}
use vicoop_bridge.Server.TaskStore.Private.{IsPrivate, reachable-IsPrivate}

abbrev forged : Fields
forged = field "_bearerToken" (text "secret") (field approval_extension_uri (marker "e9") empty)

abbrev made : Row
made = create_task false 0 (some forged)

abbrev first_mark : Row × ExecutionWriter
first_mark = mark_execution false 1 "r1" made (some "e1") []

abbrev second_mark : Row × ExecutionWriter
second_mark = mark_execution false 2 "r2" first_mark.0 (some "e2") []

abbrev shown : A2xStatus
shown = record { state = completed; timestamp = none; message = none }

-- A late result of the first dispatch, with a marker of its own
abbrev late : TaskUpdate
late = record { status = some shown; history = none; artifacts = none; metadata = some forged }

reached : IsReachable false (some "e2") (update_task false first_mark.1 second_mark.0 late).0
reached =
    writes (marks (marks (creates 0 (some forged)) 1 "r1" (some "e1") []) 2 "r2" (some "e2") [])
      first_mark.1 late

execution_marker-latest_example :
    execution_marker (update_task false first_mark.1 second_mark.0 late).0.task.metadata ≡ some "e2"
execution_marker-latest_example =
    execution_marker-latest false (some "e2") (update_task false first_mark.1 second_mark.0 late).0
      reached

reachable-IsPrivate_example : IsPrivate (update_task false first_mark.1 second_mark.0 late).0.task
reachable-IsPrivate_example =
    reachable-IsPrivate false (some "e2") (update_task false first_mark.1 second_mark.0 late).0
      reached

first_marked : (first_mark.1.message ≡ true) × (first_mark.1.marked ≡ true)
unfolding mark_execution
first_marked = (refl, refl)

abbrev canceled_row : Row
canceled_row = record {
  task = record {
    status = record { state = canceled; timestamp = none; message = none };
    history = [];
    artifacts = [];
    metadata = none;
  };
  dispatch_id = some "e1";
}

update_task-canceled_example : (update_task false first_mark.1 canceled_row late).0 ≡ canceled_row
update_task-canceled_example =
    update_task-canceled false canceled_row first_mark.1 late refl first_marked.0
