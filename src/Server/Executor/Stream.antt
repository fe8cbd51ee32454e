-- ===== src/Server/Executor/Stream.antt =====
-- The loop of `executeStream` in packages/server/src/executor.ts.
--
-- A turn keeps what the generator has yielded, the calls of the payment gate, the frames that it sends
-- to its agent and the snapshots that it saves, each oldest first. `task` is the object of the SDK
-- that the loop changes. Saves that fail are left out. An item of the queue comes with the usage that the binding holds by then.
pub mod Paid
pub mod Withheld
pub mod Closed
use vicoop_bridge.Prelude.{
  ℕ, String, Bool, true, false, not, ◌&&◌, ◌||◌, Option, none, some, List, [], ◌∷◌, ◌++◌,
  if◌then◌else◌,
}
use vicoop_bridge.Protocol.{
  set_field, fields_of, object, text, empty, field, Fields, auth_required, canceled, TaskState,
  A2xStatus, A2xMessage, A2xArtifact, A2xPart, TaskUsage, instant, DownFrame,
  approval_extension_uri,
}
use vicoop_bridge.Server.State.{StatusEvent, ArtifactEvent}
use vicoop_bridge.Server.Payments.{
  MerchantCall, Sdk, X402Settlement, GateParams, authorize_delivery,
}
use vicoop_bridge.Server.Executor.Artifacts.{
  append_history_message, append_artifact_chunk, task_artifacts,
}
use vicoop_bridge.Server.Executor.Settlement.{settle_terminal}

pub data TaskOutput : Type 0 where
  shows : StatusEvent → TaskOutput
  produces : ArtifactEvent → TaskOutput

pub record Task : Type 0 where
  pub status : A2xStatus
  pub history : List A2xMessage
  pub artifacts : List A2xArtifact

-- What `updateTask` is given; a snapshot without artifacts leaves them.
pub record SavedTask : Type 0 where
  pub status : A2xStatus
  pub history : List A2xMessage
  pub artifacts : Option (List A2xArtifact)

pub record Turn : Type 0 where
  pub params : GateParams
  pub settlement : Option X402Settlement
  pub execution_id : Option String
  pub prior_artifacts : List A2xArtifact
  pub task : Task
  pub history : List A2xMessage
  pub accumulated : List A2xArtifact
  pub saw_final : Bool
  pub delivery_authorized : Bool
  pub closed : Bool  -- has the loop been left?
  pub calls : List MerchantCall
  pub yielded : List TaskOutput
  pub frames : List DownFrame
  pub saved : List SavedTask

-- `executionId` under the marker's key
abbrev pub with_origin : Option String → StatusEvent → StatusEvent
with_origin none event = event
with_origin (some id) event = record event {
  metadata = some (
      object (
        set_field approval_extension_uri (object (field "executionId" (text id) empty))
          (fields_of event.metadata)));
}

abbrev pub parts_of : StatusEvent → List A2xPart
parts_of event = elim event.status.message [ none ↦ [] | some m ↦ m.parts ]

abbrev pub has_parts : List A2xPart → Bool
has_parts [] = false
has_parts (p ∷ ps) = true

-- Does it carry something to deliver?
abbrev pub has_output : TaskOutput → Bool
has_output (produces event) = true
has_output (shows event) = has_parts (parts_of event)

abbrev pub is_auth_required : TaskState → Bool
is_auth_required auth_required = true
is_auth_required _ = false

abbrev pub differs : Bool → Bool → Bool
differs true b = not b
differs false b = b

abbrev pub yield : Turn → TaskOutput → Turn
yield t o = record t { yielded = t.yielded ++ o ∷ [] }

unfoldable pub on_artifact : Turn → ArtifactEvent → Turn
unfolding append_artifact_chunk task_artifacts
on_artifact t event =
    let accumulated = append_artifact_chunk t.accumulated event in
    yield
      (record t {
        accumulated = accumulated;
        task = record t.task { artifacts = task_artifacts t.prior_artifacts accumulated };
      })
      (produces event)

-- A task that waits for an approval, or goes on after one, is saved.
unfoldable pub on_progress : Turn → StatusEvent → Turn
unfolding append_history_message
on_progress t event =
    let history = append_history_message t.history event.status.message in
    let was = is_auth_required t.task.status.state in
    yield
      (record t {
        history = history;
        task = record t.task { history = history; status = event.status };
        saved =
            if differs was (is_auth_required event.status.state)
            then t.saved
              ++ record { status = event.status; history = history; artifacts = none } ∷ []
            else t.saved;
      })
      (shows (with_origin t.execution_id event))

abbrev pub final_artifacts : Turn → List A2xArtifact
final_artifacts t = elim t.accumulated [
  | [] ↦ t.task.artifacts
  | a ∷ rest ↦ task_artifacts t.prior_artifacts (a ∷ rest)
]

-- The terminal event leaves the loop.
unfoldable pub close_with : Turn → StatusEvent → List MerchantCall → Turn
unfolding append_history_message task_artifacts
close_with t terminal calls =
    let history = append_history_message t.history terminal.status.message in
    yield
      (record t {
        closed = true;
        calls = calls;
        history = history;
        task = record {
          history = history;
          status = terminal.status;
          artifacts = final_artifacts t;
        };
      })
      (shows (with_origin t.execution_id terminal))

abbrev pub is_priced : Turn → Bool
is_priced t = elim t.settlement [ none ↦ false | some _ ↦ true ]

module _ (sdk : Sdk) (count_of : String → Option ℕ) where
  unfoldable pub on_terminal : Turn → StatusEvent → Option TaskUsage → Turn
  unfolding settle_terminal close_with
  on_terminal t event usage = elim t.settlement [
    | none ↦ close_with t event t.calls
    | some s ↦
        let settled = settle_terminal sdk count_of t.params s event usage t.calls in
        close_with t settled.0 settled.1
  ]

  unfoldable pub on_guarded : Turn → TaskOutput → Option TaskUsage → Turn
  unfolding on_artifact on_progress on_terminal
  on_guarded t (produces event) usage = on_artifact t event
  on_guarded t (shows event) usage =
      let t' = record t { saw_final = t.saw_final || event.final } in
      if sdk.is_terminal event.status.state
      then on_terminal t' event usage
      else on_progress t' event

  -- Ask once whether output may be delivered; a refusal takes the output's place and stops the work.
  unfoldable pub authorized : Turn → TaskOutput → Turn × TaskOutput
  unfolding authorize_delivery
  authorized t o =
      let (refusal, calls) = authorize_delivery sdk t.params t.calls in
      elim refusal [
        | none ↦ (record t { delivery_authorized = true; calls = calls }, o)
        | some event ↦ (
          record t {
            calls = calls;
            frames = t.frames ++ DownFrame.task_cancel t.params.task_id t.execution_id ∷ [];
          },
          shows event,
        )
      ]

  unfoldable pub guard_output : Turn → TaskOutput → Turn × TaskOutput
  unfolding authorized
  guard_output t o =
      if is_priced t && not t.delivery_authorized && has_output o then authorized t o else (t, o)

  -- One round of the loop
  unfoldable pub on_output : Turn → TaskOutput → Option TaskUsage → Turn
  unfolding guard_output on_guarded
  on_output t o usage = let g = guard_output t o in if t.closed then t else on_guarded g.0 g.1 usage

  unfoldable pub consume : Turn → List (TaskOutput × Option TaskUsage) → Turn
  unfolding on_output
  consume t [] = t
  consume t ((o, usage) ∷ rest) = consume (on_output t o usage) rest

-- After the loop: a stream that an abort ended without a terminal status is canceled.
unfoldable pub finish_stream : Sdk → Turn → (aborted : Bool) → Turn
finish_stream sdk t aborted =
    let canceled_now : A2xStatus = record {
      state = canceled;
      timestamp = some (instant t.params.now);
      message = none;
    } in
    let status =
      if not (sdk.is_terminal t.task.status.state) && aborted
      then canceled_now
      else t.task.status in
    record t {
      closed = true;
      task = record t.task { status = status };
      saved =
          t.saved
          ++ record {
            status = status;
            history = t.task.history;
            artifacts = elim t.accumulated [ [] ↦ none | a ∷ rest ↦ some t.task.artifacts ];
          }
            ∷ [];
    }
