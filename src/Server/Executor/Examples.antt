-- ===== src/Server/Executor/Examples.antt =====
-- A priced request to the agent of the fixtures, and what its stream makes of a client's frames.
use vicoop_bridge.Prelude.{
  string_eq, ℕ, ◌≤◌, ◌≡◌, ◌⊎◌, refl, String, Bool, true, false, Option, none, some, List, [], ◌∷◌,
  All, lookup,
}
use vicoop_bridge.Protocol.{
  object, array, nil, null, Fields, empty, field, member, user, text, json, A2xMessage, A2xArtifact,
  TaskState, failed, completed, submitted, TaskUsage,
}
use vicoop_bridge.Server.State.{StatusEvent, ArtifactEvent}
use vicoop_bridge.Server.Fixtures.{in_flight}
use vicoop_bridge.Server.Approvals.{get_binding}
use vicoop_bridge.Server.EventQueue.{new_queue, next}
use vicoop_bridge.Server.Payments.{
  Sdk, HasTerminalStates, MerchantDeferredObligation, proceed, deferred, paid, owed,
}
use vicoop_bridge.Server.Executor.Metadata.{strip_internal_metadata}
use vicoop_bridge.Server.Executor.Metadata.Forwarded.{forwarded, strip_internal_metadata-forwarded}
use vicoop_bridge.Server.Executor.Artifacts.{artifact_map}
use vicoop_bridge.Server.Executor.Artifacts.Chunks.{
  single_text, streamed, append_chunks, artifact_map-append_chunks, artifact_map-lost_chunk,
}
use vicoop_bridge.Server.Executor.Stream.{TaskOutput, shows, produces, Turn, consume, finish_stream}
use vicoop_bridge.Server.Executor.Stream.Paid.{IsPaid, count_settles, consume-IsPaid}
use vicoop_bridge.Server.Executor.Stream.Withheld.{IsWithheld, consume-IsWithheld}
use vicoop_bridge.Server.Executor.Stream.Closed.{IsEnded, finish_stream-IsEnded}
use vicoop_bridge.Server.Executor.Request.{Request, RequestPart, flat, new_turn, parts_to_wire}
use vicoop_bridge.Server.Executor.Dispatch.{admit, recorded, is_held_by_other, begin_turn}
use vicoop_bridge.Server.Executor.Dispatch.Untouched.{IsCleared, IsStorable, begin_turn-IsUntouched}
use vicoop_bridge.Server.Executor.Dispatch.Sound.{begin_turn-kept_binding}
use vicoop_bridge.Server.Executor.Cancel.{cancel_queue, cancel_queue-received}

abbrev obligation : MerchantDeferredObligation
obligation = record { submission = null; pricing = null }

abbrev receipt_fields : Fields
receipt_fields = field "receipt" null empty

abbrev is_completed_or_failed : TaskState → Bool
is_completed_or_failed completed = true
is_completed_or_failed failed = true
is_completed_or_failed _ = false

-- An SDK that verifies every payment and delivers as it is told
abbrev sdk : (refusal : Option String) → Sdk
sdk refusal = record {
  open_turn = λ history message. proceed (some (deferred obligation));
  authorize = λ history. refusal;
  settle = λ history o usage. paid receipt_fields;
  is_indeterminate = λ history. some false;
  failed_metadata = λ code reason failure. empty;
  completed_metadata = λ receipt. empty;
  state_text = λ state. "state";
  is_terminal = is_completed_or_failed;
}

documented : HasTerminalStates (sdk none)
documented = record { completed_ends = refl; failed_ends = refl }

abbrev no_count : String → Option ℕ
no_count s = none

abbrev message : A2xMessage
message = record {
  message_id = "m1";
  role = user;
  parts = text "hi" ∷ [];
  metadata = none;
  extensions = none;
  task_id = "t1";
  context_id = "c1";
}

abbrev request : List RequestPart → Request
request parts = record {
  agent_id = "alpha";
  params = record { now = 0; task_id = "t1"; context_id = "c1" };
  task = record {
    status = record { state = submitted; timestamp = none; message = none };
    history = [];
    artifacts = [];
  };
  message = message;
  parts = parts;
  principal_id = none;
  actor_id = none;
  authorization_profile = none;
  authorization_key = none;
  scope = none;
  has_caller = false;
  fresh_id = "u1";
  is_gated = true;
  is_upto = true;
  x402_version = 2;
}

abbrev plain : Request
plain = request (flat (text "hi") ∷ [])

abbrev turn : Turn
turn = record (new_turn plain) { settlement = some (owed obligation) }

abbrev artifact : String → A2xArtifact
artifact s = record {
  artifact_id = "a1";
  name = none;
  metadata = none;
  extensions = none;
  parts = text s ∷ [];
}

abbrev chunk : Option Bool → String → ArtifactEvent
chunk append s = record {
  task_id = "t1";
  context_id = "c1";
  artifact = artifact s;
  append = append;
  last_chunk = none;
}

abbrev done : StatusEvent
done = record {
  task_id = "t1";
  context_id = "c1";
  final = true;
  status = record { state = completed; timestamp = none; message = none };
  metadata = none;
}

abbrev items : List (TaskOutput × Option TaskUsage)
items = (produces (chunk none "x"), none) ∷ (shows done, none) ∷ []

consume-IsPaid_example :
    let t = consume (sdk none) no_count turn items in
    All (IsPaid (sdk none) (owed obligation)) t.yielded × (count_settles t.calls ≤ 1)
consume-IsPaid_example =
    consume-IsPaid (sdk none) no_count documented (owed obligation) turn items refl refl refl

-- The output, the call that allowed it, and the settlement
paid_once : count_settles (consume (sdk none) no_count turn items).calls ≡ 1
unfolding consume
paid_once = refl

consume-IsWithheld_example :
    All
      (IsWithheld (sdk (some "expired")))
      (consume (sdk (some "expired")) no_count turn items).yielded
consume-IsWithheld_example =
    consume-IsWithheld (sdk (some "expired")) no_count (λ history. "expired") (λ history. refl) turn
      items refl refl refl

finish_stream-IsEnded_example :
    IsEnded (sdk none) true (finish_stream (sdk none) (consume (sdk none) no_count turn items) true)
finish_stream-IsEnded_example =
    finish_stream-IsEnded (sdk none) documented no_count turn items true refl refl

abbrev metadata : Fields
metadata =
    field "_principalId" null (
      field "topic" null
        (field "mentionable" (object (field "identity_evidence" null empty)) empty))

strip_internal_metadata-forwarded_example :
    let out = strip_internal_metadata (some metadata) in
    (forwarded out "caller" ≡ none)
    × (member "identity_evidence" (forwarded out "mentionable") ≡ none)
    × (member "verifiable_credentials" (forwarded out "mentionable") ≡ none)
strip_internal_metadata-forwarded_example = strip_internal_metadata-forwarded metadata "caller" refl

only_topic : strip_internal_metadata (some metadata) ≡ some (field "topic" null empty)
unfolding strip_internal_metadata
only_topic = refl

abbrev chunks : List ArtifactEvent
chunks = chunk (some true) "b" ∷ chunk (some true) "c" ∷ []

artifact_map-append_chunks_example :
    (a : A2xArtifact) × (lookup "a1" (artifact_map [] (append_chunks (artifact "a" ∷ []) chunks))
      ≡ some a)
    × (single_text a.parts ≡ some (streamed "a1" "a" chunks))
artifact_map-append_chunks_example =
    artifact_map-append_chunks "a1" "a" [] (artifact "a" ∷ []) chunks
      (artifact "a", refl, refl, refl) refl

artifact_map-lost_chunk_example :
    lookup "a1" (
      artifact_map []
        (append_chunks (artifact "old" ∷ []) (chunk none "new" ∷ chunk (some true) "er" ∷ [])))
    ≡ some (artifact "new")
artifact_map-lost_chunk_example =
    artifact_map-lost_chunk "a1" [] (artifact "old" ∷ []) (artifact "old") (chunk none "new")
      (chunk (some true) "er") refl refl refl refl refl

begin_turn-IsUntouched_example :
    ((begin_turn
        (sdk none)
        no_count
        in_flight
        1
        plain
        (admit (sdk none) in_flight plain)
        (recorded plain.task)).0
      ≡ in_flight)
    ⊎ (IsCleared (sdk none) plain
        × (is_held_by_other in_flight plain ≡ false)
        × IsStorable (sdk none) (recorded plain.task))
begin_turn-IsUntouched_example =
    begin_turn-IsUntouched (sdk none) no_count in_flight in_flight 1 plain (recorded plain.task)
      refl refl

abbrev listed : Request
listed = request (flat (json (array nil)) ∷ [])

begin_turn-kept_binding_example :
    let begun =
      begin_turn (sdk none) no_count in_flight 1 listed (new_turn listed) (recorded plain.task) in
    (begun.1.closed ≡ true) × (get_binding begun.0 "t1" ≡ some 1)
unfolding lookup parts_to_wire
begin_turn-kept_binding_example =
    begin_turn-kept_binding (sdk none) no_count in_flight 1 listed (new_turn listed) plain.task refl
      refl refl refl refl refl

cancel_queue-received_example : (next (cancel_queue (new_queue {T = ℕ} {E = ℕ}) 5)).received ≡ []
unfolding new_queue
cancel_queue-received_example = cancel_queue-received (new_queue {T = ℕ} {E = ℕ}) 5 refl
