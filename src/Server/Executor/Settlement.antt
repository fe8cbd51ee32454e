-- ===== src/Server/Executor/Settlement.antt =====
-- `settleTerminal` and `withReceipt` of packages/server/src/executor.ts.
use vicoop_bridge.Prelude.{
  String, Bool, true, false, string_eq, ◌⧺◌, Option, none, some, List, [], if◌then◌else◌, ℕ,
}
use vicoop_bridge.Protocol.{
  merge_fields, fields_of, Json, object, Fields, TaskState, completed, agent, A2xMessage, TaskUsage,
}
use vicoop_bridge.Server.State.{StatusEvent}
use vicoop_bridge.Server.Payments.Usage.{read_task_usage}
use vicoop_bridge.Server.Payments.{
  MerchantCall, Sdk, X402Settlement, charged, owed, X402SettleOutcome, receipt, refused, GateParams,
  settle, clear,
}

abbrev pub is_completed : TaskState → Bool
is_completed completed = true
is_completed _ = false

-- The message that a receipt is put on
abbrev pub receipt_message : GateParams → Option A2xMessage → A2xMessage
receipt_message at (some message) = message
receipt_message at none = record {
  message_id = at.task_id ⧺ "-x402-receipt";
  role = agent;
  parts = [];
  metadata = none;
  extensions = none;
  task_id = at.task_id;
  context_id = at.context_id;
}

abbrev pub add_metadata : A2xMessage → Fields → A2xMessage
add_metadata message metadata = record message {
  metadata = some (object (merge_fields (fields_of message.metadata) metadata));
}

abbrev pub with_receipt : GateParams → StatusEvent → Fields → StatusEvent
with_receipt at event metadata = record event {
  status = record event.status {
    message = some (add_metadata (receipt_message at event.status.message) metadata);
  };
}

abbrev pub message_metadata : StatusEvent → Option Json
message_metadata event = elim event.status.message [ none ↦ none | some m ↦ m.metadata ]

module _ (sdk : Sdk) (count_of : String → Option ℕ) (at : GateParams) where
  abbrev pub settled_event : StatusEvent → X402SettleOutcome → StatusEvent
  settled_event event (receipt metadata) = with_receipt at event metadata
  settled_event event (refused failure) = failure

  -- `usage` is the usage that the binding holds; logs are left out.
  unfoldable pub settle_terminal :
      X402Settlement
      → StatusEvent
      → Option TaskUsage
      → (history : List MerchantCall) → StatusEvent × List MerchantCall
  unfolding clear settle read_task_usage
  settle_terminal (charged metadata) event usage history =
      (with_receipt at event metadata, clear sdk history)
  settle_terminal (owed obligation) event usage history =
      let read = read_task_usage count_of usage (message_metadata event) in
      let result = settle sdk at history obligation read.usage in
      if is_completed event.status.state
      then (settled_event event result.0, clear sdk result.1)
      else (event, clear sdk history)
