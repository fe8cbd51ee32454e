-- ===== src/Server/Payments.antt =====
-- packages/server/src/x402/gate.ts: the payment gate of one agent, over the `MerchantGate` of
-- the SDK, which the source only calls.
--
-- The SDK may answer by all the calls that were made of it in this turn, so `history` lists them,
-- oldest first. A receipt is a JSON value. Logs are left out.
pub mod Usage
use vicoop_bridge.Prelude.{
  ◌≡◌, ℕ, String, Bool, true, false, ◌&&◌, Option, none, some, List, [], ◌∷◌, ◌++◌, ◌⧺◌, ◌==◌,
  nat_eq, if◌then◌else◌,
}
use vicoop_bridge.Protocol.{
  Json, object, Fields, empty, TaskState, completed, failed, input_required, A2xMessage, agent,
  text, instant,
}
use vicoop_bridge.Server.State.{StatusEvent}
use vicoop_bridge.Server.Payments.Usage.{MerchantMeterableUsage}

-- A verified `upto` submission with the terms that it was offered under
pub record MerchantDeferredObligation : Type 0 where
  pub submission : Json
  pub pricing : Json

pub data MerchantObligation : Type 0 where
  deferred : MerchantDeferredObligation → MerchantObligation
  settled : (receipt : Json) → MerchantObligation

pub data MerchantOpenOutcome : Type 0 where
  request_payment : (text : String) (metadata : Fields) → MerchantOpenOutcome
  refuse : (code reason : String) (failure_receipt : Option Json) → MerchantOpenOutcome
  handled : (receipt_metadata : Fields) → MerchantOpenOutcome
  proceed : Option MerchantObligation → MerchantOpenOutcome

pub data MerchantSettleOutcome : Type 0 where
  paid : (receipt_metadata : Fields) → MerchantSettleOutcome
  unpaid : (code reason : String) (failure_receipt : Option Json) → MerchantSettleOutcome

-- The calls that reach the payment rail
pub data MerchantCall : Type 0 where
  opens : A2xMessage → MerchantCall
  authorizes : MerchantCall
  settles : MerchantDeferredObligation → MerchantMeterableUsage → MerchantCall
  clears : MerchantCall

-- What the source takes of the SDK: the gate, the texts of its events, and `TERMINAL_STATES`.
-- `authorize` gives the reason of a refusal. `is_indeterminate` is what the store says of
-- the failure of an offering, `none` when it cannot be read.
pub record Sdk : Type 0 where
  pub open_turn : (history : List MerchantCall) → A2xMessage → MerchantOpenOutcome
  pub authorize : (history : List MerchantCall) → Option String
  pub settle :
      (history : List MerchantCall)
      → MerchantDeferredObligation
      → MerchantMeterableUsage
      → MerchantSettleOutcome
  pub is_indeterminate : (history : List MerchantCall) → Option Bool
  pub failed_metadata : (code reason : String) → Option Json → Fields
  pub completed_metadata : (receipt : Json) → Fields
  pub state_text : TaskState → String
  pub is_terminal : TaskState → Bool

-- What the A2A protocol says of the states that end a task
pub record HasTerminalStates (sdk : Sdk) : Type 0 where
  pub completed_ends : sdk.is_terminal completed ≡ true
  pub failed_ends : sdk.is_terminal failed ≡ true

-- What the caller still owes
pub data X402Settlement : Type 0 where
  charged : (metadata : Fields) → X402Settlement
  owed : MerchantDeferredObligation → X402Settlement

pub data X402GateOutcome : Type 0 where
  goes_on : Option X402Settlement → X402GateOutcome
  halts : StatusEvent → X402GateOutcome

pub data X402SettleOutcome : Type 0 where
  receipt : (metadata : Fields) → X402SettleOutcome
  refused : StatusEvent → X402SettleOutcome

-- Where and when a gate runs
pub record GateParams : Type 0 where
  pub now : ℕ
  pub task_id : String
  pub context_id : String

module _ (sdk : Sdk) (at : GateParams) where
  abbrev pub status_event : TaskState → (text : String) (metadata : Fields) → StatusEvent
  status_event state reason metadata = record {
    task_id = at.task_id;
    context_id = at.context_id;
    final = true;
    status = record {
      state = state;
      timestamp = some (instant at.now);
      message = some (record {
        message_id = at.task_id ⧺ "-x402-" ⧺ sdk.state_text state;
        role = agent;
        parts = text reason ∷ [];
        metadata = some (object metadata);
        extensions = none;
        task_id = at.task_id;
        context_id = at.context_id;
      });
    };
    metadata = none;
  }

  abbrev pub failed_event : (code reason : String) (failure_receipt : Option Json) → StatusEvent
  failed_event code reason failure_receipt =
      status_event failed reason (sdk.failed_metadata code reason failure_receipt)

  -- What the gate makes of the SDK's answer
  abbrev pub open_outcome : MerchantOpenOutcome → X402GateOutcome
  open_outcome (request_payment reason metadata) =
      halts (status_event input_required reason metadata)
  open_outcome (refuse code reason failure_receipt) =
      halts (failed_event code reason failure_receipt)
  open_outcome (handled metadata) = halts (
      status_event completed "The payment operation completed; no agent work was performed."
        metadata)
  open_outcome (proceed none) = goes_on none
  open_outcome (proceed (some (deferred obligation))) = goes_on (some (owed obligation))
  open_outcome (proceed (some (settled paid_receipt))) =
      goes_on (some (charged (sdk.completed_metadata paid_receipt)))

  -- Metered pricing needs version 2 of the wire.
  unfoldable pub open_gate :
      (is_upto : Bool) (version : ℕ) → A2xMessage → X402GateOutcome × List MerchantCall
  open_gate is_upto version message =
      if is_upto && version == 1
      then (
        halts (
            failed_event "invalid_x402_version"
              "Metered pricing requires x402 V2, which this deployment does not serve." none),
        [],
      )
      else (open_outcome (sdk.open_turn [] message), opens message ∷ [])

  -- The event that stands for a refused delivery
  abbrev pub delivery_refusal : StatusEvent
  delivery_refusal =
      failed_event "SETTLEMENT_FAILED" "Payment authorization is no longer available for delivery."
        none

  unfoldable pub authorize_delivery :
      (history : List MerchantCall) → Option StatusEvent × List MerchantCall
  authorize_delivery history = (
    elim (sdk.authorize history) [ none ↦ none | some _ ↦ some delivery_refusal ],
    history ++ authorizes ∷ [],
  )

  abbrev pub settle_outcome : MerchantSettleOutcome → X402SettleOutcome
  settle_outcome (paid metadata) = receipt metadata
  settle_outcome (unpaid code reason failure_receipt) =
      refused (failed_event code reason failure_receipt)

  unfoldable pub settle :
      (history : List MerchantCall)
      → MerchantDeferredObligation
      → MerchantMeterableUsage
      → X402SettleOutcome × List MerchantCall
  settle history obligation usage = (
    settle_outcome (sdk.settle history obligation usage),
    history ++ settles obligation usage ∷ [],
  )

-- The evidence of a failure that may have settled on the chain is kept.
unfoldable pub clear : Sdk → (history : List MerchantCall) → List MerchantCall
clear sdk history = elim (sdk.is_indeterminate history) [
  | none ↦ history
  | some retained ↦ if retained then history else history ++ clears ∷ []
]
