-- ===== src/Server/Payments/Usage.antt =====
-- packages/server/src/x402/usage.ts: the token counts that a completed task is charged for.
--
-- `count_of` is what `count` finds in the text of a JSON number: its value, if that is a natural
-- number.
use vicoop_bridge.Prelude.{ℕ, String, Bool, ◌==◌, string_eq, Option, none, some, leb, if◌then◌else◌}
use vicoop_bridge.Protocol.{
  Json, number, text, array, object, TaskUsage, member, openai_compat_extension_uri,
}

pub data MerchantMeterableUsage : Type 0 where
  unreported : MerchantMeterableUsage
  detailed :
      (input_tokens output_tokens : ℕ) (cached_input_tokens : Option ℕ) → MerchantMeterableUsage

pub data TaskUsageSource : Type 0 where
  protocol openai_compat : TaskUsageSource

pub record ReadTaskUsageResult : Type 0 where
  pub usage : MerchantMeterableUsage
  pub source : Option TaskUsageSource
  pub model : Option String

-- One source's counts
pub record ReportedCounts : Type 0 where
  pub prompt : ℕ
  pub completion : ℕ
  pub cached : Option ℕ
  pub model : Option String

-- A cache figure above the prompt that it is a part of is dropped.
abbrev pub coherent_cached : (prompt : ℕ) → Option ℕ → Option ℕ
coherent_cached prompt none = none
coherent_cached prompt (some cached) = if leb cached prompt then some cached else none

abbrev pub named_model : Option String → Option String
named_model none = none
named_model (some model) = if model == "" then none else some model

unfoldable pub build :
    (prompt completion : ℕ) (cached : Option ℕ) (model : Option String) → ReportedCounts
build prompt completion cached model = record {
  prompt = prompt;
  completion = completion;
  cached = coherent_cached prompt cached;
  model = named_model model;
}

-- The counts of the frame are natural numbers by its schema.
unfoldable pub from_protocol : Option TaskUsage → Option ReportedCounts
unfolding build
from_protocol none = none
from_protocol (some u) =
    some (build u.prompt_tokens u.completion_tokens u.cached_input_tokens u.model)

abbrev pub to_meterable : ReportedCounts → MerchantMeterableUsage
to_meterable counts = detailed counts.prompt counts.completion counts.cached

abbrev pub is_object : Option Json → Bool
is_object (some (object _)) = Bool.true
is_object (some (array _)) = Bool.true
is_object _ = Bool.false

module _ (count_of : String → Option ℕ) where
  abbrev pub count : Option Json → Option ℕ
  count (some (number n)) = count_of n
  count _ = none

  abbrev pub text_of : Option Json → Option String
  text_of (some (text s)) = some s
  text_of _ = none

  -- An array has none of these members, and neither has a value that is no object.
  unfoldable pub from_openai_compat_payload : Option Json → Option ReportedCounts
  unfolding build member
  from_openai_compat_payload u = elim (count (member "prompt_tokens" u)) [
    | none ↦ none
    | some prompt ↦ elim (count (member "completion_tokens" u)) [
      | none ↦ none
      | some completion ↦ some (
          build prompt completion
            (count (member "cached_tokens" (member "prompt_tokens_details" u)))
            (text_of (member "model" u)))
    ]
  ]

  -- The counts stand under `usage`, or in the envelope of the extension.
  unfoldable pub from_openai_compat : (metadata : Option Json) → Option ReportedCounts
  unfolding from_openai_compat_payload member
  from_openai_compat metadata =
      let payload = member openai_compat_extension_uri metadata in
      elim (from_openai_compat_payload (member "usage" payload)) [
        | some direct ↦ some direct
        | none ↦ from_openai_compat_payload (member "usage" (member "chat_completion" payload))
      ]

  -- The frame's own field first
  unfoldable pub read_task_usage : Option TaskUsage → (metadata : Option Json) → ReadTaskUsageResult
  unfolding from_protocol from_openai_compat
  read_task_usage reported metadata = elim (from_protocol reported) [
    | some counts ↦ record {
      usage = to_meterable counts;
      source = some protocol;
      model = counts.model;
    }
    | none ↦ elim (from_openai_compat metadata) [
      | some legacy ↦ record {
        usage = to_meterable legacy;
        source = some openai_compat;
        model = legacy.model;
      }
      | none ↦ record { usage = unreported; source = none; model = none }
    ]
  ]
