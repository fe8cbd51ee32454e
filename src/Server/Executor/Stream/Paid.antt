-- ===== src/Server/Executor/Stream/Paid.antt =====
-- What a caller is shown as done has been paid for, in packages/server/src/executor.ts.
use mathlib.Core.Bool.{false≢true}
use vicoop_bridge.Prelude.{
  ℕ, ◌+◌, ◌≤◌, ◌≡◌, ◌∙◌, sym, subst, refl, ◌⊎◌, inl, inr, String, false, ◌||◌, Option, none, some,
  List, [], ◌∷◌, ◌++◌, All, All-append, if◌then◌else◌, if_both, if_cases, Bool-cases, option_both,
  arith,
}
use vicoop_bridge.Protocol.{
  fields_of, merge_fields, object, Fields, TaskState, submitted, working, input_required,
  auth_required, completed, canceled, failed, A2xMessage, TaskUsage,
}
use vicoop_bridge.Server.State.{StatusEvent, ArtifactEvent}
use vicoop_bridge.Server.Payments.Usage.{MerchantMeterableUsage, read_task_usage}
use vicoop_bridge.Server.Payments.{
  authorizes, settles, clears, clear, MerchantDeferredObligation, MerchantSettleOutcome, paid,
  unpaid, MerchantCall, Sdk, HasTerminalStates, X402Settlement, charged, owed, GateParams,
  settle_outcome, settle, authorize_delivery,
}
use vicoop_bridge.Server.Executor.Settlement.{
  is_completed, add_metadata, receipt_message, with_receipt, message_metadata, settled_event,
  settle_terminal,
}
use vicoop_bridge.Server.Executor.Stream.{
  TaskOutput, shows, produces, Turn, with_origin, on_artifact, on_progress, close_with, on_terminal,
  on_guarded, authorized, guard_output, on_output, consume,
}

-- A message that carries these fields among its metadata
abbrev pub HasReceipt : StatusEvent → Fields → Type 0
HasReceipt event metadata =
    (message : A2xMessage) × (fields : Fields) × (event.status.message ≡ some message)
    × (message.metadata ≡ some (object (merge_fields fields metadata)))

-- A flat fee's receipt stands on every terminal status; a metered task is shown as completed only
-- with the receipt of its settlement under the terms that it was offered.
abbrev pub IsPaid : Sdk → X402Settlement → TaskOutput → Type 0
IsPaid sdk s (produces event) = Unit
IsPaid sdk (charged metadata) (shows event) =
    (sdk.is_terminal event.status.state ≡ false) ⊎ HasReceipt event metadata
IsPaid sdk (owed obligation) (shows event) =
    (is_completed event.status.state ≡ false)
    ⊎ ((history : List MerchantCall) × (usage : MerchantMeterableUsage) × (metadata : Fields)
        × (sdk.settle history obligation usage ≡ paid metadata)
        × HasReceipt event metadata)

with_origin-IsPaid :
    (sdk : Sdk) (s : X402Settlement) (id : Option String) (event : StatusEvent)
    → IsPaid sdk s (shows event)
    → IsPaid sdk s (shows (with_origin id event))
with_origin-IsPaid sdk (charged m) none event h = h
with_origin-IsPaid sdk (charged m) (some id) event h = h
with_origin-IsPaid sdk (owed o) none event h = h
with_origin-IsPaid sdk (owed o) (some id) event h = h

progress-IsPaid :
    (sdk : Sdk) (documented : HasTerminalStates sdk) (s : X402Settlement) (event : StatusEvent)
    → sdk.is_terminal event.status.state ≡ false
    → IsPaid sdk s (shows event)
progress-IsPaid sdk documented (charged m) event h = inl h
progress-IsPaid sdk documented (owed o) event h = inl (go event.status.state h)
  where
    go : (x : TaskState) → sdk.is_terminal x ≡ false → is_completed x ≡ false
    go submitted e = refl
    go working e = refl
    go input_required e = refl
    go auth_required e = refl
    go completed e = absurd (false≢true (sym e ∙ documented.completed_ends))
    go canceled e = refl
    go failed e = refl

with_receipt-HasReceipt :
    (at : GateParams) (event : StatusEvent) (metadata : Fields)
    → HasReceipt (with_receipt at event metadata) metadata
with_receipt-HasReceipt at event metadata =
    (add_metadata m metadata, fields_of m.metadata, refl, refl)
  where
    m : A2xMessage
    m = receipt_message at event.status.message

module _ (sdk : Sdk) (count_of : String → Option ℕ) (at : GateParams) where
  settled_event-IsPaid :
      (o : MerchantDeferredObligation) (event : StatusEvent) (history : List MerchantCall)
      (usage : MerchantMeterableUsage) (result : MerchantSettleOutcome)
      → sdk.settle history o usage ≡ result
      → IsPaid sdk
          (owed o)
          (shows (settled_event sdk count_of at event (settle_outcome sdk at result)))
  settled_event-IsPaid o event history usage (paid metadata) e =
      inr (history, usage, metadata, e, with_receipt-HasReceipt at event metadata)
  settled_event-IsPaid o event history usage (unpaid code reason r) e = inl refl

  settle_terminal-IsPaid :
      (s : X402Settlement) (event : StatusEvent) (usage : Option TaskUsage)
      (history : List MerchantCall)
      → IsPaid sdk s (shows (settle_terminal sdk count_of at s event usage history).0)
  unfolding settle_terminal settle
  settle_terminal-IsPaid (charged metadata) event usage history =
      inr (with_receipt-HasReceipt at event metadata)
  settle_terminal-IsPaid (owed o) event usage history =
      if_cases (λ (z : StatusEvent × List MerchantCall). IsPaid sdk (owed o) (shows z.0))
        (is_completed event.status.state)
        (λ done.
          settled_event-IsPaid o event history
            (read_task_usage count_of usage (message_metadata event)).usage _ refl)
        (λ undone. inl undone)

abbrev is_settle : MerchantCall → ℕ
is_settle (settles _ _) = 1
is_settle _ = 0

-- How often a payment has been settled
abbrev pub count_settles : List MerchantCall → ℕ
count_settles [] = 0
count_settles (c ∷ calls) = is_settle c + count_settles calls

count_settles-append :
    (calls : List MerchantCall) (c : MerchantCall)
    → count_settles (calls ++ c ∷ []) ≡ count_settles calls + is_settle c
count_settles-append [] c = omega arith
count_settles-append (b ∷ calls) c = omega (arith, count_settles-append calls c)

-- A settlement is the last thing that a turn does.
record IsPaidTurn (sdk : Sdk) (s : X402Settlement) (t : Turn) : Type 0 where
  priced : t.settlement ≡ some s
  all_paid : All (IsPaid sdk s) t.yielded
  once : count_settles t.calls + (if t.closed then 0 else 1) ≤ 1

module _ (sdk : Sdk) (count_of : String → Option ℕ) (documented : HasTerminalStates sdk)
    (s : X402Settlement) where
  clear-count_settles :
      (history : List MerchantCall) → count_settles (clear sdk history) ≡ count_settles history
  unfolding clear
  clear-count_settles history =
      option_both (λ (z : List MerchantCall). count_settles z ≡ count_settles history)
        (sdk.is_indeterminate history) refl
        λ retained e.
          if_both (λ (z : List MerchantCall). count_settles z ≡ count_settles history) retained refl
            (omega (arith, count_settles-append history clears))

  settle_terminal-count_settles :
      (at : GateParams) (event : StatusEvent) (usage : Option TaskUsage)
      (history : List MerchantCall)
      → count_settles (settle_terminal sdk count_of at s event usage history).1
        ≤ count_settles history + 1
  settle_terminal-count_settles at event usage history = go s
    where
      go :
          (s' : X402Settlement)
          → count_settles (settle_terminal sdk count_of at s' event usage history).1
            ≤ count_settles history + 1
      go (charged m) = unfold settle_terminal in omega (arith, clear-count_settles history)
      go (owed o) =
          unfold settle_terminal settle in
          if_both
            (λ (z : StatusEvent × List MerchantCall). count_settles z.1 ≤ count_settles history + 1)
            (is_completed event.status.state)
            (omega (
              arith,
              clear-count_settles (
                  history
                  ++ settles o (read_task_usage count_of usage (message_metadata event)).usage
                    ∷ []),
              count_settles-append history
                  (settles o (read_task_usage count_of usage (message_metadata event)).usage),
            ))
            (omega (arith, clear-count_settles history))

  append-IsPaid :
      (os : List TaskOutput) (event : StatusEvent) (id : Option String)
      → All (IsPaid sdk s) os
      → IsPaid sdk s (shows event)
      → All (IsPaid sdk s) (os ++ shows (with_origin id event) ∷ [])
  append-IsPaid os event id h k =
      All-append (IsPaid sdk s) os (shows (with_origin id event) ∷ []) h
        (with_origin-IsPaid sdk s id event k, tt)

  on_artifact-IsPaidTurn :
      (t : Turn) (event : ArtifactEvent)
      → IsPaidTurn sdk s t
      → IsPaidTurn sdk s (on_artifact t event)
  unfolding on_artifact
  on_artifact-IsPaidTurn t event v = record {
    priced = v.priced;
    all_paid = All-append (IsPaid sdk s) t.yielded (produces event ∷ []) v.all_paid (tt, tt);
    once = v.once;
  }

  on_progress-IsPaidTurn :
      (t : Turn) (event : StatusEvent)
      → sdk.is_terminal event.status.state ≡ false
      → IsPaidTurn sdk s t
      → IsPaidTurn sdk s (on_progress t event)
  unfolding on_progress
  on_progress-IsPaidTurn t event h v = record {
    priced = v.priced;
    all_paid =
        append-IsPaid t.yielded event t.execution_id v.all_paid
          (progress-IsPaid sdk documented s event h);
    once = v.once;
  }

  close_with-IsPaidTurn :
      (t : Turn) (event : StatusEvent) (usage : Option TaskUsage)
      → t.closed ≡ false
      → IsPaidTurn sdk s t
      → let settled = settle_terminal sdk count_of t.params s event usage t.calls in
        IsPaidTurn sdk s (close_with t settled.0 settled.1)
  unfolding close_with
  close_with-IsPaidTurn t event usage live v = record {
    priced = v.priced;
    all_paid =
        append-IsPaid t.yielded _ t.execution_id v.all_paid
          (settle_terminal-IsPaid sdk count_of t.params s event usage t.calls);
    once =
        omega
          (arith, settle_terminal-count_settles t.params event usage t.calls, rw live at v.once);
  }

  on_terminal-IsPaidTurn :
      (t : Turn) (event : StatusEvent) (usage : Option TaskUsage)
      → t.closed ≡ false
      → IsPaidTurn sdk s t
      → IsPaidTurn sdk s (on_terminal sdk count_of t event usage)
  unfolding on_terminal
  on_terminal-IsPaidTurn t event usage live v =
      subst
        (λ o. IsPaidTurn sdk s (elim o [
          | none ↦ close_with t event t.calls
          | some z ↦
              let settled = settle_terminal sdk count_of t.params z event usage t.calls in
              close_with t settled.0 settled.1
        ]))
        (sym v.priced) (close_with-IsPaidTurn t event usage live v)

  on_guarded-IsPaidTurn :
      (t : Turn) (o : TaskOutput) (usage : Option TaskUsage)
      → t.closed ≡ false
      → IsPaidTurn sdk s t
      → IsPaidTurn sdk s (on_guarded sdk count_of t o usage)
  unfolding on_guarded
  on_guarded-IsPaidTurn t (produces event) usage live v = on_artifact-IsPaidTurn t event v
  on_guarded-IsPaidTurn t (shows event) usage live v =
      let seen : IsPaidTurn sdk s (record t { saw_final = t.saw_final || event.final }) = record {
        priced = v.priced;
        all_paid = v.all_paid;
        once = v.once;
      } in
      if_cases (λ z. IsPaidTurn sdk s z) (sdk.is_terminal event.status.state)
        (λ ends. on_terminal-IsPaidTurn _ event usage live seen)
        (λ goes_on. on_progress-IsPaidTurn _ event goes_on seen)

  abbrev IsPaidGuard : Turn × TaskOutput → Type 0
  IsPaidGuard g = IsPaidTurn sdk s g.0 × (g.0.closed ≡ false)

  authorized-IsPaidTurn :
      (t : Turn) (o : TaskOutput)
      → t.closed ≡ false
      → IsPaidTurn sdk s t
      → IsPaidGuard (authorized sdk count_of t o)
  unfolding authorized authorize_delivery
  authorized-IsPaidTurn t o live v =
      option_both (λ (g : Turn × TaskOutput). IsPaidTurn sdk s g.0 × (g.0.closed ≡ false)) _
        (record { priced = v.priced; all_paid = v.all_paid; once = once }, live)
        λ refusal e. (record { priced = v.priced; all_paid = v.all_paid; once = once }, live)
    where
      once : count_settles (t.calls ++ authorizes ∷ []) + (if t.closed then 0 else 1) ≤ 1
      once = omega (arith, count_settles-append t.calls authorizes, v.once)

  guard_output-IsPaidTurn :
      (t : Turn) (o : TaskOutput)
      → t.closed ≡ false
      → IsPaidTurn sdk s t
      → IsPaidGuard (guard_output sdk count_of t o)
  unfolding guard_output
  guard_output-IsPaidTurn t o live v =
      if_both (λ g. IsPaidGuard g) _ (authorized-IsPaidTurn t o live v) (v, live)

  on_output-IsPaidTurn :
      (t : Turn) (o : TaskOutput) (usage : Option TaskUsage)
      → IsPaidTurn sdk s t
      → IsPaidTurn sdk s (on_output sdk count_of t o usage)
  unfolding on_output
  on_output-IsPaidTurn t o usage v =
      if_cases (λ z. IsPaidTurn sdk s z) t.closed (λ ended. v)
        λ live.
          let g = guard_output-IsPaidTurn t o live v in
          on_guarded-IsPaidTurn (guard_output sdk count_of t o).0 (guard_output sdk count_of t o).1
            usage g.1 g.0

  consume-IsPaidTurn :
      (t : Turn) (items : List (TaskOutput × Option TaskUsage))
      → IsPaidTurn sdk s t
      → IsPaidTurn sdk s (consume sdk count_of t items)
  unfolding consume
  consume-IsPaidTurn t [] v = v
  consume-IsPaidTurn t ((o, usage) ∷ rest) v =
      consume-IsPaidTurn (on_output sdk count_of t o usage) rest (on_output-IsPaidTurn t o usage v)

  -- In a turn that has to be paid for, whatever its client sends and whatever the payment rail
  -- answers: every terminal status that the caller is shown carries the receipt of a flat fee; a
  -- metered task is shown as completed only if a settlement under the terms that it was offered
  -- succeeded, and with its receipt; and no turn settles more than once.
  pub consume-IsPaid :
      (t : Turn) (items : List (TaskOutput × Option TaskUsage))
      → t.settlement ≡ some s
      → t.yielded ≡ []
      → count_settles t.calls ≡ 0
      → let t' = consume sdk count_of t items in
        All (IsPaid sdk s) t'.yielded × (count_settles t'.calls ≤ 1)
  consume-IsPaid t items priced fresh unsettled =
      let v = consume-IsPaidTurn t items (record {
        priced = priced;
        all_paid = subst (λ l. All (IsPaid sdk s) l) (sym fresh) tt;
        once = elim (Bool-cases t.closed) [
          | inl c ↦ rw c (omega arith)
          | inr c ↦ rw c (omega arith)
        ];
      }) in
      (v.all_paid, omega (arith, v.once))
