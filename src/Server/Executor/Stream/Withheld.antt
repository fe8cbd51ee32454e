-- ===== src/Server/Executor/Stream/Withheld.antt =====
-- Without an authorized payment nothing is delivered, in packages/server/src/executor.ts.
use vicoop_bridge.Prelude.{
  ◌≡◌, sym, ◌∙◌, subst, refl, ◌⊎◌, inl, inr, ℕ, String, true, false, not, ◌&&◌, ◌||◌, Option, none,
  some, List, [], ◌∷◌, ◌++◌, All, All-append, if_both, if_cases, option_both, arith, Never,
}
use vicoop_bridge.Server.Payments.Usage.{MerchantMeterableUsage, read_task_usage}
use vicoop_bridge.Protocol.{Json, Fields, text, A2xPart, failed, TaskUsage}
use vicoop_bridge.Server.State.{StatusEvent}
use vicoop_bridge.Server.Payments.{
  MerchantCall, Sdk, MerchantDeferredObligation, MerchantSettleOutcome, paid, unpaid, settle,
  settle_outcome, GateParams, X402Settlement, charged, owed, authorize_delivery,
}
use vicoop_bridge.Server.Executor.Settlement.{
  is_completed, settled_event, settle_terminal, receipt_message, with_receipt, message_metadata,
}
use vicoop_bridge.Server.Executor.Stream.{
  TaskOutput, shows, produces, Turn, with_origin, parts_of, has_parts, has_output, on_progress,
  close_with, on_terminal, on_guarded, authorized, is_priced, guard_output, on_output, consume,
}

abbrev pub refusal_parts : List A2xPart
refusal_parts = text "Payment authorization is no longer available for delivery." ∷ []

-- Nothing is delivered but the texts of the gate: its refusal, or the reason of a failed settlement.
abbrev pub IsWithheld : Sdk → TaskOutput → Type 0
IsWithheld sdk (produces event) = Never {0}
IsWithheld sdk (shows event) =
    (parts_of event ≡ [])
    ⊎ ((parts_of event ≡ refusal_parts)
        ⊎ ((history : List MerchantCall) × (obligation : MerchantDeferredObligation)
            × (usage : MerchantMeterableUsage) × (code : String) × (reason : String)
            × (receipt : Option Json) × (sdk.settle history obligation usage
                ≡ unpaid code reason receipt)
            × (parts_of event ≡ text reason ∷ [])))

no_parts : (ps : List A2xPart) → has_parts ps ≡ false → ps ≡ []
no_parts [] h = refl
no_parts (p ∷ ps) h = cc

has_no_parts : (ps : List A2xPart) → ps ≡ [] → has_parts ps ≡ false
has_no_parts [] h = refl
has_no_parts (p ∷ ps) h = cc

record IsWithheldTurn (sdk : Sdk) (t : Turn) : Type 0 where
  priced : is_priced t ≡ true
  unauthorized : t.delivery_authorized ≡ false
  all_withheld : All (IsWithheld sdk) t.yielded

-- What a guarded output is: one with no parts, or the refusal.
abbrev IsGuarded : TaskOutput → Type 0
IsGuarded (produces event) = Never {0}
IsGuarded (shows event) =
    (parts_of event ≡ []) ⊎ ((event.status.state ≡ failed) × (parts_of event ≡ refusal_parts))

without_output-IsGuarded : (o : TaskOutput) → has_output o ≡ false → IsGuarded o
without_output-IsGuarded (produces event) h = cc
without_output-IsGuarded (shows event) h = inl (no_parts (parts_of event) h)

with_receipt-parts_of :
    (at : GateParams) (event : StatusEvent) (metadata : Fields)
    → parts_of (with_receipt at event metadata) ≡ parts_of event
with_receipt-parts_of at event metadata =
    elim event.status.message
      as (λ m. (receipt_message at m).parts ≡ elim m [ none ↦ [] | some x ↦ x.parts ]) [
        | none ↦ refl
        | some m ↦ refl
      ]

module _ (sdk : Sdk) (count_of : String → Option ℕ) where
  guarded-IsWithheld :
      (event : StatusEvent) → IsGuarded (shows event) → IsWithheld sdk (shows event)
  guarded-IsWithheld event (inl silent) = inl silent
  guarded-IsWithheld event (inr told) = inr (inl told.1)

  same_parts-IsWithheld :
      (event event' : StatusEvent)
      → parts_of event' ≡ parts_of event
      → IsWithheld sdk (shows event)
      → IsWithheld sdk (shows event')
  same_parts-IsWithheld event event' e (inl silent) = inl (e ∙ silent)
  same_parts-IsWithheld event event' e (inr (inl told)) = inr (inl (e ∙ told))
  same_parts-IsWithheld event event' e (inr (inr (h, o, u, c, r, x, failed_so, told))) =
      inr (inr (h, o, u, c, r, x, failed_so, e ∙ told))

  with_origin-IsWithheld :
      (id : Option String) (event : StatusEvent)
      → IsWithheld sdk (shows event)
      → IsWithheld sdk (shows (with_origin id event))
  with_origin-IsWithheld none event h = h
  with_origin-IsWithheld (some id) event h = h

  settled_event-IsWithheld :
      (at : GateParams) (event : StatusEvent) (history : List MerchantCall)
      (o : MerchantDeferredObligation) (usage : MerchantMeterableUsage)
      (result : MerchantSettleOutcome)
      → sdk.settle history o usage ≡ result
      → IsWithheld sdk (shows event)
      → IsWithheld sdk (shows (settled_event sdk count_of at event (settle_outcome sdk at result)))
  settled_event-IsWithheld at event history o usage (paid metadata) e h =
      same_parts-IsWithheld event (with_receipt at event metadata)
        (with_receipt-parts_of at event metadata) h
  settled_event-IsWithheld at event history o usage (unpaid code reason r) e h =
      inr (inr (history, o, usage, code, reason, r, e, refl))

  settle_terminal-IsWithheld :
      (at : GateParams) (s : X402Settlement) (event : StatusEvent) (usage : Option TaskUsage)
      (history : List MerchantCall)
      → IsWithheld sdk (shows event)
      → IsWithheld sdk (shows (settle_terminal sdk count_of at s event usage history).0)
  unfolding settle_terminal settle
  settle_terminal-IsWithheld at (charged metadata) event usage history h =
      same_parts-IsWithheld event (with_receipt at event metadata)
        (with_receipt-parts_of at event metadata) h
  settle_terminal-IsWithheld at (owed o) event usage history h =
      if_both (λ (z : StatusEvent × List MerchantCall). IsWithheld sdk (shows z.0))
        (is_completed event.status.state)
        (settled_event-IsWithheld at event history o
          (read_task_usage count_of usage (message_metadata event)).usage _ refl h)
        h

  yield-IsWithheld :
      (os : List TaskOutput) (id : Option String) (event : StatusEvent)
      → All (IsWithheld sdk) os
      → IsWithheld sdk (shows event)
      → All (IsWithheld sdk) (os ++ shows (with_origin id event) ∷ [])
  yield-IsWithheld os id event h k =
      All-append (IsWithheld sdk) os (shows (with_origin id event) ∷ []) h
        (with_origin-IsWithheld id event k, tt)

  on_progress-IsWithheldTurn :
      (t : Turn) (event : StatusEvent)
      → IsWithheld sdk (shows event)
      → IsWithheldTurn sdk t
      → IsWithheldTurn sdk (on_progress t event)
  unfolding on_progress
  on_progress-IsWithheldTurn t event h v = record {
    priced = v.priced;
    unauthorized = v.unauthorized;
    all_withheld = yield-IsWithheld t.yielded t.execution_id event v.all_withheld h;
  }

  close_with-IsWithheldTurn :
      (t : Turn) (event : StatusEvent) (calls : List MerchantCall)
      → IsWithheld sdk (shows event)
      → IsWithheldTurn sdk t
      → IsWithheldTurn sdk (close_with t event calls)
  unfolding close_with
  close_with-IsWithheldTurn t event calls h v = record {
    priced = v.priced;
    unauthorized = v.unauthorized;
    all_withheld = yield-IsWithheld t.yielded t.execution_id event v.all_withheld h;
  }

  on_terminal-IsWithheldTurn :
      (t : Turn) (event : StatusEvent) (usage : Option TaskUsage)
      → IsWithheld sdk (shows event)
      → IsWithheldTurn sdk t
      → IsWithheldTurn sdk (on_terminal sdk count_of t event usage)
  unfolding on_terminal
  on_terminal-IsWithheldTurn t event usage h v =
      option_both (λ z. IsWithheldTurn sdk z) t.settlement
        (close_with-IsWithheldTurn t event t.calls h v)
        λ s e.
          close_with-IsWithheldTurn t _ _
            (settle_terminal-IsWithheld t.params s event usage t.calls h) v

  on_guarded-IsWithheldTurn :
      (t : Turn) (o : TaskOutput) (usage : Option TaskUsage)
      → IsGuarded o
      → IsWithheldTurn sdk t
      → IsWithheldTurn sdk (on_guarded sdk count_of t o usage)
  unfolding on_guarded
  on_guarded-IsWithheldTurn t (produces event) usage h v = elim h [ ]
  on_guarded-IsWithheldTurn t (shows event) usage h v =
      let seen : IsWithheldTurn sdk (record t { saw_final = t.saw_final || event.final }) = record {
        priced = v.priced;
        unauthorized = v.unauthorized;
        all_withheld = v.all_withheld;
      } in
      if_both (λ z. IsWithheldTurn sdk z) (sdk.is_terminal event.status.state)
        (on_terminal-IsWithheldTurn _ event usage (guarded-IsWithheld event h) seen)
        (on_progress-IsWithheldTurn _ event (guarded-IsWithheld event h) seen)

  module _ (reason : List MerchantCall → String)
      (refuses : (history : List MerchantCall)
        → sdk.authorize history ≡ some (reason history)) where
    abbrev IsWithheldGuard : Turn × TaskOutput → Type 0
    IsWithheldGuard g = IsWithheldTurn sdk g.0 × IsGuarded g.1

    authorized-IsWithheldTurn :
        (t : Turn) (o : TaskOutput)
        → IsWithheldTurn sdk t
        → IsWithheldGuard (authorized sdk count_of t o)
    unfolding authorized authorize_delivery
    authorized-IsWithheldTurn t o v = rw (refuses t.calls) (
      record { priced = v.priced; unauthorized = v.unauthorized; all_withheld = v.all_withheld },
      inr (refl, refl),
    )

    guard_output-IsWithheldTurn :
        (t : Turn) (o : TaskOutput)
        → IsWithheldTurn sdk t
        → IsWithheldGuard (guard_output sdk count_of t o)
    unfolding guard_output
    guard_output-IsWithheldTurn t o v =
        if_cases (λ g. IsWithheldGuard g) (is_priced t && not t.delivery_authorized && has_output o)
          (λ guarded. authorized-IsWithheldTurn t o v)
          λ silent. (v, without_output-IsGuarded o (ground (arith, v.priced, v.unauthorized)))

    on_output-IsWithheldTurn :
        (t : Turn) (o : TaskOutput) (usage : Option TaskUsage)
        → IsWithheldTurn sdk t
        → IsWithheldTurn sdk (on_output sdk count_of t o usage)
    unfolding on_output
    on_output-IsWithheldTurn t o usage v =
        let g = guard_output-IsWithheldTurn t o v in
        if_both (λ z. IsWithheldTurn sdk z) t.closed v
          (on_guarded-IsWithheldTurn (guard_output sdk count_of t o).0
            (guard_output sdk count_of t o).1 usage g.1 g.0)

    consume-IsWithheldTurn :
        (t : Turn) (items : List (TaskOutput × Option TaskUsage))
        → IsWithheldTurn sdk t
        → IsWithheldTurn sdk (consume sdk count_of t items)
    unfolding consume
    consume-IsWithheldTurn t [] v = v
    consume-IsWithheldTurn t ((o, usage) ∷ rest) v =
        consume-IsWithheldTurn (on_output sdk count_of t o usage) rest
          (on_output-IsWithheldTurn t o usage v)

    -- If the payment rail refuses delivery in a turn that has to be paid for, then no artifact
    -- reaches the caller, and every status that does has no parts, or shows the gate's refusal or
    -- the reason of a failed settlement.
    pub consume-IsWithheld :
        (t : Turn) (items : List (TaskOutput × Option TaskUsage))
        → is_priced t ≡ true
        → t.delivery_authorized ≡ false
        → t.yielded ≡ []
        → All (IsWithheld sdk) (consume sdk count_of t items).yielded
    consume-IsWithheld t items priced unauthorized fresh =
        (consume-IsWithheldTurn t items (record {
          priced = priced;
          unauthorized = unauthorized;
          all_withheld = subst (λ l. All (IsWithheld sdk) l) (sym fresh) tt;
        })).all_withheld
