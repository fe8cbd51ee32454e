-- ===== src/Server/Executor/Stream/Closed.antt =====
-- A stream of packages/server/src/executor.ts ends with its first terminal status.
use vicoop_bridge.Prelude.{
  ◌≡◌, ◌∙◌, sym, subst, refl, ◌⊎◌, inl, inr, ℕ, String, Bool, true, false, ◌||◌, Option, none, some,
  List, [], ◌∷◌, ◌++◌, All, All-append, Bool-cases, if◌then◌else◌, if_both, if_cases, option_both,
}
use vicoop_bridge.Protocol.{A2xStatus, A2xArtifact, TaskUsage, canceled}
use vicoop_bridge.Server.State.{StatusEvent}
use vicoop_bridge.Server.Payments.{
  MerchantCall, Sdk, HasTerminalStates, MerchantSettleOutcome, paid, unpaid, settle, settle_outcome,
  GateParams, X402Settlement, charged, owed, authorize_delivery,
}
use vicoop_bridge.Server.Payments.Usage.{read_task_usage}
use vicoop_bridge.Server.Executor.Settlement.{
  is_completed, settled_event, settle_terminal, message_metadata,
}
use vicoop_bridge.Server.Executor.Stream.{
  TaskOutput, shows, produces, Turn, with_origin, on_artifact, on_progress, close_with, on_terminal,
  on_guarded, authorized, guard_output, on_output, consume, SavedTask, finish_stream,
}

abbrev pub is_last : Sdk → TaskOutput → Bool
is_last sdk (produces event) = false
is_last sdk (shows event) = sdk.is_terminal event.status.state

abbrev pub GoesOn : Sdk → TaskOutput → Type 0
GoesOn sdk o = is_last sdk o ≡ false

-- Either no terminal status has been yielded and the stream is open, or one has, as the last thing,
-- and it is the status of the task.
abbrev pub IsStream : Sdk → Turn → Type 0
IsStream sdk t =
    ((t.closed ≡ false) × All (GoesOn sdk) t.yielded)
    ⊎ ((before : List TaskOutput) × (event : StatusEvent) × (t.closed ≡ true)
        × (t.yielded ≡ before ++ shows event ∷ [])
        × All (GoesOn sdk) before
        × (sdk.is_terminal event.status.state ≡ true)
        × (t.task.status ≡ event.status))

-- What the task was saved as, in the end
abbrev pub IsSavedLast : Turn → Type 0
IsSavedLast t =
    (earlier : List SavedTask) × (artifacts : Option (List A2xArtifact)) × (t.saved
      ≡ earlier
        ++ record { status = t.task.status; history = t.task.history; artifacts = artifacts } ∷ [])

-- Either no terminal status has been shown, and an abort has canceled a task that had not ended; or
-- one has, as the last thing, and it is the status of the task.
abbrev pub IsEnded : Sdk → (aborted : Bool) → Turn → Type 0
IsEnded sdk aborted t =
    IsSavedLast t
    × ((All (GoesOn sdk) t.yielded
          × ((aborted ≡ false)
              ⊎ (t.task.status.state ≡ canceled)
              ⊎ (sdk.is_terminal t.task.status.state ≡ true)))
        ⊎ ((before : List TaskOutput) × (event : StatusEvent) × (t.yielded
              ≡ before ++ shows event ∷ [])
            × All (GoesOn sdk) before
            × (sdk.is_terminal event.status.state ≡ true)
            × (t.task.status ≡ event.status)))

ended :
    (sdk : Sdk) (t : Turn) (aborted : Bool)
    → IsStream sdk t
    → IsEnded sdk aborted (finish_stream sdk t aborted)
unfolding finish_stream
ended sdk t aborted (inr (before, event, closed, same, goes_on, ends, status)) =
    let terminal : sdk.is_terminal t.task.status.state ≡ true = rw status ends in
    ((t.saved, _, refl), inr (before, event, same, goes_on, ends, rw terminal status))
ended sdk t false (inl (live, v)) = ((t.saved, _, refl), inl (v, inl refl))
ended sdk t true (inl (live, v)) = elim (Bool-cases (sdk.is_terminal t.task.status.state)) [
  | inl over ↦ ((t.saved, _, refl), inl (v, inr (inr (rw over (rw over refl)))))
  | inr runs ↦ ((t.saved, _, refl), inl (v, inr (inl (rw runs refl))))
]

with_origin-status :
    (id : Option String) (event : StatusEvent) → (with_origin id event).status ≡ event.status
with_origin-status none event = refl
with_origin-status (some id) event = refl

module _ (sdk : Sdk) (documented : HasTerminalStates sdk) (count_of : String → Option ℕ) where
  settled_event-terminal :
      (at : GateParams) (event : StatusEvent) (result : MerchantSettleOutcome)
      → sdk.is_terminal event.status.state ≡ true
      → sdk.is_terminal
          (settled_event sdk count_of at event (settle_outcome sdk at result)).status.state
        ≡ true
  settled_event-terminal at event (paid metadata) h = h
  settled_event-terminal at event (unpaid code reason r) h = documented.failed_ends

  settle_terminal-terminal :
      (at : GateParams) (s : X402Settlement) (event : StatusEvent) (usage : Option TaskUsage)
      (history : List MerchantCall)
      → sdk.is_terminal event.status.state ≡ true
      → sdk.is_terminal (settle_terminal sdk count_of at s event usage history).0.status.state
        ≡ true
  unfolding settle_terminal settle
  settle_terminal-terminal at (charged metadata) event usage history h = h
  settle_terminal-terminal at (owed o) event usage history h =
      if_both (λ (z : StatusEvent × List MerchantCall). sdk.is_terminal z.0.status.state ≡ true)
        (is_completed event.status.state)
        (settled_event-terminal at event
          (sdk.settle history o (read_task_usage count_of usage (message_metadata event)).usage) h)
        h

  close_with-IsStream :
      (t : Turn) (event : StatusEvent) (calls : List MerchantCall)
      → sdk.is_terminal event.status.state ≡ true
      → All (GoesOn sdk) t.yielded
      → IsStream sdk (close_with t event calls)
  unfolding close_with
  close_with-IsStream t event calls h v = inr (
    t.yielded,
    with_origin t.execution_id event,
    refl,
    refl,
    v,
    rw (with_origin-status t.execution_id event) h,
    sym (with_origin-status t.execution_id event),
  )

  on_terminal-IsStream :
      (t : Turn) (event : StatusEvent) (usage : Option TaskUsage)
      → sdk.is_terminal event.status.state ≡ true
      → All (GoesOn sdk) t.yielded
      → IsStream sdk (on_terminal sdk count_of t event usage)
  unfolding on_terminal
  on_terminal-IsStream t event usage h v =
      option_both (λ z. IsStream sdk z) t.settlement (close_with-IsStream t event t.calls h v)
        λ s e.
          close_with-IsStream t (settle_terminal sdk count_of t.params s event usage t.calls).0
            (settle_terminal sdk count_of t.params s event usage t.calls).1
            (settle_terminal-terminal t.params s event usage t.calls h) v

  on_guarded-IsStream :
      (t : Turn) (o : TaskOutput) (usage : Option TaskUsage)
      → t.closed ≡ false
      → All (GoesOn sdk) t.yielded
      → IsStream sdk (on_guarded sdk count_of t o usage)
  unfolding on_guarded on_artifact on_progress
  on_guarded-IsStream t (produces event) usage live v =
      inl (live, All-append (GoesOn sdk) t.yielded (produces event ∷ []) v (refl, tt))
  on_guarded-IsStream t (shows event) usage live v =
      if_cases (λ z. IsStream sdk z) (sdk.is_terminal event.status.state)
        (λ ends.
          on_terminal-IsStream (record t { saw_final = t.saw_final || event.final }) event usage
            ends v)
        (λ goes_on. inl (
          live,
          All-append (GoesOn sdk) t.yielded (shows (with_origin t.execution_id event) ∷ []) v (
            subst (λ (x : A2xStatus). sdk.is_terminal x.state ≡ false)
                (sym (with_origin-status t.execution_id event)) goes_on,
            tt,
          ),
        ))

  -- The guard yields nothing and leaves the stream open.
  IsKept : Turn → Turn × TaskOutput → Type 0
  IsKept t g = (g.0.closed ≡ t.closed) × (g.0.yielded ≡ t.yielded)

  guard_output-IsKept : (t : Turn) (o : TaskOutput) → IsKept t (guard_output sdk count_of t o)
  unfolding guard_output authorized authorize_delivery IsKept
  guard_output-IsKept t o =
      if_both (λ (g : Turn × TaskOutput). (g.0.closed ≡ t.closed) × (g.0.yielded ≡ t.yielded)) _
        (option_both
          (λ (g : Turn × TaskOutput). (g.0.closed ≡ t.closed) × (g.0.yielded ≡ t.yielded)) _
          (refl, refl) (λ refusal e. (refl, refl)))
        (refl, refl)

  on_output-IsStream :
      (t : Turn) (o : TaskOutput) (usage : Option TaskUsage)
      → IsStream sdk t
      → IsStream sdk (on_output sdk count_of t o usage)
  unfolding on_output IsKept
  on_output-IsStream t o usage (inr v) =
      subst
        (λ c. IsStream sdk (
          if c
          then t
          else on_guarded sdk count_of (guard_output sdk count_of t o).0
              (guard_output sdk count_of t o).1 usage))
        (sym v.2) (inr v)
  on_output-IsStream t o usage (inl (live, v)) =
      let kept = guard_output-IsKept t o in
      subst
        (λ c. IsStream sdk (
          if c
          then t
          else on_guarded sdk count_of (guard_output sdk count_of t o).0
              (guard_output sdk count_of t o).1 usage))
        (sym live)
        (on_guarded-IsStream (guard_output sdk count_of t o).0 (guard_output sdk count_of t o).1
          usage (kept.0 ∙ live) (subst (λ l. All (GoesOn sdk) l) (sym kept.1) v))

  consume-IsStream_from :
      (t : Turn) (items : List (TaskOutput × Option TaskUsage))
      → IsStream sdk t
      → IsStream sdk (consume sdk count_of t items)
  unfolding consume
  consume-IsStream_from t [] v = v
  consume-IsStream_from t ((o, usage) ∷ rest) v =
      consume-IsStream_from (on_output sdk count_of t o usage) rest (on_output-IsStream t o usage v)

  consume-IsStream :
      (t : Turn) (items : List (TaskOutput × Option TaskUsage))
      → t.closed ≡ false
      → t.yielded ≡ []
      → IsStream sdk (consume sdk count_of t items)
  consume-IsStream t items live fresh =
      consume-IsStream_from t items (inl (live, subst (λ l. All (GoesOn sdk) l) (sym fresh) tt))

  -- If `completed` and `failed` are terminal states for the SDK, a stream that starts open and has
  -- yielded nothing shows at most one terminal status, as the last thing that it yields, and that
  -- is then the status of its task. If it has shown none and was aborted, the task is canceled,
  -- unless its status had ended before. In the end the task is saved with its status and its
  -- history.
  pub finish_stream-IsEnded :
      (t : Turn) (items : List (TaskOutput × Option TaskUsage)) (aborted : Bool)
      → t.closed ≡ false
      → t.yielded ≡ []
      → IsEnded sdk aborted (finish_stream sdk (consume sdk count_of t items) aborted)
  finish_stream-IsEnded t items aborted live fresh =
      ended sdk (consume sdk count_of t items) aborted (consume-IsStream t items live fresh)
