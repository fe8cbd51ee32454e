-- ===== src/Server/Executor/Dispatch/Untouched.antt =====
-- When `executeStream` of packages/server/src/executor.ts touches the registry.
use mathlib.Core.Bool.{false≢true}
use vicoop_bridge.Prelude.{
  Never, nat_eq, ℕ, ◌≡◌, ◌∙◌, sym, refl, ◌⊎◌, inl, inr, String, Bool, true, false, not, ◌&&◌, ◌==◌,
  string_eq, Option, none, some, List, [], if◌then◌else◌, if_cases, Bool-cases, is_some, arith,
}
use vicoop_bridge.Protocol.{caller_runtime_v1_capability}
use vicoop_bridge.Server.State.{Registry}
use vicoop_bridge.Server.Approvals.{get_binding}
use vicoop_bridge.Server.Registry.{bind_task}
use vicoop_bridge.Server.Payments.{
  Sdk, MerchantCall, MerchantObligation, MerchantOpenOutcome, request_payment, refuse, handled,
  proceed, open_outcome, open_gate,
}
use vicoop_bridge.Server.Executor.Stream.{Task, Turn}
use vicoop_bridge.Server.Executor.Dispatch.{
  end_turn, gated, admit, StoreAnswer, no_lookup, threw, unsupported, recorded, unrecorded,
  Dispatched, not_owned, not_recorded, dispatch, is_held_by_other, dispatch_stored,
  dispatch_guarded, after_dispatch, begin_turn,
}
use vicoop_bridge.Server.Executor.Request.{Request, has_capability, new_turn}

-- The gate lets a request through: there is none, or the SDK has said to go on.
abbrev pub IsCleared : Sdk → Request → Type 0
IsCleared sdk q =
    (q.is_gated ≡ false)
    ⊎ ((obligation : Option MerchantObligation) × (sdk.open_turn [] q.message ≡ proceed obligation))

abbrev pub has_ended : Sdk → Option Task → Bool
has_ended sdk none = false
has_ended sdk (some stored) = sdk.is_terminal stored.status.state

-- The task has not ended, and recording the dispatch has not failed.
abbrev pub IsStored : Sdk → Option Task → (marked : Bool) → Type 0
IsStored sdk current marked = (has_ended sdk current ≡ false) × (marked ≡ true)

-- What the store lets through: it cannot be asked, or the task has not ended and the new execution
-- is recorded, if the store can do so.
abbrev pub IsStorable : Sdk → StoreAnswer → Type 0
IsStorable sdk no_lookup = Unit
IsStorable sdk threw = Never {0}
IsStorable sdk (unsupported current) = IsStored sdk current true
IsStorable sdk (recorded current) = IsStored sdk (some current) true
IsStorable sdk (unrecorded current) = IsStored sdk current false

module _ (sdk : Sdk) where
  gated-IsCleared :
      (q : Request) (t : Turn) (outcome : MerchantOpenOutcome) (calls : List MerchantCall)
      → sdk.open_turn [] q.message ≡ outcome
      → (gated q t (open_outcome sdk q.params outcome, calls)).closed ≡ false
      → IsCleared sdk q
  unfolding end_turn
  gated-IsCleared q t (request_payment _ _) calls e h = cc
  gated-IsCleared q t (refuse _ _ _) calls e h = cc
  gated-IsCleared q t (handled _) calls e h = cc
  gated-IsCleared q t (proceed o) calls e h = inr (o, e)

  admit-IsCleared : (s : Registry) (q : Request) → (admit sdk s q).closed ≡ false → IsCleared sdk q
  unfolding admit end_turn open_gate
  admit-IsCleared s q h =
      elim (Bool-cases
        (has_capability s q.agent_id caller_runtime_v1_capability && not (is_some q.scope))) [
          | inl unscoped ↦ absurd (false≢true (sym h ∙ rw unscoped refl))
          | inr scoped ↦ elim (Bool-cases q.is_gated) [
            | inr free ↦ inl free
            | inl priced ↦ elim (Bool-cases (q.is_upto && q.x402_version == 1)) [
              | inl old ↦ absurd (false≢true (sym h ∙ rw scoped (rw priced (rw old refl))))
              | inr current ↦
                  gated-IsCleared q (new_turn q) (sdk.open_turn [] q.message) _ refl
                    (rw current at (rw priced at (rw scoped at h)))
            ]
          ]
        ]

held_holder :
    (s : Registry) (q : Request)
    → is_held_by_other s q ≡ true
    → (holder : ℕ) × (get_binding s q.params.task_id ≡ some holder)
      × (((s.heap holder).agent_id == q.agent_id) ≡ false)
held_holder s q h = go (get_binding s q.params.task_id) h
  where
    go :
        (o : Option ℕ)
        → elim o [ none ↦ false | some x ↦ not ((s.heap x).agent_id == q.agent_id) ] ≡ true
        → (holder : ℕ) × (o ≡ some holder) × (((s.heap holder).agent_id == q.agent_id) ≡ false)
    go none e = cc
    go (some x) e = (x, refl, ground arith)

bind_task-held :
    (s : Registry) (r : ℕ) (q : Request)
    → (s.heap r).agent_id ≡ q.agent_id
    → (s.heap r).task_id ≡ q.params.task_id
    → is_held_by_other s q ≡ true
    → bind_task s r ≡ (s, false)
unfolding bind_task
bind_task-held s r q mine here h =
    let (holder, found, other) = held_holder s q h in
    rw (here, bind_task) (rw (found, bind_task) (rw mine (rw other refl)))

dispatch-held :
    (s : Registry) (r : ℕ) (q : Request)
    → bind_task s r ≡ (s, false)
    → dispatch s r q ≡ (s, not_owned)
unfolding dispatch
dispatch-held s r q e = rw e refl

module _ (sdk : Sdk) (count_of : String → Option ℕ) where
  after_dispatch-held :
      (s : Registry) (r : ℕ) (q : Request) (t : Turn) (d : Registry × Dispatched)
      → d ≡ (s, not_owned)
      → (after_dispatch sdk count_of r q t d).0 ≡ s
  unfolding after_dispatch
  after_dispatch-held s r q t d e = rw e refl

  module _ (s : Registry) (r : ℕ) (q : Request) (t : Turn) (mine : (s.heap r).agent_id ≡ q.agent_id)
      (here : (s.heap r).task_id ≡ q.params.task_id) where
    abbrev IsUntouched : Type 0 → Registry × Dispatched → Type 0
    IsUntouched P d =
        ((after_dispatch sdk count_of r q t d).0 ≡ s) ⊎ ((is_held_by_other s q ≡ false) × P)

    dispatch-IsUntouched : {P : Type 0} → P → IsUntouched P (dispatch s r q)
    dispatch-IsUntouched ok = elim (Bool-cases (is_held_by_other s q)) [
      | inl held ↦ inl (
          after_dispatch-held s r q t (dispatch s r q)
            (dispatch-held s r q (bind_task-held s r q mine here held)))
      | inr free ↦ inr (free, ok)
    ]

    guarded-IsUntouched :
        (current : Option Task) (marked : Bool)
        → has_ended sdk current ≡ false
        → IsUntouched (IsStored sdk current marked) (
            if is_held_by_other s q
            then (s, not_owned)
            else if marked
            then dispatch s r q
            else (s, not_recorded))
    unfolding after_dispatch
    guarded-IsUntouched current marked live =
        if_cases (λ d. IsUntouched (IsStored sdk current marked) d) (is_held_by_other s q)
          (λ held. inl refl)
          λ free.
            if_cases (λ d. IsUntouched (IsStored sdk current marked) d) marked
              (λ m. inr (free, (live, m))) (λ lost. inl refl)

    dispatch_stored-IsUntouched :
        (current : Option Task) (marked : Bool)
        → IsUntouched (IsStored sdk current marked) (dispatch_stored sdk s r q current marked)
    unfolding dispatch_stored after_dispatch
    dispatch_stored-IsUntouched none marked = guarded-IsUntouched none marked refl
    dispatch_stored-IsUntouched (some stored) marked =
        if_cases (λ d. IsUntouched (IsStored sdk (some stored) marked) d)
          (sdk.is_terminal stored.status.state) (λ ended. inl refl)
          (λ live. guarded-IsUntouched (some stored) marked live)

    dispatch_guarded-IsUntouched :
        (store : StoreAnswer)
        → IsUntouched (IsStorable sdk store) (dispatch_guarded sdk s r q store)
    unfolding dispatch_guarded after_dispatch
    dispatch_guarded-IsUntouched no_lookup = dispatch-IsUntouched {P = Unit} tt
    dispatch_guarded-IsUntouched threw = inl refl
    dispatch_guarded-IsUntouched (unsupported current) = dispatch_stored-IsUntouched current true
    dispatch_guarded-IsUntouched (recorded current) =
        dispatch_stored-IsUntouched (some current) true
    dispatch_guarded-IsUntouched (unrecorded current) = dispatch_stored-IsUntouched current false

  -- A request, given a binding of its own agent and task id, changes the registry only if the agent
  -- is free or the SDK's gate said to proceed, no other agent holds the task id, and the store
  -- either cannot be asked or says that the task has not ended and has recorded the new execution,
  -- if it can; otherwise the registry stays exactly as it was, so that nothing is bound and nothing
  -- is sent.
  pub begin_turn-IsUntouched :
      (earlier s : Registry) (r : ℕ) (q : Request) (store : StoreAnswer)
      → (s.heap r).agent_id ≡ q.agent_id
      → (s.heap r).task_id ≡ q.params.task_id
      → ((begin_turn sdk count_of s r q (admit sdk earlier q) store).0 ≡ s)
        ⊎ (IsCleared sdk q × (is_held_by_other s q ≡ false) × IsStorable sdk store)
  unfolding begin_turn
  begin_turn-IsUntouched earlier s r q store mine here =
      if_cases
        (λ (z : Registry × Turn).
          (z.0 ≡ s) ⊎ (IsCleared sdk q × (is_held_by_other s q ≡ false) × IsStorable sdk store))
        (admit sdk earlier q).closed (λ ended. inl refl)
        λ live.
          cleared live (dispatch_guarded-IsUntouched s r q (admit sdk earlier q) mine here store)
    where
      cleared :
          (admit sdk earlier q).closed ≡ false
          → ((after_dispatch sdk count_of r q
                (admit sdk earlier q)
                (dispatch_guarded sdk s r q store)).0
              ≡ s)
            ⊎ ((is_held_by_other s q ≡ false) × IsStorable sdk store)
          → ((after_dispatch sdk count_of r q
                (admit sdk earlier q)
                (dispatch_guarded sdk s r q store)).0
              ≡ s)
            ⊎ (IsCleared sdk q × (is_held_by_other s q ≡ false) × IsStorable sdk store)
      cleared live (inl same) = inl same
      cleared live (inr free) = inr (admit-IsCleared sdk earlier q live, free.0, free.1)
