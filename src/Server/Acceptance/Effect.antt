-- ===== src/Server/Acceptance/Effect.antt =====
-- What the registry is after a frame that `acceptTaskFrame` (packages/server/src/ws.ts) accepts, field
-- by field
use vicoop_bridge.Prelude.{
  ℕ, ◌+◌, ◌≡◌, ◌∙◌, sym, ap, subst, refl, String, true, false, ◌&&◌, ◌==◌, ==_self, ==_iff, none,
  some, Option, inl, inr, Bool-cases, Option-cases, get_or, lookup, remove, lookup-remove,
  string_eq, option_eq, nat_eq, arith,
}
use vicoop_bridge.Protocol.{TaskRef}
use vicoop_bridge.Server.State.{Registry, TaskBinding, GraceHold, update}
use vicoop_bridge.Server.Approvals.{get_binding}
use vicoop_bridge.Server.Registry.{resume_binding, resumed_hold}
use vicoop_bridge.Server.Registry.Sound.{IsSound}
use vicoop_bridge.Server.Acceptance.{Peer, Acceptance, accepted, next_expected, accept_task_frame}
use vicoop_bridge.Server.Acceptance.Laws.{
  IsAcceptable, counted, accepted_state, counted-replayable, counted-legacy, accept_task_frame-lem,
}

-- The number that a binding expects after an accepted frame
abbrev pub number_after : TaskBinding → Option ℕ
number_after b = elim b.execution_id [
  | none ↦ b.next_client_seq
  | some _ ↦ some (get_or b.next_client_seq 0 + 1)
]

-- Only the number of the binding, the hold on the task and the timer of that hold change.
pub record IsResumed (s : Registry) (f : TaskRef) (r : ℕ) (z : Registry) : Type 0 where
  pub number : z.heap r ≡ record (s.heap r) { next_client_seq = number_after (s.heap r) }
  pub others : (k : ℕ) → (r == k) ≡ false → z.heap k ≡ s.heap k
  pub over : lookup f.task_id z.grace_holds ≡ none
  pub holds :
      (t : String) → (f.task_id == t) ≡ false → lookup t z.grace_holds ≡ lookup t s.grace_holds
  pub disarmed :
      (hold : GraceHold)
      → lookup f.task_id s.grace_holds ≡ some hold
      → lookup hold.timer z.timers ≡ none
  pub timers :
      (id : ℕ)
      → ((hold : GraceHold)
          → lookup f.task_id s.grace_holds ≡ some hold
          → (hold.timer == id) ≡ false)
      → lookup id z.timers ≡ lookup id s.timers
  pub rest : z ≡ record s { heap = z.heap; grace_holds = z.grace_holds; timers = z.timers }

abbrev heap_after : Registry → ℕ → ℕ → TaskBinding
heap_after s r = update s.heap r (record (s.heap r) { next_client_seq = number_after (s.heap r) })

-- The number of a binding is left, or counted.
legacy-number : (b : TaskBinding) → b.execution_id ≡ none → number_after b ≡ b.next_client_seq
legacy-number b e = rw (e, number_after) refl

replay-number :
    (b : TaskBinding) {x : String}
    → b.execution_id ≡ some x
    → number_after b ≡ some (get_or b.next_client_seq 0 + 1)
replay-number b e = rw (e, number_after) refl

counted-heap : (s : Registry) (r k : ℕ) → (counted s r).heap k ≡ heap_after s r k
unfolding next_expected
counted-heap s r k = elim (Option-cases (s.heap r).execution_id) [
  | inr (x, e) ↦ rw (counted-replayable s r e) (rw (replay-number (s.heap r) e) refl)
  | inl e ↦ rw (counted-legacy s r e) (
      rw (legacy-number (s.heap r) e) (elim (Bool-cases (r == k)) [
        | inl same ↦ rw same (ap s.heap (sym ((==_iff r k).0 same)))
        | inr other ↦ rw other refl
      ]))
]

counted-rest : (s : Registry) (r : ℕ) → counted s r ≡ record s { heap = (counted s r).heap }
unfolding next_expected
counted-rest s r = elim (Option-cases (s.heap r).execution_id) [
  | inl e ↦ rw (counted-legacy s r e) refl
  | inr (x, e) ↦ rw (counted-replayable s r e) refl
]

module _ (s : Registry) (r : ℕ) (t : String) (v : IsSound s)
    (bound : lookup t s.bindings ≡ some r) where
  abbrev after : Registry
  after = record s { heap = (counted s r).heap }

  owner : (after.heap r).agent_id ≡ (s.heap r).agent_id
  owner = ap (λ (b : TaskBinding). b.agent_id) (counted-heap s r r) ∙ rw (==_self r) refl

  -- The hold on the task is of its binding, so that the agent's frame ends it.
  is_mine :
      (hold : GraceHold)
      → lookup t s.grace_holds ≡ some hold
      → (((after.heap hold.binding).agent_id == (s.heap r).agent_id)
          && (get_binding after t == some hold.binding))
        ≡ true
  is_mine hold found =
      let mine : hold.binding ≡ r = ground (arith, v.held t hold found, bound) in
      rw mine (rw owner (rw bound (rw (==_self (s.heap r).agent_id) (==_self (some r)))))

  abbrev z : Registry
  z = resume_binding after t (s.heap r).agent_id

  number_now : z.heap r ≡ record (s.heap r) { next_client_seq = number_after (s.heap r) }
  unfolding resume_binding
  number_now = counted-heap s r r ∙ rw (==_self r) refl

  others_now : (k : ℕ) → (r == k) ≡ false → z.heap k ≡ s.heap k
  unfolding resume_binding
  others_now k other = counted-heap s r k ∙ rw other refl

  rest_now : z ≡ record s { heap = z.heap; grace_holds = z.grace_holds; timers = z.timers }
  unfolding resume_binding
  rest_now = refl

  -- What becomes of the holds and the timers
  abbrev Tables : Registry → Type 0
  Tables y =
      (lookup t y.grace_holds ≡ none)
      × ((u : String) → (t == u) ≡ false → lookup u y.grace_holds ≡ lookup u s.grace_holds)
      × ((hold : GraceHold)
          → lookup t s.grace_holds ≡ some hold
          → lookup hold.timer y.timers ≡ none)
      × ((id : ℕ)
          → ((hold : GraceHold) → lookup t s.grace_holds ≡ some hold → (hold.timer == id) ≡ false)
          → lookup id y.timers ≡ lookup id s.timers)

  z-none : lookup t s.grace_holds ≡ none → z ≡ after
  unfolding resume_binding resumed_hold
  z-none e = rw (e, resume_binding) refl

  z-some :
      (hold : GraceHold)
      → lookup t s.grace_holds ≡ some hold
      → z
        ≡ record after { timers = remove hold.timer s.timers; grace_holds = remove t s.grace_holds }
  unfolding resume_binding resumed_hold
  z-some hold e = rw (e, resume_binding) (rw (is_mine hold e) refl)

  z-Tables : Tables z
  z-Tables = elim (Option-cases (lookup t s.grace_holds)) [
    | inl e ↦ subst Tables (sym (z-none e)) (e, λ u h. refl, λ hold found. cc, λ id h. refl)
    | inr (hold, e) ↦ subst Tables (sym (z-some hold e)) (
      lookup-remove t t s.grace_holds ∙ rw (==_self t) refl,
      λ u h. lookup-remove t u s.grace_holds ∙ rw h refl,
      λ other found.
          subst (λ (h : GraceHold). lookup h.timer (remove hold.timer s.timers) ≡ none) {x = hold}
            {y = other} (cc)
            (lookup-remove hold.timer hold.timer s.timers ∙ rw (==_self hold.timer) refl),
      λ id h. lookup-remove hold.timer id s.timers ∙ rw (h hold e) refl,
    )
  ]

-- In a sound registry, a frame is accepted if its task id is bound, its sender's authenticated
-- agent owns the binding, and it names the binding's execution and carries the number expected next
-- (neither, for a binding without an execution id). Afterwards a replay-capable binding expects the
-- next number, and one without an execution id the same as before; there is no grace hold on the
-- task id and its timer is disarmed; every other object, hold and timer and every other field is as
-- it was.
pub accept_task_frame-IsResumed :
    (p : Peer) (s : Registry) (f : TaskRef) (r : ℕ)
    → IsSound s
    → IsAcceptable p s f r
    → ((accept_task_frame p s f).1 ≡ accepted r) × IsResumed s f r (accept_task_frame p s f).0
unfolding accepted_state
accept_task_frame-IsResumed p s f r v h =
    subst (λ (y : Registry × Acceptance). (y.1 ≡ accepted r) × IsResumed s f r y.0)
      (sym (
        accept_task_frame-lem p s f r h
        ∙ ap (λ (y : Registry). (resume_binding y f.task_id (s.heap r).agent_id, accepted r))
            (counted-rest s r)))
      (
        refl,
        record {
          number = number_now s r f.task_id v h.bound;
          others = others_now s r f.task_id v h.bound;
          over = tables.0;
          holds = tables.1;
          disarmed = tables.2;
          timers = tables.3;
          rest = rest_now s r f.task_id v h.bound;
        },
      )
  where
    tables : Tables s r f.task_id v h.bound (z s r f.task_id v h.bound)
    tables = z-Tables s r f.task_id v h.bound
