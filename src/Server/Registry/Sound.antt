-- ===== src/Server/Registry/Sound.antt =====
-- What holds of the task bindings and their grace holds between any two events of the registry
-- (packages/server/src/registry.ts), and the primitive changes that keep it.
use vicoop_bridge.Prelude.{
  ℕ, suc, ◌<◌, ◌≡◌, ◌≢◌, sym, ◌∙◌, String, Bool, true, false, none, some, List, [], ◌∷◌, arith,
  ◌==◌, ==_iff, string_eq, nat_eq, Dict, lookup, insert, remove, lookup-insert, lookup-remove,
  Bool-cases, inl, inr, HasDistinctKeys, insert-HasDistinctKeys, remove-HasDistinctKeys, values,
  values-lookup, All, All-map,
}
use vicoop_bridge.Server.State.{
  SinkCall, push_status, push_artifact, finish, TaskBinding, GraceHold, GraceTimer, Registry,
  update,
}

-- Has the stream behind a sink been closed?
abbrev pub is_finished : List SinkCall → Bool
is_finished [] = false
is_finished (finish ∷ rest) = true
is_finished (push_status _ ∷ rest) = is_finished rest
is_finished (push_artifact _ ∷ rest) = is_finished rest

module _ (heap : ℕ → TaskBinding) (bindings : Dict String ℕ) (holds : Dict String GraceHold)
    (timers : Dict ℕ GraceTimer) (next_timer : ℕ) where
  pub record Sound : Type 0 where
    pub distinct : HasDistinctKeys bindings
    -- A binding stands under its own task id.
    pub keyed : (t : String) (r : ℕ) → lookup t bindings ≡ some r → (heap r).task_id ≡ t
    -- The stream of a live binding is open.
    pub streaming :
        (t : String) (r : ℕ) → lookup t bindings ≡ some r → is_finished (heap r).sink ≡ false
    -- A hold is of the live binding, and its timer is armed for it.
    pub held :
        (t : String) (h : GraceHold) → lookup t holds ≡ some h → lookup t bindings ≡ some h.binding
    pub timed :
        (t : String) (h : GraceHold)
        → lookup t holds ≡ some h
        → (tm : GraceTimer) × (lookup h.timer timers ≡ some tm) × (tm.binding ≡ h.binding)
    -- An armed timer is that of the hold on its binding.
    pub armed :
        (id : ℕ) (tm : GraceTimer)
        → lookup id timers ≡ some tm
        → (h : GraceHold) × (lookup (heap tm.binding).task_id holds ≡ some h)
          × (h.timer ≡ id)
          × (h.binding ≡ tm.binding)
    pub fresh : (id : ℕ) (tm : GraceTimer) → lookup id timers ≡ some tm → id < next_timer

abbrev pub IsSound : Registry → Type 0
IsSound s = Sound s.heap s.bindings s.grace_holds s.timers s.next_timer

module _ {heap : ℕ → TaskBinding} {bindings : Dict String ℕ} {holds : Dict String GraceHold}
    {timers : Dict ℕ GraceTimer} {next_timer : ℕ}
    (v : Sound heap bindings holds timers next_timer) where
  -- Two task ids are never bound to one object.
  pub bound_once :
      (t u : String) (r : ℕ) → lookup t bindings ≡ some r → lookup u bindings ≡ some r → t ≡ u
  bound_once t u r h k = sym (v.keyed t r h) ∙ v.keyed u r k

  -- A write that leaves the task id and an open stream.
  pub write-Sound :
      (r : ℕ) (b : TaskBinding)
      → b.task_id ≡ (heap r).task_id
      → (is_finished (heap r).sink ≡ false → is_finished b.sink ≡ false)
      → Sound (update heap r b) bindings holds timers next_timer
  write-Sound r b e o = record {
    distinct = v.distinct;
    keyed = λ t q h. ground (arith, v.keyed t q h);
    streaming = λ t q h. ground (arith, v.streaming t q h);
    held = v.held;
    timed = v.timed;
    armed = λ id tm h. ground (arith, v.armed id tm h);
    fresh = v.fresh;
  }

  -- A new object at a reference that nothing is bound to.
  pub write_unowned-Sound :
      (r : ℕ) (b : TaskBinding)
      → ((t : String) → lookup t bindings ≢ some r)
      → Sound (update heap r b) bindings holds timers next_timer
  write_unowned-Sound r b o = record {
    distinct = v.distinct;
    keyed = λ t q h. ground (arith, v.keyed t q h, o t);
    streaming = λ t q h. ground (arith, v.streaming t q h, o t);
    held = v.held;
    timed = v.timed;
    armed = λ id tm h. elim (Bool-cases (r == tm.binding)) [
      | inl same ↦
          let (k, at, timer, on) = v.armed id tm h in
          absurd
            (o (heap tm.binding).task_id (ground (arith, v.held (heap tm.binding).task_id k at)))
      | inr other ↦ rw other (v.armed id tm h)
    ];
    fresh = v.fresh;
  }

  -- A write to an object that no task id is bound to.
  pub write_unbound-Sound :
      (r : ℕ) (b : TaskBinding)
      → b.task_id ≡ (heap r).task_id
      → lookup (heap r).task_id bindings ≢ some r
      → Sound (update heap r b) bindings holds timers next_timer
  write_unbound-Sound r b e o = record {
    distinct = v.distinct;
    keyed = λ t q h. ground (arith, v.keyed t q h);
    streaming = λ t q h. elim (Bool-cases (r == q)) [
      | inl same ↦ absurd (o (ground (arith, v.keyed t q h)))
      | inr other ↦ rw other (v.streaming t q h)
    ];
    held = v.held;
    timed = v.timed;
    armed = λ id tm h. ground (arith, v.armed id tm h);
    fresh = v.fresh;
  }

  -- A snapshot of the bindings lists live bindings only.
  pub values-bound : All (λ r. lookup (heap r).task_id bindings ≡ some r) (values bindings)
  values-bound = All-map (values bindings) at_own_id (values-lookup bindings v.distinct)
    where
      at_own_id :
          (r : ℕ)
          → (k : String) × (lookup k bindings ≡ some r)
          → lookup (heap r).task_id bindings ≡ some r
      at_own_id r (k, e) = rw (v.keyed k r e) e

  -- Two holds never share a timer.
  timer_once :
      (t u : String) (h k : GraceHold)
      → lookup t holds ≡ some h
      → lookup u holds ≡ some k
      → h.timer ≡ k.timer
      → t ≡ u
  timer_once t u h k at there e =
      let (tm, p, q) = v.timed t h at in
      let (tm', p', q') = v.timed u k there in
      bound_once t u h.binding (v.held t h at) (ground (arith, v.held u k there, p, p', q, q', e))

  pub drop_hold-Sound :
      (t : String) (h : GraceHold)
      → lookup t holds ≡ some h
      → Sound heap bindings (remove t holds) (remove h.timer timers) next_timer
  drop_hold-Sound t h at = record {
    distinct = v.distinct;
    keyed = v.keyed;
    streaming = v.streaming;
    held = λ u k e. ground (arith, lookup-remove t u holds, v.held u k);
    timed = λ u k e.
        let there : lookup u holds ≡ some k = ground (arith, lookup-remove t u holds) in
        let (tm, p, q) = v.timed u k there in
        (
          tm,
          ground (
            arith,
            lookup-remove h.timer k.timer timers,
            lookup-remove t u holds,
            ==_iff t u,
            timer_once t u h k at there,
          ),
          q,
        );
    armed = λ id tm e.
        let there : lookup id timers ≡ some tm = ground (arith, lookup-remove h.timer id timers) in
        let (k, p, q, w) = v.armed id tm there in
        (
          k,
          ground (
            arith,
            lookup-remove t (heap tm.binding).task_id holds,
            lookup-remove h.timer id timers,
            ==_iff t (heap tm.binding).task_id,
          ),
          q,
          w,
        );
    fresh = λ id tm e. ground (arith, lookup-remove h.timer id timers, v.fresh id tm);
  }

  -- A task id whose binding is not held may be released.
  pub release-Sound :
      (t : String) → lookup t holds ≡ none → Sound heap (remove t bindings) holds timers next_timer
  release-Sound t at = record {
    distinct = remove-HasDistinctKeys t bindings v.distinct;
    keyed = λ u r e. ground (arith, lookup-remove t u bindings, v.keyed u r);
    streaming = λ u r e. ground (arith, lookup-remove t u bindings, v.streaming u r);
    held = λ u k e. ground (arith, lookup-remove t u bindings, ==_iff t u, v.held u k);
    timed = v.timed;
    armed = v.armed;
    fresh = v.fresh;
  }

  -- A task id that is free or under no hold may be bound to an object of that id with an open stream.
  pub bind-Sound :
      (r : ℕ)
      → is_finished (heap r).sink ≡ false
      → lookup (heap r).task_id holds ≡ none
      → Sound heap (insert (heap r).task_id r bindings) holds timers next_timer
  bind-Sound r o at = record {
    distinct = insert-HasDistinctKeys (heap r).task_id r bindings v.distinct;
    keyed = λ u q e. ground (
      arith,
      lookup-insert (heap r).task_id u r bindings,
      ==_iff (heap r).task_id u,
      v.keyed u q,
    );
    streaming =
        λ u q e. ground (arith, lookup-insert (heap r).task_id u r bindings, v.streaming u q);
    held = λ u k e.
        ground (
          arith,
          lookup-insert (heap r).task_id u r bindings,
          ==_iff (heap r).task_id u,
          v.held u k,
        );
    timed = v.timed;
    armed = v.armed;
    fresh = v.fresh;
  }

  -- Binding a task id again to the object that it is bound to.
  pub rebind-Sound :
      (r : ℕ)
      → lookup (heap r).task_id bindings ≡ some r
      → Sound heap (insert (heap r).task_id r bindings) holds timers next_timer
  rebind-Sound r at = record {
    distinct = insert-HasDistinctKeys (heap r).task_id r bindings v.distinct;
    keyed = λ u q e. ground (
      arith,
      lookup-insert (heap r).task_id u r bindings,
      ==_iff (heap r).task_id u,
      v.keyed u q,
    );
    streaming = λ u q e. ground (
      arith,
      lookup-insert (heap r).task_id u r bindings,
      v.streaming u q,
      v.streaming (heap r).task_id r at,
    );
    held = λ u k e.
        ground (
          arith,
          lookup-insert (heap r).task_id u r bindings,
          ==_iff (heap r).task_id u,
          v.held u k,
        );
    timed = v.timed;
    armed = v.armed;
    fresh = v.fresh;
  }

  -- A live binding that is not held may be held under a new timer.
  pub hold-Sound :
      (r : ℕ) (h : GraceHold) (tm : GraceTimer)
      → lookup (heap r).task_id bindings ≡ some r
      → lookup (heap r).task_id holds ≡ none
      → h.timer ≡ next_timer
      → h.binding ≡ r
      → tm.binding ≡ r
      → Sound heap bindings
          (insert (heap r).task_id h holds)
          (insert next_timer tm timers)
          (suc next_timer)
  hold-Sound r h tm bound none_held n e f = record {
    distinct = v.distinct;
    keyed = v.keyed;
    streaming = v.streaming;
    held = λ u k at.
        ground
          (arith, lookup-insert (heap r).task_id u h holds, ==_iff (heap r).task_id u, v.held u k);
    timed = λ u k at. elim (Bool-cases ((heap r).task_id == u)) [
      | inl same ↦ (
        tm,
        ground (
          arith,
          lookup-insert (heap r).task_id u h holds,
          lookup-insert next_timer k.timer tm timers,
        ),
        ground (arith, lookup-insert (heap r).task_id u h holds),
      )
      | inr other ↦
          let there : lookup u holds ≡ some k =
            ground (arith, lookup-insert (heap r).task_id u h holds) in
          let (tm', p, q) = v.timed u k there in
          (
            tm',
            ground (arith, lookup-insert next_timer k.timer tm timers, v.fresh k.timer tm' p),
            q,
          )
    ];
    armed = λ id tm' at. elim (Bool-cases (next_timer == id)) [
      | inl same ↦ (
        h,
        ground (
          arith,
          lookup-insert (heap r).task_id (heap tm'.binding).task_id h holds,
          ==_iff (heap r).task_id (heap tm'.binding).task_id,
          lookup-insert next_timer id tm timers,
        ),
        ground arith,
        ground (arith, lookup-insert next_timer id tm timers),
      )
      | inr other ↦
          let there : lookup id timers ≡ some tm' =
            ground (arith, lookup-insert next_timer id tm timers) in
          let (k, p, q, w) = v.armed id tm' there in
          (
            k,
            ground (
              arith,
              lookup-insert (heap r).task_id (heap tm'.binding).task_id h holds,
              ==_iff (heap r).task_id (heap tm'.binding).task_id,
            ),
            q,
            w,
          )
    ];
    fresh = λ id tm' at. ground (arith, lookup-insert next_timer id tm timers, v.fresh id tm');
  }
