-- ===== src/Client/Scheduler/Limits.antt =====
-- The limits and the drain loop of packages/client/src/caller-execution-scheduler.ts.
use vicoop_bridge.Prelude.{
  ℕ, zero, suc, ◌+◌, ◌-◌, ◌≤◌, ◌<◌, ◌≡◌, ◌⊎◌, refl, String, Bool, true, false, not, none, some,
  List, [], ◌∷◌, ◌++◌, ◌==◌, ==_iff, string_eq, nat_eq, ltb, leb, length, length-append, find_first,
  All, keep, get_or, includes, Dict, lookup, remove, lookup-insert, lookup-remove, Bool-cases,
  Option-cases, inl, inr, arith, if_both,
}
use vicoop_bridge.Client.Scheduler.{
  Scheduler, SchedulerLimits, new_scheduler, Waiter, busy_of, waits, first_eligible, admit,
  drain_within, drain, enqueue, refuse_overflow, acquire, abort, remove_waiter, busy_without,
  set_or_delete, release, aborted, tell,
}

-- No more executions run than the limits allow, overall and for each caller.
pub record IsWithin (s : Scheduler) : Type 0 where
  pub overall : s.running ≤ s.limits.global
  pub per_caller : (scope : String) → length (busy_of s scope) ≤ s.limits.per_caller

first_eligible-lem :
    (s : Scheduler) (queues : Dict String (List Waiter)) {scope : String} {w : Waiter}
    → first_eligible s queues ≡ some (scope, w)
    → length (busy_of s scope) < s.limits.per_caller
unfolding first_eligible
first_eligible-lem s [] h = cc
first_eligible-lem s ((other, queue) ∷ rest) h =
    elim (Bool-cases (leb s.limits.per_caller (length (busy_of s other)))) [
      | inl full ↦ first_eligible-lem s rest (rw full at h)
      | inr free ↦
          elim (Option-cases (find_first (λ w. not (includes (busy_of s other) w.context)) queue)) [
            | inl no_one ↦ first_eligible-lem s rest (rw no_one at (rw free at h))
            | inr (w, e) ↦ ground (arith, free, rw e at (rw free at h))
          ]
    ]

admit-IsWithin :
    (s : Scheduler) (scope : String) (w : Waiter)
    → length (busy_of s scope) < s.limits.per_caller
    → s.running < s.limits.global
    → IsWithin s
    → IsWithin (admit s scope w)
unfolding admit
admit-IsWithin s scope w c g v = record {
  overall = omega (arith, g);
  per_caller = λ other. ground (
    arith,
    v.per_caller other,
    c,
    ==_iff scope other,
    lookup-insert scope other (busy_of s scope ++ w.context ∷ []) s.busy,
    length-append (busy_of s scope) (w.context ∷ []),
  );
}

drain_within-IsWithin : (fuel : ℕ) (s : Scheduler) → IsWithin s → IsWithin (drain_within fuel s)
unfolding drain_within
drain_within-IsWithin zero s v = v
drain_within-IsWithin (suc fuel) s v = elim (Option-cases (first_eligible s s.queues)) [
  | inl e ↦ rw (e, drain_within) v
  | inr ((scope, w), e) ↦
      rw (e, drain_within)
        (elim (Bool-cases (ltb s.running s.limits.global)) [
          | inr full ↦ rw full v
          | inl free ↦ rw free (
              drain_within-IsWithin fuel (admit s scope w)
                (admit-IsWithin s scope w (first_eligible-lem s s.queues e) (ground arith) v))
        ])
]

-- No waiter may run: its caller is at its limit, or its context is running.
abbrev pub IsHeldBack : Scheduler → String × List Waiter → Type 0
IsHeldBack s (scope, queue) =
    (s.limits.per_caller ≤ length (busy_of s scope))
    ⊎ All (λ (w : Waiter). includes (busy_of s scope) w.context ≡ true) queue

-- Nothing more can be admitted.
pub IsDrained : Scheduler → Type 0
IsDrained s = (s.limits.global ≤ s.running) ⊎ All (IsHeldBack s) s.queues

find_first-none :
    (busy : List String) (queue : List Waiter)
    → find_first (λ w. not (includes busy w.context)) queue ≡ none
    → All (λ (w : Waiter). includes busy w.context ≡ true) queue
find_first-none busy [] h = tt
find_first-none busy (w ∷ rest) h = elim (Bool-cases (includes busy w.context)) [
  | inl runs ↦ (runs, find_first-none busy rest (rw runs at h))
  | inr free ↦ cc (rw free at h)
]

first_eligible-none :
    (s : Scheduler) (queues : Dict String (List Waiter))
    → first_eligible s queues ≡ none
    → All (IsHeldBack s) queues
unfolding first_eligible
first_eligible-none s [] h = tt
first_eligible-none s ((scope, queue) ∷ rest) h =
    elim (Bool-cases (leb s.limits.per_caller (length (busy_of s scope)))) [
      | inl full ↦ (inl (ground (arith, full)), first_eligible-none s rest (rw full at h))
      | inr free ↦
          elim (Option-cases (find_first (λ w. not (includes (busy_of s scope) w.context)) queue)) [
            | inl no_one ↦ (
              inr (find_first-none (busy_of s scope) queue no_one),
              first_eligible-none s rest (rw no_one at (rw free at h)),
            )
            | inr (w, e) ↦ cc (rw e at (rw free at h))
          ]
    ]

drain_within-IsDrained :
    (fuel : ℕ) (s : Scheduler)
    → s.limits.global ≤ s.running + fuel
    → IsDrained (drain_within fuel s)
unfolding drain_within IsDrained
drain_within-IsDrained zero s h = inl (omega (arith, h))
drain_within-IsDrained (suc fuel) s h = elim (Option-cases (first_eligible s s.queues)) [
  | inl e ↦ rw (e, drain_within) (inr (first_eligible-none s s.queues e))
  | inr ((scope, w), e) ↦
      rw (e, drain_within)
        (elim (Bool-cases (ltb s.running s.limits.global)) [
          | inr full ↦ rw full (inl (ground arith))
          | inl free ↦ rw free (drain_within-IsDrained fuel (admit s scope w) (omega (arith, h)))
        ])
]

-- The drain loop ends within its fuel, the number of executions that may still start: afterwards
-- the global limit is reached, or every waiter is held back, since its caller is at its limit or
-- its context is running.
pub drain-IsDrained : (s : Scheduler) → IsDrained (drain s)
unfolding drain
drain-IsDrained s = drain_within-IsDrained (s.limits.global - s.running) s (omega arith)

drain-IsWithin : (s : Scheduler) → IsWithin s → IsWithin (drain s)
unfolding drain
drain-IsWithin s v = drain_within-IsWithin (s.limits.global - s.running) s v

-- The parts of the state that the limits speak of.
SameLoad : Scheduler → Scheduler → Type 0
SameLoad s t = (t.limits ≡ s.limits) × (t.running ≡ s.running) × (t.busy ≡ s.busy)

SameLoad-IsWithin : (s t : Scheduler) → SameLoad s t → IsWithin s → IsWithin t
unfolding SameLoad
SameLoad-IsWithin s t (l, r, b) v = record {
  overall = rw l (rw r v.overall);
  per_caller = λ scope. rw l (rw b (v.per_caller scope));
}

remove_waiter-SameLoad :
    (s : Scheduler) (scope : String) (w : Waiter) → SameLoad s (remove_waiter s scope w).0
unfolding remove_waiter SameLoad
remove_waiter-SameLoad s scope w =
    if_both (λ (z : Scheduler × Bool). SameLoad s z.0) (waits s scope w) (refl, refl, refl)
      (refl, refl, refl)

enqueue-SameLoad : (s : Scheduler) (scope : String) (w : Waiter) → SameLoad s (enqueue s scope w)
unfolding enqueue SameLoad
enqueue-SameLoad s scope w = (refl, refl, refl)

refuse_overflow-SameLoad :
    (s : Scheduler) (scope : String) (w : Waiter) → SameLoad s (refuse_overflow s scope w)
unfolding refuse_overflow SameLoad
refuse_overflow-SameLoad s scope w =
    if_both (SameLoad s) _ (remove_waiter-SameLoad s scope w) (refl, refl, refl)

length-keep : (p : String → Bool) (xs : List String) → length (keep p xs) ≤ length xs
length-keep p [] = omega arith
length-keep p (x ∷ xs) = ground (arith, length-keep p xs)

set_or_delete-length :
    (busy : Dict String (List String)) (scope other : String) (cs : List String)
    → length cs ≤ length (get_or (lookup scope busy) [])
    → length (get_or (lookup other (set_or_delete busy scope cs)) [])
      ≤ length (get_or (lookup other busy) [])
unfolding set_or_delete
set_or_delete-length busy scope other [] h =
    ground (arith, lookup-remove scope other busy, ==_iff scope other)
set_or_delete-length busy scope other (c ∷ cs) h =
    ground (arith, lookup-insert scope other (c ∷ cs) busy, ==_iff scope other, h)

busy_without-length :
    (busy : Dict String (List String)) (scope context other : String)
    → length (get_or (lookup other (busy_without busy scope context)) [])
      ≤ length (get_or (lookup other busy) [])
unfolding busy_without
busy_without-length busy scope context other =
    set_or_delete-length busy scope other
      (keep (λ c. not (c == context)) (get_or (lookup scope busy) []))
      (length-keep (λ c. not (c == context)) (get_or (lookup scope busy) []))

acquire-IsWithin :
    (s : Scheduler) (scope : String) (w : Waiter) (is_aborted : Bool)
    → IsWithin s
    → IsWithin (acquire s scope w is_aborted)
unfolding acquire
acquire-IsWithin s scope w true v = record { overall = v.overall; per_caller = v.per_caller }
acquire-IsWithin s scope w false v =
    let drained : IsWithin (drain (enqueue s scope w)) =
      drain-IsWithin (enqueue s scope w)
        (SameLoad-IsWithin s (enqueue s scope w) (enqueue-SameLoad s scope w) v) in
    SameLoad-IsWithin (drain (enqueue s scope w))
      (refuse_overflow (drain (enqueue s scope w)) scope w)
      (refuse_overflow-SameLoad (drain (enqueue s scope w)) scope w) drained

abort-IsWithin :
    (s : Scheduler) (scope : String) (w : Waiter) → IsWithin s → IsWithin (abort s scope w)
unfolding abort lookup SameLoad
abort-IsWithin s scope w v =
    if_both IsWithin (remove_waiter s scope w).1
      (drain-IsWithin (tell (remove_waiter s scope w).0 (aborted w.id)) (
        SameLoad-IsWithin s (tell (remove_waiter s scope w).0 (aborted w.id))
          (remove_waiter-SameLoad s scope w) v))
      v

release-IsWithin : (s : Scheduler) (lease : ℕ) → IsWithin s → IsWithin (release s lease)
unfolding release
release-IsWithin s lease v = elim (Option-cases (lookup lease s.leases)) [
  | inl e ↦ rw (e, release) v
  | inr ((scope, context), e) ↦
      rw (e, release)
        (drain-IsWithin
          (record s {
            leases = remove lease s.leases;
            busy = busy_without s.busy scope context;
            running = s.running - 1;
          })
          (record {
            overall = omega (arith, v.overall);
            per_caller = λ other.
                omega (arith, v.per_caller other, busy_without-length s.busy scope context other);
          }))
]

-- What a program may do with a scheduler, in any order.
pub data IsRun (limits : SchedulerLimits) : Scheduler → Type 0 where
  starts : IsRun limits (new_scheduler limits)
  acquires :
      {s : Scheduler} (scope : String) (w : Waiter) (is_aborted : Bool)
      → IsRun limits s
      → IsRun limits (acquire s scope w is_aborted)
  aborts :
      {s : Scheduler} (scope : String) (w : Waiter)
      → IsRun limits s
      → IsRun limits (abort s scope w)
  releases : {s : Scheduler} (lease : ℕ) → IsRun limits s → IsRun limits (release s lease)

-- However a scheduler of callers' executions is used (acquisitions, aborts, leases given back any
-- number of times), no more executions run than the global limit, and no more of one caller than
-- the limit for each.
pub IsRun-IsWithin : {limits : SchedulerLimits} {s : Scheduler} → IsRun limits s → IsWithin s
unfolding new_scheduler lookup
IsRun-IsWithin starts = record { overall = omega arith; per_caller = λ scope. omega arith }
IsRun-IsWithin (acquires {s} scope w is_aborted h) =
    acquire-IsWithin s scope w is_aborted (IsRun-IsWithin h)
IsRun-IsWithin (aborts {s} scope w h) = abort-IsWithin s scope w (IsRun-IsWithin h)
IsRun-IsWithin (releases {s} lease h) = release-IsWithin s lease (IsRun-IsWithin h)
