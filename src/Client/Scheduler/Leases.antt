-- ===== src/Client/Scheduler/Leases.antt =====
-- The leases that packages/client/src/caller-execution-scheduler.ts has handed out and not got back.
-- A lease stands under the number of its waiter, which is a new one for each call of `acquire`.
use vicoop_bridge.Prelude.{
  ℕ, zero, suc, ◌+◌, ◌-◌, ◌≤◌, ◌≡◌, ◌∙◌, refl, subst, String, Bool, true, false, not, some, List,
  [], ◌∷◌, ◌++◌, ◌==◌, ==_iff, string_eq, nat_eq, ltb, leb, length, find_first, keep, get_or,
  includes, Dict, lookup, insert, remove, lookup-insert, lookup-remove, Bool-cases, Option-cases,
  inl, inr, arith, if_both, if◌then◌else◌,
}
use vicoop_bridge.Client.Scheduler.{
  Scheduler, SchedulerLimits, new_scheduler, Waiter, busy_of, waits, first_eligible, admit,
  drain_within, drain, enqueue, refuse_overflow, acquire, abort, remove_waiter, busy_without,
  set_or_delete, release, aborted, tell,
}
use vicoop_bridge.Client.Scheduler.Limits.{
  IsRun, starts, acquires, aborts, releases, IsRun-IsWithin,
}

abbrev pub leases_of : String → Dict ℕ (String × String) → ℕ
leases_of scope [] = 0
leases_of scope ((id, (other, context)) ∷ rest) =
    let later = leases_of scope rest in if other == scope then suc later else later

abbrev times : String → List String → ℕ
times c [] = 0
times c (x ∷ xs) = let later = times c xs in if x == c then suc later else later

times-append :
    (c w : String) (xs : List String) → times c (xs ++ w ∷ []) ≡ times c xs + times c (w ∷ [])
times-append c w [] = omega arith
times-append c w (x ∷ xs) = ground (arith, times-append c w xs)

length_snoc : (w : String) (xs : List String) → length (xs ++ w ∷ []) ≡ suc (length xs)
length_snoc w [] = refl
length_snoc w (x ∷ xs) = omega (arith, length_snoc w xs)

times-includes : (c : String) (xs : List String) → includes xs c ≡ false → times c xs ≡ 0
times-includes c [] h = refl
times-includes c (x ∷ xs) h = ground (arith, times-includes c xs)

times-keep : (c : String) (p : String → Bool) (xs : List String) → times c (keep p xs) ≤ times c xs
times-keep c p [] = omega arith
times-keep c p (x ∷ xs) = ground (arith, times-keep c p xs)

length-keep_other :
    (c : String) (xs : List String) → length xs ≤ length (keep (λ x. not (x == c)) xs) + times c xs
length-keep_other c [] = omega arith
length-keep_other c (x ∷ xs) = ground (arith, length-keep_other c xs)

length-insert_lease :
    (k : ℕ) (v : String × String) (m : Dict ℕ (String × String))
    → length (insert k v m) ≤ suc (length m)
unfolding insert
length-insert_lease k v [] = omega arith
length-insert_lease k v ((j, w) ∷ m) = ground (arith, length-insert_lease k v m)

leases_of-insert :
    (scope sc c : String) (k : ℕ) (m : Dict ℕ (String × String))
    → leases_of scope (insert k (sc, c) m) ≤ leases_of scope m + (if sc == scope then 1 else 0)
unfolding insert
leases_of-insert scope sc c k [] = ground arith
leases_of-insert scope sc c k ((j, (sc', c')) ∷ m) = ground (arith, leases_of-insert scope sc c k m)

leases_of-remove_le :
    (scope : String) (k : ℕ) (m : Dict ℕ (String × String))
    → leases_of scope (remove k m) ≤ leases_of scope m
unfolding remove
leases_of-remove_le scope k [] = omega arith
leases_of-remove_le scope k ((j, (sc', c')) ∷ m) = ground (arith, leases_of-remove_le scope k m)

length-remove_le : (k : ℕ) (m : Dict ℕ (String × String)) → length (remove k m) ≤ length m
unfolding remove
length-remove_le k [] = omega arith
length-remove_le k ((j, w) ∷ m) = ground (arith, length-remove_le k m)

length-remove_lease :
    (k : ℕ) (v : String × String) (m : Dict ℕ (String × String))
    → lookup k m ≡ some v
    → suc (length (remove k m)) ≤ length m
unfolding remove lookup
length-remove_lease k v [] h = cc
length-remove_lease k v ((j, w) ∷ m) h = elim (Bool-cases (j == k)) [
  | inl same ↦ rw same (ground (arith, length-remove_le k m))
  | inr other ↦ rw other (ground (arith, length-remove_lease k v m (rw other at h)))
]

leases_of-remove :
    (scope sc c : String) (k : ℕ) (m : Dict ℕ (String × String))
    → lookup k m ≡ some (sc, c)
    → leases_of scope (remove k m) + (if sc == scope then 1 else 0) ≤ leases_of scope m
unfolding remove lookup
leases_of-remove scope sc c k [] h = cc
leases_of-remove scope sc c k ((j, (sc', c')) ∷ m) h = elim (Bool-cases (j == k)) [
  | inl same ↦ rw same (ground (arith, leases_of-remove_le scope k m, rw same at h))
  | inr other ↦ rw other (ground (arith, leases_of-remove scope sc c k m (rw other at h)))
]

-- Every lease is counted as running, and as a context of its caller.
record IsAccounted (limits : SchedulerLimits) (s : Scheduler) : Type 0 where
  kept : s.limits ≡ limits
  overall : length s.leases ≤ s.running
  once : (scope c : String) → times c (busy_of s scope) ≤ 1
  of_caller : (scope : String) → leases_of scope s.leases ≤ length (busy_of s scope)

find_first-free :
    (busy : List String) (queue : List Waiter) {w : Waiter}
    → find_first (λ q. not (includes busy q.context)) queue ≡ some w
    → includes busy w.context ≡ false
find_first-free busy [] h = cc
find_first-free busy (q ∷ rest) h = elim (Bool-cases (includes busy q.context)) [
  | inl runs ↦ find_first-free busy rest (rw runs at h)
  | inr free ↦ ground (arith, free, rw free at h)
]

first_eligible-free :
    (s : Scheduler) (queues : Dict String (List Waiter)) {scope : String} {w : Waiter}
    → first_eligible s queues ≡ some (scope, w)
    → includes (busy_of s scope) w.context ≡ false
unfolding first_eligible
first_eligible-free s [] h = cc
first_eligible-free s ((other, queue) ∷ rest) {scope} {w} h =
    elim (Bool-cases (leb s.limits.per_caller (length (busy_of s other)))) [
      | inl full ↦ first_eligible-free s rest (rw full at h)
      | inr free ↦
          elim (Option-cases (find_first (λ q. not (includes (busy_of s other) q.context)) queue)) [
            | inl no_one ↦ first_eligible-free s rest (rw no_one at (rw free at h))
            | inr (q, e) ↦
                subst (λ (z : String × Waiter). includes (busy_of s z.0) z.1.context ≡ false)
                  {x = (other, q)} {y = (scope, w)} (cc (rw e at (rw free at h)))
                  (find_first-free (busy_of s other) queue e)
          ]
    ]

admit-IsAccounted :
    (limits : SchedulerLimits) (s : Scheduler) (scope : String) (w : Waiter)
    → includes (busy_of s scope) w.context ≡ false
    → IsAccounted limits s
    → IsAccounted limits (admit s scope w)
unfolding admit
admit-IsAccounted limits s scope w free v = record {
  kept = v.kept;
  overall = omega (arith, v.overall, length-insert_lease w.id (scope, w.context) s.leases);
  once = λ other c. ground (
    arith,
    v.once other c,
    times-append c w.context (busy_of s scope),
    times-includes w.context (busy_of s scope) free,
    ==_iff scope other,
    ==_iff w.context c,
    lookup-insert scope other (busy_of s scope ++ w.context ∷ []) s.busy,
  );
  of_caller = λ other. ground (
    arith,
    v.of_caller other,
    leases_of-insert other scope w.context w.id s.leases,
    length_snoc w.context (busy_of s scope),
    ==_iff scope other,
    lookup-insert scope other (busy_of s scope ++ w.context ∷ []) s.busy,
  );
}

drain_within-IsAccounted :
    (limits : SchedulerLimits) (fuel : ℕ) (s : Scheduler)
    → IsAccounted limits s
    → IsAccounted limits (drain_within fuel s)
unfolding drain_within
drain_within-IsAccounted limits zero s v = v
drain_within-IsAccounted limits (suc fuel) s v = elim (Option-cases (first_eligible s s.queues)) [
  | inl e ↦ rw (e, drain_within) v
  | inr ((scope, w), e) ↦
      rw (e, drain_within)
        (if_both (IsAccounted limits) (ltb s.running s.limits.global)
          (drain_within-IsAccounted limits fuel (admit s scope w)
            (admit-IsAccounted limits s scope w (first_eligible-free s s.queues e) v))
          v)
]

drain-IsAccounted :
    (limits : SchedulerLimits) (s : Scheduler) → IsAccounted limits s → IsAccounted limits (drain s)
unfolding drain
drain-IsAccounted limits s v = drain_within-IsAccounted limits (s.limits.global - s.running) s v

-- The parts of the state that the leases stand on
abbrev SameAccount : Scheduler → Scheduler → Type 0
SameAccount s t =
    (t.limits ≡ s.limits) × (t.running ≡ s.running) × (t.busy ≡ s.busy) × (t.leases ≡ s.leases)

SameAccount-IsAccounted :
    (limits : SchedulerLimits) (s t : Scheduler)
    → SameAccount s t
    → IsAccounted limits s
    → IsAccounted limits t
SameAccount-IsAccounted limits s t (l, r, b, e) v = record {
  kept = l ∙ v.kept;
  overall = rw r (rw e v.overall);
  once = λ scope c. rw b (v.once scope c);
  of_caller = λ scope. rw b (rw e (v.of_caller scope));
}

remove_waiter-SameAccount :
    (s : Scheduler) (scope : String) (w : Waiter) → SameAccount s (remove_waiter s scope w).0
unfolding remove_waiter
remove_waiter-SameAccount s scope w =
    if_both (λ (z : Scheduler × Bool). SameAccount s z.0) (waits s scope w) (refl, refl, refl, refl)
      (refl, refl, refl, refl)

acquire-IsAccounted :
    (limits : SchedulerLimits) (s : Scheduler) (scope : String) (w : Waiter) (is_aborted : Bool)
    → IsAccounted limits s
    → IsAccounted limits (acquire s scope w is_aborted)
unfolding acquire enqueue refuse_overflow
acquire-IsAccounted limits s scope w true v =
    SameAccount-IsAccounted limits s (tell s (aborted w.id)) (refl, refl, refl, refl) v
acquire-IsAccounted limits s scope w false v =
    let t = drain (enqueue s scope w) in
    let drained : IsAccounted limits t =
      drain-IsAccounted limits (enqueue s scope w)
        (SameAccount-IsAccounted limits s (enqueue s scope w) (refl, refl, refl, refl) v) in
    if_both (IsAccounted limits) _
      (SameAccount-IsAccounted limits t _ (remove_waiter-SameAccount t scope w) drained) drained

abort-IsAccounted :
    (limits : SchedulerLimits) (s : Scheduler) (scope : String) (w : Waiter)
    → IsAccounted limits s
    → IsAccounted limits (abort s scope w)
unfolding abort
abort-IsAccounted limits s scope w v =
    if_both (IsAccounted limits) (remove_waiter s scope w).1
      (drain-IsAccounted limits (tell (remove_waiter s scope w).0 (aborted w.id)) (
        SameAccount-IsAccounted limits s (tell (remove_waiter s scope w).0 (aborted w.id))
          (remove_waiter-SameAccount s scope w) v))
      v

-- What the busy contexts of a caller are after one of them is taken out
busy_without-lookup :
    (busy : Dict String (List String)) (scope context other : String)
    → get_or (lookup other (busy_without busy scope context)) [] ≡ (
        if scope == other
        then keep (λ c. not (c == context)) (get_or (lookup scope busy) [])
        else get_or (lookup other busy) [])
unfolding busy_without set_or_delete
busy_without-lookup busy scope context other =
    go (keep (λ c. not (c == context)) (get_or (lookup scope busy) []))
  where
    go :
        (cs : List String)
        → get_or (lookup other (set_or_delete busy scope cs)) []
          ≡ (if scope == other then cs else get_or (lookup other busy) [])
    go [] = ground (arith, lookup-remove scope other busy)
    go (c ∷ cs) = ground (arith, lookup-insert scope other (c ∷ cs) busy)

release-IsAccounted :
    (limits : SchedulerLimits) (s : Scheduler) (lease : ℕ)
    → IsAccounted limits s
    → IsAccounted limits (release s lease)
unfolding release
release-IsAccounted limits s lease v = elim (Option-cases (lookup lease s.leases)) [
  | inl e ↦ rw (e, release) v
  | inr ((scope, context), e) ↦
      rw (e, release)
        (drain-IsAccounted limits
          (record s {
            leases = remove lease s.leases;
            busy = busy_without s.busy scope context;
            running = s.running - 1;
          })
          (record {
            kept = v.kept;
            overall =
                omega (arith, v.overall, length-remove_lease lease (scope, context) s.leases e);
            once = λ other c. ground (
              arith,
              v.once other c,
              v.once scope c,
              busy_without-lookup s.busy scope context other,
              times-keep c (λ x. not (x == context)) (busy_of s scope),
            );
            of_caller = λ other. ground (
              arith,
              v.of_caller other,
              v.once scope context,
              ==_iff scope other,
              busy_without-lookup s.busy scope context other,
              leases_of-remove other scope context lease s.leases e,
              length-keep_other context (busy_of s scope),
            );
          }))
]

IsRun-IsAccounted :
    {limits : SchedulerLimits} {s : Scheduler} → IsRun limits s → IsAccounted limits s
unfolding new_scheduler lookup
IsRun-IsAccounted starts = record {
  kept = refl;
  overall = omega arith;
  once = λ scope c. omega arith;
  of_caller = λ scope. omega arith;
}
IsRun-IsAccounted {limits} (acquires {s} scope w is_aborted h) =
    acquire-IsAccounted limits s scope w is_aborted (IsRun-IsAccounted h)
IsRun-IsAccounted {limits} (aborts {s} scope w h) =
    abort-IsAccounted limits s scope w (IsRun-IsAccounted h)
IsRun-IsAccounted {limits} (releases {s} lease h) =
    release-IsAccounted limits s lease (IsRun-IsAccounted h)

-- However a scheduler of callers' executions is used (acquisitions, aborts, leases given back any
-- number of times), no more leases are out than its global limit, and no more of one caller than
-- the limit for each.
pub leases-IsBounded :
    {limits : SchedulerLimits} {s : Scheduler}
    → IsRun limits s
    → (length s.leases ≤ limits.global)
      × ((scope : String) → leases_of scope s.leases ≤ limits.per_caller)
leases-IsBounded {limits} {s} h =
    let v = IsRun-IsAccounted h in
    let within = IsRun-IsWithin h in
    (
      subst (λ (l : SchedulerLimits). length s.leases ≤ l.global) v.kept
          (omega (arith, v.overall, within.overall)),
      λ scope.
          subst (λ (l : SchedulerLimits). leases_of scope s.leases ≤ l.per_caller) v.kept
            (omega (arith, v.of_caller scope, within.per_caller scope)),
    )
