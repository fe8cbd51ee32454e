-- ===== src/Client/Scheduler.antt =====
-- packages/client/src/caller-execution-scheduler.ts: which waiting executions may run.
--
-- A waiter is known by a number, and a lease that was not given back is an entry of `leases`. What
-- the promises were told is recorded in order.
pub mod Limits
pub mod Leases
use vicoop_bridge.Prelude.{
  ℕ, zero, suc, ◌+◌, ◌-◌, String, Bool, true, false, not, ◌&&◌, ◌||◌, Option, none, some, List, [],
  ◌∷◌, ◌++◌, ◌==◌, string_eq, nat_eq, ltb, leb, if◌then◌else◌, length, find_first, exists, keep,
  get_or, includes, Dict, lookup, insert, remove,
}

pub record Waiter : Type 0 where
  pub id : ℕ
  pub context : String

pub record SchedulerLimits : Type 0 where
  pub per_caller : ℕ
  pub global : ℕ
  pub queue_per_caller : ℕ
  pub queue_limit : ℕ

pub data Outcome : Type 0 where
  admitted rejected_full aborted : ℕ → Outcome

pub record Scheduler : Type 0 where
  pub limits : SchedulerLimits
  pub queues : Dict String (List Waiter)
  pub busy : Dict String (List String)
  pub running : ℕ
  pub queued : ℕ
  pub leases : Dict ℕ (String × String)  -- the scope and the context of each
  pub outcomes : List Outcome

unfoldable pub new_scheduler : SchedulerLimits → Scheduler
new_scheduler limits = record {
  limits = limits;
  queues = [];
  busy = [];
  running = 0;
  queued = 0;
  leases = [];
  outcomes = [];
}

-- `this.queues.get(scope)?.includes(waiter)`
abbrev pub waits : Scheduler → String → Waiter → Bool
waits s scope w = exists (λ q. q.id == w.id) (get_or (lookup scope s.queues) [])

abbrev pub busy_of : Scheduler → String → List String
busy_of s scope = get_or (lookup scope s.busy) []

abbrev tell : Scheduler → Outcome → Scheduler
tell s o = record s { outcomes = s.outcomes ++ o ∷ [] }

-- The map of queues without a waiter; a queue that is left empty is deleted.
queues_without : Dict String (List Waiter) → String → Waiter → Dict String (List Waiter)
queues_without queues scope w =
    elim (keep (λ q. not (q.id == w.id)) (get_or (lookup scope queues) [])) [
      | [] ↦ remove scope queues
      | q ∷ rest ↦ insert scope (q ∷ rest) queues
    ]

-- `remove`, whose result is whether the waiter was there.
unfoldable pub remove_waiter : Scheduler → String → Waiter → Scheduler × Bool
unfolding queues_without
remove_waiter s scope w =
    if waits s scope w
    then (record s { queues = queues_without s.queues scope w; queued = s.queued - 1 }, true)
    else (s, false)

-- The waiter that the loop over the queues admits: the first of a caller below its limit whose
-- context is not running.
unfoldable pub first_eligible : Scheduler → Dict String (List Waiter) → Option (String × Waiter)
first_eligible s [] = none
first_eligible s ((scope, queue) ∷ rest) =
    let later = first_eligible s rest in
    if leb s.limits.per_caller (length (busy_of s scope))
    then later
    else elim (find_first (λ w. not (includes (busy_of s scope) w.context)) queue) [
      | none ↦ later
      | some w ↦ some (scope, w)
    ]

-- `this.queues.delete(scope); this.queues.set(scope, queue)`, unless the queue is gone
rotate : Dict String (List Waiter) → String → Dict String (List Waiter)
rotate queues scope = elim (lookup scope queues) [
  | none ↦ queues
  | some queue ↦ insert scope queue (remove scope queues)
]

unfoldable pub admit : Scheduler → String → Waiter → Scheduler
unfolding remove_waiter rotate
admit s scope w =
    let s1 = (remove_waiter s scope w).0 in
    record s1 {
      queues = rotate s1.queues scope;
      busy = insert scope (busy_of s scope ++ w.context ∷ []) s.busy;
      running = s.running + 1;
      leases = insert w.id (scope, w.context) s.leases;
      outcomes = s.outcomes ++ admitted w.id ∷ [];
      limits = s.limits;
    }

-- The loop of `drain` on fuel. Each round runs one execution more.
unfoldable pub drain_within : ℕ → Scheduler → Scheduler
unfolding first_eligible admit
drain_within zero s = s
drain_within (suc fuel) s = elim (first_eligible s s.queues) [
  | none ↦ s
  | some (scope, w) ↦
      let rest = drain_within fuel (admit s scope w) in
      if ltb s.running s.limits.global then rest else s
]

unfoldable pub drain : Scheduler → Scheduler
unfolding drain_within
drain s = drain_within (s.limits.global - s.running) s

enqueue : Scheduler → String → Waiter → Scheduler
enqueue s scope w = record s {
  queues = insert scope (get_or (lookup scope s.queues) [] ++ w ∷ []) s.queues;
  queued = s.queued + 1;
}

-- A waiter that could not run at once leaves again if a queue is over its limit.
refuse_overflow : Scheduler → String → Waiter → Scheduler
unfolding remove_waiter
refuse_overflow s scope w =
    if waits s scope w
      && (ltb s.limits.queue_limit s.queued
          || ltb s.limits.queue_per_caller (length (get_or (lookup scope s.queues) [])))
    then tell (remove_waiter s scope w).0 (rejected_full w.id)
    else s

unfoldable pub acquire : Scheduler → String → Waiter → (is_aborted : Bool) → Scheduler
unfolding enqueue drain refuse_overflow
acquire s scope w is_aborted =
    if is_aborted
    then tell s (aborted w.id)
    else refuse_overflow (drain (enqueue s scope w)) scope w

unfoldable pub abort : Scheduler → String → Waiter → Scheduler
unfolding remove_waiter drain
abort s scope w =
    let (s1, removed) = remove_waiter s scope w in
    if removed then drain (tell s1 (aborted w.id)) else s

-- An entry is deleted once its set is empty.
set_or_delete : Dict String (List String) → String → List String → Dict String (List String)
set_or_delete busy scope [] = remove scope busy
set_or_delete busy scope (c ∷ rest) = insert scope (c ∷ rest) busy

-- `busy.delete(waiter.context); if (!busy.size) this.busy.delete(scope)`
busy_without : Dict String (List String) → (scope context : String) → Dict String (List String)
unfolding set_or_delete
busy_without busy scope context =
    set_or_delete busy scope (keep (λ c. not (c == context)) (get_or (lookup scope busy) []))

-- The function that an admission hands out; it acts once.
unfoldable pub release : Scheduler → (lease : ℕ) → Scheduler
unfolding busy_without drain
release s lease = elim (lookup lease s.leases) [
  | none ↦ s
  | some (scope, context) ↦ drain (record s {
    leases = remove lease s.leases;
    busy = busy_without s.busy scope context;
    running = s.running - 1;
  })
]
