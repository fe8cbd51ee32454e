-- ===== src/Client/Examples.antt =====
-- The theorems on packages/client/src at concrete schedulers and clients.
mod Buffer
use vicoop_bridge.Prelude.{
  String, ℕ, ◌≤◌, length, [], ◌∷◌, ◌≡◌, refl, false, lookup, insert, remove,
}
use vicoop_bridge.Client.Scheduler.{
  SchedulerLimits, Waiter, new_scheduler, acquire, release, drain, admitted, rejected_full,
}
use vicoop_bridge.Client.Scheduler.Limits.{IsDrained, starts, acquires, releases, drain-IsDrained}
use vicoop_bridge.Client.Scheduler.Leases.{leases_of, leases-IsBounded}

abbrev small : SchedulerLimits
small = record { per_caller = 1; global = 2; queue_per_caller = 1; queue_limit = 4 }

abbrev waiter_1 : Waiter
waiter_1 = record { id = 1; context = "chat" }

abbrev waiter_2 : Waiter
waiter_2 = record { id = 2; context = "mail" }

abbrev waiter_3 : Waiter
waiter_3 = record { id = 3; context = "chat" }

-- The second execution of a caller waits, a third finds the queue full, and the end of the first
-- lets the second run.
admitted_in_turn :
    (release
      (acquire
        (acquire (acquire (new_scheduler small) "a" waiter_1 false) "a" waiter_2 false)
        "a"
        waiter_3
        false)
      1).outcomes
    ≡ admitted 1 ∷ rejected_full 3 ∷ admitted 2 ∷ []
unfolding new_scheduler acquire release lookup insert remove
admitted_in_turn = refl

leases-IsBounded_example :
    let s =
      release (acquire (acquire (new_scheduler small) "a" waiter_1 false) "a" waiter_2 false) 1 in
    (length s.leases ≤ 2) × ((scope : String) → leases_of scope s.leases ≤ 1)
leases-IsBounded_example =
    leases-IsBounded {limits = small}
      (releases 1 (acquires "a" waiter_2 false (acquires "a" waiter_1 false starts)))

drain-IsDrained_example : IsDrained (drain (acquire (new_scheduler small) "a" waiter_1 false))
drain-IsDrained_example = drain-IsDrained (acquire (new_scheduler small) "a" waiter_1 false)
