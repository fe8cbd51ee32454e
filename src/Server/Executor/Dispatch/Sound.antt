-- ===== src/Server/Executor/Dispatch/Sound.antt =====
-- What `executeStream` of packages/server/src/executor.ts leaves in the registry.
use vicoop_bridge.Prelude.{
  nat_eq, lookup, insert, lookup-insert, ==_self, Dict, if_else, ℕ, ◌≡◌, ◌∙◌, subst, refl, String,
  Bool, true, false, not, ◌==◌, string_eq, Option, none, some, if_both, option_cases, arith,
}
use vicoop_bridge.Server.State.{Registry}
use vicoop_bridge.Server.Approvals.{get_binding}
use vicoop_bridge.Server.Registry.{bind_task}
use vicoop_bridge.Server.Payments.{Sdk}
use vicoop_bridge.Server.Executor.Stream.{Task, Turn}
use vicoop_bridge.Server.Executor.Dispatch.{
  recorded, dispatch, is_held_by_other, dispatch_stored, dispatch_guarded, after_dispatch,
  begin_turn,
}
use vicoop_bridge.Server.Executor.Request.{Request, parts_to_wire}

insert_self : (k : String) (r : ℕ) (m : Dict String ℕ) → lookup k (insert k r m) ≡ some r
insert_self k r m = lookup-insert k k r m ∙ rw (==_self k) refl

unheld_same :
    (s : Registry) (q : Request) (holder : ℕ)
    → is_held_by_other s q ≡ false
    → get_binding s q.params.task_id ≡ some holder
    → ((s.heap holder).agent_id == q.agent_id) ≡ true
unheld_same s q holder free found = go (get_binding s q.params.task_id) free found
  where
    go :
        (o : Option ℕ)
        → elim o [ none ↦ false | some x ↦ not ((s.heap x).agent_id == q.agent_id) ] ≡ false
        → o ≡ some holder
        → ((s.heap holder).agent_id == q.agent_id) ≡ true
    go none e f = cc
    go (some x) e f = ground arith

bind_task-bound :
    (s : Registry) (r : ℕ) (q : Request)
    → (s.heap r).agent_id ≡ q.agent_id
    → (s.heap r).task_id ≡ q.params.task_id
    → is_held_by_other s q ≡ false
    → ((bind_task s r).1 ≡ true) × (get_binding (bind_task s r).0 (s.heap r).task_id ≡ some r)
unfolding bind_task
bind_task-bound s r q mine here free =
    option_cases Q (get_binding s (s.heap r).task_id) (λ none_there. (refl, insert_self _ r _))
      λ existing found.
        if_else Q (not ((s.heap existing).agent_id == (s.heap r).agent_id)) _
          (rw mine (
            rw
              (unheld_same s q existing free
                (subst (λ k. get_binding s k ≡ some existing) here found))
              refl))
          (if_both Q (existing == r) (refl, insert_self _ r _) (refl, insert_self _ r _))
  where
    Q : Registry × Bool → Type 0
    Q z = (z.1 ≡ true) × (get_binding z.0 (s.heap r).task_id ≡ some r)

module _ (sdk : Sdk) (count_of : String → Option ℕ) where
  -- If a part of the message cannot be converted for the wire, the binding made for the turn
  -- carries its agent and task id, the task id is not held by another agent, and the store has the
  -- task, which has not ended, and records the dispatch, then a turn that was let through ends, but
  -- its binding stays bound to the task id.
  pub begin_turn-kept_binding :
      (s : Registry) (r : ℕ) (q : Request) (t : Turn) (stored : Task)
      → t.closed ≡ false
      → sdk.is_terminal stored.status.state ≡ false
      → is_held_by_other s q ≡ false
      → (s.heap r).agent_id ≡ q.agent_id
      → (s.heap r).task_id ≡ q.params.task_id
      → parts_to_wire q.parts ≡ none
      → let begun = begin_turn sdk count_of s r q t (recorded stored) in
        (begun.1.closed ≡ true) × (get_binding begun.0 q.params.task_id ≡ some r)
  unfolding begin_turn dispatch_guarded dispatch_stored dispatch after_dispatch
  begin_turn-kept_binding s r q t stored live runs free mine here bad =
      let was_bound = bind_task-bound s r q mine here free in
      rw live (
        rw runs (
          rw free (
            rw was_bound.0 (
              rw bad
                (refl, subst (λ k. get_binding (bind_task s r).0 k ≡ some r) here was_bound.1)))))
