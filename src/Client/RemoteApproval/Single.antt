-- ===== src/Client/RemoteApproval/Single.antt =====
-- The broker of packages/client/src/remote-approval.ts lets one request of an execution wait.
use vicoop_bridge.Prelude.{
  ℕ, ◌+◌, ◌≡◌, ◌≢◌, ◌∙◌, sym, String, Bool, false, not, ◌||◌, Option, some, [], ◌∷◌, Dict, ◌==◌,
  string_eq, nat_eq, if◌then◌else◌, lookup, insert, remove, values, exists, arith, lookup-insert,
  lookup-remove, if_both, if_cases, option_both, ==_iff, Bool-cases, inl, inr,
}
use vicoop_bridge.Protocol.{Json, ApprovalDecision, deny}
use vicoop_bridge.Client.RemoteApproval.{
  ApprovalRun, ToolCall, PendingApproval, RemoteApprovalBroker, new_broker, answer, finish,
  resolve_found, resolve, is_waiting, open_approval, ask, request, on_timeout, deny_each,
  end_lifecycle, is_askable,
}
use vicoop_bridge.Client.RemoteApproval.Decisions.{
  Step, time_passes, asks, hears, times_out, backend_aborts, ends, Decision,
}

-- No two requests of one execution
abbrev pub IsSingle : Dict String PendingApproval → Type 0
IsSingle m =
    (i j : String) (p q : PendingApproval)
    → lookup i m ≡ some p
    → lookup j m ≡ some q
    → p.execution_id ≡ q.execution_id
    → i ≡ j

remove-IsSingle :
    (m : Dict String PendingApproval) (id : String) → IsSingle m → IsSingle (remove id m)
remove-IsSingle m id v i j p q h k e =
    v i j p q (ground (arith, lookup-remove id i m, h)) (ground (arith, lookup-remove id j m, k)) e

some_same : {p q : PendingApproval} → some p ≡ some q → p.execution_id ≡ q.execution_id
some_same e = cc

none_waits :
    (m : Dict String PendingApproval) (x id : String) (p : PendingApproval)
    → exists (λ (p : PendingApproval). p.execution_id == x) (values m) ≡ false
    → lookup id m ≡ some p
    → p.execution_id ≢ x
unfolding lookup values
none_waits [] x id p h k e = cc
none_waits ((j, q) ∷ m) x id p h k e = elim (Bool-cases (j == id)) [
  | inl hit ↦ ground (arith, h, e, ==_iff q.execution_id x, some_same (rw hit at k))
  | inr miss ↦ none_waits m x id p (ground (arith, h)) (ground (arith, miss, k)) e
]

insert-IsSingle :
    (m : Dict String PendingApproval) (id : String) (new : PendingApproval)
    → exists (λ (p : PendingApproval). p.execution_id == new.execution_id) (values m) ≡ false
    → IsSingle m
    → IsSingle (insert id new m)
insert-IsSingle m id new free v i j p q h k e =
    let h' = sym (lookup-insert id i new m) ∙ h in
    let k' = sym (lookup-insert id j new m) ∙ k in
    elim (Bool-cases (id == i)) [
      | inl hi ↦ elim (Bool-cases (id == j)) [
        | inl hj ↦ ground (arith, ==_iff id i, ==_iff id j)
        | inr mj ↦ absurd (
            none_waits m new.execution_id j q free (rw mj at k')
              (sym e ∙ sym (some_same (rw hi at h'))))
      ]
      | inr mi ↦ elim (Bool-cases (id == j)) [
        | inl hj ↦ absurd (
            none_waits m new.execution_id i p free (rw mi at h')
              (e ∙ sym (some_same (rw hj at k'))))
        | inr mj ↦ v i j p q (rw mi at h') (rw mj at k') e
      ]
    ]

finish-IsSingle :
    (s : RemoteApprovalBroker) (id : String) (d : ApprovalDecision) (throws : Bool)
    → IsSingle s.pending
    → IsSingle (finish s id d throws).pending
unfolding finish answer
finish-IsSingle s id d throws v =
    option_both (λ (z : RemoteApprovalBroker). IsSingle z.pending) (lookup id s.pending) v
      λ p e.
        if_both (λ (z : RemoteApprovalBroker). IsSingle z.pending) throws
          (remove-IsSingle s.pending id v) (remove-IsSingle s.pending id v)

resolve-IsSingle :
    (s : RemoteApprovalBroker) (t x id : String) (d : ApprovalDecision) (throws : Bool)
    → IsSingle s.pending
    → IsSingle (resolve s t x id d throws).pending
unfolding resolve resolve_found answer
resolve-IsSingle s t x id d throws v =
    option_both (λ (z : RemoteApprovalBroker). IsSingle z.pending) (lookup id s.pending) v
      λ p e.
        if_both (λ (z : RemoteApprovalBroker). IsSingle z.pending) _
          (if_both (λ (z : RemoteApprovalBroker). IsSingle z.pending) throws
            (remove-IsSingle s.pending id v) (remove-IsSingle s.pending id v))
          v

open_approval-IsSingle :
    (iso : ℕ → String) (s : RemoteApprovalBroker) (run : ApprovalRun) (call : ToolCall)
    (x id : String) (input : Json) (throws throws_on_deny : Bool)
    → is_waiting s x ≡ false
    → IsSingle s.pending
    → IsSingle (open_approval iso s run call x id input throws throws_on_deny).pending
unfolding open_approval is_waiting
open_approval-IsSingle iso s run call x id input throws throws_on_deny free v =
    if_both (λ (z : RemoteApprovalBroker). IsSingle z.pending) throws
      (finish-IsSingle (record s { pending = insert id new s.pending }) id deny throws_on_deny
        (insert-IsSingle s.pending id new free v))
      (insert-IsSingle s.pending id new free v)
  where
    new : PendingApproval
    new = record {
      task_id = run.task_id;
      execution_id = x;
      lifecycle = run.lifecycle;
      expires_ms = s.now + s.timeout_ms;
    }

request-IsSingle :
    (iso : ℕ → String) (s : RemoteApprovalBroker) (run : ApprovalRun) (call : ToolCall)
    (id : String) (backend_aborted throws throws_on_deny : Bool)
    → IsSingle s.pending
    → IsSingle (request iso s run call id backend_aborted throws throws_on_deny).0.pending
unfolding request ask
request-IsSingle iso s run call id backend_aborted throws throws_on_deny v =
    if_both (λ (z : RemoteApprovalBroker × Option ApprovalDecision). IsSingle z.0.pending) _ v
      (option_both (λ (z : RemoteApprovalBroker × Option ApprovalDecision). IsSingle z.0.pending)
        run.execution_id v
        λ x e.
          if_cases (λ (z : RemoteApprovalBroker × Option ApprovalDecision). IsSingle z.0.pending)
            (x == "" || is_waiting s x || not (is_askable call)) (λ refused. v)
            λ askable.
              option_both
                (λ (z : RemoteApprovalBroker × Option ApprovalDecision). IsSingle z.0.pending)
                call.input v
                λ input e'.
                  open_approval-IsSingle iso s run call x id input throws throws_on_deny
                    (none_waiting (x == "") (is_waiting s x) (not (is_askable call)) askable) v)
  where
    none_waiting : (a b c : Bool) → (a || b || c) ≡ false → b ≡ false
    none_waiting a b c h = ground (arith, h)

deny_each-IsSingle :
    (s : RemoteApprovalBroker) (l : ℕ) (throws : Bool) (m : Dict String PendingApproval)
    → IsSingle s.pending
    → IsSingle (deny_each s l throws m).pending
unfolding deny_each
deny_each-IsSingle s l throws [] v = v
deny_each-IsSingle s l throws ((id, p) ∷ rest) v =
    deny_each-IsSingle (if p.lifecycle == l then finish s id deny throws else s) l throws rest (
      if_both (λ (z : RemoteApprovalBroker). IsSingle z.pending) (p.lifecycle == l)
        (finish-IsSingle s id deny throws v) v)

Step-IsSingle :
    {s z : RemoteApprovalBroker} {l : Option Decision} {a : Option ApprovalDecision}
    → Step s l a z
    → IsSingle s.pending
    → IsSingle z.pending
unfolding on_timeout end_lifecycle
Step-IsSingle {s} (time_passes ms) v = v
Step-IsSingle {s} (asks iso run call id backend_aborted throws throws_on_deny) v =
    request-IsSingle iso s run call id backend_aborted throws throws_on_deny v
Step-IsSingle {s} (hears t x id d throws) v = resolve-IsSingle s t x id d throws v
Step-IsSingle {s} (times_out id throws) v =
    option_both (λ (z : RemoteApprovalBroker). IsSingle z.pending) (lookup id s.pending) v
      λ p e.
        if_both (λ (z : RemoteApprovalBroker). IsSingle z.pending) _
          (finish-IsSingle s id deny throws v) v
Step-IsSingle {s} (backend_aborts id throws) v = finish-IsSingle s id deny throws v
Step-IsSingle {s} (ends l throws) v = deny_each-IsSingle _ l throws s.pending v

pub data IsReachable (timeout_ms : ℕ) : RemoteApprovalBroker → Type 0 where
  starts : IsReachable timeout_ms (new_broker timeout_ms)
  then_ :
      {s z : RemoteApprovalBroker} {l : Option Decision} {a : Option ApprovalDecision}
      → IsReachable timeout_ms s
      → Step s l a z
      → IsReachable timeout_ms z

-- In every broker that any sequence of requests, decisions, timeouts and aborts reaches, no two
-- requests of one execution wait.
pub IsReachable-IsSingle :
    {timeout_ms : ℕ} {s : RemoteApprovalBroker} → IsReachable timeout_ms s → IsSingle s.pending
unfolding new_broker lookup
IsReachable-IsSingle starts = λ i j p q h k e. cc
IsReachable-IsSingle (then_ h step) = Step-IsSingle step (IsReachable-IsSingle h)
