-- ===== src/Client/RemoteApproval/Decisions.antt =====
-- When the broker of packages/client/src/remote-approval.ts answers that a tool call is allowed.
use mathlib.Core.List.{append-nil, append_assoc}
use vicoop_bridge.Prelude.{
  ◌⊎◌, inl, inr, ℕ, ◌+◌, ◌<◌, ◌≡◌, ◌∙◌, sym, ap, refl, String, Bool, true, false, ◌&&◌, Option,
  none, some, List, [], ◌∷◌, ◌++◌, Dict, ◌==◌, string_eq, nat_eq, leb, if◌then◌else◌, lookup,
  insert, arith, All, All-append, if_both, if_cases, option_both, and_both, ==_iff,
}
use vicoop_bridge.Protocol.{Json, ApprovalDecision, allow_once, deny}
use vicoop_bridge.Client.RemoteApproval.{
  ApprovalRun, ToolCall, PendingApproval, RemoteApprovalBroker, answer, finish, in_time,
  resolve_found, resolve, open_approval, ask, request, on_timeout, deny_each, end_lifecycle,
}

-- A decision that the server has sent: task, execution, request and decision
abbrev pub Decision : Type 0
Decision = String × String × String × ApprovalDecision

-- One event, with the decision that it brings and the answer that a request gets at once, if any
pub data Step (s : RemoteApprovalBroker)
    : Option Decision → Option ApprovalDecision → RemoteApprovalBroker → Type 0 where
  time_passes : (ms : ℕ) → Step s none none (record s { now = s.now + ms })
  asks :
      (iso : ℕ → String) (run : ApprovalRun) (call : ToolCall) (id : String)
      (backend_aborted throws throws_on_deny : Bool)
      → Step s none
          (request iso s run call id backend_aborted throws throws_on_deny).1
          (request iso s run call id backend_aborted throws throws_on_deny).0
  hears :
      (t x id : String) (d : ApprovalDecision) (throws : Bool)
      → Step s (some (t, x, id, d)) none (resolve s t x id d throws)
  times_out : (id : String) (throws : Bool) → Step s none none (on_timeout s id throws)
  backend_aborts : (id : String) (throws : Bool) → Step s none none (finish s id deny throws)
  ends : (l : ℕ) (throws : Bool) → Step s none none (end_lifecycle s l throws)

-- A request that waits for this very decision, and has not expired
pub record IsGranted (s : RemoteApprovalBroker) (t x id : String) (d : ApprovalDecision)
    : Type 0 where
  pub entry : PendingApproval
  pub waiting : lookup id s.pending ≡ some entry
  pub task : entry.task_id ≡ t
  pub execution : entry.execution_id ≡ x
  pub unexpired : s.now < entry.expires_ms
  pub allowed : d ≡ allow_once

-- Only denials are added.
pub record OnlyDenies (s z : RemoteApprovalBroker) : Type 0 where
  pub added : List (String × ApprovalDecision)
  pub answers : z.answers ≡ s.answers ++ added
  pub denied : All (λ (a : String × ApprovalDecision). a.1 ≡ deny) added

-- At most this request is answered.
abbrev pub IsAnswered : RemoteApprovalBroker → Option Decision → RemoteApprovalBroker → Type 0
IsAnswered s none z = OnlyDenies s z
IsAnswered s (some (t, x, id, d)) z =
    (z.answers ≡ s.answers)
    ⊎ ((e : ApprovalDecision) × (z.answers ≡ s.answers ++ (id, e) ∷ [])
        × (e ≡ allow_once → IsGranted s t x id d))

same-OnlyDenies : (s z : RemoteApprovalBroker) → z.answers ≡ s.answers → OnlyDenies s z
same-OnlyDenies s z e = record { added = []; answers = e ∙ sym (append-nil s.answers); denied = tt }

answer-answers :
    (s : RemoteApprovalBroker) (id : String) (p : PendingApproval) (d : ApprovalDecision)
    (throws : Bool)
    → (answer s id p d throws).answers ≡ s.answers ++ (id, if throws then deny else d) ∷ []
unfolding answer
answer-answers s id p d true = refl
answer-answers s id p d false = refl

finish-OnlyDenies :
    (s : RemoteApprovalBroker) (id : String) (throws : Bool)
    → OnlyDenies s (finish s id deny throws)
unfolding finish
finish-OnlyDenies s id throws =
    option_both (λ z. OnlyDenies s z) (lookup id s.pending) (same-OnlyDenies s s refl)
      λ p e. record {
        added = (id, if throws then deny else deny) ∷ [];
        answers = answer-answers s id p deny throws;
        denied = (if_both (λ d. d ≡ deny) throws refl refl, tt);
      }

after-OnlyDenies : (s y z : RemoteApprovalBroker) → OnlyDenies s y → OnlyDenies y z → OnlyDenies s z
after-OnlyDenies s y z h k = record {
  added = h.added ++ k.added;
  answers = k.answers ∙ ap (λ l. l ++ k.added) h.answers ∙ append_assoc s.answers h.added k.added;
  denied =
      All-append (λ (a : String × ApprovalDecision). a.1 ≡ deny) h.added k.added h.denied k.denied;
}

deny_each-OnlyDenies :
    (s : RemoteApprovalBroker) (l : ℕ) (throws : Bool) (m : Dict String PendingApproval)
    → OnlyDenies s (deny_each s l throws m)
unfolding deny_each
deny_each-OnlyDenies s l throws [] = same-OnlyDenies s s refl
deny_each-OnlyDenies s l throws ((id, p) ∷ rest) =
    after-OnlyDenies s (if p.lifecycle == l then finish s id deny throws else s)
      (deny_each (if p.lifecycle == l then finish s id deny throws else s) l throws rest)
      (if_both (λ z. OnlyDenies s z) (p.lifecycle == l) (finish-OnlyDenies s id throws)
        (same-OnlyDenies s s refl))
      (deny_each-OnlyDenies (if p.lifecycle == l then finish s id deny throws else s) l throws rest)

open_approval-OnlyDenies :
    (iso : ℕ → String) (s : RemoteApprovalBroker) (run : ApprovalRun) (call : ToolCall)
    (x id : String) (input : Json) (throws throws_on_deny : Bool)
    → OnlyDenies s (open_approval iso s run call x id input throws throws_on_deny)
unfolding open_approval
open_approval-OnlyDenies iso s run call x id input throws throws_on_deny =
    if_both (λ z. OnlyDenies s z) throws
      (after-OnlyDenies s waiting (finish waiting id deny throws_on_deny)
        (same-OnlyDenies s waiting refl) (finish-OnlyDenies waiting id throws_on_deny))
      (same-OnlyDenies s _ refl)
  where
    waiting : RemoteApprovalBroker
    waiting = record s {
      pending =
          insert id
            (record {
              task_id = run.task_id;
              execution_id = x;
              lifecycle = run.lifecycle;
              expires_ms = s.now + s.timeout_ms;
            })
            s.pending;
    }

request-OnlyDenies :
    (iso : ℕ → String) (s : RemoteApprovalBroker) (run : ApprovalRun) (call : ToolCall)
    (id : String) (backend_aborted throws throws_on_deny : Bool)
    → OnlyDenies s (request iso s run call id backend_aborted throws throws_on_deny).0
unfolding request ask
request-OnlyDenies iso s run call id backend_aborted throws throws_on_deny =
    if_both (λ (z : RemoteApprovalBroker × Option ApprovalDecision). OnlyDenies s z.0) _ same
      (option_both (λ (z : RemoteApprovalBroker × Option ApprovalDecision). OnlyDenies s z.0)
        run.execution_id same
        λ x e.
          if_both (λ (z : RemoteApprovalBroker × Option ApprovalDecision). OnlyDenies s z.0) _ same
            (option_both (λ (z : RemoteApprovalBroker × Option ApprovalDecision). OnlyDenies s z.0)
              call.input same
              λ input e'. open_approval-OnlyDenies iso s run call x id input throws throws_on_deny))
  where
    same : OnlyDenies s s
    same = same-OnlyDenies s s refl

on_timeout-OnlyDenies :
    (s : RemoteApprovalBroker) (id : String) (throws : Bool) → OnlyDenies s (on_timeout s id throws)
unfolding on_timeout
on_timeout-OnlyDenies s id throws =
    option_both (λ z. OnlyDenies s z) (lookup id s.pending) (same-OnlyDenies s s refl)
      λ p e.
        if_both (λ z. OnlyDenies s z) (leb p.expires_ms s.now) (finish-OnlyDenies s id throws)
          (same-OnlyDenies s s refl)

module _ (s : RemoteApprovalBroker) (t x id : String) (d : ApprovalDecision) (throws : Bool) where
  granted :
      (p : PendingApproval)
      → lookup id s.pending ≡ some p
      → ((p.task_id == t) && (p.execution_id == x)) ≡ true
      → (if throws then deny else in_time s p d) ≡ allow_once
      → IsGranted s t x id d
  granted p waiting same e =
      let (task, execution) = and_both (p.task_id == t) (p.execution_id == x) same in
      record {
        entry = p;
        waiting = waiting;
        task = (==_iff p.task_id t).0 task;
        execution = (==_iff p.execution_id x).0 execution;
        unexpired = ground (arith, e);
        allowed = ground (arith, e);
      }

  resolve-IsAnswered : IsAnswered s (some (t, x, id, d)) (resolve s t x id d throws)
  unfolding resolve resolve_found
  resolve-IsAnswered =
      option_both (λ z. IsAnswered s (some (t, x, id, d)) z) (lookup id s.pending) (inl refl)
        λ p waiting.
          if_cases (λ z. IsAnswered s (some (t, x, id, d)) z)
            ((p.task_id == t) && (p.execution_id == x))
            (λ same. inr (
              if throws then deny else in_time s p d,
              answer-answers s id p (in_time s p d) throws,
              granted p waiting same,
            ))
            λ other. inl refl

-- What is answered at once is a denial.
abbrev pub IsDenial : Option ApprovalDecision → Type 0
IsDenial answer = (answer ≡ none) ⊎ (answer ≡ some deny)

request-IsDenial :
    (iso : ℕ → String) (s : RemoteApprovalBroker) (run : ApprovalRun) (call : ToolCall)
    (id : String) (backend_aborted throws throws_on_deny : Bool)
    → IsDenial (request iso s run call id backend_aborted throws throws_on_deny).1
unfolding request ask
request-IsDenial iso s run call id backend_aborted throws throws_on_deny = if_both Q _ (inr refl) (
    option_both Q run.execution_id (inr refl)
      λ x e. if_both Q _ (inr refl) (option_both Q call.input (inr refl) λ input e'. inl refl))
  where
    Q : RemoteApprovalBroker × Option ApprovalDecision → Type 0
    Q z = IsDenial z.1

-- Whatever happens to the client's broker of approvals, what a request is answered at once is a
-- denial, and one that waits is answered with anything but a denial only when a decision comes in
-- that allows it, while it waits and has not expired, and that names it, its task and its
-- execution; such an event answers at most that one request.
pub Step-IsAnswered :
    {s z : RemoteApprovalBroker} {l : Option Decision} {a : Option ApprovalDecision}
    → Step s l a z
    → IsDenial a × IsAnswered s l z
unfolding end_lifecycle
Step-IsAnswered {s} (time_passes ms) = (inl refl, same-OnlyDenies s _ refl)
Step-IsAnswered {s} (asks iso run call id backend_aborted throws throws_on_deny) = (
  request-IsDenial iso s run call id backend_aborted throws throws_on_deny,
  request-OnlyDenies iso s run call id backend_aborted throws throws_on_deny,
)
Step-IsAnswered {s} (hears t x id d throws) = (inl refl, resolve-IsAnswered s t x id d throws)
Step-IsAnswered {s} (times_out id throws) = (inl refl, on_timeout-OnlyDenies s id throws)
Step-IsAnswered {s} (backend_aborts id throws) = (inl refl, finish-OnlyDenies s id throws)
Step-IsAnswered {s} (ends l throws) = (
  inl refl,
  after-OnlyDenies s (record s { aborted = λ k. if k == l then true else s.aborted k }) _
      (same-OnlyDenies s _ refl) (deny_each-OnlyDenies _ l throws s.pending),
)
