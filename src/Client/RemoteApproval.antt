-- ===== src/Client/RemoteApproval.antt =====
-- packages/client/src/remote-approval.ts: a backend asks for the approval of a tool call and waits for
-- the decision of the server.
--
-- A request that waits has an entry in `pending`; its `settled` flag is that the entry is gone. The
-- promises that have been resolved stand in `answers`, oldest first, and `emitted` is what went out.
-- `iso` prints a time (`toISOString`).
pub mod Decisions
pub mod Single
mod Examples
use vicoop_bridge.Prelude.{
  ℕ, ◌+◌, ◌*◌, String, Bool, true, false, not, ◌&&◌, ◌||◌, Option, none, some, List, [], ◌∷◌, ◌++◌,
  Dict, ◌==◌, string_eq, nat_eq, ltb, leb, if◌then◌else◌, exists, values, lookup, insert, remove,
}
use vicoop_bridge.Protocol.{
  Json, ApprovalDecision, allow_once, deny, UpFrame, approval_request, approval_received, TaskRef,
}

-- What `run` knows of its task; `lifecycle` is its abort controller.
pub record ApprovalRun : Type 0 where
  pub task_id : String
  pub execution_id : Option String
  pub enabled : Bool
  pub lifecycle : ℕ

-- A tool call as it is asked about: `input` is `none` if it has no JSON, and the lengths are the
-- UTF-16 units of the name and the bytes of the JSON.
pub record ToolCall : Type 0 where
  pub tool_name : String
  pub tool_name_length : ℕ
  pub input : Option Json
  pub input_bytes : ℕ

pub record PendingApproval : Type 0 where
  pub task_id : String
  pub execution_id : String
  pub lifecycle : ℕ
  pub expires_ms : ℕ

pub record RemoteApprovalBroker : Type 0 where
  pub now : ℕ
  pub timeout_ms : ℕ
  pub aborted : ℕ → Bool  -- the lifecycles that are over
  pub pending : Dict String PendingApproval
  pub answers : List (String × ApprovalDecision)
  pub emitted : List UpFrame

unfoldable pub new_broker : (timeout_ms : ℕ) → RemoteApprovalBroker
new_broker timeout_ms = record {
  now = 0;
  timeout_ms = timeout_ms;
  aborted = λ l. false;
  pending = [];
  answers = [];
  emitted = [];
}

abbrev ref_of : String → String → TaskRef
ref_of t x = record { task_id = t; execution_id = some x; seq = none }

abbrev emit : RemoteApprovalBroker → UpFrame → RemoteApprovalBroker
emit s f = record s { emitted = s.emitted ++ f ∷ [] }

-- `finish` of a request that has an entry; `throws` is whether `emit` does.
abbrev pub answer :
    RemoteApprovalBroker
    → String
    → PendingApproval
    → ApprovalDecision
    → (throws : Bool) → RemoteApprovalBroker
unfolding remove
answer s id p d throws =
    let closed = record s {
      pending = remove id s.pending;
      answers = s.answers ++ (id, if throws then deny else d) ∷ [];
    } in
    if throws
    then closed
    else emit closed (approval_received (ref_of p.task_id p.execution_id) id d)

unfoldable pub finish :
    RemoteApprovalBroker → String → ApprovalDecision → (throws : Bool) → RemoteApprovalBroker
unfolding lookup answer
finish s id d throws = elim (lookup id s.pending) [ none ↦ s | some p ↦ answer s id p d throws ]

-- The server's decision, unless it comes too late
abbrev pub in_time : RemoteApprovalBroker → PendingApproval → ApprovalDecision → ApprovalDecision
in_time s p d = if leb p.expires_ms s.now then deny else d

unfoldable pub resolve_found :
    RemoteApprovalBroker
    → (task_id execution_id id : String) → ApprovalDecision
    → (throws : Bool) → PendingApproval
    → RemoteApprovalBroker
unfolding answer
resolve_found s t x id d throws p =
    if (p.task_id == t) && (p.execution_id == x) then answer s id p (in_time s p d) throws else s

unfoldable pub resolve :
    RemoteApprovalBroker
    → (task_id execution_id id : String) → ApprovalDecision
    → (throws : Bool) → RemoteApprovalBroker
unfolding lookup resolve_found
resolve s t x id d throws = elim (lookup id s.pending) [
  | none ↦ s
  | some p ↦ resolve_found s t x id d throws p
]

-- Does a request of this execution wait?
abbrev pub is_waiting : RemoteApprovalBroker → String → Bool
unfolding values
is_waiting s x = exists (λ (p : PendingApproval). p.execution_id == x) (values s.pending)

abbrev max_input_bytes : ℕ
max_input_bytes = 64 * 1024

abbrev pub is_askable : ToolCall → Bool
is_askable call =
    ltb 0 call.tool_name_length
    && leb call.tool_name_length 256
    && leb call.input_bytes max_input_bytes

-- The request that goes out; its id is random.
unfoldable pub open_approval :
    (iso : ℕ → String)
    → RemoteApprovalBroker
    → ApprovalRun
    → ToolCall
    → (x id : String) → Json
    → (throws throws_on_deny : Bool) → RemoteApprovalBroker
unfolding insert finish
open_approval iso s run call x id input throws throws_on_deny =
    let expires = s.now + s.timeout_ms in
    let waiting = record s {
      pending =
          insert id
            (record {
              task_id = run.task_id;
              execution_id = x;
              lifecycle = run.lifecycle;
              expires_ms = expires;
            })
            s.pending;
    } in
    if throws
    then finish waiting id deny throws_on_deny
    else emit waiting (
        approval_request (ref_of run.task_id x) (record {
          request_id = id;
          tool_name = call.tool_name;
          input = input;
          expires_at = iso expires;
          expires_ms = expires;
          json_length = call.input_bytes;
        }))

-- What is asked for an execution: the broker after it, and the answer that is given at once, if any
unfoldable pub ask :
    (iso : ℕ → String)
    → RemoteApprovalBroker
    → ApprovalRun
    → ToolCall
    → (id : String) → (throws throws_on_deny : Bool) → (x : String)
    → RemoteApprovalBroker × Option ApprovalDecision
unfolding open_approval
ask iso s run call id throws throws_on_deny x =
    if x == "" || is_waiting s x || not (is_askable call) then (s, some deny) else elim call.input [
      | none ↦ (s, some deny)
      | some input ↦ (open_approval iso s run call x id input throws throws_on_deny, none)
    ]

unfoldable pub request :
    (iso : ℕ → String)
    → RemoteApprovalBroker
    → ApprovalRun
    → ToolCall
    → (id : String) → (backend_aborted throws throws_on_deny : Bool)
    → RemoteApprovalBroker × Option ApprovalDecision
unfolding ask
request iso s run call id backend_aborted throws throws_on_deny =
    if not run.enabled || s.aborted run.lifecycle || backend_aborted
    then (s, some deny)
    else elim run.execution_id [
      | none ↦ (s, some deny)
      | some x ↦ ask iso s run call id throws throws_on_deny x
    ]

-- The timer of a request
unfoldable pub on_timeout : RemoteApprovalBroker → String → (throws : Bool) → RemoteApprovalBroker
unfolding finish lookup
on_timeout s id throws = elim (lookup id s.pending) [
  | none ↦ s
  | some p ↦ if leb p.expires_ms s.now then finish s id deny throws else s
]

unfoldable pub deny_each :
    RemoteApprovalBroker → ℕ → (throws : Bool) → Dict String PendingApproval → RemoteApprovalBroker
unfolding finish
deny_each s l throws [] = s
deny_each s l throws ((id, p) ∷ rest) =
    deny_each (if p.lifecycle == l then finish s id deny throws else s) l throws rest

-- A lifecycle ends, by its signal or with the work that `run` waits for.
unfoldable pub end_lifecycle : RemoteApprovalBroker → ℕ → (throws : Bool) → RemoteApprovalBroker
unfolding deny_each
end_lifecycle s l throws =
    deny_each (record s { aborted = λ k. if k == l then true else s.aborted k }) l throws s.pending
