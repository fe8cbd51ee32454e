-- ===== src/Server/Acceptance/Preservation.antt =====
-- `acceptTaskFrame` of packages/server/src/ws.ts and the soundness of the registry.
use vicoop_bridge.Prelude.{
  ℕ, ◌≡◌, refl, String, Bool, true, false, arith, Bool-cases, Option-cases, inl, inr, ltb, get_or,
  ◌==◌, ◌||◌, is_some, string_eq, option_eq, nat_eq,
}
use vicoop_bridge.Protocol.{TaskRef, ApprovalDecision, DownFrame}
use vicoop_bridge.Server.State.{Registry}
use vicoop_bridge.Server.Approvals.{get_binding, send_to_agent, acknowledge_received}
use vicoop_bridge.Server.Receipts.{remember_terminal_receipt}
use vicoop_bridge.Server.Acceptance.{
  Peer, acknowledge, acknowledge_receipt, fail_closed, accept_and_resume, next_expected, accept_seq,
  accept_replayable, receipt_or_unknown, accept_owned, owned_binding, accept_task_frame,
}
use vicoop_bridge.Server.Registry.Sound.{IsSound, write-Sound}
use vicoop_bridge.Server.Registry.Operations.{resume_binding-IsSound, fail_task_binding-IsSound}

-- Two registries with the same objects, bindings, holds and timers.
pub record SameTables (s s' : Registry) : Type 0 where
  pub heap : s'.heap ≡ s.heap
  pub bindings : s'.bindings ≡ s.bindings
  pub grace_holds : s'.grace_holds ≡ s.grace_holds
  pub timers : s'.timers ≡ s.timers
  pub next_timer : s'.next_timer ≡ s.next_timer

pub SameTables-IsSound : {s s' : Registry} → SameTables s s' → IsSound s → IsSound s'
SameTables-IsSound e v =
    rw (e.heap) (rw (e.bindings) (rw (e.grace_holds) (rw (e.timers) (rw (e.next_timer) v))))

pub acknowledge-SameTables : (p : Peer) (s : Registry) (r : ℕ) → SameTables s (acknowledge p s r)
unfolding acknowledge
acknowledge-SameTables p s r = ground arith

pub send_to_agent-SameTables :
    (s : Registry) (agent_id : String) (f : DownFrame) → SameTables s (send_to_agent s agent_id f).0
unfolding send_to_agent
send_to_agent-SameTables s agent_id f = ground arith

acknowledge_receipt-SameTables :
    (p : Peer) (s : Registry) (f : TaskRef) → SameTables s (acknowledge_receipt p s f).0
unfolding acknowledge_receipt
acknowledge_receipt-SameTables p s f = ground arith

pub acknowledge_received-SameTables :
    (s : Registry) (r : ℕ) (id : String) (d : ApprovalDecision)
    → SameTables s (acknowledge_received s r id d).0
unfolding acknowledge_received
acknowledge_received-SameTables s r id d = ground arith

pub remember_terminal_receipt-SameTables :
    (s : Registry) (r n : ℕ) → SameTables s (remember_terminal_receipt s r n)
unfolding remember_terminal_receipt
remember_terminal_receipt-SameTables s r n = ground arith

abbrev Keeps {ℓ} : {A : Type ℓ} → Registry × A → Type 0
Keeps r = IsSound r.0

fail_closed-IsSound :
    (s : Registry) (r : ℕ) (code message : String)
    → IsSound s
    → Keeps (fail_closed s r code message)
unfolding fail_closed
fail_closed-IsSound s r code message v =
    SameTables-IsSound (send_to_agent-SameTables _ _ _)
      (fail_task_binding-IsSound s r code message v)

accept_and_resume-IsSound :
    (p : Peer) (s : Registry) (f : TaskRef) (r : ℕ) → IsSound s → Keeps (accept_and_resume p s f r)
unfolding accept_and_resume
accept_and_resume-IsSound p s f r v = elim (Option-cases p.agent_id) [
  | inl e ↦ rw (e, accept_and_resume) v
  | inr (a, e) ↦ rw (e, accept_and_resume) (resume_binding-IsSound s f.task_id a v)
]

accept_seq-IsSound :
    (p : Peer) (s : Registry) (f : TaskRef) (r seq : ℕ) → IsSound s → Keeps (accept_seq p s f r seq)
unfolding accept_seq
accept_seq-IsSound p s f r seq v =
    let expected = get_or (s.heap r).next_client_seq 0 in
    elim (Bool-cases (ltb seq expected)) [
      | inl old ↦ rw old (
          resume_binding-IsSound (acknowledge p s r) f.task_id (s.heap r).agent_id
            (SameTables-IsSound (acknowledge-SameTables p s r) v))
      | inr new ↦ rw new (elim (Bool-cases (ltb expected seq)) [
        | inl gap ↦ rw gap (fail_closed-IsSound s r _ _ v)
        | inr next ↦
            rw next (
              accept_and_resume-IsSound p (next_expected s r) f r (write-Sound v r _ refl (λ o. o)))
      ])
    ]

accept_replayable-IsSound :
    (p : Peer) (s : Registry) (f : TaskRef) (r : ℕ) (x : String)
    → IsSound s
    → Keeps (accept_replayable p s f r x)
unfolding accept_replayable
accept_replayable-IsSound p s f r x v = elim (Option-cases f.execution_id) [
  | inl e ↦ rw (e, accept_replayable) (fail_closed-IsSound s r _ _ v)
  | inr (y, e) ↦
      rw (e, accept_replayable)
        (elim (Bool-cases (y == x)) [
          | inr stale ↦ rw stale (SameTables-IsSound (acknowledge_receipt-SameTables p s f) v)
          | inl same ↦ rw same (elim (Option-cases f.seq) [
            | inl n ↦ rw n (fail_closed-IsSound s r _ _ v)
            | inr (seq, n) ↦ rw n (accept_seq-IsSound p s f r seq v)
          ])
        ])
]

receipt_or_unknown-IsSound : (x : Registry × Bool) → IsSound x.0 → Keeps (receipt_or_unknown x)
unfolding receipt_or_unknown
receipt_or_unknown-IsSound (s, true) v = v
receipt_or_unknown-IsSound (s, false) v = v

accept_owned-IsSound :
    (p : Peer) (s : Registry) (f : TaskRef) (r : ℕ) → IsSound s → Keeps (accept_owned p s f r)
unfolding accept_owned
accept_owned-IsSound p s f r v = elim (Option-cases (s.heap r).execution_id) [
  | inr (x, e) ↦ rw (e, accept_owned) (accept_replayable-IsSound p s f r x v)
  | inl e ↦
      rw (e, accept_owned)
        (elim (Bool-cases (is_some f.execution_id || is_some f.seq)) [
          | inl reliable ↦ rw reliable (
              receipt_or_unknown-IsSound (acknowledge_receipt p s f)
                (SameTables-IsSound (acknowledge_receipt-SameTables p s f) v))
          | inr legacy ↦ rw legacy (accept_and_resume-IsSound p s f r v)
        ])
]

pub accept_task_frame-IsSound :
    (p : Peer) (s : Registry) (f : TaskRef) → IsSound s → Keeps (accept_task_frame p s f)
unfolding accept_task_frame
accept_task_frame-IsSound p s f v = elim (Option-cases (get_binding s f.task_id)) [
  | inl e ↦
      rw (e, accept_task_frame)
        (receipt_or_unknown-IsSound (acknowledge_receipt p s f)
          (SameTables-IsSound (acknowledge_receipt-SameTables p s f) v))
  | inr (q, e) ↦
      rw (e, accept_task_frame)
        (elim (Option-cases (owned_binding p s f.task_id)) [
          | inl n ↦ rw n v
          | inr (r, n) ↦ rw n (accept_owned-IsSound p s f r v)
        ])
]
