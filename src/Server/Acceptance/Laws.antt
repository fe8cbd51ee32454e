-- ===== src/Server/Acceptance/Laws.antt =====
-- Exactly which task frames `acceptTaskFrame` (packages/server/src/ws.ts) accepts for a binding, and
-- what acceptance changes.
use vicoop_bridge.Prelude.{
  ℕ, ◌+◌, ◌≡◌, String, Bool, true, false, none, some, Option, arith, Bool-cases, Option-cases, inl,
  inr, ◌≢◌, ◌∙◌, ap, sym, ltb, get_or, ==_iff, ==_self, ◌||◌, is_some, string_eq, option_eq, nat_eq,
  lookup,
}
use vicoop_bridge.Protocol.{TaskRef}
use vicoop_bridge.Server.State.{Registry, TaskBinding}
use vicoop_bridge.Server.Approvals.{get_binding}
use vicoop_bridge.Server.Registry.{resume_binding}
use vicoop_bridge.Server.Acceptance.{
  Peer, Acceptance, accepted, next_expected, accept_and_resume, accept_seq, accept_replayable,
  receipt_or_unknown, accept_owned, owned_binding, accept_task_frame, acknowledge_receipt,
}

-- The number that the next frame of a binding has to carry: none, if it is not replay-capable.
abbrev pub expected_seq : TaskBinding → Option ℕ
expected_seq b = elim b.execution_id [ none ↦ none | some _ ↦ some (get_or b.next_client_seq 0) ]

pub expected_seq_replayable :
    (b : TaskBinding) {x : String}
    → b.execution_id ≡ some x
    → expected_seq b ≡ some (get_or b.next_client_seq 0)
expected_seq_replayable b e = rw (e, expected_seq)

expected_seq_legacy : (b : TaskBinding) → b.execution_id ≡ none → expected_seq b ≡ none
expected_seq_legacy b e = rw (e, expected_seq)

pub record IsAcceptable (p : Peer) (s : Registry) (f : TaskRef) (r : ℕ) : Type 0 where
  pub bound : lookup f.task_id s.bindings ≡ some r
  pub owner : p.agent_id ≡ some (s.heap r).agent_id
  pub execution : f.execution_id ≡ (s.heap r).execution_id
  pub seq : f.seq ≡ expected_seq (s.heap r)

-- The registry after the number of an accepted frame has been counted.
unfoldable pub counted : Registry → ℕ → Registry
counted s r = elim (s.heap r).execution_id [ none ↦ s | some _ ↦ next_expected s r ]

-- The registry after an accepted frame.
unfoldable pub accepted_state : Registry → TaskRef → ℕ → Registry
accepted_state s f r = resume_binding (counted s r) f.task_id (s.heap r).agent_id

accept_seq-accepted :
    (p : Peer) (s : Registry) (f : TaskRef) (r seq q : ℕ)
    → (accept_seq p s f r seq).1 ≡ accepted q
    → (q ≡ r) × (seq ≡ get_or (s.heap r).next_client_seq 0)
unfolding accept_seq
accept_seq-accepted p s f r seq q h = ground arith

accept_replayable-accepted :
    (p : Peer) (s : Registry) (f : TaskRef) (r q : ℕ) (x : String)
    → (accept_replayable p s f r x).1 ≡ accepted q
    → (q ≡ r) × (f.execution_id ≡ some x) × (f.seq ≡ some (get_or (s.heap r).next_client_seq 0))
unfolding accept_replayable
accept_replayable-accepted p s f r q x h = elim (Option-cases f.execution_id) [
  | inl e ↦ cc (rw (e, accept_replayable) at h)
  | inr (y, e) ↦ ground (arith, ==_iff y x)
]

receipt_or_unknown-ne : (x : Registry × Bool) (q : ℕ) → (receipt_or_unknown x).1 ≢ accepted q
unfolding receipt_or_unknown
receipt_or_unknown-ne (s, true) q h = cc
receipt_or_unknown-ne (s, false) q h = cc

accept_owned-accepted :
    (p : Peer) (s : Registry) (f : TaskRef) (r q : ℕ)
    → (accept_owned p s f r).1 ≡ accepted q
    → (q ≡ r) × (f.execution_id ≡ (s.heap r).execution_id) × (f.seq ≡ expected_seq (s.heap r))
unfolding accept_owned
accept_owned-accepted p s f r q h = elim (Option-cases (s.heap r).execution_id) [
  | inr (x, e) ↦
      let (same, exec, seq) = accept_replayable-accepted p s f r q x (rw (e, accept_owned) at h) in
      (same, rw (e, exec), rw (e, expected_seq) seq)
  | inl e ↦ elim (Bool-cases (is_some f.execution_id || is_some f.seq)) [
    | inl reliable ↦ absurd (
        receipt_or_unknown-ne (acknowledge_receipt p s f) q
          (rw reliable at (rw (e, accept_owned) at h)))
    | inr legacy ↦ ground (arith, e, legacy, rw legacy at (rw (e, accept_owned) at h))
  ]
]

owned_binding-lem :
    (p : Peer) (s : Registry) (t : String) {r : ℕ}
    → owned_binding p s t ≡ some r
    → (lookup t s.bindings ≡ some r) × (p.agent_id ≡ some (s.heap r).agent_id)
unfolding owned_binding
owned_binding-lem p s t {r} h = ground (arith, ==_iff (some (s.heap r).agent_id) p.agent_id)

-- A task frame is accepted for a binding only if its task id is bound to it, the sender's
-- authenticated agent owns it, the frame names the execution that it is bound to, and the frame's
-- number is the one expected next (a binding without an execution id takes only frames without an
-- execution id and without a number).
pub accept_task_frame-IsAcceptable :
    (p : Peer) (s : Registry) (f : TaskRef) (r : ℕ)
    → (accept_task_frame p s f).1 ≡ accepted r
    → IsAcceptable p s f r
unfolding accept_task_frame
accept_task_frame-IsAcceptable p s f r h = elim (Option-cases (get_binding s f.task_id)) [
  | inl e ↦
      absurd (receipt_or_unknown-ne (acknowledge_receipt p s f) r (rw (e, accept_task_frame) at h))
  | inr (q, e) ↦ elim (Option-cases (owned_binding p s f.task_id)) [
    | inl n ↦ cc (rw n at (rw (e, accept_task_frame) at h))
    | inr (q', n) ↦
        let (same, exec, seq) =
          accept_owned-accepted p s f q' r (rw n at (rw (e, accept_task_frame) at h)) in
        let (bound, owner) = owned_binding-lem p s f.task_id n in
        rw same (record { bound = bound; owner = owner; execution = exec; seq = seq })
  ]
]

accept_replayable-lem :
    (p : Peer) (s : Registry) (f : TaskRef) (r : ℕ) (x : String)
    → p.agent_id ≡ some (s.heap r).agent_id
    → f.execution_id ≡ some x
    → f.seq ≡ some (get_or (s.heap r).next_client_seq 0)
    → accept_replayable p s f r x
      ≡ (resume_binding (next_expected s r) f.task_id (s.heap r).agent_id, accepted r)
unfolding accept_replayable
accept_replayable-lem p s f r x o e n =
    let at_number : (m : ℕ) → ltb m m ≡ false = λ m. ground arith in
    rw (e, accept_replayable)
      (rw (==_self x)
        (rw n (rw (at_number (get_or (s.heap r).next_client_seq 0)) (rw (o, accept_and_resume)))))

pub owned_binding_self :
    (p : Peer) (s : Registry) (t : String) (r : ℕ)
    → lookup t s.bindings ≡ some r
    → p.agent_id ≡ some (s.heap r).agent_id
    → owned_binding p s t ≡ some r
unfolding owned_binding
owned_binding_self p s t r b o = rw (b, owned_binding) (rw o (rw (==_self (s.heap r).agent_id)))

pub counted-replayable :
    (s : Registry) (r : ℕ) {x : String}
    → (s.heap r).execution_id ≡ some x
    → counted s r ≡ next_expected s r
unfolding counted
counted-replayable s r e = rw (e, counted)

pub counted-legacy : (s : Registry) (r : ℕ) → (s.heap r).execution_id ≡ none → counted s r ≡ s
unfolding counted
counted-legacy s r e = rw (e, counted)

is_legacy :
    (f : TaskRef)
    → f.execution_id ≡ none
    → f.seq ≡ none
    → (is_some f.execution_id || is_some f.seq) ≡ false
is_legacy f e n = rw e (rw n)

accept_and_resume-lem :
    (p : Peer) (s : Registry) (f : TaskRef) (r : ℕ) (a : String)
    → p.agent_id ≡ some a
    → accept_and_resume p s f r ≡ (resume_binding s f.task_id a, accepted r)
unfolding accept_and_resume
accept_and_resume-lem p s f r a o = rw (o, accept_and_resume)

accept_legacy-lem :
    (p : Peer) (s : Registry) (f : TaskRef) (r : ℕ)
    → IsAcceptable p s f r
    → (s.heap r).execution_id ≡ none
    → accept_owned p s f r ≡ (resume_binding s f.task_id (s.heap r).agent_id, accepted r)
unfolding accept_owned
accept_legacy-lem p s f r h e =
    rw (e, accept_owned)
      (rw (is_legacy f (h.execution ∙ e) (h.seq ∙ expected_seq_legacy (s.heap r) e))
        (accept_and_resume-lem p s f r (s.heap r).agent_id h.owner))

accept_owned-replayable :
    (p : Peer) (s : Registry) (f : TaskRef) (r : ℕ) {x : String}
    → (s.heap r).execution_id ≡ some x
    → accept_owned p s f r ≡ accept_replayable p s f r x
unfolding accept_owned
accept_owned-replayable p s f r e = rw (e, accept_owned)

-- A frame of an owned replay-capable binding is judged by its execution id and its number.
pub accept_task_frame-owned :
    (p : Peer) (s : Registry) (f : TaskRef) (r : ℕ) {x : String}
    → lookup f.task_id s.bindings ≡ some r
    → p.agent_id ≡ some (s.heap r).agent_id
    → (s.heap r).execution_id ≡ some x
    → accept_task_frame p s f ≡ accept_replayable p s f r x
unfolding accept_task_frame
accept_task_frame-owned p s f r {x} b o e =
    let owned : accept_task_frame p s f ≡ accept_owned p s f r =
      rw (b, accept_task_frame) (rw (owned_binding_self p s f.task_id r b o)) in
    owned ∙ accept_owned-replayable p s f r e

accept_replay-lem :
    (p : Peer) (s : Registry) (f : TaskRef) (r : ℕ) {x : String}
    → IsAcceptable p s f r
    → (s.heap r).execution_id ≡ some x
    → accept_owned p s f r
      ≡ (resume_binding (next_expected s r) f.task_id (s.heap r).agent_id, accepted r)
unfolding accept_owned
accept_replay-lem p s f r {x} h e =
    let shut : accept_owned p s f r ≡ accept_replayable p s f r x = rw (e, accept_owned) in
    shut
    ∙ accept_replayable-lem p s f r x h.owner (h.execution ∙ e)
        (h.seq ∙ expected_seq_replayable (s.heap r) e)

accept_owned-lem :
    (p : Peer) (s : Registry) (f : TaskRef) (r : ℕ)
    → IsAcceptable p s f r
    → accept_owned p s f r ≡ (accepted_state s f r, accepted r)
unfolding accepted_state
accept_owned-lem p s f r h = elim (Option-cases (s.heap r).execution_id) [
  | inr (x, e) ↦ accept_replay-lem p s f r h e ∙ with_counted (counted-replayable s r e)
  | inl e ↦ accept_legacy-lem p s f r h e ∙ with_counted (counted-legacy s r e)
]
  where
    with_counted :
        {t : Registry}
        → counted s r ≡ t
        → ◌≡◌ {A = Registry × Acceptance}
            (resume_binding t f.task_id (s.heap r).agent_id, accepted r)
            (resume_binding (counted s r) f.task_id (s.heap r).agent_id, accepted r)
    with_counted e = ap (λ t. (resume_binding t f.task_id (s.heap r).agent_id, accepted r)) (sym e)

-- Every such frame is accepted: the registry then expects the next number of a replay-capable
-- binding, a grace hold that was on it is over, and nothing else has changed.
pub accept_task_frame-lem :
    (p : Peer) (s : Registry) (f : TaskRef) (r : ℕ)
    → IsAcceptable p s f r
    → accept_task_frame p s f ≡ (accepted_state s f r, accepted r)
unfolding accept_task_frame
accept_task_frame-lem p s f r h =
    rw (h.bound, accept_task_frame)
      (rw (owned_binding_self p s f.task_id r h.bound h.owner) (accept_owned-lem p s f r h))

-- Acceptance leaves every task bound as it was.
pub accepted_state-bindings :
    (s : Registry) (f : TaskRef) (r : ℕ) → (accepted_state s f r).bindings ≡ s.bindings
unfolding accepted_state counted resume_binding next_expected
accepted_state-bindings s f r = elim (Option-cases (s.heap r).execution_id) [
  | inl e ↦ rw (counted-legacy s r e)
  | inr (x, e) ↦ rw (counted-replayable s r e)
]

-- The number after that of an accepted frame is expected next.
pub accepted_state-expected :
    (s : Registry) (f : TaskRef) (r : ℕ) {x : String}
    → (s.heap r).execution_id ≡ some x
    → expected_seq ((accepted_state s f r).heap r) ≡ some (get_or (s.heap r).next_client_seq 0 + 1)
unfolding accepted_state counted resume_binding next_expected
accepted_state-expected s f r e = rw (counted-replayable s r e) (
    rw (==_self r) (
      expected_seq_replayable
        (record (s.heap r) { next_client_seq = some (get_or (s.heap r).next_client_seq 0 + 1) }) e))
