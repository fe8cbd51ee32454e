-- ===== src/Server/Acceptance/Once.antt =====
-- The numbers of the frames of one execution, for `acceptTaskFrame` of packages/server/src/ws.ts.
use vicoop_bridge.Prelude.{
  ℕ, ◌+◌, ◌≡◌, ◌≢◌, ◌<◌, sym, ◌∙◌, String, true, false, some, arith, get_or, ltb, lookup, ==_self,
  string_eq, nat_eq, option_eq,
}
use vicoop_bridge.Protocol.{TaskRef}
use vicoop_bridge.Server.State.{Registry}
use vicoop_bridge.Server.Registry.{resume_binding}
use vicoop_bridge.Server.Acceptance.{
  Peer, accepted, handled, accept_task_frame, acknowledge, fail_closed, accept_replayable,
  gap_message,
}
use vicoop_bridge.Server.Acceptance.Laws.{
  accept_task_frame-IsAcceptable, accept_task_frame-lem, accepted_state, accepted_state-expected,
  expected_seq_replayable, accepted_state-bindings, accept_task_frame-owned,
}

-- A frame with an execution id that has been accepted is not accepted again from the registry that
-- its acceptance leaves, whichever connection replays it and for whichever binding.
pub accept_task_frame-once :
    (p q : Peer) (s : Registry) (f : TaskRef) (r k : ℕ) (x : String)
    → f.execution_id ≡ some x
    → (accept_task_frame p s f).1 ≡ accepted r
    → (accept_task_frame q (accept_task_frame p s f).0 f).1 ≢ accepted k
accept_task_frame-once p q s f r k x e h again =
    let first = accept_task_frame-IsAcceptable p s f r h in
    let now_expected = first.seq ∙ expected_seq_replayable (s.heap r) (sym first.execution ∙ e) in
    let state : (accept_task_frame p s f).0 ≡ accepted_state s f r =
      rw (accept_task_frame-lem p s f r first) in
    let second = accept_task_frame-IsAcceptable q (accepted_state s f r) f k (rw state at again) in
    let same : r ≡ k = ground (arith, accepted_state-bindings s f r, first.bound, second.bound) in
    let next : f.seq ≡ some (get_or (s.heap r).next_client_seq 0 + 1) =
      (rw (sym same) at second.seq) ∙ accepted_state-expected s f r (sym first.execution ∙ e) in
    ground (arith, now_expected, next)

-- A frame that names the execution of a binding that its sender's agent owns.
pub record IsOfExecution (p : Peer) (s : Registry) (f : TaskRef) (r : ℕ) (x : String) (n : ℕ)
    : Type 0 where
  pub bound : lookup f.task_id s.bindings ≡ some r
  pub owner : p.agent_id ≡ some (s.heap r).agent_id
  pub replayable : (s.heap r).execution_id ≡ some x
  pub execution : f.execution_id ≡ some x
  pub seq : f.seq ≡ some n

module _ (p : Peer) (s : Registry) (f : TaskRef) (r : ℕ) (x : String) (n : ℕ) where
  accept_replayable-stale :
      f.execution_id ≡ some x
      → f.seq ≡ some n
      → n < get_or (s.heap r).next_client_seq 0
      → accept_replayable p s f r x
        ≡ (resume_binding (acknowledge p s r) f.task_id (s.heap r).agent_id, handled)
  unfolding accept_replayable
  accept_replayable-stale e k lt =
      let old : ltb n (get_or (s.heap r).next_client_seq 0) ≡ true = ground arith in
      rw (e, accept_replayable) (rw (==_self x) (rw k (rw old)))

  accept_replayable-gap :
      f.execution_id ≡ some x
      → f.seq ≡ some n
      → get_or (s.heap r).next_client_seq 0 < n
      → accept_replayable p s f r x
        ≡ fail_closed s r "client_frame_gap" (gap_message (get_or (s.heap r).next_client_seq 0) n)
  unfolding accept_replayable
  accept_replayable-gap e k lt =
      let new : ltb n (get_or (s.heap r).next_client_seq 0) ≡ false = ground arith in
      let gap : ltb (get_or (s.heap r).next_client_seq 0) n ≡ true = ground arith in
      rw (e, accept_replayable) (rw (==_self x) (rw k (rw new (rw gap))))

-- A number that was counted before is acknowledged again, and its frame is not.
pub stale_frame :
    (p : Peer) (s : Registry) (f : TaskRef) (r : ℕ) (x : String) (n : ℕ)
    → IsOfExecution p s f r x n
    → n < get_or (s.heap r).next_client_seq 0
    → accept_task_frame p s f
      ≡ (resume_binding (acknowledge p s r) f.task_id (s.heap r).agent_id, handled)
stale_frame p s f r x n h lt =
    accept_task_frame-owned p s f r h.bound h.owner h.replayable
    ∙ accept_replayable-stale p s f r x n h.execution h.seq lt

-- A number that skips one ends the execution.
pub gap_frame :
    (p : Peer) (s : Registry) (f : TaskRef) (r : ℕ) (x : String) (n : ℕ)
    → IsOfExecution p s f r x n
    → get_or (s.heap r).next_client_seq 0 < n
    → accept_task_frame p s f
      ≡ fail_closed s r "client_frame_gap" (gap_message (get_or (s.heap r).next_client_seq 0) n)
gap_frame p s f r x n h lt =
    accept_task_frame-owned p s f r h.bound h.owner h.replayable
    ∙ accept_replayable-gap p s f r x n h.execution h.seq lt
