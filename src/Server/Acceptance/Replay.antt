-- ===== src/Server/Acceptance/Replay.antt =====
-- What a binding expects next, after `acceptTaskFrame` of packages/server/src/ws.ts has taken a frame
-- of its execution or a replay of one.
use vicoop_bridge.Prelude.{
  ℕ, zero, suc, ◌≡◌, ap, refl, String, some, List, [], ◌∷◌, arith, lookup, ==_self, string_eq,
  nat_eq, option_eq,
}
use vicoop_bridge.Protocol.{TaskRef}
use vicoop_bridge.Server.State.{Registry, call_ws}
use vicoop_bridge.Server.Registry.{resume_binding}
use vicoop_bridge.Server.Acceptance.{Peer, acknowledge, next_expected}
use vicoop_bridge.Server.Acceptance.Laws.{accepted_state, counted-replayable}
use vicoop_bridge.Server.Acceptance.Once.{IsOfExecution}

abbrev pub frame_at : (task_id execution_id : String) → ℕ → TaskRef
frame_at t x n = record { task_id = t; execution_id = some x; seq = some n }

-- A task is bound, for the peer's agent, to an execution that expects the number `n`.
pub record Expects (p : Peer) (s : Registry) (t x : String) (r n : ℕ) : Type 0 where
  pub bound : lookup t s.bindings ≡ some r
  pub owner : p.agent_id ≡ some (s.heap r).agent_id
  pub replayable : (s.heap r).execution_id ≡ some x
  pub due : (s.heap r).next_client_seq ≡ some n

-- `k` numbers from `n` on
abbrev pub count_up : (n k : ℕ) → List ℕ
count_up n zero = []
count_up n (suc k) = n ∷ count_up (suc n) k

pub acknowledge-kept :
    (p : Peer) (s : Registry) (r : ℕ)
    → ((acknowledge p s r).heap ≡ s.heap) × ((acknowledge p s r).bindings ≡ s.bindings)
unfolding acknowledge call_ws
acknowledge-kept p s r = (ground arith, ground arith)

module _ (p : Peer) (s : Registry) (t x : String) (r n : ℕ) where
  pub stale-Expects :
      (a : String)
      → Expects p s t x r n
      → Expects p (resume_binding (acknowledge p s r) t a) t x r n
  unfolding resume_binding
  stale-Expects a h =
      let (same_heap, same_bindings) = acknowledge-kept p s r in
      record {
        bound = rw same_bindings h.bound;
        owner = rw same_heap h.owner;
        replayable = rw same_heap h.replayable;
        due = rw same_heap h.due;
      }

  pub accepted-Expects :
      Expects p s t x r n → Expects p (accepted_state s (frame_at t x n) r) t x r (suc n)
  unfolding accepted_state resume_binding next_expected
  accepted-Expects h =
      let is_next = counted-replayable s r h.replayable in
      record {
        bound = rw is_next h.bound;
        owner = rw is_next (rw (==_self r) h.owner);
        replayable = rw is_next (rw (==_self r) h.replayable);
        due = rw is_next (rw (==_self r) (ap some (ground (arith, h.due))));
      }

pub of_execution :
    (p : Peer) (s : Registry) (t x : String) (r e n : ℕ)
    → Expects p s t x r e
    → IsOfExecution p s (frame_at t x n) r x n
of_execution p s t x r e n h = record {
  bound = h.bound;
  owner = h.owner;
  replayable = h.replayable;
  execution = refl;
  seq = refl;
}

abbrev pub after_stale : Peer → Registry → (t : String) → ℕ → Registry
after_stale p s t r = resume_binding (acknowledge p s r) t (s.heap r).agent_id
