-- ===== src/Server/Frames/Replay.antt =====
-- A replay of an execution's frames to `processAuthedFrame` of packages/server/src/ws.ts, one after the
-- other on one connection. The frames are those that leave a task running: a status, an artifact, or
-- the receipt of a decision.
use vicoop_bridge.Prelude.{
  ℕ, zero, suc, ◌+◌, ◌≡◌, ◌≤◌, ◌<◌, ◌∙◌, sym, subst, ap, refl, inl, inr, String, Bool, some, Option,
  List, [], ◌∷◌, arith, length, ==_self, string_eq, nat_eq, option_eq, IsChain, Bool-cases, ltb,
  option_both,
}
use vicoop_bridge.Protocol.{
  Json, UpFrame, approval_received, task_status, task_artifact, WireStatus, Artifact,
  ApprovalDecision,
}
use vicoop_bridge.Server.State.{Registry, SinkCall, TaskBinding, call_sink}
use vicoop_bridge.Server.Approvals.{acknowledge_received}
use vicoop_bridge.Server.WireStatus.{is_heartbeat_status_frame}
use vicoop_bridge.Server.Acceptance.{
  Peer, Acceptance, accepted, handled, unknown, accept_task_frame, acknowledge,
}
use vicoop_bridge.Server.Acceptance.Laws.{
  accept_task_frame-lem, accepted_state, expected_seq_replayable,
}
use vicoop_bridge.Server.Acceptance.Once.{stale_frame}
use vicoop_bridge.Server.Acceptance.Preservation.{
  acknowledge-SameTables, acknowledge_received-SameTables, SameTables,
}
use vicoop_bridge.Server.Acceptance.Replay.{
  frame_at, Expects, count_up, stale-Expects, accepted-Expects, of_execution, after_stale,
}
use vicoop_bridge.Server.Frames.{
  push_working, on_approval_received, count_heartbeat, on_task_status, on_task_artifact,
  on_accepted, process_authed_frame,
}

pub data Progress : Type 0 where
  reports : WireStatus → (metadata : Option Json) → Progress
  produces : Artifact → (append last_chunk : Option Bool) → Progress
  receives : (request_id : String) → ApprovalDecision → Progress

abbrev pub progress_frame : (task_id execution_id : String) → ℕ → Progress → UpFrame
progress_frame t x n (reports status metadata) = task_status (frame_at t x n) status metadata
progress_frame t x n (produces artifact append last_chunk) =
    task_artifact (frame_at t x n) artifact append last_chunk
progress_frame t x n (receives request_id d) = approval_received (frame_at t x n) request_id d

-- What is accepted adds its number to those of the rest.
abbrev note_accepted : Acceptance → ℕ → List ℕ → List ℕ
note_accepted (accepted r) n ns = n ∷ ns
note_accepted handled n ns = ns
note_accepted unknown n ns = ns

-- The registry after a replay of the frames with these numbers, and those of them that it accepted.
unfoldable pub deliver_all :
    Peer
    → Registry
    → (task_id execution_id : String) (content : ℕ → Progress) → List ℕ
    → Registry × List ℕ
unfolding process_authed_frame
deliver_all p s t x content [] = (s, [])
deliver_all p s t x content (n ∷ ns) =
    let judged = accept_task_frame p s (frame_at t x n) in
    let rest =
      deliver_all p (process_authed_frame p s (progress_frame t x n (content n))) t x content ns in
    (rest.0, note_accepted judged.1 n rest.1)

-- The task stays bound, to an execution that expects the same number.
record Keeps (r : ℕ) (s z : Registry) : Type 0 where
  bindings : z.bindings ≡ s.bindings
  agent : (z.heap r).agent_id ≡ (s.heap r).agent_id
  execution : (z.heap r).execution_id ≡ (s.heap r).execution_id
  due : (z.heap r).next_client_seq ≡ (s.heap r).next_client_seq

Keeps-Expects :
    (p : Peer) (t x : String) (r n : ℕ) (s z : Registry)
    → Keeps r s z
    → Expects p s t x r n
    → Expects p z t x r n
Keeps-Expects p t x r n s z k h = record {
  bound = rw (k.bindings) h.bound;
  owner = rw (k.agent) h.owner;
  replayable = k.execution ∙ h.replayable;
  due = k.due ∙ h.due;
}

trans-Keeps : (r : ℕ) (s y z : Registry) → Keeps r s y → Keeps r y z → Keeps r s z
trans-Keeps r s y z h k = record {
  bindings = k.bindings ∙ h.bindings;
  agent = k.agent ∙ h.agent;
  execution = k.execution ∙ h.execution;
  due = k.due ∙ h.due;
}

SameTables-Keeps : (r : ℕ) (s z : Registry) → SameTables s z → Keeps r s z
SameTables-Keeps r s z e = record {
  bindings = e.bindings;
  agent = ap (λ (h : ℕ → TaskBinding). (h r).agent_id) e.heap;
  execution = ap (λ (h : ℕ → TaskBinding). (h r).execution_id) e.heap;
  due = ap (λ (h : ℕ → TaskBinding). (h r).next_client_seq) e.heap;
}

acknowledged-Keeps :
    (p : Peer) (r : ℕ) (s z : Registry) → Keeps r s z → Keeps r s (acknowledge p z r)
acknowledged-Keeps p r s z h =
    trans-Keeps r s z (acknowledge p z r) h
      (SameTables-Keeps r z (acknowledge p z r) (acknowledge-SameTables p z r))

call_sink-Keeps : (s : Registry) (r : ℕ) (c : SinkCall) → Keeps r s (call_sink s r c)
unfolding call_sink
call_sink-Keeps s r c = record {
  bindings = refl;
  agent = rw (==_self r) refl;
  execution = rw (==_self r) refl;
  due = rw (==_self r) refl;
}

count_heartbeat-Keeps : (s : Registry) (r : ℕ) (m : Option Json) → Keeps r s (count_heartbeat s r m)
unfolding count_heartbeat
count_heartbeat-Keeps s r m = elim (Bool-cases (is_heartbeat_status_frame m)) [
  | inr e ↦ rw e (record { bindings = refl; agent = refl; execution = refl; due = refl })
  | inl e ↦ rw e (record {
    bindings = refl;
    agent = rw (==_self r) refl;
    execution = rw (==_self r) refl;
    due = rw (==_self r) refl;
  })
]

on_task_status-Keeps :
    (p : Peer) (s : Registry) (r : ℕ) (t x : String) (n : ℕ) (w : WireStatus) (m : Option Json)
    → Keeps r s (on_task_status p s r (frame_at t x n) w m)
unfolding on_task_status push_working
on_task_status-Keeps p s r t x n w m = acknowledged-Keeps p r s _ (
    trans-Keeps r s (count_heartbeat s r m) _ (count_heartbeat-Keeps s r m)
      (call_sink-Keeps (count_heartbeat s r m) r _))

on_task_artifact-Keeps :
    (p : Peer) (s : Registry) (r : ℕ) (t x : String) (n : ℕ) (a : Artifact)
    (append last_chunk : Option Bool)
    → Keeps r s (on_task_artifact p s r (frame_at t x n) a append last_chunk)
unfolding on_task_artifact
on_task_artifact-Keeps p s r t x n a append last_chunk =
    acknowledged-Keeps p r s _ (call_sink-Keeps s r _)

on_approval_received-Keeps :
    (p : Peer) (s : Registry) (r : ℕ) (id : String) (d : ApprovalDecision)
    → Keeps r s (on_approval_received p s r id d)
unfolding on_approval_received push_working
on_approval_received-Keeps p s r id d =
    let after = acknowledge_received s r id d in
    let kept : Keeps r s after.0 =
      SameTables-Keeps r s after.0 (acknowledge_received-SameTables s r id d) in
    option_both (λ (z : Registry). Keeps r s z) after.1 (acknowledged-Keeps p r s after.0 kept)
      λ a e.
        acknowledged-Keeps p r s _ (trans-Keeps r s after.0 _ kept (call_sink-Keeps after.0 r _))

-- What a frame does once it has been judged
process-handled :
    (p : Peer) (s u : Registry) (t x : String) (n : ℕ) (c : Progress)
    → accept_task_frame p s (frame_at t x n) ≡ (u, handled)
    → process_authed_frame p s (progress_frame t x n c) ≡ u
unfolding process_authed_frame on_accepted
process-handled p s u t x n (reports w m) e = rw e refl
process-handled p s u t x n (produces a append last_chunk) e = rw e refl
process-handled p s u t x n (receives id d) e = rw e refl

process-Keeps :
    (p : Peer) (s u : Registry) (t x : String) (r n : ℕ) (c : Progress)
    → accept_task_frame p s (frame_at t x n) ≡ (u, accepted r)
    → Keeps r u (process_authed_frame p s (progress_frame t x n c))
unfolding process_authed_frame on_accepted
process-Keeps p s u t x r n (reports w m) e = rw e (on_task_status-Keeps p u r t x n w m)
process-Keeps p s u t x r n (produces a append last_chunk) e =
    rw e (on_task_artifact-Keeps p u r t x n a append last_chunk)
process-Keeps p s u t x r n (receives id d) e = rw e (on_approval_received-Keeps p u r id d)

-- The rest of a replay after a frame that is not accepted again, and after one that is
deliver_all-handled :
    (p : Peer) (s u : Registry) (t x : String) (content : ℕ → Progress) (a : ℕ) (ns : List ℕ)
    → accept_task_frame p s (frame_at t x a) ≡ (u, handled)
    → deliver_all p s t x content (a ∷ ns) ≡ deliver_all p u t x content ns
unfolding deliver_all
deliver_all-handled p s u t x content a ns e =
    rw e (rw (process-handled p s u t x a (content a) e) refl)

deliver_all-accepted :
    (p : Peer) (s u : Registry) (t x : String) (content : ℕ → Progress) (r a : ℕ) (ns : List ℕ)
    → accept_task_frame p s (frame_at t x a) ≡ (u, accepted r)
    → let z = process_authed_frame p s (progress_frame t x a (content a)) in
      deliver_all p s t x content (a ∷ ns)
      ≡ ((deliver_all p z t x content ns).0, a ∷ (deliver_all p z t x content ns).1)
unfolding deliver_all
deliver_all-accepted p s u t x content r a ns e =
    ap
      (λ j. (
        (deliver_all p (process_authed_frame p s (progress_frame t x a (content a))) t x content
            ns).0,
        note_accepted j a
            (deliver_all p (process_authed_frame p s (progress_frame t x a (content a))) t x content
              ns).1,
      ))
      (ap (λ (y : Registry × Acceptance). y.1) e)

-- What a replay leads to: these numbers are accepted and this one is expected.
abbrev pub LeadsTo :
    Peer → (t x : String) → ℕ → (expected : ℕ) → (taken : List ℕ) → Registry × List ℕ → Type 0
LeadsTo p t x r e taken out = (out.1 ≡ taken) × Expects p out.0 t x r e

module _ (p : Peer) (s : Registry) (t x : String) (content : ℕ → Progress) (r e : ℕ)
    (h : Expects p s t x r e) where
  stale-LeadsTo :
      (a n : ℕ) (taken ns : List ℕ)
      → a < e
      → LeadsTo p t x r n taken (deliver_all p (after_stale p s t r) t x content ns)
      → LeadsTo p t x r n taken (deliver_all p s t x content (a ∷ ns))
  stale-LeadsTo a n taken ns old = subst (LeadsTo p t x r n taken) (
      sym (
        deliver_all-handled p s (after_stale p s t r) t x content a ns (
          stale_frame p s (frame_at t x a) r x a (of_execution p s t x r e a h)
            (ground (arith, h.due, old)))))

  -- The registry after the frame that is expected
  abbrev next_state : Registry
  next_state = process_authed_frame p s (progress_frame t x e (content e))

  is_accepted :
      accept_task_frame p s (frame_at t x e) ≡ (accepted_state s (frame_at t x e) r, accepted r)
  is_accepted = accept_task_frame-lem p s (frame_at t x e) r (record {
    bound = h.bound;
    owner = h.owner;
    execution = sym h.replayable;
    seq = sym (expected_seq_replayable (s.heap r) h.replayable ∙ ap some (ground (arith, h.due)));
  })

  next_state-Expects : Expects p next_state t x r (suc e)
  next_state-Expects =
      Keeps-Expects p t x r (suc e) (accepted_state s (frame_at t x e) r) next_state
        (process-Keeps p s (accepted_state s (frame_at t x e) r) t x r e (content e) is_accepted)
        (accepted-Expects p s t x r e h)

  next-LeadsTo :
      (n : ℕ) (taken ns : List ℕ)
      → LeadsTo p t x r n taken (deliver_all p next_state t x content ns)
      → LeadsTo p t x r n (e ∷ taken) (deliver_all p s t x content (e ∷ ns))
  next-LeadsTo n taken ns led =
      subst (LeadsTo p t x r n (e ∷ taken))
        (sym (
          deliver_all-accepted p s (accepted_state s (frame_at t x e) r) t x content r e ns
            is_accepted))
        (ap (λ z. e ∷ z) led.0, led.1)

deliver_all-empty :
    (p : Peer) (s : Registry) (t x : String) (content : ℕ → Progress)
    → deliver_all p s t x content [] ≡ (s, [])
unfolding deliver_all
deliver_all-empty p s t x content = refl

-- The peer's agent replays consecutive numbers that end before `e + k`, the first of them at most
-- `e`, to an execution that expects `e`: exactly the `k` numbers from `e` on are accepted, in order.
pub deliver_all-count_up :
    (p : Peer) (s : Registry) (t x : String) (content : ℕ → Progress) (r e k : ℕ) (ns : List ℕ)
    → Expects p s t x r e
    → IsChain ns (e + k)
    → k ≤ length ns
    → LeadsTo p t x r (e + k) (count_up e k) (deliver_all p s t x content ns)
deliver_all-count_up p s t x content r e zero [] h c le =
    subst (LeadsTo p t x r (e + 0) []) (sym (deliver_all-empty p s t x content))
      (refl, subst (Expects p s t x r) (omega arith) h)
deliver_all-count_up p s t x content r e (suc k) [] h c le = absurd (omega arith)
deliver_all-count_up p s t x content r e zero (a ∷ ns) h c le =
    stale-LeadsTo p s t x content r e h a (e + 0) [] ns (omega (arith, c.0)) (
      deliver_all-count_up p (after_stale p s t r) t x content r e zero ns
        (stale-Expects p s t x r e (s.heap r).agent_id h) c.1 (omega arith))
deliver_all-count_up p s t x content r e (suc k) (a ∷ ns) h c le = elim (Bool-cases (ltb a e)) [
  | inl old ↦
      let lt : a < e = ground (arith, old) in
      stale-LeadsTo p s t x content r e h a (e + suc k) (count_up e (suc k)) ns lt (
        deliver_all-count_up p (after_stale p s t r) t x content r e (suc k) ns
          (stale-Expects p s t x r e (s.heap r).agent_id h) c.1 (omega (arith, c.0, lt)))
  | inr new ↦
      let same : e ≡ a = ground (arith, new, c.0, le) in
      subst
        (λ b.
          LeadsTo p t x r (e + suc k) (count_up e (suc k)) (deliver_all p s t x content (b ∷ ns)))
        same
        (next-LeadsTo p s t x content r e h (e + suc k) (count_up (suc e) k) ns (
          subst
            (λ n.
              LeadsTo p t x r n (count_up (suc e) k)
                (deliver_all p (next_state p s t x content r e h) t x content ns))
            (omega arith)
            (deliver_all-count_up p (next_state p s t x content r e h) t x content r (suc e) k ns
              (next_state-Expects p s t x content r e h) (subst (IsChain ns) (omega arith) c.1)
              (omega arith))))
]
