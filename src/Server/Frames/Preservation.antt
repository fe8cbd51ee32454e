-- ===== src/Server/Frames/Preservation.antt =====
-- `processAuthedFrame` of packages/server/src/ws.ts and the soundness of the registry.
use vicoop_bridge.Prelude.{
  ℕ, ◌+◌, ◌*◌, leb, ◌≡◌, refl, String, Bool, none, some, Option, Bool-cases, Option-cases, inl, inr,
  ltb, ◌||◌, is_some, string_eq, option_eq, nat_eq, lookup, remove, lookup-remove, ==_self, ◌≢◌,
  ◌∙◌, sym,
}
use vicoop_bridge.Protocol.{
  TaskRef, UpFrame, hello, approval_request, approval_received, task_status, task_artifact,
  task_complete, task_fail, pong, usage_response, ApprovalDecision, ApprovalRequest, Json,
  WireStatus, Artifact, TaskUsage, WireError,
}
use vicoop_bridge.Server.State.{
  StatusEvent, Registry, TaskBinding, push_status, push_artifact, finish, call_sink, update,
}
use vicoop_bridge.Server.Approvals.{
  acknowledge_received, request, requested, refused, RequestResult, truthy, waiting,
}
use vicoop_bridge.Server.Acceptance.{
  Peer, Acceptance, accepted, handled, unknown, acknowledge, accept_task_frame,
}
use vicoop_bridge.Server.Registry.Sound.{
  Sound, IsSound, write-Sound, release-Sound, write_unbound-Sound,
}
use vicoop_bridge.Server.Registry.{clear_grace_hold, unbind_task}
use vicoop_bridge.Server.Registry.Preservation.{
  clear_grace_hold-IsSound, clear_grace_hold-none, call_sink-IsSound,
}
use vicoop_bridge.Server.WireStatus.{
  is_heartbeat_status_frame, artifact_to_a2x, approval_status, decision_status,
}
use vicoop_bridge.Server.Frames.{
  settle, keep_receipt, push_working, takes_approvals, invalid_approval, finish_request,
  on_approval_request, on_approval_received, count_heartbeat, on_task_status, on_task_artifact,
  on_task_complete, on_task_fail, on_accepted, process_authed_frame,
}
use vicoop_bridge.Server.Registry.Operations.{fail_task_binding-IsSound}
use vicoop_bridge.Server.Acceptance.Preservation.{
  SameTables-IsSound, acknowledge-SameTables, send_to_agent-SameTables,
  acknowledge_received-SameTables, accept_task_frame-IsSound,
}
use vicoop_bridge.Server.Acceptance.Laws.{
  accept_task_frame-IsAcceptable, accept_task_frame-lem, accepted_state-bindings,
}

-- Closing a stream and releasing its task id, in the order that leaves a sound registry between.
settled-IsSound :
    (s : Registry) (r : ℕ) (t : String) (b1 b2 : TaskBinding)
    → IsSound s
    → lookup t s.bindings ≡ some r
    → b1.task_id ≡ (s.heap r).task_id
    → b2.task_id ≡ (s.heap r).task_id
    → let s1 = clear_grace_hold s t r in
      Sound
        (update (update s.heap r b1) r b2)
        (remove t s.bindings)
        s1.grace_holds
        s1.timers
        s.next_timer
unfolding clear_grace_hold
settled-IsSound s r t b1 b2 v b e1 e2 =
    write_unbound-Sound (write_unbound-Sound released r b1 e1 gone) r b2
      (rw (==_self r) (e2 ∙ sym e1)) (rw (==_self r) (rw e1 gone))
  where
    released :
        Sound s.heap
          (remove t s.bindings)
          (clear_grace_hold s t r).grace_holds
          (clear_grace_hold s t r).timers
          s.next_timer
    released = release-Sound (clear_grace_hold-IsSound s t r v) t (clear_grace_hold-none s t r v b)

    gone : lookup (s.heap r).task_id (remove t s.bindings) ≢ some r
    gone = rw (v.keyed t r b) (rw lookup-remove (rw (==_self t) (λ e. cc)))

-- A registry in which the stream of a bound execution has been ended and its task id released.
ended : Registry → ℕ → (task_id : String) → StatusEvent → Registry
unfolding call_sink keep_receipt unbind_task
ended s r t event =
    unbind_task (keep_receipt (call_sink (call_sink s r (push_status event)) r finish) r) t r

ended-IsSound :
    (s : Registry) (r : ℕ) (t : String) (event : StatusEvent)
    → IsSound s
    → lookup t s.bindings ≡ some r
    → IsSound (ended s r t event)
unfolding ended
ended-IsSound s r t event v b =
    rw b (rw (==_self (some r)) (settled-IsSound s r t _ _ v b refl refl))

settle-IsSound :
    (p : Peer) (s : Registry) (r : ℕ) (t : String) (event : StatusEvent)
    → IsSound s
    → lookup t s.bindings ≡ some r
    → IsSound (settle p s r t event)
unfolding settle ended
settle-IsSound p s r t event v b =
    SameTables-IsSound (acknowledge-SameTables p (ended s r t event) r)
      (ended-IsSound s r t event v b)

push_working-IsSound :
    (s : Registry) (r : ℕ) (t : String) (w : WireStatus) (m : Option Json)
    → IsSound s
    → IsSound (push_working s r t w m)
unfolding push_working
push_working-IsSound s r t w m v = call_sink-IsSound s r _ refl v

acknowledge-IsSound : (p : Peer) (s : Registry) (r : ℕ) → IsSound s → IsSound (acknowledge p s r)
acknowledge-IsSound p s r v = SameTables-IsSound (acknowledge-SameTables p s r) v

working-IsSound :
    (p : Peer) (s : Registry) (r : ℕ) (t : String) (w : WireStatus) (m : Option Json)
    → IsSound s
    → IsSound (acknowledge p (push_working s r t w m) r)
working-IsSound p s r t w m v =
    acknowledge-IsSound p (push_working s r t w m) r (push_working-IsSound s r t w m v)

invalid_approval-IsSound : (s : Registry) (r : ℕ) → IsSound s → IsSound (invalid_approval s r)
unfolding invalid_approval
invalid_approval-IsSound s r v =
    fail_task_binding-IsSound _ r _ _ (SameTables-IsSound (send_to_agent-SameTables s _ _) v)

Requested : RequestResult → Type 0
Requested (requested s a) = IsSound s
Requested (refused e) = Unit

request-Requested :
    (s : Registry) (r : ℕ) (q : ApprovalRequest) → IsSound s → Requested (request s r q)
unfolding request Requested
request-Requested s r q v = elim (Option-cases (truthy (s.heap r).execution_id)) [
  | inl e ↦ rw (e, request) tt
  | inr (x, e) ↦
      rw (e, request)
        (elim (Bool-cases (leb q.expires_ms s.now || ltb (s.now + 11 * 60000) q.expires_ms)) [
          | inl t ↦ rw t tt
          | inr t ↦ rw t (elim (Bool-cases (ltb 70000 q.json_length)) [
            | inl l ↦ rw l tt
            | inr l ↦
                rw l
                  (elim (Bool-cases (
                    is_some (lookup q.request_id s.approvals.entries)
                    || is_some (waiting s.approvals (s.heap r)))) [
                      | inl d ↦ rw d tt
                      | inr d ↦ rw d v
                    ])
          ])
        ])
]

finish_request-IsSound :
    (p : Peer) (s : Registry) (r : ℕ) (x : RequestResult)
    → IsSound s
    → Requested x
    → IsSound (finish_request p s r x)
unfolding finish_request Requested
finish_request-IsSound p s r (refused e) v h = invalid_approval-IsSound s r v
finish_request-IsSound p s r (requested s1 a) v h =
    working-IsSound p s1 r (s1.heap r).task_id (approval_status s1.now a) none h

on_approval_request-IsSound :
    (p : Peer) (s : Registry) (r : ℕ) (q : ApprovalRequest)
    → IsSound s
    → IsSound (on_approval_request p s r q)
unfolding on_approval_request
on_approval_request-IsSound p s r q v = elim (Bool-cases (takes_approvals s (s.heap r).agent_id)) [
  | inl e ↦ rw e (finish_request-IsSound p s r (request s r q) v (request-Requested s r q v))
  | inr e ↦ rw e (invalid_approval-IsSound s r v)
]

on_approval_received-IsSound :
    (p : Peer) (s : Registry) (r : ℕ) (id : String) (d : ApprovalDecision)
    → IsSound s
    → IsSound (on_approval_received p s r id d)
unfolding on_approval_received
on_approval_received-IsSound p s r id d v =
    let after = acknowledge_received s r id d in
    let sound : IsSound after.0 = SameTables-IsSound (acknowledge_received-SameTables s r id d) v in
    elim (Option-cases after.1) [
      | inl e ↦ rw (e, on_approval_received) (acknowledge-IsSound p after.0 r sound)
      | inr (a, e) ↦
          rw (e, on_approval_received)
            (working-IsSound p after.0 r (after.0.heap r).task_id
              (decision_status after.0.now id d a.decided_by) none sound)
    ]

count_heartbeat-IsSound :
    (s : Registry) (r : ℕ) (m : Option Json) → IsSound s → IsSound (count_heartbeat s r m)
unfolding count_heartbeat
count_heartbeat-IsSound s r m v = elim (Bool-cases (is_heartbeat_status_frame m)) [
  | inl e ↦ rw e (write-Sound v r _ refl (λ o. o))
  | inr e ↦ rw e v
]

on_task_status-IsSound :
    (p : Peer) (s : Registry) (r : ℕ) (f : TaskRef) (w : WireStatus) (m : Option Json)
    → IsSound s
    → IsSound (on_task_status p s r f w m)
unfolding on_task_status
on_task_status-IsSound p s r f w m v =
    let s1 : Registry = count_heartbeat s r m in
    let shown : WireStatus = elim (waiting s1.approvals (s1.heap r)) [
      | none ↦ w
      | some a ↦ approval_status s1.now a
    ] in
    working-IsSound p s1 r f.task_id shown m (count_heartbeat-IsSound s r m v)

on_task_artifact-IsSound :
    (p : Peer) (s : Registry) (r : ℕ) (f : TaskRef) (x : Artifact) (a l : Option Bool)
    → IsSound s
    → IsSound (on_task_artifact p s r f x a l)
unfolding on_task_artifact
on_task_artifact-IsSound p s r f x a l v =
    let call = push_artifact (record {
      task_id = f.task_id;
      context_id = (s.heap r).context_id;
      artifact = artifact_to_a2x x;
      append = a;
      last_chunk = l;
    }) in
    acknowledge-IsSound p (call_sink s r call) r (call_sink-IsSound s r call refl v)

on_task_complete-IsSound :
    (p : Peer) (s : Registry) (r : ℕ) (f : TaskRef) (w : WireStatus) (u : Option TaskUsage)
    → IsSound s
    → lookup f.task_id s.bindings ≡ some r
    → IsSound (on_task_complete p s r f w u)
unfolding on_task_complete
on_task_complete-IsSound p s r f w none v b = settle-IsSound p s r f.task_id _ v b
on_task_complete-IsSound p s r f w (some u) v b =
    settle-IsSound p _ r f.task_id _ (write-Sound v r _ refl (λ o. o)) b

on_task_fail-IsSound :
    (p : Peer) (s : Registry) (r : ℕ) (f : TaskRef) (e : WireError)
    → IsSound s
    → lookup f.task_id s.bindings ≡ some r
    → IsSound (on_task_fail p s r f e)
unfolding on_task_fail
on_task_fail-IsSound p s r f e v b = settle-IsSound p s r f.task_id _ v b

-- An accepted frame leaves its task bound, as its acceptance does not release it.
still_bound :
    (p : Peer) (s : Registry) (f : TaskRef) (r : ℕ)
    → (accept_task_frame p s f).1 ≡ accepted r
    → lookup f.task_id (accept_task_frame p s f).0.bindings ≡ some r
still_bound p s f r e =
    let h = accept_task_frame-IsAcceptable p s f r e in
    rw (accept_task_frame-lem p s f r h) (rw (accepted_state-bindings s f r) h.bound)

on_accepted-lem :
    (x : Registry × Acceptance) (act : Registry → ℕ → Registry)
    → IsSound x.0
    → ((r : ℕ) → x.1 ≡ accepted r → IsSound (act x.0 r))
    → IsSound (on_accepted x act)
unfolding on_accepted
on_accepted-lem (s, accepted r) act v h = h r refl
on_accepted-lem (s, handled) act v h = v
on_accepted-lem (s, unknown) act v h = v

on_accepted-IsSound :
    (p : Peer) (s : Registry) (f : TaskRef) (act : Registry → ℕ → Registry)
    → IsSound s
    → ((s1 : Registry) (r : ℕ)
        → IsSound s1
        → lookup f.task_id s1.bindings ≡ some r
        → IsSound (act s1 r))
    → IsSound (on_accepted (accept_task_frame p s f) act)
on_accepted-IsSound p s f act v h =
    on_accepted-lem (accept_task_frame p s f) act (accept_task_frame-IsSound p s f v)
      (λ r e. h _ r (accept_task_frame-IsSound p s f v) (still_bound p s f r e))

-- Whatever frame an authenticated connection sends, a sound registry stays sound: its bindings have
-- open streams and stand under their own task ids, and its holds and timers belong to each other
-- and to live bindings.
pub process_authed_frame-IsSound :
    (p : Peer) (s : Registry) (f : UpFrame) → IsSound s → IsSound (process_authed_frame p s f)
unfolding process_authed_frame
process_authed_frame-IsSound p s (approval_request f q) v =
    on_accepted-IsSound p s f _ v (λ s1 r w b. on_approval_request-IsSound p s1 r q w)
process_authed_frame-IsSound p s (approval_received f id d) v =
    on_accepted-IsSound p s f _ v (λ s1 r w b. on_approval_received-IsSound p s1 r id d w)
process_authed_frame-IsSound p s (task_status f w m) v =
    on_accepted-IsSound p s f _ v (λ s1 r h b. on_task_status-IsSound p s1 r f w m h)
process_authed_frame-IsSound p s (task_artifact f x a l) v =
    on_accepted-IsSound p s f _ v (λ s1 r h b. on_task_artifact-IsSound p s1 r f x a l h)
process_authed_frame-IsSound p s (task_complete f w u) v =
    on_accepted-IsSound p s f _ v (λ s1 r h b. on_task_complete-IsSound p s1 r f w u h b)
process_authed_frame-IsSound p s (task_fail f e) v =
    on_accepted-IsSound p s f _ v (λ s1 r h b. on_task_fail-IsSound p s1 r f e h b)
process_authed_frame-IsSound p s (usage_response _) v = v
process_authed_frame-IsSound p s pong v = v
process_authed_frame-IsSound p s (hello _) v = v
