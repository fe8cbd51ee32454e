-- ===== src/Server/Registry/Operations.antt =====
-- The public operations of packages/server/src/registry.ts and the soundness of the registry.
use vicoop_bridge.Prelude.{
  List, [], ◌∷◌, values, ℕ, ◌≡◌, String, false, not, ◌&&◌, none, some, Option, arith, ◌==◌, ==_iff,
  string_eq, nat_eq, option_eq, lookup, insert, remove, lookup-insert, lookup-remove, ==_self, ◌≢◌,
  Bool-cases, Option-cases, inl, inr, leb,
}
use vicoop_bridge.Server.State.{GraceHold, GraceTimer, Registry, ClientConnection, call_ws, close}
use vicoop_bridge.Server.Registry.{
  fire_timer, disconnect_each, disconnect_client, note_server_close, resumed_hold, resume_binding,
  register_agent, unregister_agent, displace, bind_task, unbind_task, fail_task_binding,
  clear_grace_hold, displace_binding, expire_hold, terminal_event, displaced_error, fail_binding,
  supports_replay, is_graceable_close_code,
}
use vicoop_bridge.Server.Registry.Sound.{
  is_finished, IsSound, drop_hold-Sound, release-Sound, bind-Sound, rebind-Sound,
}
use vicoop_bridge.Server.Registry.Preservation.{
  clear_grace_hold-IsSound, clear_grace_hold-none, end_binding-IsSound, release_failed-IsSound,
  fail_binding_unbound-IsSound, fail_bindings_for_agent-IsSound, hold_bindings_for_agent-IsSound,
}

resumed_hold-lem :
    (s : Registry) (task_id agent_id : String) {h : GraceHold}
    → resumed_hold s task_id agent_id ≡ some h
    → lookup task_id s.grace_holds ≡ some h
unfolding resumed_hold
resumed_hold-lem s task_id agent_id e = ground arith

pub resume_binding-IsSound :
    (s : Registry) (task_id agent_id : String)
    → IsSound s
    → IsSound (resume_binding s task_id agent_id)
unfolding resume_binding
resume_binding-IsSound s task_id agent_id v =
    elim (Option-cases (resumed_hold s task_id agent_id)) [
      | inl e ↦ rw (e, resume_binding) v
      | inr (h, e) ↦
          rw (e, resume_binding)
            (drop_hold-Sound v task_id h (resumed_hold-lem s task_id agent_id e))
    ]

displace-IsSound :
    (s : Registry) (agent_id : String) (existing : ClientConnection)
    → IsSound s
    → IsSound (displace s agent_id existing)
unfolding displace
displace-IsSound s agent_id existing v = elim (Bool-cases (s.server_closed existing.ws)) [
  | inl e ↦ rw e (fail_bindings_for_agent-IsSound s agent_id _ v)
  | inr e ↦ rw e (elim (Bool-cases (supports_replay existing)) [
    | inl r ↦ rw r (hold_bindings_for_agent-IsSound s agent_id _ _ _ v)
    | inr r ↦ rw r (fail_bindings_for_agent-IsSound s agent_id _ v)
  ])
]

pub register_agent-IsSound :
    (s : Registry) (conn : ClientConnection) → IsSound s → IsSound (register_agent s conn).0
unfolding register_agent call_ws
register_agent-IsSound s conn v = elim (Option-cases (lookup conn.agent_id s.agents)) [
  | inl e ↦ rw (e, register_agent) v
  | inr (existing, e) ↦
      rw (e, register_agent)
        (elim (Bool-cases (existing.client_id == conn.client_id)) [
          | inl same ↦
              rw same
                (displace-IsSound (call_ws s existing.ws (close 4009)) conn.agent_id existing v)
          | inr other ↦ rw other v
        ])
]

pub unregister_agent-IsSound :
    (s : Registry) (agent_id : String) (ws : ℕ) (code : Option ℕ)
    → IsSound s
    → IsSound (unregister_agent s agent_id ws code)
unfolding unregister_agent
unregister_agent-IsSound s agent_id ws code v = elim (Option-cases (lookup agent_id s.agents)) [
  | inl e ↦ rw (e, unregister_agent) v
  | inr (existing, e) ↦
      rw (e, unregister_agent)
        (elim (Bool-cases (existing.ws == ws)) [
          | inr other ↦ rw other v
          | inl same ↦
              rw same
                (elim (Bool-cases (
                  supports_replay existing
                  && is_graceable_close_code code
                  && not (s.server_closed ws))) [
                    | inl grace ↦ rw grace (hold_bindings_for_agent-IsSound _ agent_id code _ _ v)
                    | inr dead ↦ rw dead (fail_bindings_for_agent-IsSound _ agent_id _ v)
                  ])
        ])
]

pub fail_task_binding-IsSound :
    (s : Registry) (r : ℕ) (code message : String)
    → IsSound s
    → IsSound (fail_task_binding s r code message)
unfolding fail_task_binding
fail_task_binding-IsSound s r code message v =
    elim (Bool-cases (lookup (s.heap r).task_id s.bindings == some r)) [
      | inl bound ↦ rw bound (
          end_binding-IsSound s r _ v
            ((==_iff (lookup (s.heap r).task_id s.bindings) (some r)).0 bound))
      | inr free ↦ rw free v
    ]

pub unbind_task-IsSound :
    (s : Registry) (t : String) (r : ℕ) → IsSound s → IsSound (unbind_task s t r)
unfolding unbind_task clear_grace_hold
unbind_task-IsSound s t r v = elim (Bool-cases (lookup t s.bindings == some r)) [
  | inl bound ↦ rw bound (
      release-Sound (clear_grace_hold-IsSound s t r v) t
        (clear_grace_hold-none s t r v ((==_iff (lookup t s.bindings) (some r)).0 bound)))
  | inr free ↦ rw free v
]

-- The displaced binding is settled on a registry in which the new one already stands.
displaced-IsSound :
    (s : Registry) (r existing : ℕ)
    → is_finished (s.heap r).sink ≡ false
    → IsSound s
    → lookup (s.heap r).task_id s.bindings ≡ some existing
    → (existing == r) ≡ false
    → let s1 = displace_binding s (s.heap r).task_id existing in
      IsSound (record s1 { bindings = insert (s.heap r).task_id r s1.bindings })
unfolding displace_binding clear_grace_hold fail_binding terminal_event
displaced-IsSound s r existing o v b ne =
    fail_binding_unbound-IsSound (record s1 { bindings = insert (s.heap r).task_id r s.bindings })
      existing displaced_error gone
      (bind-Sound (clear_grace_hold-IsSound s (s.heap r).task_id existing v) r o
        (clear_grace_hold-none s (s.heap r).task_id existing v b))
  where
    s1 : Registry
    s1 = clear_grace_hold s (s.heap r).task_id existing

    gone : lookup (s.heap existing).task_id (insert (s.heap r).task_id r s.bindings) ≢ some existing
    gone e = ground (
      arith,
      lookup-insert (s.heap r).task_id (s.heap existing).task_id r s.bindings,
      v.keyed (s.heap r).task_id existing b,
      ==_self (s.heap r).task_id,
      ==_iff existing r,
    )

-- A task id that is free is under no hold.
pub free-no_hold :
    (s : Registry) (t : String)
    → IsSound s
    → lookup t s.bindings ≡ none
    → lookup t s.grace_holds ≡ none
free-no_hold s t v e = elim (Option-cases (lookup t s.grace_holds)) [
  | inl p ↦ p
  | inr (h, p) ↦ cc (v.held t h p)
]

pub bind_task-IsSound :
    (s : Registry) (r : ℕ)
    → is_finished (s.heap r).sink ≡ false
    → IsSound s
    → IsSound (bind_task s r).0
unfolding bind_task
bind_task-IsSound s r o v = elim (Option-cases (lookup (s.heap r).task_id s.bindings)) [
  | inl e ↦ rw (e, bind_task) (bind-Sound v r o (free-no_hold s (s.heap r).task_id v e))
  | inr (existing, e) ↦
      rw (e, bind_task)
        (elim (Bool-cases ((s.heap existing).agent_id == (s.heap r).agent_id)) [
          | inr other ↦ rw other v
          | inl mine ↦ rw mine (elim (Bool-cases (existing == r)) [
            | inl same ↦ rw same (rebind-Sound v r (ground (arith, ==_iff existing r)))
            | inr new ↦ rw new (displaced-IsSound s r existing o v e new)
          ])
        ])
]

-- The timer of a hold ends the binding that the hold is on.
expired-IsSound :
    (s : Registry) (id : ℕ) (t : GraceTimer)
    → lookup id s.timers ≡ some t
    → IsSound s
    → IsSound (expire_hold (record s { timers = remove id s.timers }) t)
unfolding expire_hold
expired-IsSound s id t e v =
    let (h, at, same, same_binding) = v.armed id t e in
    let dropped : IsSound (record s {
      timers = remove id s.timers;
      grace_holds = remove (s.heap t.binding).task_id s.grace_holds;
    }) =
      rw same at (drop_hold-Sound v (s.heap t.binding).task_id h at) in
    elim (Bool-cases (lookup (s.heap t.binding).task_id s.bindings == some t.binding)) [
      | inl bound ↦ rw bound (
          release_failed-IsSound _ t.binding _ dropped
            (rw lookup-remove (rw (==_self (s.heap t.binding).task_id))))
      | inr free ↦ rw free dropped
    ]

pub fire_timer-IsSound : (s : Registry) (id : ℕ) → IsSound s → IsSound (fire_timer s id)
unfolding fire_timer
fire_timer-IsSound s id v = elim (Option-cases (lookup id s.timers)) [
  | inl e ↦ rw (e, fire_timer) v
  | inr (t, e) ↦
      rw (e, fire_timer)
        (elim (Bool-cases (leb t.due s.now)) [
          | inl due ↦ rw due (expired-IsSound s id t e v)
          | inr early ↦ rw early v
        ])
]

-- Disconnecting the sockets of a client changes no task; their closes do that, later.
disconnect_each-IsSound :
    (client_id : String) (s : Registry) (conns : List ClientConnection)
    → IsSound s
    → IsSound (disconnect_each client_id s conns).0
unfolding disconnect_each
disconnect_each-IsSound client_id s [] v = v
disconnect_each-IsSound client_id s (conn ∷ rest) v =
    elim (Bool-cases (conn.client_id == client_id)) [
      | inl mine ↦ rw mine (
          disconnect_each-IsSound client_id
            (call_ws (note_server_close s conn.ws) conn.ws (close 4014)) rest v)
      | inr other ↦ rw other (disconnect_each-IsSound client_id s rest v)
    ]

pub disconnect_client-IsSound :
    (s : Registry) (client_id : String) → IsSound s → IsSound (disconnect_client s client_id).0
unfolding disconnect_client
disconnect_client-IsSound s client_id v = disconnect_each-IsSound client_id s (values s.agents) v
