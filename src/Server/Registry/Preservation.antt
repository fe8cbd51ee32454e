-- ===== src/Server/Registry/Preservation.antt =====
-- Every operation of packages/server/src/registry.ts on bindings and holds keeps them sound.
use vicoop_bridge.Prelude.{
  ℕ, ◌≡◌, ◌≢◌, refl, String, true, false, not, none, some, Option, List, [], ◌∷◌, ◌++◌, arith, ◌==◌,
  ==_iff, ==_self, string_eq, nat_eq, option_eq, lookup, remove, lookup-remove, Bool-cases,
  Option-cases, inl, inr, All, values, leb, is_some,
}
use mathlib.Core.Bool.{◌&&◌}
use vicoop_bridge.Server.State.{
  SinkCall, push_status, push_artifact, finish, TerminalError, HoldVia, Registry, call_sink,
}
use vicoop_bridge.Server.Registry.{
  clear_grace_hold, delete_if_bound, fail_binding, fail_one, fail_each, fail_bindings_for_agent,
  hold_one, hold_each, hold_bindings_for_agent,
}
use vicoop_bridge.Server.Registry.Sound.{
  is_finished, IsSound, write_unbound-Sound, write-Sound, drop_hold-Sound, release-Sound,
  hold-Sound, values-bound,
}

-- A call other than `finish` leaves a stream as open as it was.
pub is_finished-append :
    (xs : List SinkCall) (c : SinkCall)
    → is_finished (c ∷ []) ≡ false
    → is_finished (xs ++ c ∷ []) ≡ is_finished xs
is_finished-append [] c h = h
is_finished-append (finish ∷ xs) c h = refl
is_finished-append (push_status _ ∷ xs) c h = is_finished-append xs c h
is_finished-append (push_artifact _ ∷ xs) c h = is_finished-append xs c h

pub call_sink-IsSound :
    (s : Registry) (r : ℕ) (c : SinkCall)
    → is_finished (c ∷ []) ≡ false
    → IsSound s
    → IsSound (call_sink s r c)
unfolding call_sink
call_sink-IsSound s r c h v =
    write-Sound v r _ refl (λ o. ground (arith, is_finished-append (s.heap r).sink c h))

pub fail_binding_unbound-IsSound :
    (s : Registry) (r : ℕ) (e : TerminalError)
    → lookup (s.heap r).task_id s.bindings ≢ some r
    → IsSound s
    → IsSound (fail_binding s r e)
unfolding fail_binding
fail_binding_unbound-IsSound s r e h v =
    write_unbound-Sound (write_unbound-Sound v r _ refl h) r _ refl (rw (==_self r) h)

pub clear_grace_hold-IsSound :
    (s : Registry) (t : String) (r : ℕ) → IsSound s → IsSound (clear_grace_hold s t r)
unfolding clear_grace_hold
clear_grace_hold-IsSound s t r v = elim (Option-cases (lookup t s.grace_holds)) [
  | inl e ↦ rw (e, clear_grace_hold) v
  | inr (h, e) ↦ elim (Bool-cases (h.binding == r)) [
    | inl same ↦ rw (e, clear_grace_hold) (rw same (drop_hold-Sound v t h e))
    | inr other ↦ rw (e, clear_grace_hold) (rw other v)
  ]
]

pub clear_grace_hold-none :
    (s : Registry) (t : String) (r : ℕ)
    → IsSound s
    → lookup t s.bindings ≡ some r
    → lookup t (clear_grace_hold s t r).grace_holds ≡ none
unfolding clear_grace_hold
clear_grace_hold-none s t r v b = elim (Option-cases (lookup t s.grace_holds)) [
  | inl e ↦ rw (e, clear_grace_hold) e
  | inr (h, e) ↦
      let same : (h.binding == r) ≡ true = ground (arith, v.held t h e, ==_iff h.binding r) in
      rw (e, clear_grace_hold) (rw same (rw lookup-remove (rw (==_self t))))
]

-- Close the stream of a binding that is not held, and free its task id.
pub release_failed-IsSound :
    (s : Registry) (r : ℕ) (e : TerminalError)
    → IsSound s
    → lookup (s.heap r).task_id s.grace_holds ≡ none
    → IsSound (record (fail_binding s r e) { bindings = remove (s.heap r).task_id s.bindings })
unfolding fail_binding
release_failed-IsSound s r e v h =
    write_unbound-Sound (write_unbound-Sound (release-Sound v _ h) r _ refl gone) r _ refl
      (rw (==_self r) gone)
  where
    gone : lookup (s.heap r).task_id (remove (s.heap r).task_id s.bindings) ≢ some r
    gone = rw lookup-remove (rw (==_self (s.heap r).task_id) (λ e. cc))

-- End a live binding: its hold goes, its stream is closed, and its task id is free again.
pub end_binding-IsSound :
    (s : Registry) (r : ℕ) (e : TerminalError)
    → IsSound s
    → lookup (s.heap r).task_id s.bindings ≡ some r
    → let s1 = fail_binding (clear_grace_hold s (s.heap r).task_id r) r e in
      IsSound (record s1 { bindings = remove (s.heap r).task_id s1.bindings })
unfolding fail_binding clear_grace_hold
end_binding-IsSound s r e v b =
    release_failed-IsSound (clear_grace_hold s (s.heap r).task_id r) r e
      (clear_grace_hold-IsSound s (s.heap r).task_id r v)
      (clear_grace_hold-none s (s.heap r).task_id r v b)

-- A binding that its task id is not bound to has no hold to clear.
clear_unbound-IsSound :
    (s : Registry) (r : ℕ) (e : TerminalError)
    → IsSound s
    → lookup (s.heap r).task_id s.bindings ≢ some r
    → IsSound (fail_binding (clear_grace_hold s (s.heap r).task_id r) r e)
unfolding clear_grace_hold
clear_unbound-IsSound s r e v b =
    fail_binding_unbound-IsSound (clear_grace_hold s (s.heap r).task_id r) r e b
      (clear_grace_hold-IsSound s (s.heap r).task_id r v)

fail_one-IsSound :
    (agent_id : String) (e : TerminalError) (s : Registry) (r : ℕ)
    → IsSound s
    → IsSound (fail_one agent_id e s r)
unfolding fail_one
fail_one-IsSound agent_id e s r v = elim (Bool-cases ((s.heap r).agent_id == agent_id)) [
  | inr other ↦ rw other v
  | inl mine ↦ rw mine (elim (Bool-cases (lookup (s.heap r).task_id s.bindings == some r)) [
    | inl bound ↦
        rw (bound, delete_if_bound)
          (end_binding-IsSound s r e v
            ((==_iff (lookup (s.heap r).task_id s.bindings) (some r)).0 bound))
    | inr free ↦
        rw (free, delete_if_bound)
          (clear_unbound-IsSound s r e v
            (ground (arith, ==_iff (lookup (s.heap r).task_id s.bindings) (some r))))
  ])
]

fail_each-IsSound :
    (agent_id : String) (e : TerminalError) (s : Registry) (rs : List ℕ)
    → IsSound s
    → IsSound (fail_each agent_id e s rs)
unfolding fail_each
fail_each-IsSound agent_id e s [] v = v
fail_each-IsSound agent_id e s (r ∷ rs) v =
    fail_each-IsSound agent_id e (fail_one agent_id e s r) rs (fail_one-IsSound agent_id e s r v)

pub fail_bindings_for_agent-IsSound :
    (s : Registry) (agent_id : String) (e : TerminalError)
    → IsSound s
    → IsSound (fail_bindings_for_agent s agent_id e)
unfolding fail_bindings_for_agent
fail_bindings_for_agent-IsSound s agent_id e = fail_each-IsSound agent_id e s (values s.bindings)

hold_one-IsSound :
    (agent_id : String) (code : Option ℕ) (via : HoldVia) (e : TerminalError) (s : Registry) (r : ℕ)
    → lookup (s.heap r).task_id s.bindings ≡ some r
    → IsSound s
    → IsSound (hold_one agent_id code via e s r)
unfolding hold_one
hold_one-IsSound agent_id code via e s r b v =
    elim (Option-cases (lookup (s.heap r).task_id s.grace_holds)) [
      | inl h ↦
          rw (h, hold_one)
            (elim (Bool-cases ((s.heap r).agent_id == agent_id)) [
              | inl mine ↦ rw mine (hold-Sound v r _ _ b h refl refl refl)
              | inr other ↦ rw other v
            ])
      | inr (k, h) ↦
          rw (h, hold_one)
            (elim (Bool-cases ((s.heap r).agent_id == agent_id)) [
              | inl mine ↦ rw mine v
              | inr other ↦ rw other v
            ])
    ]

-- Holds change neither the objects nor what the task ids are bound to.
pub hold_one-parts :
    (agent_id : String) (code : Option ℕ) (via : HoldVia) (e : TerminalError) (s : Registry) (r : ℕ)
    → ((hold_one agent_id code via e s r).heap ≡ s.heap)
      × ((hold_one agent_id code via e s r).bindings ≡ s.bindings)
unfolding hold_one
hold_one-parts agent_id code via e s r =
    elim (Bool-cases (
      (s.heap r).agent_id == agent_id && not (is_some (lookup (s.heap r).task_id s.grace_holds)))) [
        | inl yes_ ↦ rw yes_ (refl, refl)
        | inr no_ ↦ rw no_ (refl, refl)
      ]

abbrev AllBound : Registry → List ℕ → Type 0
AllBound s = All (λ r. lookup (s.heap r).task_id s.bindings ≡ some r)

AllBound-hold_one :
    (agent_id : String) (code : Option ℕ) (via : HoldVia) (e : TerminalError) (s : Registry) (r : ℕ)
    (rs : List ℕ)
    → AllBound s rs
    → AllBound (hold_one agent_id code via e s r) rs
AllBound-hold_one agent_id code via e s r rs h =
    let (p, q) = hold_one-parts agent_id code via e s r in rw p (rw q h)

hold_each-IsSound :
    (agent_id : String) (code : Option ℕ) (via : HoldVia) (e : TerminalError) (s : Registry)
    (rs : List ℕ)
    → AllBound s rs
    → IsSound s
    → IsSound (hold_each agent_id code via e s rs)
unfolding hold_each
hold_each-IsSound agent_id code via e s [] b v = v
hold_each-IsSound agent_id code via e s (r ∷ rs) (b, bs) v =
    hold_each-IsSound agent_id code via e (hold_one agent_id code via e s r) rs
      (AllBound-hold_one agent_id code via e s r rs bs)
      (hold_one-IsSound agent_id code via e s r b v)

pub hold_bindings_for_agent-IsSound :
    (s : Registry) (agent_id : String) (code : Option ℕ) (via : HoldVia) (e : TerminalError)
    → IsSound s
    → IsSound (hold_bindings_for_agent s agent_id code via e)
unfolding hold_bindings_for_agent
hold_bindings_for_agent-IsSound s agent_id code via e v =
    elim (Bool-cases (leb s.disconnect_grace_ms 0)) [
      | inl off ↦ rw off (fail_bindings_for_agent-IsSound s agent_id e v)
      | inr on ↦
          rw on (hold_each-IsSound agent_id code via e s (values s.bindings) (values-bound v) v)
    ]
