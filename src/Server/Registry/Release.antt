-- ===== src/Server/Registry/Release.antt =====
-- What ending the bindings of one agent does (`failBindingsForAgent` of
-- packages/server/src/registry.ts).
use vicoop_bridge.Prelude.{
  ℕ, ◌≡◌, ◌≢◌, refl, ◌∙◌, String, some, List, [], ◌∷◌, arith, ==_iff, string_eq, nat_eq, option_eq,
  lookup, lookup-remove, inl, inr, values, Contains, lookup-values,
}
use vicoop_bridge.Server.State.{Registry, TerminalError}
use vicoop_bridge.Server.Registry.{
  fail_one, fail_each, fail_bindings_for_agent, fail_binding, clear_grace_hold, delete_if_bound,
  terminal_event,
}
use vicoop_bridge.Server.Registry.Sound.{IsSound}

fail_one-ids :
    (a : String) (e : TerminalError) (s : Registry) (r q : ℕ)
    → (((fail_one a e s r).heap q).agent_id ≡ (s.heap q).agent_id)
unfolding fail_one clear_grace_hold delete_if_bound fail_binding terminal_event
fail_one-ids a e s r q = ground arith

fail_one-task :
    (a : String) (e : TerminalError) (s : Registry) (r q : ℕ)
    → (((fail_one a e s r).heap q).task_id ≡ (s.heap q).task_id)
unfolding fail_one clear_grace_hold delete_if_bound fail_binding terminal_event
fail_one-task a e s r q = ground arith

fail_one-others :
    (a : String) (e : TerminalError) (s : Registry) (r q : ℕ)
    → (s.heap q).agent_id ≢ a
    → (fail_one a e s r).heap q ≡ s.heap q
unfolding fail_one clear_grace_hold delete_if_bound fail_binding terminal_event
fail_one-others a e s r q o = ground (arith, ==_iff (s.heap r).agent_id a)

fail_one-shrinks :
    (a : String) (e : TerminalError) (s : Registry) (r : ℕ) (t : String) (q : ℕ)
    → lookup t (fail_one a e s r).bindings ≡ some q
    → lookup t s.bindings ≡ some q
unfolding fail_one clear_grace_hold delete_if_bound fail_binding
fail_one-shrinks a e s r t q h = ground (arith, h, lookup-remove (s.heap r).task_id t s.bindings)

fail_one-spares :
    (a : String) (e : TerminalError) (s : Registry) (r : ℕ) (t : String) (q : ℕ)
    → (s.heap q).agent_id ≢ a
    → lookup t s.bindings ≡ some q
    → lookup t (fail_one a e s r).bindings ≡ some q
unfolding fail_one clear_grace_hold delete_if_bound fail_binding
fail_one-spares a e s r t q o h = ground (
  arith,
  h,
  lookup-remove (s.heap r).task_id t s.bindings,
  ==_iff (s.heap r).agent_id a,
  ==_iff (s.heap r).task_id t,
  ==_iff (lookup (s.heap r).task_id s.bindings) (some r),
)

fail_one-releases :
    (a : String) (e : TerminalError) (s : Registry) (r : ℕ) (t : String)
    → (s.heap r).task_id ≡ t
    → (s.heap r).agent_id ≡ a
    → lookup t (fail_one a e s r).bindings ≢ some r
unfolding fail_one clear_grace_hold delete_if_bound fail_binding
fail_one-releases a e s r t k o h = ground (
  arith,
  h,
  lookup-remove (s.heap r).task_id t s.bindings,
  ==_iff (s.heap r).agent_id a,
  ==_iff (s.heap r).task_id t,
  ==_iff (lookup (s.heap r).task_id s.bindings) (some r),
)

-- What ending the bindings of an agent leaves: another agent's bindings as they were, and of this
-- agent's none.
pub record IsReleased (a : String) (s s' : Registry) : Type 0 where
  pub released : (t : String) (r : ℕ) → lookup t s'.bindings ≡ some r → (s.heap r).agent_id ≢ a
  pub spared_heap : (q : ℕ) → (s.heap q).agent_id ≢ a → s'.heap q ≡ s.heap q
  pub spared :
      (t : String) (q : ℕ)
      → (s.heap q).agent_id ≢ a
      → lookup t s.bindings ≡ some q
      → lookup t s'.bindings ≡ some q

module _ (a : String) (e : TerminalError) where
  fail_each-shrinks :
      (s : Registry) (rs : List ℕ) (t : String) (q : ℕ)
      → lookup t (fail_each a e s rs).bindings ≡ some q
      → lookup t s.bindings ≡ some q
  unfolding fail_each
  fail_each-shrinks s [] t q h = h
  fail_each-shrinks s (r ∷ rs) t q h =
      fail_one-shrinks a e s r t q (fail_each-shrinks (fail_one a e s r) rs t q h)

  fail_each-others :
      (s : Registry) (rs : List ℕ) (q : ℕ)
      → (s.heap q).agent_id ≢ a
      → (fail_each a e s rs).heap q ≡ s.heap q
  unfolding fail_each
  fail_each-others s [] q o = refl
  fail_each-others s (r ∷ rs) q o =
      fail_each-others (fail_one a e s r) rs q (rw (fail_one-ids a e s r q) o)
      ∙ fail_one-others a e s r q o

  fail_each-spares :
      (s : Registry) (rs : List ℕ) (t : String) (q : ℕ)
      → (s.heap q).agent_id ≢ a
      → lookup t s.bindings ≡ some q
      → lookup t (fail_each a e s rs).bindings ≡ some q
  unfolding fail_each
  fail_each-spares s [] t q o h = h
  fail_each-spares s (r ∷ rs) t q o h =
      fail_each-spares (fail_one a e s r) rs t q (rw (fail_one-ids a e s r q) o)
        (fail_one-spares a e s r t q o h)

  fail_each-releases :
      (s : Registry) (rs : List ℕ) (t : String) (r : ℕ)
      → (s.heap r).task_id ≡ t
      → (s.heap r).agent_id ≡ a
      → Contains r rs
      → lookup t (fail_each a e s rs).bindings ≢ some r
  unfolding fail_each
  fail_each-releases s [] t r k o c h = elim c [ ]
  fail_each-releases s (q ∷ rs) t r k o (inl same) h =
      fail_one-releases a e s r t k o (rw same at (fail_each-shrinks (fail_one a e s q) rs t r h))
  fail_each-releases s (q ∷ rs) t r k o (inr later) h =
      fail_each-releases (fail_one a e s q) rs t r (fail_one-task a e s q r ∙ k)
        (fail_one-ids a e s q r ∙ o) later h

pub fail_bindings_for_agent-IsReleased :
    (s : Registry) (a : String) (e : TerminalError)
    → IsSound s
    → IsReleased a s (fail_bindings_for_agent s a e)
unfolding fail_bindings_for_agent
fail_bindings_for_agent-IsReleased s a e v = record {
  released = λ t r h o.
      let b = fail_each-shrinks a e s (values s.bindings) t r h in
      fail_each-releases a e s (values s.bindings) t r (v.keyed t r b) o
        (lookup-values t r s.bindings b) h;
  spared_heap = fail_each-others a e s (values s.bindings);
  spared = fail_each-spares a e s (values s.bindings);
}
