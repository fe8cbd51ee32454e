-- ===== src/Server/Registry/Hold.antt =====
-- What holding the bindings of one agent does (`holdBindingsForAgent` of
-- packages/server/src/registry.ts).
use vicoop_bridge.Prelude.{
  ℕ, ◌≡◌, ◌<◌, refl, ◌∙◌, String, true, false, not, ◌&&◌, some, Option, List, [], ◌∷◌, arith, ◌==◌,
  ==_self, string_eq, nat_eq, option_eq, leb, lookup, Bool-cases, Option-cases, inl, inr, values,
  Contains, lookup-values, is_some, lookup-insert,
}
use vicoop_bridge.Server.State.{Registry, TerminalError, HoldVia}
use vicoop_bridge.Server.Registry.{hold_one, hold_each, hold_bindings_for_agent}
use vicoop_bridge.Server.Registry.Sound.{IsSound}
use vicoop_bridge.Server.Registry.Preservation.{hold_one-parts}

-- What holding them leaves: every binding and its stream as it was, and each of this agent's under a
-- hold.
pub record IsHeld (a : String) (s s' : Registry) : Type 0 where
  pub same_heap : s'.heap ≡ s.heap
  pub same_bindings : s'.bindings ≡ s.bindings
  pub under_hold :
      (t : String) (r : ℕ)
      → lookup t s.bindings ≡ some r
      → (s.heap r).agent_id ≡ a
      → is_some (lookup t s'.grace_holds) ≡ true

module _ (a : String) (code : Option ℕ) (via : HoldVia) (e : TerminalError) where
  hold_one-keeps :
      (s : Registry) (r : ℕ) (t : String)
      → is_some (lookup t s.grace_holds) ≡ true
      → is_some (lookup t (hold_one a code via e s r).grace_holds) ≡ true
  unfolding hold_one
  hold_one-keeps s r t h =
      elim (Bool-cases
        ((s.heap r).agent_id == a && not (is_some (lookup (s.heap r).task_id s.grace_holds)))) [
          | inl new ↦ rw new (rw lookup-insert (ground arith))
          | inr old ↦ rw old h
        ]

  hold_one-holds :
      (s : Registry) (r : ℕ)
      → (s.heap r).agent_id ≡ a
      → is_some (lookup (s.heap r).task_id (hold_one a code via e s r).grace_holds) ≡ true
  unfolding hold_one
  hold_one-holds s r o = elim (Option-cases (lookup (s.heap r).task_id s.grace_holds)) [
    | inl new ↦
        rw (new, hold_one)
          (rw o (rw (==_self a) (rw lookup-insert (rw (==_self (s.heap r).task_id)))))
    | inr (h, old) ↦ rw (old, hold_one) (rw o (rw (==_self a) (rw old)))
  ]

  hold_each-parts :
      (s : Registry) (rs : List ℕ)
      → ((hold_each a code via e s rs).heap ≡ s.heap)
        × ((hold_each a code via e s rs).bindings ≡ s.bindings)
  unfolding hold_each
  hold_each-parts s [] = (refl, refl)
  hold_each-parts s (r ∷ rs) =
      let (h, b) = hold_one-parts a code via e s r in
      let (hs, bs) = hold_each-parts (hold_one a code via e s r) rs in (hs ∙ h, bs ∙ b)

  hold_each-keeps :
      (s : Registry) (rs : List ℕ) (t : String)
      → is_some (lookup t s.grace_holds) ≡ true
      → is_some (lookup t (hold_each a code via e s rs).grace_holds) ≡ true
  unfolding hold_each
  hold_each-keeps s [] t h = h
  hold_each-keeps s (r ∷ rs) t h =
      hold_each-keeps (hold_one a code via e s r) rs t (hold_one-keeps s r t h)

  hold_each-holds :
      (s : Registry) (rs : List ℕ) (t : String) (r : ℕ)
      → (s.heap r).task_id ≡ t
      → (s.heap r).agent_id ≡ a
      → Contains r rs
      → is_some (lookup t (hold_each a code via e s rs).grace_holds) ≡ true
  unfolding hold_each
  hold_each-holds s [] t r k o c = elim c [ ]
  hold_each-holds s (q ∷ rs) t r k o (inl same) =
      hold_each-keeps (hold_one a code via e s q) rs t (rw⁻¹ k (rw same (hold_one-holds s r o)))
  hold_each-holds s (q ∷ rs) t r k o (inr later) =
      let (h, b) = hold_one-parts a code via e s q in
      hold_each-holds (hold_one a code via e s q) rs t r (rw h k) (rw h o) later

pub hold_bindings_for_agent-IsHeld :
    (s : Registry) (a : String) (code : Option ℕ) (via : HoldVia) (e : TerminalError)
    → 0 < s.disconnect_grace_ms
    → IsSound s
    → IsHeld a s (hold_bindings_for_agent s a code via e)
unfolding hold_bindings_for_agent
hold_bindings_for_agent-IsHeld s a code via e g v =
    let on : leb s.disconnect_grace_ms 0 ≡ false = ground arith in
    let (heap, bindings) = hold_each-parts a code via e s (values s.bindings) in
    rw on (record {
      same_heap = heap;
      same_bindings = bindings;
      under_hold = λ t r b o.
          hold_each-holds a code via e s (values s.bindings) t r (v.keyed t r b) o
            (lookup-values t r s.bindings b);
    })
