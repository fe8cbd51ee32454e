-- ===== src/Server/Connection/Authority.antt =====
-- What a socket may do before it has authenticated, and what authenticating takes
-- (packages/server/src/ws.ts).
use vicoop_bridge.Prelude.{
  ℕ, ◌≡◌, refl, String, Bool, true, false, none, some, Option, arith, ==_iff, string_eq, List, [],
  ◌∷◌, includes, All, All-append,
}
use vicoop_bridge.Protocol.{
  HelloFrame, UpFrame, task_replay_capability, remote_approval_capability,
  caller_context_v2_capability, caller_runtime_v1_capability, execution_scope_v1_capability,
  federated_execution_scope_v1_capability,
}
use vicoop_bridge.Server.State.{Registry}
use vicoop_bridge.Server.AgentIds.{is_reserved_agent_id}
use vicoop_bridge.Server.Connection.{
  Connection, ClientRow, on_message, before_hello, authenticate_and_register,
  hello_ack_capabilities, supports_execution_scope_v1, only_if,
}

-- The parts of the registry that tasks and agents live in.
pub record SameTasks (s s' : Registry) : Type 0 where
  pub heap : s'.heap ≡ s.heap
  pub agents : s'.agents ≡ s.agents
  pub bindings : s'.bindings ≡ s.bindings
  pub grace_holds : s'.grace_holds ≡ s.grace_holds

before_hello-SameTasks :
    (s : Registry) (c : Connection) (m : UpFrame) → SameTasks s (before_hello s c m).0
unfolding before_hello
before_hello-SameTasks s c m = ground arith

-- Whatever a connection that has not authenticated sends, no object, no agent, no binding and no
-- grace hold changes.
pub on_message-unauthenticated :
    (s : Registry) (c : Connection) (is_open : Bool) (m : Option UpFrame)
    → c.authed ≡ false
    → SameTasks s (on_message s c is_open m).0
unfolding on_message
on_message-unauthenticated s c is_open none h = ground arith
on_message-unauthenticated s c is_open (some m) h = ground (arith, h, before_hello-SameTasks s c m)

-- A hello is registered only if its agent id is not reserved and the token belongs to the row of
-- that very agent id.
pub authenticate_and_register-owner :
    (s : Registry) (w : ℕ) (f : HelloFrame) (found : Option ClientRow)
    → (authenticate_and_register s w f found).1 ≡ none
    → (is_reserved_agent_id f.agent_id ≡ false)
      × (row : ClientRow) × (found ≡ some row)
      × (row.id ≡ f.agent_id)
unfolding authenticate_and_register
authenticate_and_register-owner s w f none h = ground (arith, h)
authenticate_and_register-owner s w f (some row) h =
    (ground (arith, h), row, refl, ground (arith, h, ==_iff row.id f.agent_id))

only_if-All :
    (P : String → Type 0) (b : Bool) (xs : List String)
    → (b ≡ true → All P xs)
    → All P (only_if b xs)
only_if-All P true xs h = h refl
only_if-All P false xs h = tt

abbrev IsOffered : List String → String → Type 0
IsOffered caps k = includes caps k ≡ true

-- The capabilities that come with execution scopes.
scope-IsOffered :
    (caps : List String)
    → All (IsOffered caps) (
        only_if (supports_execution_scope_v1 caps) (
          execution_scope_v1_capability
          ∷ only_if (includes caps caller_runtime_v1_capability) (
              caller_runtime_v1_capability
              ∷ only_if
                  (includes caps federated_execution_scope_v1_capability)
                  (federated_execution_scope_v1_capability ∷ []))))
unfolding supports_execution_scope_v1
scope-IsOffered caps = only_if-All (IsOffered caps) (supports_execution_scope_v1 caps) _ λ scope. (
  ground (arith, scope),
  only_if-All (IsOffered caps) (includes caps caller_runtime_v1_capability) _ λ runtime. (
    runtime,
    only_if-All (IsOffered caps) (includes caps federated_execution_scope_v1_capability) _
        λ federated. (federated, tt),
  ),
)

-- If the client offered task replay, then every capability that the server acknowledges is one that
-- the client offered.
pub hello_ack_capabilities-IsOffered :
    (caps : List String)
    → includes caps task_replay_capability ≡ true
    → All (λ k. includes caps k ≡ true) (hello_ack_capabilities caps)
unfolding hello_ack_capabilities
hello_ack_capabilities-IsOffered caps replay = (
  replay,
  All-append (IsOffered caps)
      (only_if (includes caps remote_approval_capability) (remote_approval_capability ∷ [])) _
      (only_if-All (IsOffered caps) (includes caps remote_approval_capability) _ λ h. (h, tt))
      (All-append (IsOffered caps)
        (only_if (includes caps caller_context_v2_capability) (caller_context_v2_capability ∷ [])) _
        (only_if-All (IsOffered caps) (includes caps caller_context_v2_capability) _ λ h. (h, tt))
        (scope-IsOffered caps)),
)
