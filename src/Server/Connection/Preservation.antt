-- ===== src/Server/Connection/Preservation.antt =====
-- The events of a socket (`handleConnection` of packages/server/src/ws.ts) and the soundness of the
-- registry.
use vicoop_bridge.Prelude.{
  ℕ, Bool, true, false, not, none, some, Option, ◌==◌, string_eq, Bool-cases, Option-cases, inl,
  inr, get_or, includes, [], if_both,
}
use vicoop_bridge.Protocol.{
  HelloFrame, UpFrame, hello, approval_request, approval_received, task_status, task_artifact,
  task_complete, task_fail, pong, usage_response, protocol_version, task_replay_capability,
}
use vicoop_bridge.Server.State.{Registry}
use vicoop_bridge.Server.AgentIds.{is_reserved_agent_id}
use vicoop_bridge.Server.Connection.{
  Connection, ClientRow, LookupResult, looked_up, threw, ResolvedCard, inline, canonical,
  unresolved, resolve_hello_agent_card, register_resolved, connection_of, authenticate_and_register,
  on_registered, on_authenticated, reconcile, acknowledge_hello, before_hello, on_message, on_close,
}
use vicoop_bridge.Server.Registry.Sound.{IsSound}
use vicoop_bridge.Server.Registry.Operations.{register_agent-IsSound, unregister_agent-IsSound}
use vicoop_bridge.Server.Frames.Preservation.{process_authed_frame-IsSound}

authenticate_and_register-IsSound :
    (s : Registry) (w : ℕ) (f : HelloFrame) (found : Option ClientRow)
    → IsSound s
    → IsSound (authenticate_and_register s w f found).0
unfolding authenticate_and_register
authenticate_and_register-IsSound s w f none v =
    elim (Bool-cases (is_reserved_agent_id f.agent_id)) [ inl e ↦ rw e v | inr e ↦ rw e v ]
authenticate_and_register-IsSound s w f (some row) v =
    if_both (λ (z : Registry × Option ℕ). IsSound z.0) (is_reserved_agent_id f.agent_id) v
      (if_both (λ (z : Registry × Option ℕ). IsSound z.0) (not (row.id == f.agent_id)) v
        (elim (resolve_hello_agent_card f) as (λ x. IsSound (on_card x).0) [
          | inline ↦ registered
          | canonical ↦ registered
          | unresolved code ↦ v
        ]))
  where
    on_card : ResolvedCard → Registry × Option ℕ
    on_card (unresolved code) = (s, some code)
    on_card _ = register_resolved s w f row

    registered : IsSound (register_resolved s w f row).0
    registered = register_agent-IsSound s (connection_of w f row) v

reconcile-IsSound :
    (s : Registry) (c : Connection) (f : HelloFrame) → IsSound s → IsSound (reconcile s c f).0
unfolding reconcile
reconcile-IsSound s c f v = elim (Option-cases c.observed_close_code) [
  | inl e ↦ rw (e, reconcile) v
  | inr (code, e) ↦ rw (e, reconcile) (unregister_agent-IsSound s f.agent_id c.ws (some code) v)
]

acknowledge_hello-IsSound :
    (s : Registry) (w : ℕ) (f : HelloFrame) → IsSound s → IsSound (acknowledge_hello s w f)
unfolding acknowledge_hello
acknowledge_hello-IsSound s w f v =
    elim (Bool-cases (includes (get_or f.protocol_capabilities []) task_replay_capability)) [
      | inl e ↦ rw e v
      | inr e ↦ rw e v
    ]

on_registered-IsSound :
    (c : Connection) (is_open : Bool) (f : HelloFrame) (x : Registry × Option ℕ)
    → IsSound x.0
    → IsSound (on_registered c is_open f x).0
unfolding on_registered
on_registered-IsSound c is_open f (s, some code) v = v
on_registered-IsSound c true f (s, none) v = acknowledge_hello-IsSound s c.ws f v
on_registered-IsSound c false f (s, none) v = reconcile-IsSound s c f v

pub on_authenticated-IsSound :
    (s : Registry) (c : Connection) (is_open : Bool) (f : HelloFrame) (l : LookupResult)
    → IsSound s
    → IsSound (on_authenticated s c is_open f l).0
unfolding on_authenticated
on_authenticated-IsSound s c is_open f threw v = v
on_authenticated-IsSound s c is_open f (looked_up found) v =
    on_registered-IsSound c is_open f (authenticate_and_register s c.ws f found)
      (authenticate_and_register-IsSound s c.ws f found v)

before_hello-IsSound :
    (s : Registry) (c : Connection) (m : UpFrame) → IsSound s → IsSound (before_hello s c m).0
unfolding before_hello
before_hello-IsSound s c (hello f) v =
    if_both (λ (z : Registry × Connection). IsSound z.0) (f.version == protocol_version) v v
before_hello-IsSound s c (approval_request _ _) v = v
before_hello-IsSound s c (approval_received _ _ _) v = v
before_hello-IsSound s c (task_status _ _ _) v = v
before_hello-IsSound s c (task_artifact _ _ _ _) v = v
before_hello-IsSound s c (task_complete _ _ _) v = v
before_hello-IsSound s c (task_fail _ _) v = v
before_hello-IsSound s c pong v = v
before_hello-IsSound s c (usage_response _) v = v

pub on_message-IsSound :
    (s : Registry) (c : Connection) (is_open : Bool) (m : Option UpFrame)
    → IsSound s
    → IsSound (on_message s c is_open m).0
unfolding on_message
on_message-IsSound s c is_open none v = v
on_message-IsSound s c is_open (some m) v =
    if_both (λ (z : Registry × Connection). IsSound z.0) c.authed
      (process_authed_frame-IsSound (record { ws = c.ws; is_open = is_open; agent_id = c.agent_id })
        s m v)
      (before_hello-IsSound s c m v)

pub on_close-IsSound :
    (s : Registry) (c : Connection) (code : ℕ) → IsSound s → IsSound (on_close s c code).0
unfolding on_close
on_close-IsSound s c code v = elim (Option-cases c.agent_id) [
  | inl e ↦ rw (e, on_close) v
  | inr (a, e) ↦ rw (e, on_close) (unregister_agent-IsSound s a c.ws (some code) v)
]
