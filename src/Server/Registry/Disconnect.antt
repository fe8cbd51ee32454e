-- ===== src/Server/Registry/Disconnect.antt =====
-- What the close of a client's connection does to its agent's bindings, and to nobody else's
-- (packages/server/src/registry.ts).
use vicoop_bridge.Prelude.{
  ℕ, ◌≡◌, ◌≢◌, ◌↔◌, ◌⊎◌, ◌<◌, String, Bool, true, false, not, ◌&&◌, some, Option, arith, ◌==◌,
  ==_iff, ==_self, string_eq, nat_eq, option_eq, lookup, remove,
}
use vicoop_bridge.Server.State.{Registry, disconnect, ClientConnection}
use vicoop_bridge.Server.Registry.{
  is_graceable_close_code, supports_replay, fail_bindings_for_agent, hold_bindings_for_agent,
  unregister_agent, notify_agent_change, disconnected_error,
}
use vicoop_bridge.Server.Registry.Sound.{IsSound}
use vicoop_bridge.Server.Registry.Release.{IsReleased, fail_bindings_for_agent-IsReleased}
use vicoop_bridge.Server.Registry.Hold.{IsHeld, hold_bindings_for_agent-IsHeld}

-- An observed close code leaves room for a reconnect exactly if it is neither 1000 nor one of 4000
-- to 4999.
pub is_graceable_close_code_iff :
    (code : ℕ)
    → (is_graceable_close_code (some code) ≡ true)
      ↔ ((code ≢ 1000) × ((code < 4000) ⊎ (4999 < code)))
unfolding is_graceable_close_code
is_graceable_close_code_iff code = ground arith

-- May the agent of a connection that closed with this code come back for its bindings?
abbrev pub may_return : Registry → ClientConnection → (close_code : Option ℕ) → Bool
may_return s conn code =
    supports_replay conn && is_graceable_close_code code && not (s.server_closed conn.ws)

abbrev without_agent : Registry → String → Registry
without_agent s a = notify_agent_change (record s { agents = remove a s.agents }) a

-- When the registered socket of a replay-capable agent closes with a code that allows a reconnect,
-- without the server having condemned it, and the grace time is positive, then in a sound registry
-- every object and every binding stays as it was, and each of the agent's bindings is under a hold.
pub unregister_agent-IsHeld :
    (s : Registry) (a : String) (conn : ClientConnection) (code : Option ℕ)
    → lookup a s.agents ≡ some conn
    → may_return s conn code ≡ true
    → 0 < s.disconnect_grace_ms
    → IsSound s
    → IsHeld a s (unregister_agent s a conn.ws code)
unfolding unregister_agent
unregister_agent-IsHeld s a conn code c h g v =
    rw (c, unregister_agent)
      (rw (==_self conn.ws) (
        rw h (record {
          same_heap = held.same_heap;
          same_bindings = held.same_bindings;
          under_hold = held.under_hold;
        })))
  where
    held :
        IsHeld a
          (without_agent s a)
          (hold_bindings_for_agent (without_agent s a) a code disconnect disconnected_error)
    held =
        hold_bindings_for_agent-IsHeld (without_agent s a) a code disconnect disconnected_error g v

-- When the registered socket of an agent closes and a reconnect is not allowed (the client cannot
-- replay, the close code rules it out, or the server has condemned the socket), then in a sound
-- registry no task id stays bound to a binding of that agent, and the bindings and the objects of
-- every other agent are unchanged.
pub unregister_agent-IsReleased :
    (s : Registry) (a : String) (conn : ClientConnection) (code : Option ℕ)
    → lookup a s.agents ≡ some conn
    → may_return s conn code ≡ false
    → IsSound s
    → IsReleased a s (unregister_agent s a conn.ws code)
unfolding unregister_agent
unregister_agent-IsReleased s a conn code c h v =
    rw (c, unregister_agent)
      (rw (==_self conn.ws) (
        rw h (record {
          released = freed.released;
          spared_heap = freed.spared_heap;
          spared = freed.spared;
        })))
  where
    freed :
        IsReleased a
          (without_agent s a)
          (fail_bindings_for_agent (without_agent s a) a disconnected_error)
    freed = fail_bindings_for_agent-IsReleased (without_agent s a) a disconnected_error v

-- The close of a socket that is not the one registered for the agent changes nothing.
pub unregister_agent-displaced :
    (s : Registry) (a : String) (conn : ClientConnection) (w : ℕ) (code : Option ℕ)
    → lookup a s.agents ≡ some conn
    → conn.ws ≢ w
    → unregister_agent s a w code ≡ s
unfolding unregister_agent
unregister_agent-displaced s a conn w code c ne =
    let other : (conn.ws == w) ≡ false = ground (arith, ==_iff conn.ws w) in
    rw (c, unregister_agent) (rw other)
