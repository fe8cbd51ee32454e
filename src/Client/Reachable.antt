-- ===== src/Client/Reachable.antt =====
-- The events of packages/client/src/client.ts as steps of a relation, and the clients that any
-- interleaving of them reaches.
use vicoop_bridge.Prelude.{ℕ, ◌+◌, refl, String, Bool, Option, arith}
use vicoop_bridge.Protocol.{UpFrame, DownFrame}
use vicoop_bridge.Server.State.{update}
use vicoop_bridge.Client.State.{ClientOptions, Client, new_client}
use vicoop_bridge.Client.Pending.{on_expiry_timer, send_frame}
use vicoop_bridge.Client.Connection.{
  connect, stop, on_message, on_close, on_reconnect_timer, on_reset_timer, on_heartbeat, on_pong,
  on_open, send_hello, on_sent,
}
use vicoop_bridge.Client.Connection.Runs.{emit_frame, end_run}
use vicoop_bridge.Client.Retained.{IsRetained}
use vicoop_bridge.Client.Retained.Buffer.{on_expiry_timer-IsRetained}
use vicoop_bridge.Client.Retained.Sending.{send_frame-IsRetained}
use vicoop_bridge.Client.Retained.Runs.{emit_frame-IsRetained, end_run-IsRetained}
use vicoop_bridge.Client.Retained.Connection.{
  IsNewMessage, connect-IsRetained, stop-IsRetained, on_message-IsRetained, on_close-IsRetained,
  on_reconnect_timer-IsRetained, on_reset_timer-IsRetained, on_heartbeat-IsRetained,
  on_pong-IsRetained, on_open-IsRetained, send_hello-IsRetained, on_sent-IsRetained,
}

module _ (byte_length : UpFrame → ℕ) where
  -- One event. Sockets, timers and backends act in any order. The only promise of the server is
  -- that it names no execution twice.
  pub data Step (s : Client) : Client → Type 0 where
    time_passes : (ms : ℕ) → Step s (record s { now = s.now + ms })
    -- The network opens a socket, or it stops being open.
    turns : (w : ℕ) (is_open : Bool) → Step s (record s { is_open = update s.is_open w is_open })
    connects : (w : ℕ) → Step s (connect s w)
    opens : (w : ℕ) → Step s (on_open s w)
    says_hello : (w : ℕ) (card : Option String) → Step s (send_hello s w card)
    hears :
        (w : ℕ) (m : Option DownFrame) → IsNewMessage s m → Step s (on_message byte_length s w m)
    hears_pong : (w : ℕ) → Step s (on_pong s w)
    has_sent : (w : ℕ) → Step s (on_sent s w)
    closes : (w code computed : ℕ) → Step s (on_close s w code computed)
    emits : (r : ℕ) (f : UpFrame) → Step s (emit_frame byte_length s r f)
    finishes : (t : String) (r : ℕ) → Step s (end_run s t r)
    answers_usage : (q : String) → Step s (send_frame s (UpFrame.usage_response q))
    expires : Step s (on_expiry_timer s)
    reconnects : (w : ℕ) → Step s (on_reconnect_timer s w)
    resets : Step s (on_reset_timer s)
    beats : (throws : Bool) → Step s (on_heartbeat s throws)
    stops : Step s (stop s)

  pub data IsReachable (o : ClientOptions) : Client → Type 0 where
    starts : IsReachable o (new_client o)
    then_ : {s s' : Client} → IsReachable o s → Step s s' → IsReachable o s'

  Step-IsRetained : {s s' : Client} → Step s s' → IsRetained s → IsRetained s'
  Step-IsRetained (time_passes ms) v = v
  Step-IsRetained (turns w is_open) v = v
  Step-IsRetained {s} (connects w) v = connect-IsRetained s w v
  Step-IsRetained {s} (opens w) v = on_open-IsRetained s w v
  Step-IsRetained {s} (says_hello w card) v = send_hello-IsRetained s w card v
  Step-IsRetained {s} (hears w m fresh) v = on_message-IsRetained byte_length s w m fresh v
  Step-IsRetained {s} (hears_pong w) v = on_pong-IsRetained s w v
  Step-IsRetained {s} (has_sent w) v = on_sent-IsRetained s w v
  Step-IsRetained {s} (closes w code computed) v = on_close-IsRetained s w code computed v
  Step-IsRetained {s} (emits r f) v = emit_frame-IsRetained byte_length s r f v
  Step-IsRetained {s} (finishes t r) v = end_run-IsRetained s t r v
  Step-IsRetained {s} (answers_usage q) v = send_frame-IsRetained s (UpFrame.usage_response q) v
  Step-IsRetained {s} expires v = on_expiry_timer-IsRetained s v
  Step-IsRetained {s} (reconnects w) v = on_reconnect_timer-IsRetained s w v
  Step-IsRetained {s} resets v = on_reset_timer-IsRetained s v
  Step-IsRetained {s} (beats throws) v = on_heartbeat-IsRetained s throws v
  Step-IsRetained {s} stops v = stop-IsRetained s v

  new_client-IsRetained : (o : ClientOptions) → IsRetained (new_client o)
  unfolding new_client
  new_client-IsRetained o = record {
    counted = refl;
    few = omega arith;
    small = omega arith;
    none_if_off = λ off. refl;
    chained = λ r x h. tt;
    alone = λ q r x h k. cc;
  }

  -- In every client that any sequence of events reaches (sockets, frames, acknowledgements,
  -- cancellations, backends, timers, a stop), if the server names no execution twice: the retained
  -- bytes are counted, they and the retained frames are within the limits of the options, nothing
  -- is retained where retention is off, no two runs have the same execution, and what is retained
  -- of a run's execution are its last frames, in order and without a gap.
  pub IsReachable-IsRetained : {o : ClientOptions} {s : Client} → IsReachable o s → IsRetained s
  IsReachable-IsRetained {o} starts = new_client-IsRetained o
  IsReachable-IsRetained (then_ h step) = Step-IsRetained step (IsReachable-IsRetained h)
