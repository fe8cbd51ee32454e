-- ===== src/Client/Fixtures.antt =====
-- A client with one run that has sent three frames, for the tests.
use vicoop_bridge.Prelude.{ℕ, refl, true, false, none, some, [], ◌∷◌, nat_eq, string_eq, option_eq}
use vicoop_bridge.Protocol.{UpFrame, DownFrame, task_fail, task_replay_capability}
use vicoop_bridge.Client.State.{unset, at_least, ClientOptions, Client, new_client}
use vicoop_bridge.Client.Connection.{connect, on_message}
use vicoop_bridge.Client.Connection.Runs.{emit_frame}
use vicoop_bridge.Server.State.{update}
use vicoop_bridge.Client.Reachable.{IsReachable, starts, then_, connects, turns, hears, emits}

abbrev pub options : ClientOptions
options = record {
  agent_id = "alpha";
  token = "secret";
  backend_kind = some "echo";
  heartbeat_interval_ms = none;
  reconnect_stable_ms = none;
  max_pending_frames = at_least 8;
  max_pending_bytes = at_least 4096;
  max_pending_age_ms = unset;
  collision_backoff_ms = none;
  requires_caller_scope = false;
  remote_approvals = false;
  has_usage = false;
}

-- Every frame is taken to have ten bytes.
abbrev pub ten : UpFrame → ℕ
ten f = 10

abbrev pub note : UpFrame
note =
    task_fail (record { task_id = "t1"; execution_id = none; seq = none })
      (record { code = "c"; message = "m" })

abbrev opened : Client
opened = record (connect (new_client options) 7) { is_open = update (λ w. false) 7 true }

abbrev pub hello_ack : DownFrame
hello_ack = DownFrame.hello_ack (task_replay_capability ∷ []) 30000 65536

abbrev ready : Client
ready = on_message ten opened 7 (some hello_ack)

abbrev assign : DownFrame
assign = DownFrame.task_assign "t1" (some "e1") false

abbrev working : Client
working = on_message ten ready 7 (some assign)

abbrev three_sent : Client
three_sent = emit_frame ten (emit_frame ten (emit_frame ten working 0 note) 0 note) 0 note

abbrev pub one_acknowledged : Client
one_acknowledged = on_message ten three_sent 7 (some (DownFrame.task_ack "t1" "e1" 0))

pub one_acknowledged-IsReachable : IsReachable ten options one_acknowledged
unfolding new_client connect on_message
one_acknowledged-IsReachable =
    then_
      (then_
        (then_
          (then_
            (then_
              (then_ (then_ (then_ starts (connects 7)) (turns 7 true))
                (hears 7 (some hello_ack) tt))
              (hears 7 (some assign) λ x e. (refl, λ r h. cc)))
            (emits 0 note))
          (emits 0 note))
        (emits 0 note))
      (hears 7 (some (DownFrame.task_ack "t1" "e1" 0)) tt)
