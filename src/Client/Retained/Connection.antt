-- ===== src/Client/Retained/Connection.antt =====
-- The handlers of packages/client/src/client.ts keep the invariant of the replay buffer.
use vicoop_bridge.Prelude.{
  ℕ, String, Bool, true, false, not, ◌||◌, ◌&&◌, Option, none, some, List, ◌==◌, nat_eq, option_eq,
  option_both, if_both, includes, is_some, string_eq,
}
use vicoop_bridge.Protocol.{UpFrame, DownFrame, task_replay_capability}
use vicoop_bridge.Client.State.{Client}
use vicoop_bridge.Client.Pending.{drop_pending_frames}
use vicoop_bridge.Client.Connection.{
  connect, stop, refuse_isolation, negotiate, on_hello_ack, on_task_assign, handle_usage_request,
  on_frame, on_message, schedule_reconnect, without_socket, lose_socket, give_up, on_close,
  on_reconnect_timer, schedule_reconnect_attempt_reset, on_reset_timer, start_heartbeat,
  on_heartbeat, on_pong, on_open, send_hello, on_sent,
}
use vicoop_bridge.Client.Connection.Runs.{abort_runs}
use vicoop_bridge.Client.Retained.{IsRetained}
use vicoop_bridge.Client.Retained.Buffer.{
  drop_pending_frames-IsRetained, acknowledge_frames-IsRetained,
}
use vicoop_bridge.Client.Retained.Sending.{send_frame-IsRetained, flush_pending_frames-IsRetained}
use vicoop_bridge.Client.Retained.Runs.{
  IsNew, begin_run-IsRetained, cancel_task-IsRetained, abort_runs-IsRetained,
  abort_unretained_runs-IsRetained,
}

-- A message is new if the execution that it assigns is.
abbrev pub IsNewFrame : Client → DownFrame → Type 0
IsNewFrame s (DownFrame.task_assign t o federated) = IsNew s o
IsNewFrame s _ = Unit

abbrev pub IsNewMessage : Client → Option DownFrame → Type 0
IsNewMessage s none = Unit
IsNewMessage s (some f) = IsNewFrame s f

pub connect-IsRetained : (s : Client) (w : ℕ) → IsRetained s → IsRetained (connect s w)
unfolding connect
connect-IsRetained s w v = if_both (λ (z : Client). IsRetained z) s.stopped v v

pub stop-IsRetained : (s : Client) → IsRetained s → IsRetained (stop s)
unfolding stop
stop-IsRetained s v = option_both (λ (z : Client). IsRetained z) _ dropped λ w e. dropped
  where
    stopping : Client
    stopping = record s {
      stopped = true;
      reconnect_timer = none;
      reset_timer = none;
      heartbeat = none;
      awaiting_pong = false;
    }

    dropped : IsRetained (drop_pending_frames (abort_runs stopping))
    dropped =
        drop_pending_frames-IsRetained (abort_runs stopping) (abort_runs-IsRetained stopping v)

refuse_isolation-IsRetained : (s : Client) → IsRetained s → IsRetained (refuse_isolation s)
unfolding refuse_isolation
refuse_isolation-IsRetained s v = stop-IsRetained s v

on_hello_ack-IsRetained :
    (byte_length : UpFrame → ℕ) (s : Client) (w : ℕ) (cs : List String) (max_ : ℕ)
    → IsRetained s
    → IsRetained (on_hello_ack byte_length s w cs max_)
unfolding on_hello_ack
on_hello_ack-IsRetained byte_length s w cs max_ v =
    if_both (λ (z : Client). IsRetained z) _ (refuse_isolation-IsRetained (negotiate s cs) v)
      (if_both (λ (z : Client). IsRetained z) (not (includes cs task_replay_capability)) v
        (flush_pending_frames-IsRetained byte_length
          (record (negotiate s cs) { replay_ready = true; max_frame_bytes = some max_ }) w v))

on_task_assign-IsRetained :
    (s : Client) (t : String) (o : Option String) (federated : Bool)
    → IsNew s o
    → IsRetained s
    → IsRetained (on_task_assign s t o federated)
unfolding on_task_assign
on_task_assign-IsRetained s t o federated fresh v =
    if_both (λ (z : Client). IsRetained z) _ (refuse_isolation-IsRetained s v)
      (begin_run-IsRetained (record s { replay_ready = s.replay_ready && is_some o }) t o fresh v)

on_frame-IsRetained :
    (byte_length : UpFrame → ℕ) (s : Client) (w : ℕ) (f : DownFrame)
    → IsNewFrame s f
    → IsRetained s
    → IsRetained (on_frame byte_length s w f)
unfolding on_frame handle_usage_request
on_frame-IsRetained byte_length s w (DownFrame.hello_ack cs g max_) n v =
    on_hello_ack-IsRetained byte_length s w cs max_ v
on_frame-IsRetained byte_length s w (DownFrame.approval_resolve t x q d) n v =
    if_both (λ (z : Client). IsRetained z) s.approvals_ready v v
on_frame-IsRetained byte_length s w (DownFrame.task_ack t x k) n v =
    acknowledge_frames-IsRetained s x k v
on_frame-IsRetained byte_length s w (DownFrame.task_assign t o federated) n v =
    on_task_assign-IsRetained s t o federated n v
on_frame-IsRetained byte_length s w (DownFrame.task_cancel t o) n v = cancel_task-IsRetained s t o v
on_frame-IsRetained byte_length s w DownFrame.ping n v = send_frame-IsRetained s UpFrame.pong v
on_frame-IsRetained byte_length s w (DownFrame.usage_request q) n v =
    if_both (λ (z : Client). IsRetained z) s.opts.has_usage v
      (send_frame-IsRetained s (UpFrame.usage_response q) v)

pub on_message-IsRetained :
    (byte_length : UpFrame → ℕ) (s : Client) (w : ℕ) (m : Option DownFrame)
    → IsNewMessage s m
    → IsRetained s
    → IsRetained (on_message byte_length s w m)
unfolding on_message
on_message-IsRetained byte_length s w none n v = v
on_message-IsRetained byte_length s w (some f) n v =
    if_both (λ (z : Client). IsRetained z) (s.ws == some w)
      (on_frame-IsRetained byte_length s w f n v) v

schedule_reconnect-IsRetained :
    (s : Client) (computed floor : ℕ)
    → IsRetained s
    → IsRetained (schedule_reconnect s computed floor)
unfolding schedule_reconnect
schedule_reconnect-IsRetained s computed floor v =
    if_both (λ (z : Client). IsRetained z) (s.stopped || is_some s.reconnect_timer) v v

lose_socket-IsRetained : (s : Client) → IsRetained s → IsRetained (lose_socket s)
unfolding lose_socket
lose_socket-IsRetained s v = abort_unretained_runs-IsRetained (without_socket s) v

give_up-IsRetained : (s : Client) (code : ℕ) → IsRetained s → IsRetained (give_up s code)
unfolding give_up
give_up-IsRetained s code v =
    drop_pending_frames-IsRetained (abort_runs given_up) (abort_runs-IsRetained given_up v)
  where
    given_up : Client
    given_up = record s { stopped = true; reconnect_timer = none }

pub on_close-IsRetained :
    (s : Client) (w code computed : ℕ) → IsRetained s → IsRetained (on_close s w code computed)
unfolding on_close
on_close-IsRetained s w code computed v =
    if_both (λ (z : Client). IsRetained z) (not (s.ws == some w)) v
      (if_both (λ (z : Client). IsRetained z) _ (give_up-IsRetained (lose_socket s) code lost)
        (if_both (λ (z : Client). IsRetained z) (code == 4009)
          (schedule_reconnect-IsRetained (lose_socket s) computed _ lost)
          (schedule_reconnect-IsRetained (lose_socket s) computed 0 lost)))
  where
    lost : IsRetained (lose_socket s)
    lost = lose_socket-IsRetained s v

pub on_reconnect_timer-IsRetained :
    (s : Client) (w : ℕ) → IsRetained s → IsRetained (on_reconnect_timer s w)
unfolding on_reconnect_timer
on_reconnect_timer-IsRetained s w v =
    option_both (λ (z : Client). IsRetained z) s.reconnect_timer v
      λ due e.
        if_both (λ (z : Client). IsRetained z) _
          (connect-IsRetained (record s { reconnect_timer = none }) w v) v

pub on_reset_timer-IsRetained : (s : Client) → IsRetained s → IsRetained (on_reset_timer s)
unfolding on_reset_timer
on_reset_timer-IsRetained s v =
    option_both (λ (z : Client). IsRetained z) s.reset_timer v
      λ w e.
        if_both (λ (z : Client). IsRetained z) (not s.stopped && (s.ws == some w) && s.is_open w) v
          v

pub on_heartbeat-IsRetained :
    (s : Client) (throws : Bool) → IsRetained s → IsRetained (on_heartbeat s throws)
unfolding on_heartbeat
on_heartbeat-IsRetained s throws v =
    option_both (λ (z : Client). IsRetained z) s.heartbeat v
      λ w e.
        if_both (λ (z : Client). IsRetained z)
          (s.stopped || not (s.ws == some w) || not (s.is_open w)) v
          (if_both (λ (z : Client). IsRetained z) s.awaiting_pong v
            (if_both (λ (z : Client). IsRetained z) throws v v))

pub on_pong-IsRetained : (s : Client) (w : ℕ) → IsRetained s → IsRetained (on_pong s w)
unfolding on_pong
on_pong-IsRetained s w v = if_both (λ (z : Client). IsRetained z) (s.ws == some w) v v

pub on_open-IsRetained : (s : Client) (w : ℕ) → IsRetained s → IsRetained (on_open s w)
unfolding on_open start_heartbeat schedule_reconnect_attempt_reset
on_open-IsRetained s w v = if_both (λ (z : Client). IsRetained z) _ v v

pub send_hello-IsRetained :
    (s : Client) (w : ℕ) (card : Option String) → IsRetained s → IsRetained (send_hello s w card)
unfolding send_hello
send_hello-IsRetained s w card v = if_both (λ (z : Client). IsRetained z) (s.is_open w) v v

pub on_sent-IsRetained : (s : Client) (w : ℕ) → IsRetained s → IsRetained (on_sent s w)
unfolding on_sent
on_sent-IsRetained s w v = if_both (λ (z : Client). IsRetained z) (s.ws == some w) v v
