-- ===== src/Client/Pending/Sending.antt =====
-- How packages/client/src/client.ts sends the frames of a run, and replays them after a reconnect.
--
-- `byte_length` is the length of a frame's JSON in UTF-8.
use vicoop_bridge.Prelude.{
  ℕ, ◌+◌, String, Bool, false, not, ◌&&◌, ◌||◌, none, some, List, [], ◌∷◌, ltb, leb, if◌then◌else◌,
  length,
}
use vicoop_bridge.Protocol.{UpFrame, task_fail}
use vicoop_bridge.Client.State.{
  Client, PendingFrame, send, send_and_terminate, pending_frame_limit, pending_byte_limit,
  pending_retention_enabled, call_socket, terminate_socket, open_socket,
}
use vicoop_bridge.Client.Pending.{
  number_frame, task_of, remove_pending_execution, fail_reliable_run, exceeds, retain, transmit,
  send_frame, count_seq, run_of, expire_pending_frames, ready_on,
}

abbrev pub retain_if_on : Client → PendingFrame → Client
retain_if_on s e = if pending_retention_enabled s then retain s e else s

-- Release an execution: by its run, if that is still in flight.
unfoldable pub abandon : Client → String → Client
unfolding run_of fail_reliable_run remove_pending_execution
abandon s x = elim (run_of s x) [
  | some r ↦ fail_reliable_run s r false
  | none ↦ remove_pending_execution s x
]

module _ (byte_length : UpFrame → ℕ) where
  abbrev pub failure_frame : (x task_id : String) (seq : ℕ) (code message : String) → UpFrame
  failure_frame x task_id seq code message =
      task_fail (record { task_id = task_id; execution_id = some x; seq = some seq })
        (record { code = code; message = message })

  -- A small terminal at the number of a frame that cannot be sent; the socket ends after it.
  unfoldable pub send_reliable_failure_and_disconnect :
      Client → (x task_id : String) → ℕ → (code message : String) → Client
  send_reliable_failure_and_disconnect s x task_id seq code message = elim (open_socket s) [
    | none ↦ s
    | some w ↦
        let f = failure_frame x task_id seq code message in
        if not s.replay_ready || exceeds s.max_frame_bytes (byte_length f)
        then terminate_socket s w
        else call_socket s w (send_and_terminate f)
  ]

  -- Is there no room for a frame of this many bytes?
  abbrev pub overflows : Client → ℕ → Bool
  overflows s bytes =
      exceeds s.max_frame_bytes bytes
      || pending_retention_enabled s
        && (ltb (pending_byte_limit s) bytes
            || leb (pending_frame_limit s) (length s.pending)
            || ltb (pending_byte_limit s) (s.pending_bytes + bytes))

  abbrev pub new_entry : Client → (task_id x : String) → ℕ → UpFrame → PendingFrame
  new_entry s task_id x seq f = record {
    task_id = task_id;
    execution_id = x;
    seq = seq;
    encoded = f;
    bytes = byte_length f;
    created_at = s.now;
  }

  -- The part of `sendTaskFrame` after the frame has its number.
  unfoldable pub send_numbered : Client → ℕ → (task_id x : String) → ℕ → UpFrame → Client
  unfolding retain transmit fail_reliable_run send_reliable_failure_and_disconnect
  send_numbered s r task_id x seq f =
      if overflows s (byte_length f)
      then send_reliable_failure_and_disconnect (fail_reliable_run s r false) x task_id seq
          "client_buffer_overflow" "client unacknowledged frame buffer limit exceeded"
      else transmit (retain_if_on s (new_entry s task_id x seq f)) f

  unfoldable pub send_task_frame : Client → ℕ → UpFrame → Client
  unfolding send_numbered send_frame
  send_task_frame s r f = if (s.runs r).suppressed then s else elim (s.runs r).execution_id [
    | none ↦ send_frame s f
    | some x ↦
        let seq = (s.runs r).next_seq in
        send_numbered (count_seq s r) r (task_of f) x seq (number_frame f x seq)
  ]

  -- A retained frame that the server would refuse ends its execution, at its own number.
  unfoldable pub refuse_retained : Client → PendingFrame → Client
  unfolding abandon send_reliable_failure_and_disconnect
  refuse_retained s e =
      send_reliable_failure_and_disconnect (abandon s e.execution_id) e.execution_id e.task_id e.seq
        "client_buffer_overflow" "retained client frame exceeds the negotiated server limit"

  unfoldable pub flush_each : Client → ℕ → List PendingFrame → Client
  unfolding refuse_retained
  flush_each s w [] = s
  flush_each s w (e ∷ rest) =
      let more = flush_each (call_socket s w (send e.encoded)) w rest in
      if exceeds s.max_frame_bytes e.bytes then refuse_retained s e else more

  unfoldable pub flush_pending_frames : Client → ℕ → Client
  unfolding expire_pending_frames flush_each
  flush_pending_frames s w =
      if ready_on s w
      then (let s1 = expire_pending_frames s in
          if ready_on s1 w then flush_each s1 w s1.pending else s1)
      else s
