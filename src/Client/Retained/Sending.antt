-- ===== src/Client/Retained/Sending.antt =====
-- Sending and replaying, in packages/client/src/client.ts, keep the invariant of the replay buffer.
use vicoop_bridge.Prelude.{
  ℕ, ◌+◌, ◌≡◌, String, false, some, List, [], ◌∷◌, arith, refl, Bool-cases, inl, inr, option_both,
  if_both, if_cases, option_eq, string_eq,
}
use vicoop_bridge.Protocol.{UpFrame}
use vicoop_bridge.Client.State.{
  Client, PendingFrame, send, open_socket, call_socket, pending_retention_enabled,
}
use vicoop_bridge.Client.Pending.{
  number_frame, task_of, fail_reliable_run, exceeds, retain, transmit, send_frame, count_seq,
  run_of, expire_pending_frames, ready_on, schedule_pending_expiry,
}
use vicoop_bridge.Client.Pending.Sending.{
  send_reliable_failure_and_disconnect, overflows, send_numbered, send_task_frame, refuse_retained,
  flush_each, flush_pending_frames, retain_if_on, new_entry, abandon,
}
use vicoop_bridge.Client.Retained.{IsRetained}
use vicoop_bridge.Client.Retained.Laws.{write-Retains, append-Retains}
use vicoop_bridge.Client.Retained.Buffer.{
  remove_pending_execution-IsRetained, fail_reliable_run-IsRetained, fail_counted-IsRetained,
  expire_pending_frames-IsRetained,
}

pub send_frame-IsRetained : (s : Client) (f : UpFrame) → IsRetained s → IsRetained (send_frame s f)
unfolding send_frame
send_frame-IsRetained s f v = option_both (λ (z : Client). IsRetained z) (open_socket s) v λ w e. v

transmit-IsRetained : (s : Client) (f : UpFrame) → IsRetained s → IsRetained (transmit s f)
unfolding transmit
transmit-IsRetained s f v =
    option_both (λ (z : Client). IsRetained z) (open_socket s) v
      λ w e. if_both (λ (z : Client). IsRetained z) s.replay_ready v v

abandon-IsRetained : (s : Client) (x : String) → IsRetained s → IsRetained (abandon s x)
unfolding abandon
abandon-IsRetained s x v =
    option_both (λ (z : Client). IsRetained z) (run_of s x)
      (remove_pending_execution-IsRetained s x v)
      λ r found. fail_reliable_run-IsRetained s r false v

module _ (byte_length : UpFrame → ℕ) where
  send_reliable_failure_and_disconnect-IsRetained :
      (s : Client) (x t : String) (n : ℕ) (code text_ : String)
      → IsRetained s
      → IsRetained (send_reliable_failure_and_disconnect byte_length s x t n code text_)
  unfolding send_reliable_failure_and_disconnect
  send_reliable_failure_and_disconnect-IsRetained s x t n code text_ v =
      option_both (λ (z : Client). IsRetained z) (open_socket s) v
        λ w e. if_both (λ (z : Client). IsRetained z) _ v v

  -- The frame that has taken the next number of its run is kept, where retention is on.
  keep_numbered-IsRetained :
      (s : Client) (r : ℕ) (x : String) (e : PendingFrame)
      → (s.runs r).execution_id ≡ some x
      → e.execution_id ≡ x
      → e.seq ≡ (s.runs r).next_seq
      → overflows byte_length s e.bytes ≡ false
      → IsRetained s
      → IsRetained (retain_if_on (count_seq s r) e)
  unfolding retain schedule_pending_expiry
  keep_numbered-IsRetained s r x e own of seq room v =
      elim (Bool-cases (pending_retention_enabled s)) [
        | inl on ↦ rw on (
            append-Retains s.opts s.pending s.pending_bytes s.runs r
              (record (s.runs r) { next_seq = (s.runs r).next_seq + 1 }) e (rw of own) refl seq
              (omega (arith, seq)) (ground (arith, on, room)) (ground (arith, on, room)) on v)
        | inr off ↦ rw off (
            write-Retains s.opts s.pending s.pending_bytes s.runs r
              (record (s.runs r) { next_seq = (s.runs r).next_seq + 1 }) refl
              (λ y h. rw (v.none_if_off off) tt) v)
      ]

  send_numbered-IsRetained :
      (s : Client) (r : ℕ) (t x : String) (f : UpFrame)
      → (s.runs r).suppressed ≡ false
      → (s.runs r).execution_id ≡ some x
      → IsRetained s
      → IsRetained (send_numbered byte_length (count_seq s r) r t x (s.runs r).next_seq f)
  unfolding send_numbered
  send_numbered-IsRetained s r t x f live own v =
      if_cases (λ (z : Client). IsRetained z) (overflows byte_length s (byte_length f))
        (λ full.
          send_reliable_failure_and_disconnect-IsRetained
            (fail_reliable_run (count_seq s r) r false) x t (s.runs r).next_seq
            "client_buffer_overflow" "client unacknowledged frame buffer limit exceeded"
            (fail_counted-IsRetained s r x live own v))
        λ room.
          transmit-IsRetained (retain_if_on (count_seq s r) entry) f
            (keep_numbered-IsRetained s r x entry own refl refl room v)
    where
      entry : PendingFrame
      entry = new_entry byte_length s t x (s.runs r).next_seq f

  pub send_task_frame-IsRetained :
      (s : Client) (r : ℕ) (f : UpFrame)
      → IsRetained s
      → IsRetained (send_task_frame byte_length s r f)
  unfolding send_task_frame
  send_task_frame-IsRetained s r f v =
      if_cases (λ (z : Client). IsRetained z) (s.runs r).suppressed (λ quiet. v)
        λ live.
          option_both (λ (z : Client). IsRetained z) (s.runs r).execution_id
            (send_frame-IsRetained s f v)
            λ x own.
              send_numbered-IsRetained s r (task_of f) x (number_frame f x (s.runs r).next_seq) live
                own v

  refuse_retained-IsRetained :
      (s : Client) (e : PendingFrame) → IsRetained s → IsRetained (refuse_retained byte_length s e)
  unfolding refuse_retained
  refuse_retained-IsRetained s e v =
      send_reliable_failure_and_disconnect-IsRetained (abandon s e.execution_id) e.execution_id
        e.task_id e.seq "client_buffer_overflow"
        "retained client frame exceeds the negotiated server limit"
        (abandon-IsRetained s e.execution_id v)

  flush_each-IsRetained :
      (s : Client) (w : ℕ) (es : List PendingFrame)
      → IsRetained s
      → IsRetained (flush_each byte_length s w es)
  unfolding flush_each
  flush_each-IsRetained s w [] v = v
  flush_each-IsRetained s w (e ∷ rest) v =
      if_both (λ (z : Client). IsRetained z) (exceeds s.max_frame_bytes e.bytes)
        (refuse_retained-IsRetained s e v)
        (flush_each-IsRetained (call_socket s w (send e.encoded)) w rest v)

  pub flush_pending_frames-IsRetained :
      (s : Client) (w : ℕ) → IsRetained s → IsRetained (flush_pending_frames byte_length s w)
  unfolding flush_pending_frames
  flush_pending_frames-IsRetained s w v =
      if_both (λ (z : Client). IsRetained z) (ready_on s w)
        (if_both (λ (z : Client). IsRetained z) (ready_on expired w)
          (flush_each-IsRetained expired w expired.pending (expire_pending_frames-IsRetained s v))
          (expire_pending_frames-IsRetained s v))
        v
    where
      expired : Client
      expired = expire_pending_frames s
