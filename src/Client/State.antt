-- ===== src/Client/State.antt =====
-- The state of packages/client/src/client.ts that outlives a connection, and what a connection
-- negotiated.
--
-- A `ClientRun` is an object that the table of tasks and the callbacks of a backend share, so runs
-- live in a heap and a reference is a number. A socket is a number; `calls` lists what was called
-- on it, oldest first, and `is_open` is whether its `readyState` is OPEN. `now` is `Date.now()`.
use vicoop_bridge.Prelude.{
  ℕ, ◌*◌, String, Bool, true, false, ◌&&◌, Option, none, some, List, [], ◌∷◌, ◌++◌, Dict, ltb,
}
use vicoop_bridge.Protocol.{UpFrame, ApprovalDecision}
use vicoop_bridge.Server.State.{update}

-- A number of the options, as the code reads it: it may be left out, infinite or not a number,
-- negative, or have this floor.
pub data Setting : Type 0 where
  unset not_finite negative : Setting
  at_least : ℕ → Setting

-- The options that the connection reads, and what the client knows of its backend.
pub record ClientOptions : Type 0 where
  pub agent_id : String
  pub token : String
  pub backend_kind : Option String
  pub heartbeat_interval_ms : Option ℕ  -- 0 also stands for a negative one
  pub reconnect_stable_ms : Option ℕ  -- 0 also stands for a negative one
  pub max_pending_frames : Setting
  pub max_pending_bytes : Setting
  pub max_pending_age_ms : Setting
  pub collision_backoff_ms : Option ℕ
  pub requires_caller_scope : Bool
  pub remote_approvals : Bool
  pub has_usage : Bool  -- does the backend answer usage queries?

pub record ClientRun : Type 0 where
  pub aborted : Bool  -- `controller.signal.aborted`
  pub suppressed : Bool
  pub execution_id : Option String
  pub next_seq : ℕ

-- `encoded` is the frame whose text is kept.
pub record PendingFrame : Type 0 where
  pub task_id : String
  pub execution_id : String
  pub seq : ℕ
  pub encoded : UpFrame
  pub bytes : ℕ
  pub created_at : ℕ

pub data SocketCall : Type 0 where
  send : UpFrame → SocketCall
  send_and_terminate : UpFrame → SocketCall  -- terminated once it has been flushed
  terminate close ping : SocketCall

pub record Client : Type 0 where
  pub opts : ClientOptions
  pub now : ℕ
  pub ws : Option ℕ
  pub is_open : ℕ → Bool
  pub calls : ℕ → List SocketCall
  pub stopped : Bool
  pub fatal : Option ℕ  -- the code that `onFatal` was told
  pub reconnect_attempt : ℕ
  pub reconnect_timer : Option ℕ  -- when it fires
  pub reset_timer : Option ℕ  -- the socket that has to stay open until it fires
  pub heartbeat : Option ℕ  -- the socket of the heartbeat's interval
  pub awaiting_pong : Bool
  pub inflight : Dict String ℕ
  pub runs : ℕ → ClientRun
  pub next_run : ℕ
  pub pending : List PendingFrame
  pub pending_bytes : ℕ
  pub expiry_timer : Option ℕ  -- when it fires
  pub replay_ready : Bool
  pub approvals_ready : Bool
  pub caller_scope_ready : Bool
  pub federated_scope_ready : Bool
  pub max_frame_bytes : Option ℕ  -- `negotiatedMaxFrameBytes`
  -- what `approvals.resolve` was called with: task, execution, request and decision, oldest first
  pub resolutions : List (String × String × String × ApprovalDecision)

abbrev pub limit_or : Setting → ℕ → ℕ
limit_or unset default = default
limit_or not_finite default = default
limit_or negative default = 0
limit_or (at_least n) default = n

abbrev pub pending_frame_limit : Client → ℕ
pending_frame_limit s = limit_or s.opts.max_pending_frames 2000

abbrev pub pending_byte_limit : Client → ℕ
pending_byte_limit s = limit_or s.opts.max_pending_bytes (4 * 1024 * 1024)

abbrev pub pending_age_limit : Client → ℕ
pending_age_limit s = limit_or s.opts.max_pending_age_ms 60000

abbrev pub pending_retention_enabled : Client → Bool
pending_retention_enabled s =
    ltb 0 (pending_frame_limit s) && ltb 0 (pending_byte_limit s) && ltb 0 (pending_age_limit s)

-- A write through a reference to a run.
abbrev pub write_run : Client → ℕ → ClientRun → Client
write_run s r run = record s { runs = update s.runs r run }

abbrev pub call_socket : Client → ℕ → SocketCall → Client
call_socket s w c = record s { calls = update s.calls w (s.calls w ++ c ∷ []) }

-- `ws.terminate()` or `ws.close()`: from then on the socket is not open.
abbrev pub end_socket : Client → ℕ → SocketCall → Client
end_socket s w c = record s {
  calls = update s.calls w (s.calls w ++ c ∷ []);
  is_open = update s.is_open w false;
}

abbrev pub terminate_socket : Client → ℕ → Client
terminate_socket s w = end_socket s w terminate

-- `this.ws`, if it is open
abbrev pub open_socket : Client → Option ℕ
open_socket s = elim s.ws [
  | none ↦ none
  | some w ↦ elim (s.is_open w) [ true ↦ some w | false ↦ none ]
]

unfoldable pub new_client : ClientOptions → Client
new_client opts = record {
  opts = opts;
  now = 0;
  ws = none;
  is_open = λ w. false;
  calls = λ w. [];
  stopped = false;
  fatal = none;
  reconnect_attempt = 0;
  reconnect_timer = none;
  reset_timer = none;
  heartbeat = none;
  awaiting_pong = false;
  resolutions = [];
  inflight = [];
  runs = λ r. record { aborted = false; suppressed = false; execution_id = none; next_seq = 0 };
  next_run = 0;
  pending = [];
  pending_bytes = 0;
  expiry_timer = none;
  replay_ready = false;
  approvals_ready = false;
  caller_scope_ready = false;
  federated_scope_ready = false;
  max_frame_bytes = none;
}
