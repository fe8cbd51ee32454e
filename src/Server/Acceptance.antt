-- ===== src/Server/Acceptance.antt =====
-- `acceptTaskFrame` of packages/server/src/ws.ts and what it calls: whether a task frame of an
-- authenticated connection belongs to the current execution of its task, in sequence.
pub mod Laws
pub mod Effect
pub mod Preservation
pub mod Once
pub mod Rejected
pub mod Replay
use vicoop_bridge.Prelude.{
  ℕ, ◌+◌, ◌-◌, String, Bool, true, false, not, ◌||◌, Option, none, some, ◌==◌, string_eq, nat_eq,
  option_eq, ltb, if◌then◌else◌, is_some, get_or, ◌⧺◌, decimal,
}
use vicoop_bridge.Protocol.{TaskRef, DownFrame}
use vicoop_bridge.Server.State.{Registry, send, update, call_ws}
use vicoop_bridge.Server.Approvals.{get_binding, send_to_agent}
use vicoop_bridge.Server.Registry.{fail_task_binding, resume_binding}
use vicoop_bridge.Server.Receipts.{get_terminal_receipt}

-- What one call of a handler knows of its connection: its socket, whether that is open, and the
-- agent that it has authenticated as.
pub record Peer : Type 0 where
  pub ws : ℕ
  pub is_open : Bool
  pub agent_id : Option String

pub data Acceptance : Type 0 where
  accepted : ℕ → Acceptance
  handled unknown : Acceptance

abbrev pub send_if_open : Peer → Registry → DownFrame → Registry
send_if_open p s frame = if p.is_open then call_ws s p.ws (send frame) else s

unfoldable pub acknowledge : Peer → Registry → ℕ → Registry
unfolding call_ws
acknowledge p s r = elim (s.heap r).execution_id [
  | none ↦ s
  | some execution_id ↦ elim (s.heap r).next_client_seq [
    | none ↦ s
    | some next ↦ send_if_open p s (DownFrame.task_ack (s.heap r).task_id execution_id (next - 1))
  ]
]

acknowledge_found :
    Peer → (task_id execution_id : String) (seq : ℕ) → Registry × Option ℕ → Registry × Bool
unfolding call_ws
acknowledge_found p task_id execution_id seq (s, none) = (s, false)
acknowledge_found p task_id execution_id seq (s, some accepted_seq) =
    if ltb accepted_seq seq
    then (s, false)
    else (send_if_open p s (DownFrame.task_ack task_id execution_id accepted_seq), true)

unfoldable pub acknowledge_receipt : Peer → Registry → TaskRef → Registry × Bool
unfolding acknowledge_found get_terminal_receipt
acknowledge_receipt p s f = elim p.agent_id [
  | none ↦ (s, false)
  | some agent_id ↦ elim f.execution_id [
    | none ↦ (s, false)
    | some execution_id ↦ elim f.seq [
      | none ↦ (s, false)
      | some seq ↦
          acknowledge_found p f.task_id execution_id seq
            (get_terminal_receipt s execution_id agent_id f.task_id)
    ]
  ]
]

-- The binding of a task, if this connection's agent owns it.
unfoldable pub owned_binding : Peer → Registry → String → Option ℕ
owned_binding p s task_id = elim (get_binding s task_id) [
  | none ↦ none
  | some r ↦ if some (s.heap r).agent_id == p.agent_id then some r else none
]

abbrev missing_id_message : String
missing_id_message = "client frame execution id is required for a replay-capable execution"

abbrev missing_seq_message : String
missing_seq_message = "client frame sequence is required for a replay-capable execution"

abbrev pub gap_message : ℕ → ℕ → String
gap_message expected got =
    "client frame sequence gap: expected " ⧺ decimal expected ⧺ ", received " ⧺ decimal got

-- Fail an execution whose stream can no longer be complete, and stop its client.
unfoldable pub fail_closed : Registry → ℕ → (code message : String) → Registry × Acceptance
unfolding fail_task_binding send_to_agent
fail_closed s r code message =
    let s1 = fail_task_binding s r code message in
    (
      (send_to_agent s1 (s1.heap r).agent_id
          (DownFrame.task_cancel (s1.heap r).task_id (s1.heap r).execution_id)).0,
      handled,
    )

-- An accepted frame proves that its binding survived the reconnect.
unfoldable pub accept_and_resume : Peer → Registry → TaskRef → ℕ → Registry × Acceptance
unfolding resume_binding
accept_and_resume p s f r = elim p.agent_id [
  | none ↦ (s, accepted r)
  | some agent_id ↦ (resume_binding s f.task_id agent_id, accepted r)
]

-- `binding.nextClientSeq = expected + 1`
unfoldable pub next_expected : Registry → ℕ → Registry
next_expected s r =
    let b = s.heap r in
    record s {
      heap = update s.heap r (record b { next_client_seq = some (get_or b.next_client_seq 0 + 1) });
    }

-- The last part of the replay branch: the frame is of the current execution and has a number.
unfoldable pub accept_seq : Peer → Registry → TaskRef → ℕ → ℕ → Registry × Acceptance
unfolding acknowledge resume_binding fail_closed accept_and_resume next_expected
accept_seq p s f r seq =
    let b = s.heap r in
    let expected = get_or b.next_client_seq 0 in
    if ltb seq expected
    then (resume_binding (acknowledge p s r) f.task_id b.agent_id, handled)
    else (if ltb expected seq
        then fail_closed s r "client_frame_gap" (gap_message expected seq)
        else accept_and_resume p (next_expected s r) f r)

unfoldable pub accept_replayable : Peer → Registry → TaskRef → ℕ → String → Registry × Acceptance
unfolding acknowledge_receipt fail_closed accept_seq
accept_replayable p s f r execution_id = elim f.execution_id [
  | none ↦ fail_closed s r "client_frame_execution_id_missing" missing_id_message
  | some frame_execution_id ↦
      if not (frame_execution_id == execution_id)
      then ((acknowledge_receipt p s f).0, handled)
      else elim f.seq [
        | none ↦ fail_closed s r "client_frame_sequence_missing" missing_seq_message
        | some seq ↦ accept_seq p s f r seq
      ]
]

unfoldable pub receipt_or_unknown : Registry × Bool → Registry × Acceptance
receipt_or_unknown (s, true) = (s, handled)
receipt_or_unknown (s, false) = (s, unknown)

unfoldable pub accept_owned : Peer → Registry → TaskRef → ℕ → Registry × Acceptance
unfolding accept_replayable acknowledge_receipt receipt_or_unknown accept_and_resume
accept_owned p s f r = elim (s.heap r).execution_id [
  | some execution_id ↦ accept_replayable p s f r execution_id
  | none ↦
      if is_some f.execution_id || is_some f.seq
      then receipt_or_unknown (acknowledge_receipt p s f)
      else accept_and_resume p s f r
]

unfoldable pub accept_task_frame : Peer → Registry → TaskRef → Registry × Acceptance
unfolding receipt_or_unknown acknowledge_receipt owned_binding accept_owned
accept_task_frame p s f = elim (get_binding s f.task_id) [
  | none ↦ receipt_or_unknown (acknowledge_receipt p s f)
  | some _ ↦ elim (owned_binding p s f.task_id) [
    | none ↦ (s, handled)
    | some r ↦ accept_owned p s f r
  ]
]
