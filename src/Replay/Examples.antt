-- ===== src/Replay/Examples.antt =====
-- The replay of one client's frames to one server.
use vicoop_bridge.Prelude.{
  ℕ, ◌≡◌, refl, [], ◌∷◌, arith, lookup, insert, nat_eq, string_eq, option_eq,
}
use vicoop_bridge.Protocol.{deny}
use vicoop_bridge.Client.State.{new_client}
use vicoop_bridge.Client.Pending.{acknowledge_frames}
use vicoop_bridge.Client.Connection.{connect, on_message}
use vicoop_bridge.Client.Connection.Runs.{begin_run, emit_frame}
use vicoop_bridge.Client.Retained.{numbers}
use vicoop_bridge.Client.Fixtures.{one_acknowledged, one_acknowledged-IsReachable}
use vicoop_bridge.Server.Acceptance.{accept_task_frame}
use vicoop_bridge.Server.Acceptance.Replay.{Expects}
use vicoop_bridge.Server.Frames.Replay.{Progress, receives, deliver_all, LeadsTo}
use vicoop_bridge.Server.Fixtures.{in_flight, peer}
use vicoop_bridge.Replay.{replay-LeadsTo}

retained : numbers "e1" one_acknowledged.pending ≡ 1 ∷ 2 ∷ []
unfolding new_client connect on_message begin_run emit_frame acknowledge_frames lookup insert
retained = refl

-- Every frame is the receipt of a decision that the server does not know.
abbrev receipts : ℕ → Progress
receipts n = receives "q9" deny

replayed : (deliver_all peer in_flight "t1" "e1" receipts (1 ∷ 2 ∷ [])).1 ≡ 2 ∷ []
unfolding deliver_all accept_task_frame lookup
replayed = refl

in_flight-Expects : Expects peer in_flight "t1" "e1" 0 2
unfolding lookup
in_flight-Expects = record { bound = refl; owner = refl; replayable = refl; due = refl }

replay-LeadsTo_example :
    LeadsTo peer "t1" "e1" 0 3
      (2 ∷ [])
      (deliver_all peer in_flight "t1" "e1" receipts (numbers "e1" one_acknowledged.pending))
unfolding new_client connect on_message begin_run emit_frame acknowledge_frames lookup insert
replay-LeadsTo_example =
    replay-LeadsTo one_acknowledged-IsReachable 0 peer in_flight "t1" "e1" receipts 0 2 refl
      in_flight-Expects (omega arith) (omega arith)
