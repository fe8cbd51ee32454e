-- ===== src/Replay.antt =====
-- The client (packages/client/src/client.ts) and the server (packages/server/src/ws.ts) together:
-- a replay after a reconnect.
mod Examples
use vicoop_bridge.Prelude.{ℕ, ◌+◌, ◌-◌, ◌≡◌, ◌≤◌, subst, sym, String, some, arith, length, IsChain}
use vicoop_bridge.Protocol.{UpFrame}
use vicoop_bridge.Client.State.{ClientOptions, Client}
use vicoop_bridge.Client.Retained.{numbers}
use vicoop_bridge.Client.Reachable.{IsReachable, IsReachable-IsRetained}
use vicoop_bridge.Server.State.{Registry}
use vicoop_bridge.Server.Acceptance.{Peer}
use vicoop_bridge.Server.Acceptance.Replay.{Expects, count_up}
use vicoop_bridge.Server.Frames.Replay.{Progress, deliver_all, LeadsTo, deliver_all-count_up}

-- Whatever has happened to a client, let the frames under the numbers that it retains of a run's
-- execution be statuses, artifacts or receipts of decisions, and let it replay them to a server
-- that has bound the task to this execution, for the agent of the connection, and expects a number
-- between the first retained one and the run's next one. The server accepts every number from the
-- expected one on, once and in order, no other; with all that it then does for these frames, the
-- task stays bound and the run's next number is expected.
pub replay-LeadsTo :
    {byte_length : UpFrame → ℕ} {o : ClientOptions} {c : Client}
    → IsReachable byte_length o c
    → (q : ℕ) (p : Peer) (s : Registry) (t x : String) (content : ℕ → Progress) (r e : ℕ)
    → (c.runs q).execution_id ≡ some x
    → Expects p s t x r e
    → e ≤ (c.runs q).next_seq
    → (c.runs q).next_seq ≤ e + length (numbers x c.pending)
    → LeadsTo p t x r
        (c.runs q).next_seq
        (count_up e ((c.runs q).next_seq - e))
        (deliver_all p s t x content (numbers x c.pending))
replay-LeadsTo {byte_length} {c = c} reached q p s t x content r e own expects sent acked =
    let next : e + ((c.runs q).next_seq - e) ≡ (c.runs q).next_seq = omega (arith, sent) in
    subst
      (λ n.
        LeadsTo p t x r n (count_up e ((c.runs q).next_seq - e))
          (deliver_all p s t x content (numbers x c.pending)))
      next
      (deliver_all-count_up p s t x content r e ((c.runs q).next_seq - e) (numbers x c.pending)
        expects
        (subst (IsChain (numbers x c.pending)) (sym next)
          ((IsReachable-IsRetained byte_length reached).chained q x own))
        (omega (arith, sent, acked)))
