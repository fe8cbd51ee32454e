-- ===== src/Client/Examples/Buffer.antt =====
-- The theorems on packages/client/src/client.ts at a client with one run.
use vicoop_bridge.Prelude.{
  some, ◌≡◌, ℕ, ◌+◌, ◌≤◌, ◌⊎◌, refl, arith, lookup, insert, nat_eq, string_eq, option_eq,
}
use vicoop_bridge.Client.State.{new_client}
use vicoop_bridge.Client.Pending.{acknowledge_frames}
use vicoop_bridge.Client.Pending.Sending.{send_task_frame}
use vicoop_bridge.Client.Connection.{connect, on_message, on_close}
use vicoop_bridge.Client.Connection.Runs.{begin_run, emit_frame}
use vicoop_bridge.Client.Retained.{IsRetained}
use vicoop_bridge.Client.Reachable.{IsReachable-IsRetained}
use vicoop_bridge.Client.Delivery.{IsKeptOrFailed, send_task_frame-kept}
use vicoop_bridge.Client.Closing.Back.{wait_and_reconnect, on_close-IsBack}
use vicoop_bridge.Client.Fixtures.{ten, note, one_acknowledged, one_acknowledged-IsReachable}

IsReachable-IsRetained_example : IsRetained one_acknowledged
IsReachable-IsRetained_example = IsReachable-IsRetained ten one_acknowledged-IsReachable

send_task_frame-kept_example :
    IsKeptOrFailed ten one_acknowledged 0 "e1" note (send_task_frame ten one_acknowledged 0 note)
unfolding new_client connect on_message begin_run emit_frame acknowledge_frames lookup insert
send_task_frame-kept_example = send_task_frame-kept ten one_acknowledged 0 "e1" note refl refl refl

on_close-IsBack_example :
    let back = wait_and_reconnect 3000 8 (on_close one_acknowledged 7 1006 3000) in
    (back.ws ≡ some 8)
    × ((back.pending ≡ one_acknowledged.pending)
        ⊎ ((due : ℕ) × (one_acknowledged.expiry_timer ≡ some due)
            × (due ≤ one_acknowledged.now + 3000)))
unfolding new_client connect on_message begin_run emit_frame acknowledge_frames lookup insert
on_close-IsBack_example =
    on_close-IsBack one_acknowledged 7 1006 3000 3000 8 refl refl refl refl (omega arith)
      (omega arith)
