-- ===== src/Server/EventQueue/Examples.antt =====
-- The queue of packages/server/src/event-queue.ts at concrete sequences of calls.
use vicoop_bridge.Prelude.{ℕ, String, ◌≡◌, refl, List, [], ◌∷◌, ◌++◌}
use vicoop_bridge.Server.EventQueue.{
  Call, pushes, ends, fails, reads, aborts, run, new_queue, push, next, perform,
}
use vicoop_bridge.Server.EventQueue.Fifo.{run-fifo}

abbrev failing : List (Call ℕ String)
failing = reads ∷ pushes 1 ∷ pushes 2 ∷ fails "lost" ∷ pushes 3 ∷ []

abbrev ended : List (Call ℕ String)
ended = pushes 1 ∷ reads ∷ reads ∷ pushes 2 ∷ ends ∷ pushes 3 ∷ reads ∷ []

run-fifo_example : (run new_queue failing).received ++ (run new_queue failing).buffer ≡ 1 ∷ 2 ∷ []
run-fifo_example = run-fifo failing

abbrev aborted : List (Call ℕ String)
aborted = pushes 7 ∷ aborts ∷ reads ∷ []

-- An abort yields nothing more, and loses nothing.
aborted_keeps : (run new_queue aborted).buffer ≡ 7 ∷ []
unfolding run perform push next new_queue
aborted_keeps = refl
