-- ===== src/Server/EventQueue.antt =====
-- packages/server/src/event-queue.ts: the queue between the frames of a task and the stream that
-- A2A reads, with the generator of its one consumer.
--
-- `received` is what the generator has yielded, oldest first, and `ending` how it ended.
pub mod Fifo
mod Examples
use vicoop_bridge.Prelude.{
  Bool, true, false, ◌||◌, Option, none, some, List, [], ◌∷◌, ◌++◌, if◌then◌else◌, is_some,
}

pub data Ending {ℓ} (E : Type ℓ) : Type ℓ where
  done : Ending E
  thrown : E → Ending E

pub record AsyncEventQueue {ℓ κ} (T : Type ℓ) (E : Type κ) : Type (ℓ ⊔ κ) where
  pub buffer : List T
  pub waiter : Bool  -- does the generator wait?
  pub closed : Bool
  pub failure : Option E
  pub aborted : Bool  -- `signal.aborted`
  pub received : List T
  pub ending : Option (Ending E)

module _ {ℓ κ} {T : Type ℓ} {E : Type κ} where
  unfoldable pub new_queue : AsyncEventQueue T E
  new_queue = record {
    buffer = [];
    waiter = false;
    closed = false;
    failure = none;
    aborted = false;
    received = [];
    ending = none;
  }

  abbrev pub is_shut : AsyncEventQueue T E → Bool
  is_shut s = s.closed || is_some s.failure

  unfoldable pub push : AsyncEventQueue T E → T → AsyncEventQueue T E
  push s item =
      if is_shut s
      then s
      else if s.waiter
      then record s { waiter = false; received = s.received ++ item ∷ [] }
      else record s { buffer = s.buffer ++ item ∷ [] }

  -- Resolve the waiter, if there is one.
  abbrev pub wake : AsyncEventQueue T E → Ending E → AsyncEventQueue T E
  wake s e = if s.waiter then record s { waiter = false; ending = some e } else s

  unfoldable pub end : AsyncEventQueue T E → AsyncEventQueue T E
  end s = if s.closed then s else wake (record s { closed = true }) done

  unfoldable pub fail : AsyncEventQueue T E → E → AsyncEventQueue T E
  fail s error = if is_shut s then s else wake (record s { failure = some error }) (thrown error)

  -- What the generator does with an empty buffer.
  abbrev pub next_empty : AsyncEventQueue T E → AsyncEventQueue T E
  next_empty s = elim s.failure [
    | some error ↦ record s { ending = some (thrown error) }
    | none ↦ if s.closed then record s { ending = some done } else record s { waiter = true }
  ]

  -- The consumer asks for the next value; a generator that waits or has ended does not run.
  unfoldable pub next : AsyncEventQueue T E → AsyncEventQueue T E
  next s =
      if s.waiter || is_some s.ending
      then s
      else if s.aborted
      then record s { ending = some done }
      else elim s.buffer [
        | [] ↦ next_empty s
        | item ∷ rest ↦ record s { buffer = rest; received = s.received ++ item ∷ [] }
      ]

  -- The signal aborts: a generator that waits ends.
  unfoldable pub abort : AsyncEventQueue T E → AsyncEventQueue T E
  abort s = wake (record s { aborted = true }) done

-- The calls that a queue sees
pub data Call {ℓ κ} (T : Type ℓ) (E : Type κ) : Type (ℓ ⊔ κ) where
  pushes : T → Call T E
  ends : Call T E
  fails : E → Call T E
  reads aborts : Call T E

module _ {ℓ κ} {T : Type ℓ} {E : Type κ} where
  unfoldable pub perform : AsyncEventQueue T E → Call T E → AsyncEventQueue T E
  unfolding push end fail next abort
  perform s (pushes item) = push s item
  perform s ends = end s
  perform s (fails error) = fail s error
  perform s reads = next s
  perform s aborts = abort s

  unfoldable pub run : AsyncEventQueue T E → List (Call T E) → AsyncEventQueue T E
  unfolding perform
  run s [] = s
  run s (c ∷ cs) = run (perform s c) cs
