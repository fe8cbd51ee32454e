-- ===== src/Server/EventQueue/Fifo.antt =====
-- The queue of packages/server/src/event-queue.ts is a FIFO that closes at the first end or failure.
use mathlib.Core.List.{append-nil, append_assoc}
use vicoop_bridge.Prelude.{
  ◌≡◌, ◌∙◌, sym, ap, refl, subst, Bool, true, false, ◌||◌, none, List, [], ◌∷◌, ◌++◌, is_some,
  arith, if_cases, option_cases, list_cases,
}
use vicoop_bridge.Server.EventQueue.{
  AsyncEventQueue, new_queue, is_shut, push, end, fail, next_empty, next, abort, Call, pushes, ends,
  fails, reads, aborts, perform, run,
}

-- What a queue takes of these items, if it is not shut
abbrev to_come {ℓ} : {T : Type ℓ} → Bool → List T → List T
to_come true items = []
to_come false items = items

nothing_more {ℓ} : {T : Type ℓ} (items : List T) (b : Bool) → items ≡ items ++ to_come b []
nothing_more items true = sym (append-nil items)
nothing_more items false = sym (append-nil items)

module _ {ℓ κ} {T : Type ℓ} {E : Type κ} where
  -- The items of these calls that an open queue takes: those before the first end or failure.
  abbrev pub taken : List (Call T E) → List T
  taken [] = []
  taken (pushes item ∷ cs) = item ∷ taken cs
  taken (ends ∷ cs) = []
  taken (fails error ∷ cs) = []
  taken (reads ∷ cs) = taken cs
  taken (aborts ∷ cs) = taken cs

  -- The queue took these items. A generator waits only at an empty queue that is not shut; one that
  -- has ended without an abort has left nothing behind.
  record IsFifo (items : List T) (s : AsyncEventQueue T E) : Type (ℓ ⊔ κ) where
    fifo : s.received ++ s.buffer ≡ items
    waits : s.waiter ≡ true → (s.buffer ≡ []) × (is_shut s ≡ false) × (s.ending ≡ none)
    drained : is_some s.ending ≡ true → s.aborted ≡ false → (s.buffer ≡ []) × (is_shut s ≡ true)

  module _ (items : List T) (s : AsyncEventQueue T E) (v : IsFifo items s) where
    push-IsFifo : (item : T) → IsFifo (items ++ to_come (is_shut s) (item ∷ [])) (push s item)
    unfolding push
    push-IsFifo item =
        if_cases (λ z. IsFifo (items ++ to_come (is_shut s) (item ∷ [])) z) (is_shut s)
          (λ shut. rw shut (subst (λ l. IsFifo l s) (sym (append-nil items)) v))
          λ live. rw live (
            if_cases (λ z. IsFifo (items ++ item ∷ []) z) s.waiter
              (λ waiting.
                let empty = (v.waits waiting).0 in
                record {
                  fifo =
                      ap (λ l. (s.received ++ item ∷ []) ++ l) empty
                      ∙ append-nil (s.received ++ item ∷ [])
                      ∙ ap (λ l. l ++ item ∷ [])
                          (sym (append-nil s.received)
                            ∙ ap (λ l. s.received ++ l) (sym empty)
                            ∙ v.fifo);
                  waits = λ h. cc;
                  drained = λ h k. absurd (ground (arith, (v.waits waiting).2, h));
                })
              λ idle. record {
                fifo =
                    sym (append_assoc s.received s.buffer (item ∷ []))
                    ∙ ap (λ l. l ++ item ∷ []) v.fifo;
                waits = λ h. cc;
                drained = λ h k. absurd (ground (arith, live, (v.drained h k).1));
              })

    end-IsFifo : IsFifo items (end s)
    unfolding end
    end-IsFifo =
        if_cases (λ z. IsFifo items z) s.closed (λ closed. v)
          λ still_open.
            if_cases (λ z. IsFifo items z) s.waiter
              (λ waiting. record {
                fifo = v.fifo;
                waits = λ h. cc;
                drained = λ h k. ((v.waits waiting).0, refl);
              })
              λ idle. record {
                fifo = v.fifo;
                waits = λ h. cc;
                drained = λ h k. ((v.drained h k).0, refl);
              }

    fail-IsFifo : (error : E) → IsFifo items (fail s error)
    unfolding fail
    fail-IsFifo error =
        if_cases (λ z. IsFifo items z) (is_shut s) (λ shut. v)
          λ live.
            if_cases (λ z. IsFifo items z) s.waiter
              (λ waiting. record {
                fifo = v.fifo;
                waits = λ h. cc;
                drained = λ h k. ((v.waits waiting).0, ground arith);
              })
              λ idle. record {
                fifo = v.fifo;
                waits = λ h. cc;
                drained = λ h k. ((v.drained h k).0, ground arith);
              }

    next_empty-IsFifo :
        (s.waiter || is_some s.ending) ≡ false → s.buffer ≡ [] → IsFifo items (next_empty s)
    next_empty-IsFifo free empty =
        option_cases (λ z. IsFifo items z) s.failure
          (λ fine.
            if_cases (λ z. IsFifo items z) s.closed
              (λ closed. record {
                fifo = v.fifo;
                waits = λ h. absurd (ground (arith, free, h));
                drained = λ h k. (empty, ground (arith, closed));
              })
              λ still_open. record {
                fifo = v.fifo;
                waits = λ h. (empty, ground (arith, fine, still_open), ground (arith, free));
                drained = λ h k. absurd (ground (arith, free, h));
              })
          λ error failed. record {
            fifo = v.fifo;
            waits = λ h. absurd (ground (arith, free, h));
            drained = λ h k. (empty, ground (arith, failed));
          }

    next-IsFifo : IsFifo items (next s)
    unfolding next
    next-IsFifo =
        if_cases (λ z. IsFifo items z) (s.waiter || is_some s.ending) (λ busy. v)
          λ free.
            if_cases (λ z. IsFifo items z) s.aborted
              (λ aborted. record {
                fifo = v.fifo;
                waits = λ h. absurd (ground (arith, free, h));
                drained = λ h k. cc;
              })
              λ listening.
                list_cases (λ z. IsFifo items z) s.buffer (next_empty-IsFifo free)
                  λ item rest held. record {
                    fifo =
                        append_assoc s.received (item ∷ []) rest
                        ∙ ap (λ l. s.received ++ l) (sym held)
                        ∙ v.fifo;
                    waits = λ h. absurd (ground (arith, free, h));
                    drained = λ h k. absurd (ground (arith, free, h));
                  }

    abort-IsFifo : IsFifo items (abort s)
    unfolding abort
    abort-IsFifo =
        if_cases (λ z. IsFifo items z) s.waiter
          (λ waiting. record { fifo = v.fifo; waits = λ h. cc; drained = λ h k. cc })
          λ idle. record { fifo = v.fifo; waits = λ h. v.waits h; drained = λ h k. cc }

  -- What a call adds to a queue that is not shut, and whether it shuts it
  abbrev brought : Call T E → List T
  brought (pushes item) = item ∷ []
  brought _ = []

  abbrev shuts : Call T E → Bool
  shuts ends = true
  shuts (fails error) = true
  shuts _ = false

  perform-IsFifo :
      (items : List T) (s : AsyncEventQueue T E) (c : Call T E)
      → IsFifo items s
      → IsFifo (items ++ to_come (is_shut s) (brought c)) (perform s c)
  unfolding perform
  perform-IsFifo items s (pushes item) v = push-IsFifo items s v item
  perform-IsFifo items s ends v =
      subst (λ l. IsFifo l (end s)) (nothing_more items (is_shut s)) (end-IsFifo items s v)
  perform-IsFifo items s (fails error) v =
      subst (λ l. IsFifo l (fail s error)) (nothing_more items (is_shut s))
        (fail-IsFifo items s v error)
  perform-IsFifo items s reads v =
      subst (λ l. IsFifo l (next s)) (nothing_more items (is_shut s)) (next-IsFifo items s v)
  perform-IsFifo items s aborts v =
      subst (λ l. IsFifo l (abort s)) (nothing_more items (is_shut s)) (abort-IsFifo items s v)

  perform-is_shut :
      (s : AsyncEventQueue T E) (c : Call T E) → is_shut (perform s c) ≡ is_shut s || shuts c
  unfolding perform push end fail next abort
  perform-is_shut s (pushes item) = ground arith
  perform-is_shut s ends = ground arith
  perform-is_shut s (fails error) = ground arith
  perform-is_shut s reads = ground arith
  perform-is_shut s aborts = ground arith

  taken-cons :
      (b : Bool) (c : Call T E) (cs : List (Call T E))
      → to_come b (brought c) ++ to_come (b || shuts c) (taken cs) ≡ to_come b (taken (c ∷ cs))
  taken-cons true c cs = refl
  taken-cons false (pushes item) cs = refl
  taken-cons false ends cs = refl
  taken-cons false (fails error) cs = refl
  taken-cons false reads cs = refl
  taken-cons false aborts cs = refl

  run-IsFifo :
      (items : List T) (s : AsyncEventQueue T E) (cs : List (Call T E))
      → IsFifo items s
      → IsFifo (items ++ to_come (is_shut s) (taken cs)) (run s cs)
  unfolding run
  run-IsFifo items s [] v = subst (λ l. IsFifo l s) (nothing_more items (is_shut s)) v
  run-IsFifo items s (c ∷ cs) v =
      subst (λ l. IsFifo l (run (perform s c) cs))
        (ap (λ b. (items ++ to_come (is_shut s) (brought c)) ++ to_come b (taken cs))
            (perform-is_shut s c)
          ∙ append_assoc items (to_come (is_shut s) (brought c))
              (to_come (is_shut s || shuts c) (taken cs))
          ∙ ap (λ l. items ++ l) (taken-cons (is_shut s) c cs))
        (run-IsFifo (items ++ to_come (is_shut s) (brought c)) (perform s c) cs
          (perform-IsFifo items s c v))

  of_new : (cs : List (Call T E)) → IsFifo (taken cs) (run new_queue cs)
  unfolding new_queue
  of_new cs =
      run-IsFifo [] new_queue cs (record { fifo = refl; waits = λ h. cc; drained = λ h k. cc })

  -- Whatever calls a queue sees, in whatever order, what its generator has yielded followed by what
  -- is still in the buffer are the items pushed before the first end or failure, in order.
  pub run-fifo :
      (cs : List (Call T E)) → (run new_queue cs).received ++ (run new_queue cs).buffer ≡ taken cs
  run-fifo cs = (of_new cs).fifo

  -- A generator that has ended, and was not aborted, has yielded every item pushed before the first
  -- end or failure, in order.
  pub run-drained :
      (cs : List (Call T E))
      → is_some (run new_queue cs).ending ≡ true
      → (run new_queue cs).aborted ≡ false
      → (run new_queue cs).received ≡ taken cs
  run-drained cs h k =
      let v = of_new cs in
      sym (append-nil (run new_queue cs).received)
      ∙ ap (λ l. (run new_queue cs).received ++ l) (sym (v.drained h k).0)
      ∙ v.fifo
