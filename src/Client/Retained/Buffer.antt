-- ===== src/Client/Retained/Buffer.antt =====
-- The operations of the replay buffer of packages/client/src/client.ts keep its invariant: what it
-- releases, what expires, and every end of a run.
use vicoop_bridge.Prelude.{
  IsChain, ℕ, ◌+◌, ◌≡◌, String, Bool, true, false, Option, none, some, List, [], ◌∷◌, string_eq,
  nat_eq, option_eq, arith, refl, ==_iff, ==_self, option_both, if_both, if_else, is_some,
}
use vicoop_bridge.Client.State.{Client, ClientRun, write_run, open_socket}
use vicoop_bridge.Client.Pending.{
  schedule_pending_expiry, remove_pending_execution, acknowledge_frames, drop_pending_frames,
  stop_run, disconnect_if, release_run, fail_reliable_run, run_of, expire_execution, expire_each,
  distinct, expired_executions, expire_pending_frames, on_expiry_timer, count_seq,
}
use vicoop_bridge.Client.Retained.{IsRetained, numbers, numbers-remove}
use vicoop_bridge.Client.Retained.Laws.{
  accept-Retains, remove-Retains, write-Retains, empty-Retains,
}

pub remove_pending_execution-IsRetained :
    (s : Client) (x : String) → IsRetained s → IsRetained (remove_pending_execution s x)
unfolding remove_pending_execution schedule_pending_expiry
remove_pending_execution-IsRetained s x v =
    remove-Retains s.opts s.pending s.pending_bytes s.runs x v

pub acknowledge_frames-IsRetained :
    (s : Client) (x : String) (accepted : ℕ)
    → IsRetained s
    → IsRetained (acknowledge_frames s x accepted)
unfolding acknowledge_frames schedule_pending_expiry
acknowledge_frames-IsRetained s x accepted v =
    accept-Retains s.opts s.pending s.pending_bytes s.runs x accepted v

pub drop_pending_frames-IsRetained :
    (s : Client) → IsRetained s → IsRetained (drop_pending_frames s)
unfolding drop_pending_frames
drop_pending_frames-IsRetained s v = empty-Retains s.opts s.pending s.pending_bytes s.runs v

-- A write to a run that leaves its execution and its next number alone
pub write_run-IsRetained :
    (s : Client) (r : ℕ) (run : ClientRun)
    → run.execution_id ≡ (s.runs r).execution_id
    → run.next_seq ≡ (s.runs r).next_seq
    → IsRetained s
    → IsRetained (write_run s r run)
write_run-IsRetained s r run same next v =
    write-Retains s.opts s.pending s.pending_bytes s.runs r run same
      (λ x h. rw next (v.chained r x h)) v

pub release_run-IsRetained :
    (s : Client) (o : Option String) → IsRetained s → IsRetained (release_run s o)
release_run-IsRetained s none v = v
release_run-IsRetained s (some x) v = remove_pending_execution-IsRetained s x v

pub disconnect_if-IsRetained :
    (s : Client) (d : Bool) → IsRetained s → IsRetained (disconnect_if d s)
unfolding disconnect_if
disconnect_if-IsRetained s d v =
    option_both (λ (z : Client). IsRetained z) (open_socket s) v
      λ w e. if_both (λ (z : Client). IsRetained z) d v v

pub fail_reliable_run-IsRetained :
    (s : Client) (r : ℕ) (d : Bool) → IsRetained s → IsRetained (fail_reliable_run s r d)
unfolding fail_reliable_run
fail_reliable_run-IsRetained s r d v =
    if_both (λ (z : Client). IsRetained z) (s.runs r).suppressed v
      (disconnect_if-IsRetained (release_run stopped (s.runs r).execution_id) d (
        release_run-IsRetained stopped (s.runs r).execution_id
          (write_run-IsRetained s r (stop_run (s.runs r)) refl refl v)))
  where
    stopped : Client
    stopped = write_run s r (stop_run (s.runs r))

pub expire_execution-IsRetained :
    (s : Client) (x : String) → IsRetained s → IsRetained (expire_execution s x)
unfolding expire_execution
expire_execution-IsRetained s x v =
    option_both (λ (z : Client). IsRetained z) (run_of s x)
      (disconnect_if-IsRetained (remove_pending_execution s x) true
        (remove_pending_execution-IsRetained s x v))
      λ r e. fail_reliable_run-IsRetained s r (is_some (open_socket s)) v

expire_each-IsRetained :
    (s : Client) (xs : List String) → IsRetained s → IsRetained (expire_each s xs)
unfolding expire_each
expire_each-IsRetained s [] v = v
expire_each-IsRetained s (x ∷ rest) v =
    expire_each-IsRetained (expire_execution s x) rest (expire_execution-IsRetained s x v)

pub expire_pending_frames-IsRetained :
    (s : Client) → IsRetained s → IsRetained (expire_pending_frames s)
unfolding expire_pending_frames schedule_pending_expiry
expire_pending_frames-IsRetained s v =
    if_both (λ (z : Client). IsRetained z) _ v
      (expire_each-IsRetained s (distinct (expired_executions s)) v)

pub on_expiry_timer-IsRetained : (s : Client) → IsRetained s → IsRetained (on_expiry_timer s)
unfolding on_expiry_timer
on_expiry_timer-IsRetained s v =
    option_both (λ (z : Client). IsRetained z) s.expiry_timer v
      λ due e.
        if_both (λ (z : Client). IsRetained z) _
          (expire_pending_frames-IsRetained (record s { expiry_timer = none }) v) v

release_some-IsRetained :
    (s : Client) (o : Option String) (x : String)
    → o ≡ some x
    → IsRetained (remove_pending_execution s x)
    → IsRetained (release_run s o)
release_some-IsRetained s o x e v = rw e v

-- A run whose next number has been counted may fail: nothing is left of its execution.
pub fail_counted-IsRetained :
    (s : Client) (r : ℕ) (x : String)
    → (s.runs r).suppressed ≡ false
    → (s.runs r).execution_id ≡ some x
    → IsRetained s
    → IsRetained (fail_reliable_run (count_seq s r) r false)
unfolding fail_reliable_run remove_pending_execution schedule_pending_expiry
fail_counted-IsRetained s r x live own v =
    if_else (λ (z : Client). IsRetained z) (c.runs r).suppressed c (ground (arith, ==_self r, live))
      (disconnect_if-IsRetained (release_run stopped (c.runs r).execution_id) false (
        release_some-IsRetained stopped (c.runs r).execution_id x (ground (arith, ==_self r, own)) (
          write-Retains s.opts rest.pending rest.pending_bytes c.runs r (stop_run (c.runs r)) refl
            (λ y h. cleared _ y (ground (arith, ==_self r, own, h)))
            (write-Retains s.opts rest.pending rest.pending_bytes s.runs r counted refl
              (λ y h. cleared _ y (ground (arith, own, h)))
              (remove_pending_execution-IsRetained s x v)))))
  where
    counted : ClientRun
    counted = record (s.runs r) { next_seq = (s.runs r).next_seq + 1 }

    c : Client
    c = count_seq s r

    stopped : Client
    stopped = write_run c r (stop_run (c.runs r))

    rest : Client
    rest = remove_pending_execution s x

    cleared : (n : ℕ) (y : String) → x ≡ y → IsChain (numbers y rest.pending) n
    cleared n y e = rw (numbers-remove y x s.pending, (==_iff x y).1 e) tt
