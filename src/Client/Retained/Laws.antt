-- ===== src/Client/Retained/Laws.antt =====
-- The changes to the buffer and to the runs of packages/client/src/client.ts that keep the invariant
-- of its replay buffer, and what they leave alone.
use vicoop_bridge.Prelude.{
  IsChain, ℕ, suc, ◌+◌, ◌-◌, ◌≤◌, ◌<◌, ◌≡◌, ◌≢◌, ◌∙◌, ◌*◌, String, Bool, true, false, not, some,
  List, [], ◌∷◌, ◌++◌, ◌==◌, string_eq, nat_eq, if◌then◌else◌, length, length-append, keep, arith,
  refl, sym, ap, ==_iff, Bool-cases, inl, inr, if_both,
}
use vicoop_bridge.Server.State.{update}
use vicoop_bridge.Client.State.{ClientOptions, ClientRun, PendingFrame, limit_or}
use vicoop_bridge.Client.Pending.{sum_bytes}
use vicoop_bridge.Client.Retained.{
  numbers, is_on, Retains, sum_bytes-keep, length-keep, sum_bytes-append, is_unaccepted,
  is_of_other, numbers-accept, numbers-remove, numbers-append, keep-IsChain, append-IsChain,
}

module _ (o : ClientOptions) (es : List PendingFrame) (bytes : ℕ) (runs : ℕ → ClientRun) where
  -- A filter that keeps chains keeps the invariant.
  keep-Retains :
      (p : PendingFrame → Bool)
      → ((x : String) (n : ℕ) → IsChain (numbers x es) n → IsChain (numbers x (keep p es)) n)
      → Retains o es bytes runs
      → Retains o (keep p es) (bytes - sum_bytes (keep (λ e. not (p e)) es)) runs
  keep-Retains p chains v = record {
    counted = omega (arith, sum_bytes-keep p es, v.counted);
    few = omega (arith, length-keep p es, v.few);
    small = omega (arith, sum_bytes-keep p es, v.small);
    none_if_off = λ off. rw (v.none_if_off off) refl;
    chained = λ r x h. chains x (runs r).next_seq (v.chained r x h);
    alone = v.alone;
  }

  pub accept-Retains :
      (y : String) (accepted : ℕ)
      → Retains o es bytes runs
      → Retains o
          (keep (is_unaccepted y accepted) es)
          (bytes - sum_bytes (keep (λ e. not (is_unaccepted y accepted e)) es))
          runs
  accept-Retains y accepted = keep-Retains (is_unaccepted y accepted) λ x n c.
      rw (numbers-accept x y accepted es)
        (if_both (λ ns. IsChain ns n) (y == x) (keep-IsChain accepted (numbers x es) n c) c)

  pub remove-Retains :
      (y : String)
      → Retains o es bytes runs
      → Retains o
          (keep (is_of_other y) es)
          (bytes - sum_bytes (keep (λ e. not (is_of_other y e)) es))
          runs
  remove-Retains y =
      keep-Retains (is_of_other y)
        λ x n c. rw (numbers-remove x y es) (if_both (λ ns. IsChain ns n) (y == x) tt c)

  -- A run may change in all but its execution, and in its next number if nothing is retained of it.
  pub write-Retains :
      (r : ℕ) (run : ClientRun)
      → run.execution_id ≡ (runs r).execution_id
      → ((x : String) → (runs r).execution_id ≡ some x → IsChain (numbers x es) run.next_seq)
      → Retains o es bytes runs
      → Retains o es bytes (update runs r run)
  write-Retains r run same chain v = record {
    counted = v.counted;
    few = v.few;
    small = v.small;
    none_if_off = v.none_if_off;
    chained = λ q x. elim (Bool-cases (r == q)) [
      | inl hit ↦ rw hit (λ h. chain x (sym same ∙ h))
      | inr miss ↦ rw miss (v.chained q x)
    ];
    alone = λ p q x h k. v.alone p q x (of_old p x h) (of_old q x k);
  }
    where
      of_old :
          (q : ℕ) (x : String)
          → (update runs r run q).execution_id ≡ some x
          → (runs q).execution_id ≡ some x
      of_old q x h = ground (arith, ==_iff r q, same)

  -- A run with an execution that is new to the client.
  pub new-Retains :
      (r : ℕ) (run : ClientRun)
      → run.next_seq ≡ 0
      → ((x : String)
          → run.execution_id ≡ some x
          → (numbers x es ≡ []) × ((q : ℕ) → (runs q).execution_id ≢ some x))
      → Retains o es bytes runs
      → Retains o es bytes (update runs r run)
  new-Retains r run zero_ fresh v = record {
    counted = v.counted;
    few = v.few;
    small = v.small;
    none_if_off = v.none_if_off;
    chained = λ q x. elim (Bool-cases (r == q)) [
      | inl hit ↦ rw hit (λ h. rw ((fresh x h).0) tt)
      | inr miss ↦ rw miss (v.chained q x)
    ];
    alone = λ p q x. elim (Bool-cases (r == p)) [
      | inl hit ↦ elim (Bool-cases (r == q)) [
        | inl hit' ↦ λ h k. ground (arith, ==_iff r p, ==_iff r q)
        | inr miss ↦ rw (hit, miss) (λ h k. absurd ((fresh x h).1 q k))
      ]
      | inr miss ↦ elim (Bool-cases (r == q)) [
        | inl hit ↦ rw (miss, hit) (λ h k. absurd ((fresh x k).1 p h))
        | inr miss' ↦ rw (miss, miss') (v.alone p q x)
      ]
    ];
  }

  -- The frame that takes the next number of its run, where there is room for it.
  pub append-Retains :
      (r : ℕ) (run : ClientRun) (e : PendingFrame)
      → (runs r).execution_id ≡ some e.execution_id
      → run.execution_id ≡ (runs r).execution_id
      → e.seq ≡ (runs r).next_seq
      → run.next_seq ≡ suc e.seq
      → length es < limit_or o.max_pending_frames 2000
      → bytes + e.bytes ≤ limit_or o.max_pending_bytes (4 * 1024 * 1024)
      → is_on o ≡ true
      → Retains o es bytes runs
      → Retains o (es ++ e ∷ []) (bytes + e.bytes) (update runs r run)
  append-Retains r run e own same seq next few small on v = record {
    counted = omega (arith, sum_bytes-append es e, v.counted);
    few = omega (arith, length-append es (e ∷ []), few);
    small = omega (arith, sum_bytes-append es e, v.counted, small);
    none_if_off = λ off. cc;
    chained = λ q x. elim (Bool-cases (r == q)) [
      | inl hit ↦ rw (hit, numbers-append x es e) (λ h. longer x (sym same ∙ h))
      | inr miss ↦ rw (miss, numbers-append x es e) (λ h. as_before q x miss h)
    ];
    alone = λ p q x h k. v.alone p q x (of_old p x h) (of_old q x k);
  }
    where
      of_old :
          (q : ℕ) (x : String)
          → (update runs r run q).execution_id ≡ some x
          → (runs q).execution_id ≡ some x
      of_old q x h = ground (arith, ==_iff r q, same)

      longer :
          (x : String)
          → (runs r).execution_id ≡ some x
          → IsChain
              (if e.execution_id == x then numbers x es ++ e.seq ∷ [] else numbers x es)
              run.next_seq
      longer x h =
          rw ((==_iff e.execution_id x).1 (ground (arith, own, h)), next)
            (append-IsChain (numbers x es) e.seq (rw seq (v.chained r x h)))

      as_before :
          (q : ℕ) (x : String)
          → (r == q) ≡ false
          → (runs q).execution_id ≡ some x
          → IsChain
              (if e.execution_id == x then numbers x es ++ e.seq ∷ [] else numbers x es)
              (runs q).next_seq
      as_before q x miss h = elim (Bool-cases (e.execution_id == x)) [
        | inr other ↦ rw other (v.chained q x h)
        | inl same_ ↦ absurd (
            ground (
              arith,
              ==_iff r q,
              v.alone r q x (own ∙ ap some ((==_iff e.execution_id x).0 same_)) h,
            ))
      ]

pub empty-Retains :
    (o : ClientOptions) (es : List PendingFrame) (bytes : ℕ) (runs : ℕ → ClientRun)
    → Retains o es bytes runs
    → Retains o [] 0 runs
empty-Retains o es bytes runs v = record {
  counted = refl;
  few = omega arith;
  small = omega arith;
  none_if_off = λ off. refl;
  chained = λ r x h. tt;
  alone = v.alone;
}
