-- ===== src/Server/Receipts/Laws.antt =====
-- What the terminal receipts of packages/server/src/registry.ts promise.
use vicoop_bridge.Prelude.{
  ℕ, ◌+◌, ◌≡◌, ◌≤◌, String, some, [], ◌∷◌, arith, length, Dict, lookup, insert, ==_iff, string_eq,
  Option-cases, inl, inr, max,
}
use vicoop_bridge.Server.State.{TerminalReceipt, Registry}
use vicoop_bridge.Server.Approvals.{truthy}
use vicoop_bridge.Server.Receipts.{
  receipt_limit, prune_terminal_receipts, drop_oldest, remember_terminal_receipt,
  get_terminal_receipt,
}

drop_oldest-bounded : (m : Dict String TerminalReceipt) → length (drop_oldest m) ≤ receipt_limit
unfolding drop_oldest
drop_oldest-bounded [] = ground arith
drop_oldest-bounded (e ∷ m) = ground (arith, drop_oldest-bounded m)

-- Keeping a receipt leaves at most 10000 of them, if there were at most 10000 before.
pub remember_terminal_receipt-bounded :
    (s : Registry) (r n : ℕ)
    → length s.terminal_receipts ≤ receipt_limit
    → length (remember_terminal_receipt s r n).terminal_receipts ≤ receipt_limit
unfolding remember_terminal_receipt
remember_terminal_receipt-bounded s r n h = elim (Option-cases (truthy (s.heap r).execution_id)) [
  | inl e ↦ rw (e, remember_terminal_receipt) h
  | inr (x, e) ↦
      let m =
        insert x
          (record {
            agent_id = (s.heap r).agent_id;
            task_id = (s.heap r).task_id;
            accepted_seq = n;
            expires_at = s.now + max s.disconnect_grace_ms 60000;
          })
          (prune_terminal_receipts s).terminal_receipts in
      rw (e, remember_terminal_receipt) (drop_oldest-bounded m)
]

-- If a terminal receipt is found, then one that has not been pruned stands under the execution id,
-- was kept for the agent and the task that are asked about, and holds the number that is returned.
pub get_terminal_receipt-lem :
    (s : Registry) (x agent_id task_id : String) (n : ℕ)
    → (get_terminal_receipt s x agent_id task_id).1 ≡ some n
    → (k : TerminalReceipt) × (lookup x (prune_terminal_receipts s).terminal_receipts ≡ some k)
      × (k.agent_id ≡ agent_id)
      × (k.task_id ≡ task_id)
      × (k.accepted_seq ≡ n)
unfolding get_terminal_receipt
get_terminal_receipt-lem s x agent_id task_id n h =
    elim (Option-cases (lookup x (prune_terminal_receipts s).terminal_receipts)) [
      | inl e ↦ cc (rw (e, get_terminal_receipt) at h)
      | inr (k, e) ↦ ground (
        arith,
        (rw (e, get_terminal_receipt) at h),
        ==_iff k.agent_id agent_id,
        ==_iff k.task_id task_id,
      )
    ]
