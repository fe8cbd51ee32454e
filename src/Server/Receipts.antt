-- ===== src/Server/Receipts.antt =====
-- The terminal receipts of packages/server/src/registry.ts: what lets the server acknowledge the
-- replay of a terminal frame whose first acknowledgement was lost.
pub mod Laws
use vicoop_bridge.Prelude.{
  ℕ, ◌+◌, String, ◌&&◌, Option, none, some, [], ◌∷◌, ◌==◌, string_eq, ltb, if◌then◌else◌, length,
  keep, max, Dict, lookup, insert,
}
use vicoop_bridge.Server.State.{TerminalReceipt, Registry}
use vicoop_bridge.Server.Approvals.{truthy}

abbrev pub receipt_limit : ℕ
receipt_limit = 10000

unfoldable pub prune_terminal_receipts : Registry → Registry
prune_terminal_receipts s = record s {
  terminal_receipts = keep (λ entry. ltb s.now entry.1.expires_at) s.terminal_receipts;
}

-- Delete the oldest receipts until the map is within its limit.
unfoldable pub drop_oldest : Dict String TerminalReceipt → Dict String TerminalReceipt
drop_oldest [] = []
drop_oldest (entry ∷ rest) =
    if ltb receipt_limit (length (entry ∷ rest)) then drop_oldest rest else entry ∷ rest

unfoldable pub remember_terminal_receipt : Registry → ℕ → (accepted_seq : ℕ) → Registry
unfolding prune_terminal_receipts drop_oldest
remember_terminal_receipt s r accepted_seq = record s {
  terminal_receipts = elim (truthy (s.heap r).execution_id) [
    | none ↦ s.terminal_receipts
    | some execution_id ↦ drop_oldest (
        insert execution_id
          (record {
            agent_id = (s.heap r).agent_id;
            task_id = (s.heap r).task_id;
            accepted_seq = accepted_seq;
            expires_at = s.now + max s.disconnect_grace_ms 60000;
          })
          (prune_terminal_receipts s).terminal_receipts)
  ];
}

-- The `acceptedSeq` of a receipt that is this agent's and this task's.
unfoldable pub get_terminal_receipt :
    Registry → (execution_id agent_id task_id : String) → Registry × Option ℕ
unfolding prune_terminal_receipts
get_terminal_receipt s execution_id agent_id task_id =
    let s1 = prune_terminal_receipts s in
    (
      s1,
      elim (lookup execution_id s1.terminal_receipts) [
        | none ↦ none
        | some receipt ↦
            if receipt.agent_id == agent_id && receipt.task_id == task_id
            then some receipt.accepted_seq
            else none
      ],
    )
