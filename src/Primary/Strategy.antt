-- ===== src/Primary/Strategy.antt =====
-- What the choice of a path promises.
use netsy.Base.{ℕ, ◌+◌, ◌*◌, ◌/◌, ◌≤◌, ◌<◌, ◌≡◌, ◌↔◌, true, arith, negsuc}
use netsy.Primary.Quorum.{required_receipts, select_txn_strategy}

majority : (n : ℕ) → 2 ≤ n → (n < 2 * (n / 2 + 1)) × (1 ≤ n / 2)
majority n h = (omega arith, omega arith)

-- With the automatic quorum a write goes to the Replicas exactly if the cluster has more than one
-- node and enough of its Replicas count. The Primary and the nodes whose Receipts it then waits for
-- are more than half of the cluster.
pub select_txn_strategy-majority :
    (n node_count eligible : ℕ)
    → let strategy = select_txn_strategy (negsuc n) node_count eligible in
      (strategy.use_quorum ≡ true) ↔ (
        (2 ≤ node_count)
        × (node_count < 2 * (strategy.required + 1))
        × (1 ≤ strategy.required)
        × (strategy.required ≤ eligible)
        × (node_count / 2 ≤ eligible))
unfolding select_txn_strategy required_receipts
select_txn_strategy-majority n node_count eligible = ground arith
