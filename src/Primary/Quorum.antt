-- ===== src/Primary/Quorum.antt =====
-- internal/primary/quorum.go: which path a write takes, and the collector of Receipts. The node IDs
-- that have answered are a list without repetition.
use netsy.Base.{
  ℕ, ◌/◌, String, Bool, true, false, not, List, [], ◌∷◌, ◌&&◌, ◌||◌, ltb, leb, ◌==◌, if◌then◌else◌,
  length, ℤ, pos, negsuc, str_eq,
}

unfoldable pub required_receipts : ℤ → ℕ → ℕ
required_receipts (pos quorum) node_count = quorum
required_receipts (negsuc n) node_count = if leb node_count 1 then 0 else node_count / 2

pub record TxnStrategy : Type 0 where
  pub use_quorum : Bool
  pub required : ℕ

unfoldable pub select_txn_strategy : (quorum : ℤ) (node_count healthy_for_quorum : ℕ) → TxnStrategy
select_txn_strategy quorum node_count healthy_for_quorum =
    let required = required_receipts quorum node_count in
    if required == 0 || ltb healthy_for_quorum required
    then record { use_quorum = false; required = 0 }
    else record { use_quorum = true; required = required }

-- `_, ok := m[id]` of a map with string keys.
unfoldable pub contains : String → List String → Bool
contains id [] = false
contains id (x ∷ xs) = str_eq x id || contains id xs

-- `m[id] = struct{}{}`
unfoldable pub add_id : String → List String → List String
unfolding contains
add_id id ids = if contains id ids then ids else id ∷ ids

pub record ReceiptCollector : Type 0 where
  pub revision : ℕ
  pub required : ℕ
  pub acked : List String
  pub done : Bool

abbrev pub new_receipt_collector : (revision required : ℕ) → ReceiptCollector
new_receipt_collector revision required = record {
  revision = revision;
  required = required;
  acked = [];
  done = false;
}

unfoldable pub collect_receipt : ReceiptCollector → String → ReceiptCollector
collect_receipt c id =
    let acked = add_id id c.acked in
    if c.done then c else record c { acked = acked; done = leb c.required (length acked) }

-- `Server.collectReceipt` passes on the receipts of the collector's own revision.
unfoldable pub collect_for_revision :
    ReceiptCollector → (id : String) (revision : ℕ) → ReceiptCollector
collect_for_revision c id revision = if c.revision == revision then collect_receipt c id else c

-- The select of `wait`: the timer may win also where the collector has just completed.
abbrev pub wait : ReceiptCollector → (timer_won : Bool) → Bool
wait c timer_won = c.done && not timer_won

-- The Receipts that arrive while the collector is installed, each with the revision that it is for.
unfoldable pub collect_stream : ReceiptCollector → List (String × ℕ) → ReceiptCollector
collect_stream c [] = c
collect_stream c ((id, revision) ∷ rest) = collect_stream (collect_for_revision c id revision) rest
