-- ===== src/Primary/ParseLaws.antt =====
-- What the transactions are that `ParseTxnRequest` lets through.
use netsy.Base.{
  ℕ, suc, ◌≡◌, Bool, true, false, Option, none, some, List, [], ◌∷◌, ◌⊎◌, Bytes, ℤ, pos, is_some,
}
use netsy.LocalDb.{Record}
use netsy.LocalDb.Find.{metadata_record}
use netsy.Etcd.{
  PutRequest, DeleteRangeRequest, RequestOp, request_put, request_delete_range, request_range,
  Compare, target_mod, result_equal, TxnRequest,
}
use netsy.Primary.Txn.{TxnResult, ok, err, get_mod_revision}

abbrev pub create_record : (key value : Bytes) → ℤ → Record
create_record key value lease = record metadata_record {
  key = key;
  value = value;
  lease = lease;
  created = true;
}

abbrev pub update_record : (key value : Bytes) → ℤ → (prev : ℕ) → Record
update_record key value lease prev = record metadata_record {
  key = key;
  value = value;
  lease = lease;
  prev_revision = prev;
}

abbrev pub delete_record : (key : Bytes) → (prev : ℕ) → Record
delete_record key prev = record metadata_record { key = key; deleted = true; prev_revision = prev }

-- The three kinds of writes.
pub data IsWrite : Record → Type 0 where
  create : (key value : Bytes) (lease : ℤ) → IsWrite (create_record key value lease)
  update : (key value : Bytes) (lease : ℤ) (n : ℕ) → IsWrite (update_record key value lease (suc n))
  delete : (key : Bytes) (n : ℕ) → IsWrite (delete_record key (suc n))

abbrev OnOk : (Record → Type 0) → TxnResult Record → Type 0
OnOk P (ok row) = P row
OnOk P (err e) = Unit

-- The list of at most one operation.
abbrev pub listed : Option RequestOp → List RequestOp
listed none = []
listed (some op) = op ∷ []

-- The record is what the operation asks for.
abbrev pub Asks : RequestOp → Record → Type 0
Asks (request_put p) row =
    (row.key ≡ p.key) × (row.value ≡ p.value) × (row.lease ≡ p.lease) × (row.deleted ≡ false)
Asks (request_delete_range d) row = (row.key ≡ d.key) × (row.deleted ≡ true)
Asks _ row = ⊥

abbrev Asked : Option PutRequest → Option DeleteRangeRequest → Record → Type 0
Asked (some p) none row = Asks (request_put p) row
Asked none (some d) row = Asks (request_delete_range d) row
Asked _ _ row = ⊥

-- The operation for a failure, if there is one, is a range of the single key.
abbrev pub Falls : Bytes → Option RequestOp → Type 0
Falls key none = Unit
Falls key (some (request_range f)) = (f.key ≡ key) × (f.range_end ≡ none)
Falls key (some _) = ⊥

-- The record is a write of the compared key at the compared revision, and only a creation may come
-- without an operation for a failure.
record Chosen (compare_key : Bytes) (mod_revision : ℤ) (put : Option PutRequest)
    (del : Option DeleteRangeRequest) (on_failure : Bool) (row : Record) : Type 0 where
  write : IsWrite row
  same_key : compare_key ≡ row.key
  same_revision : mod_revision ≡ pos row.prev_revision
  asked : Asked put del row
  guarded : (row.created ≡ true) ⊎ (on_failure ≡ true)

-- One comparison of a key's latest revision for equality, one operation, and at most one for a
-- failure, which is a range of the key; and the record is the write that they spell.
pub record OneWrite (r : TxnRequest) (row : Record) : Type 0 where
  pub comparison : Compare
  pub operation : RequestOp
  pub on_failure : Option RequestOp
  pub compares : r.compare ≡ comparison ∷ []
  pub operates : r.success ≡ operation ∷ []
  pub fails : r.failure ≡ listed on_failure
  pub of_revision : comparison.target ≡ target_mod
  pub for_equality : comparison.result ≡ result_equal
  pub write : IsWrite row
  pub same_key : comparison.key ≡ row.key
  pub same_revision : get_mod_revision comparison ≡ pos row.prev_revision
  pub asks : Asks operation row
  pub falls : Falls row.key on_failure
  pub guarded : (row.created ≡ true) ⊎ (is_some on_failure ≡ true)

module _ (c : Compare) (s : RequestOp) (f : Option RequestOp) where
  abbrev request : TxnRequest
  request = record { compare = c ∷ []; success = s ∷ []; failure = listed f }
