-- ===== src/Etcd.antt =====
-- The etcd messages that a client exchanges with netsy, with the fields that the source reads. A
-- bytes field that is nil is `none` where the source tells nil from empty.
use netsy.Base.{ℕ, Bool, Option, List, Bytes, ℤ}

pub data SortOrder : Type 0 where
  sort_none ascend descend : SortOrder

pub record RangeRequest : Type 0 where
  pub key : Bytes
  pub range_end : Option Bytes
  pub limit : ℤ
  pub revision : ℤ
  pub sort_order : SortOrder
  pub sort_target : ℕ
  pub serializable : Bool
  pub keys_only : Bool
  pub count_only : Bool
  pub min_mod_revision : ℤ
  pub max_mod_revision : ℤ
  pub min_create_revision : ℤ
  pub max_create_revision : ℤ

pub record KeyValue : Type 0 where
  pub key : Bytes
  pub create_revision : ℕ
  pub mod_revision : ℕ
  pub value : Bytes
  pub version : ℕ
  pub lease : ℤ

pub record RangeResponse : Type 0 where
  pub header_revision : ℕ
  pub kvs : List KeyValue
  pub count : ℕ
  pub more : Bool

pub record PutRequest : Type 0 where
  pub key : Bytes
  pub value : Bytes
  pub lease : ℤ
  pub prev_kv : Bool

pub record DeleteRangeRequest : Type 0 where
  pub key : Bytes
  pub range_end : Option Bytes
  pub prev_kv : Bool

-- The oneof of an operation; `request_txn` is the nested transaction.
pub data RequestOp : Type 0 where
  request_range : RangeRequest → RequestOp
  request_put : PutRequest → RequestOp
  request_delete_range : DeleteRangeRequest → RequestOp
  request_txn request_unset : RequestOp

pub data CompareTarget : Type 0 where
  target_version target_create target_mod target_value target_lease : CompareTarget

pub data CompareResult : Type 0 where
  result_equal result_greater result_less result_not_equal : CompareResult

-- `mod_revision` is `none` where the oneof holds another field.
pub record Compare : Type 0 where
  pub key : Bytes
  pub target : CompareTarget
  pub result : CompareResult
  pub mod_revision : Option ℤ

pub record TxnRequest : Type 0 where
  pub compare : List Compare
  pub success : List RequestOp
  pub failure : List RequestOp

pub data ResponseOp : Type 0 where
  response_range : RangeResponse → ResponseOp
  response_put : (revision : ℕ) → ResponseOp
  response_delete_range : (revision deleted : ℕ) → ResponseOp

pub record TxnResponse : Type 0 where
  pub header_revision : ℕ
  pub succeeded : Bool
  pub responses : List ResponseOp
