-- ===== src/Primary/Txn.antt =====
-- `ParseTxnRequest` and `BuildTxnResponse` of internal/primary/leader_txn.go.
use netsy.Base.{
  zero, suc, Bool, true, false, not, Option, none, some, [], ◌∷◌, ◌||◌, if◌then◌else◌, Bytes,
  bytes_equal, is_some, ℤ, pos, negsuc,
}
use netsy.LocalDb.{Record, DbError}
use netsy.LocalDb.Find.{metadata_record}
use netsy.CommonApi.{RangeError}
use netsy.Etcd.{
  RangeRequest, RangeResponse, PutRequest, DeleteRangeRequest, RequestOp, request_range,
  request_put, request_delete_range, Compare, CompareTarget, target_mod, CompareResult,
  result_equal, TxnRequest, TxnResponse, response_range, response_put, response_delete_range,
}

pub data TxnError : Type 0 where
  not_accepting_writes client_gone invalid_txn_request unsupported begin_failed : TxnError
  upload_failed commit_failed quorum_not_met : TxnError
  insert_failed : DbError → TxnError
  range_failed : RangeError → TxnError

pub data TxnResult {ℓ} (A : Type ℓ) : Type ℓ where
  ok : A → TxnResult A
  err : TxnError → TxnResult A

-- The getters of the oneof fields.
abbrev pub get_range : RequestOp → Option RangeRequest
get_range (request_range r) = some r
get_range _ = none

abbrev pub get_put : RequestOp → Option PutRequest
get_put (request_put p) = some p
get_put _ = none

abbrev pub get_delete_range : RequestOp → Option DeleteRangeRequest
get_delete_range (request_delete_range d) = some d
get_delete_range _ = none

abbrev pub get_mod_revision : Compare → ℤ
get_mod_revision c = elim c.mod_revision [ none ↦ pos 0 | some n ↦ n ]

abbrev pub is_target_mod : CompareTarget → Bool
is_target_mod target_mod = true
is_target_mod _ = false

abbrev pub is_result_equal : CompareResult → Bool
is_result_equal result_equal = true
is_result_equal _ = false

abbrev pub bad_put : Bytes → Option PutRequest → Bool
bad_put compare_key none = false
bad_put compare_key (some p) = p.prev_kv || not (bytes_equal compare_key p.key)

abbrev pub bad_delete : Bytes → Option DeleteRangeRequest → Bool
bad_delete compare_key none = false
bad_delete compare_key (some d) = d.prev_kv || not (bytes_equal compare_key d.key)

-- The failure operation, if there is one, has to be a range of the compared key.
abbrev pub bad_range : Bytes → Option RangeRequest → Bool
bad_range compare_key none = true
bad_range compare_key (some f) = is_some f.range_end || not (bytes_equal compare_key f.key)

abbrev pub bad_failure : Bytes → Option RequestOp → Bool
bad_failure compare_key none = false
bad_failure compare_key (some op) = bad_range compare_key (get_range op)

-- A create, an update or a delete; the fields that are not set are Go's zero values.
unfoldable pub choose_record :
    (mod_revision : ℤ)
    → Option PutRequest
    → Option DeleteRangeRequest
    → (on_failure : Bool) → TxnResult Record
choose_record (pos zero) (some p) none on_failure =
    ok (record metadata_record { key = p.key; value = p.value; lease = p.lease; created = true })
choose_record (pos (suc n)) (some p) none true = ok (record metadata_record {
  key = p.key;
  value = p.value;
  lease = p.lease;
  prev_revision = suc n;
})
choose_record (pos (suc n)) none (some d) true =
    ok (record metadata_record { key = d.key; deleted = true; prev_revision = suc n })
choose_record (pos (suc n)) (some p) none false = err unsupported
choose_record (pos (suc n)) none (some d) false = err unsupported
choose_record (pos n) (some p) (some d) on_failure = err unsupported
choose_record (pos n) none none on_failure = err unsupported
choose_record (pos zero) none (some d) on_failure = err unsupported
choose_record (negsuc n) put delete on_failure = err unsupported

unfoldable pub parse_ops : Compare → RequestOp → Option RequestOp → TxnResult Record
unfolding choose_record
parse_ops c success on_failure =
    if not (is_target_mod c.target)
      || (not (is_result_equal c.result)
          || (bad_put c.key (get_put success)
              || (bad_delete c.key (get_delete_range success) || bad_failure c.key on_failure)))
    then err invalid_txn_request
    else choose_record (get_mod_revision c) (get_put success) (get_delete_range success)
        (is_some on_failure)

unfoldable pub parse_txn_request : TxnRequest → TxnResult Record
unfolding parse_ops
parse_txn_request r = elim r.compare [
  | [] ↦ err invalid_txn_request
  | c ∷ cs ↦ elim cs [
    | d ∷ ds ↦ err invalid_txn_request
    | [] ↦ elim r.success [
      | [] ↦ err invalid_txn_request
      | s ∷ ss ↦ elim ss [
        | t ∷ ts ↦ err invalid_txn_request
        | [] ↦ elim r.failure [
          | [] ↦ parse_ops c s none
          | f ∷ fs ↦ elim fs [ [] ↦ parse_ops c s (some f) | g ∷ gs ↦ err invalid_txn_request ]
        ]
      ]
    ]
  ]
]

-- What a transaction ends with: the record, or the answer of its failure operation.
unfoldable pub build_txn_response : Option Record → Option RangeResponse → TxnResponse
build_txn_response inserted (some range_resp) = record {
  header_revision = range_resp.header_revision;
  succeeded = false;
  responses = response_range range_resp ∷ [];
}
build_txn_response (some r) none = record {
  header_revision = r.revision;
  succeeded = true;
  responses =
      (if r.deleted then response_delete_range r.revision 1 else response_put r.revision) ∷ [];
}
build_txn_response none none = record { header_revision = 0; succeeded = false; responses = [] }
