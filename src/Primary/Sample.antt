-- ===== src/Primary/Sample.antt =====
-- States and requests at which the tests of the Primary run.
use netsy.Base.{some, ℕ, refl, String, Bool, true, false, List, [], ◌∷◌, arith, Bytes, pos, negsuc}
use netsy.NodeState.{active, new_state}
use netsy.LocalDb.{Record, latest_revision}
use netsy.LocalDb.Sample.{db, key_b, db-IsWellFormed}
use netsy.Etcd.{target_mod, result_equal, request_put, TxnRequest}
use netsy.Primary.Replicas.{Replica}
use netsy.Primary.ChunkBuffer.{new_chunk_buffer}
use netsy.Primary.LeaderTxn.{Server, Outside}
use netsy.Primary.Commits.{IsConsistent}

abbrev pub peer : String → Replica
peer id = record {
  node_id = id;
  last_heartbeat = 10;
  last_receipt = 10;
  receipt_count = 1;
  health_state = 1;
  primary_state = 0;
  latest_revision = 2;
}

abbrev pub peers : List Replica
peers = peer "n2" ∷ peer "n3" ∷ []

-- One byte for each record.
abbrev pub one : Record → ℕ
one r = 1

abbrev pub no_like : Bytes → Bytes → Bool
no_like pattern k = false

abbrev pub server : Server
server = record {
  state = record new_state {
    primary = active;
    committed = 2;
    cluster = record new_state.cluster { node_count = 3 };
  };
  db = db;
  next_revision_id = 3;
  replicas = peers;
  chunk_buffer = new_chunk_buffer 8 1;
  broadcast = [];
  tasks = [];
  uploaded = [];
  node_id = "n1";
  quorum = negsuc 0;
}

abbrev pub outside : Outside
outside = record {
  now = 6;
  cancelled = false;
  begin_fails = false;
  insert_fails = false;
  commit_fails = false;
  receipts = ("n3", 3) ∷ [];
  timer_won = false;
  meanwhile = λ rs. rs;
  first_upload = true;
  second_upload = true;
  buffer_upload = true;
}

abbrev pub create_b : TxnRequest
create_b = record {
  compare =
      record {
        key = key_b;
        target = target_mod;
        result = result_equal;
        mod_revision = some (pos 0);
      }
      ∷ [];
  success =
      request_put (record { key = key_b; value = 8 ∷ []; lease = pos 0; prev_kv = false }) ∷ [];
  failure = [];
}

pub server-IsConsistent : IsConsistent server
unfolding latest_revision new_state
server-IsConsistent = record {
  well_formed = db-IsWellFormed;
  next_is = refl;
  committed_le = omega arith;
}
