-- ===== src/Datastore/Tests.antt =====
-- The names of objects at a concrete revision.
use netsy.Base.{◌≡◌, some, arith, pos}
use netsy.Datastore.Keys.{chunk_key, snapshot_key, parse_revision_from_key}
use netsy.Datastore.KeyLaws.{keys_round_trip}

keys_round_trip_example :
    (parse_revision_from_key (chunk_key 12345) ≡ some (pos 12345))
    × (parse_revision_from_key (snapshot_key 12345) ≡ some (pos 12345))
keys_round_trip_example = keys_round_trip 12345 (omega arith)
