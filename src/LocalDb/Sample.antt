-- ===== src/LocalDb/Sample.antt =====
-- Tables and records at which the tests of the database run.
use netsy.Base.{
  ℕ, ◌<◌, ◌≡◌, refl, Bool, true, false, some, List, [], ◌∷◌, arith, Bytes, bytes_equal,
}
use netsy.LocalDb.{Record, Db, ok, latest_revision, latest_for_key, insert_row, unique_conflict}
use netsy.LocalDb.Latest.{IsWellFormed}
use netsy.LocalDb.Insert.{insert_record, invalid_for_insert}
use netsy.LocalDb.Find.{metadata_record}

abbrev pub row :
    (revision : ℕ) → Bytes → (created : Bool) → (create_revision prev version : ℕ) → Record
row revision key created create_revision prev version = record metadata_record {
  revision = revision;
  key = key;
  created = created;
  create_revision = create_revision;
  prev_revision = prev;
  version = version;
  value = 7 ∷ [];
  created_at = some 5;
  leader_id = "n1";
}

abbrev pub key_a : Bytes
key_a = 97 ∷ []

abbrev pub key_b : Bytes
key_b = 98 ∷ []

abbrev pub first_a : Record
first_a = row 1 key_a true 1 0 1

abbrev pub second_a : Record
second_a = row 2 key_a false 1 1 2

abbrev pub rows : List Record
rows = second_a ∷ first_a ∷ []

abbrev pub db : Db
db = record { records = rows; compactions = [] }

abbrev pub new_b : Record
new_b = record metadata_record {
  revision = 3;
  key = key_b;
  created = true;
  value = 8 ∷ [];
  leader_id = "n1";
}

abbrev pub first_b : Record
first_b = record (row 3 key_b true 3 0 1) { value = 8 ∷ []; created_at = some 6 }

abbrev pub after_b : Db
after_b = record { records = first_b ∷ rows; compactions = [] }

pub db-IsWellFormed : IsWellFormed rows
db-IsWellFormed = record {
  rows = (
    record {
      positive = omega arith;
      prev_older = omega arith;
      create_le = omega arith;
      tombstone_version = λ e. cc;
    },
    (
      record {
        positive = omega arith;
        prev_older = omega arith;
        create_le = omega arith;
        tombstone_version = λ e. cc;
      },
      tt,
    ),
  );
  distinct = ((ground arith, tt), (tt, tt));
}

pub b_valid : invalid_for_insert new_b ≡ false
unfolding invalid_for_insert
b_valid = refl

pub b_new : latest_revision rows < 3
unfolding latest_revision
b_new = omega arith

pub b_inserted : insert_record db new_b 6 false ≡ ok (first_b, after_b)
unfolding insert_record latest_for_key bytes_equal insert_row unique_conflict latest_revision
b_inserted = refl
