-- ===== src/Datastore/Keys.antt =====
-- The names of the objects: `ChunkKey`, `SnapshotKey` and `parseRevisionFromKey`. A key is a list of
-- character codes.
use netsy.Base.{
  ℕ, zero, suc, ◌+◌, ◌-◌, ◌*◌, ◌/◌, ◌%◌, ◌^◌, Bool, false, Option, none, some, [], ◌∷◌, ◌++◌, ◌&&◌,
  ◌||◌, leb, ltb, ◌==◌, if◌then◌else◌, Bytes, bytes_equal, ℤ, pos, negsuc,
}

-- fmt's %0wd of a number below 10^w: exactly `width` digits, in front of `rest`.
unfoldable pub digits_onto : (width n : ℕ) → (rest : Bytes) → Bytes
digits_onto zero n rest = rest
digits_onto (suc w) n rest = digits_onto w (n / 10) ((48 + n % 10) ∷ rest)

-- '/'
abbrev pub slash : ℕ
slash = 47

-- ".netsy"
abbrev pub extension : Bytes
extension = 46 ∷ 110 ∷ 101 ∷ 116 ∷ 115 ∷ 121 ∷ []

-- "chunks"
abbrev pub chunks_folder : Bytes
chunks_folder = 99 ∷ 104 ∷ 117 ∷ 110 ∷ 107 ∷ 115 ∷ []

-- "snapshots"
abbrev pub snapshots_folder : Bytes
snapshots_folder = 115 ∷ 110 ∷ 97 ∷ 112 ∷ 115 ∷ 104 ∷ 111 ∷ 116 ∷ 115 ∷ []

unfoldable pub file_name : (revision : ℕ) → Bytes
unfolding digits_onto
file_name revision = digits_onto 19 revision extension

unfoldable pub chunk_key : (revision : ℕ) → Bytes
unfolding file_name
chunk_key revision =
    chunks_folder ++ slash ∷ digits_onto 4 (revision % 10000) (slash ∷ file_name revision)

unfoldable pub snapshot_key : (revision : ℕ) → Bytes
unfolding file_name
snapshot_key revision = snapshots_folder ++ slash ∷ file_name revision

unfoldable pub has_slash : Bytes → Bool
has_slash [] = false
has_slash (c ∷ cs) = c == slash || has_slash cs

-- The last part of strings.Split(key, "/").
unfoldable pub last_part : Bytes → Bytes
unfolding has_slash
last_part [] = []
last_part (c ∷ cs) =
    let rest = last_part cs in if has_slash cs then rest else if c == slash then cs else c ∷ cs

abbrev pub with_first : ℕ → Option Bytes → Option Bytes
with_first c none = none
with_first c (some cs) = some (c ∷ cs)

-- strings.HasSuffix and strings.TrimSuffix
unfoldable pub strip_suffix : Bytes → (suffix : Bytes) → Option Bytes
strip_suffix [] suffix = if bytes_equal [] suffix then some [] else none
strip_suffix (c ∷ cs) suffix =
    let rest = strip_suffix cs suffix in
    if bytes_equal (c ∷ cs) suffix then some [] else with_first c rest

abbrev pub is_digit : ℕ → Bool
is_digit c = leb 48 c && leb c 57

unfoldable pub parse_digits : (value : ℕ) → Bytes → Option ℕ
parse_digits value [] = some value
parse_digits value (c ∷ cs) =
    let rest = parse_digits (value * 10 + (c - 48)) cs in if is_digit c then rest else none

abbrev pub not_empty : Bytes → Option ℕ
not_empty [] = none
not_empty (c ∷ cs) = parse_digits 0 (c ∷ cs)

abbrev pub positive : Option ℕ → Option ℤ
positive none = none
positive (some n) = if ltb n (2 ^ 63) then some (pos n) else none

abbrev pub negative : Option ℕ → Option ℤ
negative none = none
negative (some zero) = some (pos 0)
negative (some (suc n)) = if ltb n (2 ^ 63) then some (negsuc n) else none

-- strconv.ParseInt(s, 10, 64)
unfoldable pub parse_int : Bytes → Option ℤ
unfolding parse_digits
parse_int [] = none
parse_int (c ∷ cs) =
    if c == 43
    then positive (not_empty cs)
    else if c == 45
    then negative (not_empty cs)
    else positive (not_empty (c ∷ cs))

abbrev pub parsed_name : Option Bytes → Option ℤ
parsed_name none = none
parsed_name (some digits) = parse_int digits

unfoldable pub parse_revision_from_key : Bytes → Option ℤ
unfolding last_part strip_suffix parse_int
parse_revision_from_key key = parsed_name (strip_suffix (last_part key) extension)
