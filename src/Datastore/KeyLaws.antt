-- ===== src/Datastore/KeyLaws.antt =====
-- The revision in the name of a chunk or a snapshot is read back.
use netsy.Base.{
  ℕ, zero, suc, ◌+◌, ◌-◌, ◌*◌, ◌/◌, ◌%◌, ◌^◌, ◌<◌, ◌≡◌, refl, ap, ◌∙◌, true, false, some, [], ◌∷◌,
  ◌++◌, arith, ltb, ◌==◌, Bytes, bytes_equal, bytes_equal_refl, pos, All, length, length-append,
}
use netsy.Datastore.Keys.{
  digits_onto, slash, extension, chunks_folder, snapshots_folder, chunk_key, snapshot_key,
  has_slash, last_part, strip_suffix, is_digit, parse_digits, parse_int, positive,
  parse_revision_from_key,
}

pow10 : ℕ → ℕ
pow10 zero = 1
pow10 (suc w) = 10 * pow10 w

read_digit :
    (value d : ℕ) (rest : Bytes)
    → d < 10
    → parse_digits value ((48 + d) ∷ rest) ≡ parse_digits (value * 10 + d) rest
unfolding parse_digits
read_digit value d rest h =
    let digit : is_digit (48 + d) ≡ true = ground arith in
    let same : value * 10 + (48 + d - 48) ≡ value * 10 + d = omega arith in rw digit (rw same refl)

regroup : (value p n : ℕ) → (value * p + n / 10) * 10 + n % 10 ≡ value * (10 * p) + n
regroup value p n =
    let shift : (value * p) * 10 ≡ value * (10 * p) = grind arith in omega (arith, shift)

-- Digits are read back into the number, behind what was read before.
parse-digits_onto :
    (w value n : ℕ) (rest : Bytes)
    → n < pow10 w
    → parse_digits value (digits_onto w n rest) ≡ parse_digits (value * pow10 w + n) rest
unfolding digits_onto pow10
parse-digits_onto zero value n rest h = ap (λ v. parse_digits v rest) (omega arith)
parse-digits_onto (suc w) value n rest h =
    parse-digits_onto w value (n / 10) ((48 + n % 10) ∷ rest) (omega arith)
    ∙ read_digit (value * pow10 w + n / 10) (n % 10) rest (omega arith)
    ∙ ap (λ v. parse_digits v rest) (regroup value (pow10 w) n)

-- The digits are digits, and what follows them stays.
digits-append :
    (w n : ℕ) (front rest : Bytes) → digits_onto w n (front ++ rest) ≡ digits_onto w n front ++ rest
unfolding digits_onto
digits-append zero n front rest = refl
digits-append (suc w) n front rest = digits-append w (n / 10) ((48 + n % 10) ∷ front) rest

abbrev IsDigit : ℕ → Type 0
IsDigit c = is_digit c ≡ true

digits-IsDigit : (w n : ℕ) (rest : Bytes) → All IsDigit rest → All IsDigit (digits_onto w n rest)
unfolding digits_onto
digits-IsDigit zero n rest h = h
digits-IsDigit (suc w) n rest h =
    digits-IsDigit w (n / 10) ((48 + n % 10) ∷ rest)
      ((let small : n % 10 < 10 = omega arith in ground arith), h)

digits-slash :
    (w n : ℕ) (rest : Bytes) → has_slash rest ≡ false → has_slash (digits_onto w n rest) ≡ false
unfolding digits_onto has_slash
digits-slash zero n rest h = h
digits-slash (suc w) n rest h = digits-slash w (n / 10) ((48 + n % 10) ∷ rest) (ground arith)

has_slash-inside : (front file : Bytes) → has_slash (front ++ slash ∷ file) ≡ true
unfolding has_slash
has_slash-inside [] file = refl
has_slash-inside (c ∷ cs) file = ground (arith, has_slash-inside cs file)

last_part-file :
    (front file : Bytes) → has_slash file ≡ false → last_part (front ++ slash ∷ file) ≡ file
unfolding last_part
last_part-file [] file h = rw h refl
last_part-file (c ∷ cs) file h = rw (has_slash-inside cs file) (last_part-file cs file h)

longer : (xs suffix : Bytes) → length suffix < length xs → bytes_equal xs suffix ≡ false
unfolding bytes_equal
longer [] suffix h = absurd (omega arith)
longer (x ∷ xs) [] h = refl
longer (x ∷ xs) (s ∷ suffix) h = ground (arith, longer xs suffix)

strip_suffix-append : (xs suffix : Bytes) → strip_suffix (xs ++ suffix) suffix ≡ some xs
unfolding strip_suffix bytes_equal
strip_suffix-append [] [] = refl
strip_suffix-append [] (s ∷ suffix) = rw (bytes_equal_refl (s ∷ suffix)) refl
strip_suffix-append (x ∷ xs) suffix =
    let more : length suffix < length (x ∷ (xs ++ suffix)) =
      omega (arith, length-append xs suffix) in
    rw (longer (x ∷ (xs ++ suffix)) suffix more) (rw (strip_suffix-append xs suffix) refl)

-- A text of digits has no sign.
parse_int-digits :
    (cs : Bytes) → All IsDigit cs → 0 < length cs → parse_int cs ≡ positive (parse_digits 0 cs)
unfolding parse_int
parse_int-digits [] h more = absurd (omega arith)
parse_int-digits (c ∷ cs) h more =
    let digit = h.0 in
    let plus : (c == 43) ≡ false = ground arith in
    let minus : (c == 45) ≡ false = ground arith in rw (plus, minus) refl

digits_more : (w n : ℕ) (rest : Bytes) → length (digits_onto w n rest) ≡ w + length rest
unfolding digits_onto
digits_more zero n rest = omega arith
digits_more (suc w) n rest = omega (arith, digits_more w (n / 10) ((48 + n % 10) ∷ rest))

module _ (w n : ℕ) (bound : n < pow10 w) (some_digit : 0 < w) (fits : n < 2 ^ 63) where
  digits-value : parse_digits 0 (digits_onto w n []) ≡ some n
  unfolding parse_digits
  digits-value = parse-digits_onto w 0 n [] bound ∙ ap some (omega arith)

  in_range : positive (some n) ≡ some (pos n)
  in_range = let below : ltb n (2 ^ 63) ≡ true = ground arith in rw below refl

  digits-int : parse_int (digits_onto w n []) ≡ some (pos n)
  digits-int =
      parse_int-digits (digits_onto w n []) (digits-IsDigit w n [] tt)
        (omega (arith, digits_more w n []))
      ∙ ap positive digits-value
      ∙ in_range

  name-parsed :
      (front : Bytes)
      → parse_revision_from_key (front ++ slash ∷ digits_onto w n extension) ≡ some (pos n)
  unfolding parse_revision_from_key has_slash
  name-parsed front =
      rw (last_part-file front (digits_onto w n extension) (digits-slash w n extension refl)) (
        rw (digits-append w n [] extension)
          (rw (strip_suffix-append (digits_onto w n []) extension) digits-int))

-- The key of a chunk and that of a snapshot are read back into the revision that they were made of,
-- for every revision that fits an int64.
pub keys_round_trip :
    (rev : ℕ)
    → rev < 2 ^ 63
    → (parse_revision_from_key (chunk_key rev) ≡ some (pos rev))
      × (parse_revision_from_key (snapshot_key rev) ≡ some (pos rev))
unfolding chunk_key snapshot_key
keys_round_trip rev h =
    let bound : rev < pow10 19 = unfold pow10 in omega arith in
    let partition : Bytes = digits_onto 4 (rev % 10000) [] in
    let folder : chunk_key rev
        ≡ (chunks_folder ++ slash ∷ partition) ++ slash ∷ digits_onto 19 rev extension =
      refl in
    (
      rw folder (name-parsed 19 rev bound (omega arith) h (chunks_folder ++ slash ∷ partition)),
      name-parsed 19 rev bound (omega arith) h snapshots_folder,
    )
