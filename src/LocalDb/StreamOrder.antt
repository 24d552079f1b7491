-- ===== src/LocalDb/StreamOrder.antt =====
-- The sorted rows of a range query, and those behind a key (find.go).
use netsy.Base.{
  ℕ, zero, suc, ◌≡◌, refl, sym, ap, ◌∙◌, ◌≢◌, Bool, true, false, Option, none, some, List, [], ◌∷◌,
  arith, All, inl, inr, Bytes, bytes_equal, Bool-cases, Option-cases, select, take, drop, length,
  if◌then◌else◌,
}
use netsy.LocalDb.{Record}
use netsy.LocalDb.Find.{bytes_less, asc}
use netsy.LocalDb.FindOrder.{bytes_less_asymm}
use netsy.LocalDb.FindStream.{past_cursor, insert_by_key, sort_by_key}

pub bytes_less_irrefl : (a : Bytes) → bytes_less a a ≡ false
unfolding bytes_less
bytes_less_irrefl [] = refl
bytes_less_irrefl (a ∷ as') = ground (arith, bytes_less_irrefl as')

pub bytes_less_trans :
    (a b c : Bytes) → bytes_less a b ≡ true → bytes_less c b ≡ false → bytes_less a c ≡ true
unfolding bytes_less
bytes_less_trans [] [] c h k = cc
bytes_less_trans [] (b ∷ bs) [] h k = cc
bytes_less_trans [] (b ∷ bs) (c ∷ cs) h k = refl
bytes_less_trans (a ∷ as') [] c h k = cc
bytes_less_trans (a ∷ as') (b ∷ bs) [] h k = cc
bytes_less_trans (a ∷ as') (b ∷ bs) (c ∷ cs) h k = ground (arith, bytes_less_trans as' bs cs)

pub bytes_less_total :
    (a b : Bytes) → bytes_less b a ≡ false → bytes_equal a b ≡ false → bytes_less a b ≡ true
unfolding bytes_less bytes_equal
bytes_less_total [] [] h k = cc
bytes_less_total [] (b ∷ bs) h k = refl
bytes_less_total (a ∷ as') [] h k = cc
bytes_less_total (a ∷ as') (b ∷ bs) h k = ground (arith, bytes_less_total as' bs)

-- The keys behind a key.
abbrev pub behind : Bytes → Record → Bool
behind k r = bytes_less k r.key

-- A test that a row passes if one before it does.
abbrev pub IsUpward : (Record → Bool) → Type 0
IsUpward p = (r q : Record) → p r ≡ true → bytes_less q.key r.key ≡ false → p q ≡ true

pub behind-IsUpward : (k : Bytes) → IsUpward (behind k)
behind-IsUpward k r q h less = bytes_less_trans k r.key q.key h less

pub past-IsUpward : (k : Bytes) → IsUpward (past_cursor asc k)
past-IsUpward [] = λ x q h less. refl
past-IsUpward (b ∷ bs) = behind-IsUpward (b ∷ bs)

select-insert :
    (p : Record → Bool) (r : Record) (rs : List Record)
    → IsUpward p
    → select p (insert_by_key asc r rs)
      ≡ (if p r then insert_by_key asc r (select p rs) else select p rs)
unfolding insert_by_key
select-insert p r [] up = refl
select-insert p r (q ∷ qs) up = ground (arith, select-insert p r qs up, up r q)

-- Rows that are selected and then sorted are the sorted rows that are selected.
pub sort-select :
    (p : Record → Bool) (rs : List Record)
    → IsUpward p
    → sort_by_key asc (select p rs) ≡ select p (sort_by_key asc rs)
unfolding sort_by_key
sort-select p [] up = refl
sort-select p (r ∷ rs) up =
    ground (arith, sort-select p rs up, select-insert p r (sort_by_key asc rs) up)

-- Each key comes before all that follow it.
abbrev pub IsStrict : List Record → Type 0
IsStrict [] = Unit
IsStrict (r ∷ rs) = All (λ (q : Record). bytes_less r.key q.key ≡ true) rs × IsStrict rs

abbrev pub Differ : Record → List Record → Type 0
Differ r = All (λ (q : Record). bytes_equal r.key q.key ≡ false)

abbrev pub KeysDiffer : List Record → Type 0
KeysDiffer [] = Unit
KeysDiffer (r ∷ rs) = Differ r rs × KeysDiffer rs

insert-All :
    (P : Record → Type 0) (r : Record) (rs : List Record)
    → P r
    → All P rs
    → All P (insert_by_key asc r rs)
unfolding insert_by_key
insert-All P r [] h w = (h, tt)
insert-All P r (q ∷ qs) h w = elim (Bool-cases (bytes_less q.key r.key)) [
  | inl e ↦ simp e (w.0, insert-All P r qs h w.1)
  | inr e ↦ simp e (h, w)
]

pub sort-All : (P : Record → Type 0) (rs : List Record) → All P rs → All P (sort_by_key asc rs)
unfolding sort_by_key
sort-All P [] w = tt
sort-All P (r ∷ rs) w = insert-All P r (sort_by_key asc rs) w.0 (sort-All P rs w.1)

length-insert : (r : Record) (rs : List Record) → length (insert_by_key asc r rs) ≡ suc (length rs)
unfolding insert_by_key
length-insert r [] = refl
length-insert r (q ∷ qs) = ground (arith, length-insert r qs)

pub length-sort : (rs : List Record) → length (sort_by_key asc rs) ≡ length rs
unfolding sort_by_key
length-sort [] = refl
length-sort (r ∷ rs) = length-insert r (sort_by_key asc rs) ∙ ap suc (length-sort rs)

less-All :
    (r q : Record) (qs : List Record)
    → bytes_less r.key q.key ≡ true
    → All (λ (x : Record). bytes_less q.key x.key ≡ true) qs
    → All (λ (x : Record). bytes_less r.key x.key ≡ true) qs
less-All r q [] h w = tt
less-All r q (x ∷ xs) h w =
    (bytes_less_trans r.key q.key x.key h (bytes_less_asymm q.key x.key w.0), less-All r q xs h w.1)

insert-IsStrict :
    (r : Record) (rs : List Record) → Differ r rs → IsStrict rs → IsStrict (insert_by_key asc r rs)
unfolding insert_by_key
insert-IsStrict r [] d w = (tt, tt)
insert-IsStrict r (q ∷ qs) d w = elim (Bool-cases (bytes_less q.key r.key)) [
  | inl e ↦ simp e (
    insert-All (λ (x : Record). bytes_less q.key x.key ≡ true) r qs e w.0,
    insert-IsStrict r qs d.1 w.1,
  )
  | inr e ↦
      let first = bytes_less_total r.key q.key e d.0 in
      simp e ((first, less-All r q qs first w.0), w)
]

pub sort-IsStrict : (rs : List Record) → KeysDiffer rs → IsStrict (sort_by_key asc rs)
unfolding sort_by_key
sort-IsStrict [] d = tt
sort-IsStrict (r ∷ rs) d =
    insert-IsStrict r (sort_by_key asc rs)
      (sort-All (λ (q : Record). bytes_equal r.key q.key ≡ false) rs d.0) (sort-IsStrict rs d.1)

-- The key of the last row.
unfoldable pub last_row_key : List Record → Option Bytes
last_row_key [] = none
last_row_key (r ∷ rs) = elim (last_row_key rs) [ none ↦ some r.key | some k ↦ some k ]

pub last-All :
    (P : Bytes → Type 0) (rs : List Record) (last : Bytes)
    → All (λ (q : Record). P q.key) rs
    → last_row_key rs ≡ some last
    → P last
unfolding last_row_key
last-All P [] last w h = cc
last-All P (r ∷ rs) last w h = elim (Option-cases (last_row_key rs)) [
  | inl e ↦ let it : r.key ≡ last = ground arith in rw (sym it) (w.0)
  | inr (x, e) ↦ let it : x ≡ last = ground arith in last-All P rs last w.1 (e ∙ ap some it)
]

pub take-All : (P : Record → Type 0) (n : ℕ) (rs : List Record) → All P rs → All P (take n rs)
take-All P zero rs w = tt
take-All P (suc n) [] w = tt
take-All P (suc n) (r ∷ rs) w = (w.0, take-All P n rs w.1)

pub drop-All : (P : Record → Type 0) (n : ℕ) (rs : List Record) → All P rs → All P (drop n rs)
drop-All P zero rs w = w
drop-All P (suc n) [] w = tt
drop-All P (suc n) (r ∷ rs) w = drop-All P n rs w.1

select-all :
    (k : Bytes) (rs : List Record)
    → All (λ (q : Record). bytes_less k q.key ≡ true) rs
    → select (behind k) rs ≡ rs
select-all k [] w = refl
select-all k (r ∷ rs) w = ground (arith, w.0, select-all k rs w.1)

pub last-some : (r : Record) (rs : List Record) → last_row_key (r ∷ rs) ≢ none
unfolding last_row_key
last-some r rs h = ground arith

pub last-none : (rs : List Record) → last_row_key rs ≡ none → length rs ≡ 0
last-none [] h = refl
last-none (r ∷ rs) h = absurd (last-some r rs h)

drop-none : (n : ℕ) (rs : List Record) → last_row_key (take n rs) ≡ none → drop n rs ≡ rs
drop-none zero rs e = refl
drop-none (suc n) [] e = refl
drop-none (suc n) (r ∷ rs) e = absurd (last-some r (take n rs) e)

-- Behind the last of the next `n` rows come those after it.
select-first :
    (n : ℕ) (rs : List Record) (last : Bytes)
    → IsStrict rs
    → last_row_key (take n rs) ≡ some last
    → select (behind last) rs ≡ drop n rs
unfolding last_row_key
select-first zero rs last w h = cc
select-first (suc n) [] last w h = cc
select-first (suc n) (r ∷ rs) last w h = elim (Option-cases (last_row_key (take n rs))) [
  | inl e ↦
      let it : r.key ≡ last = ground arith in
      let all : select (behind last) rs ≡ rs = rw it at (select-all r.key rs w.0) in
      let own : bytes_less last r.key ≡ false = rw it (bytes_less_irrefl last) in
      simp own (all ∙ sym (drop-none n rs e))
  | inr (x, e) ↦
      let it : x ≡ last = ground arith in
      let less =
        last-All (λ k. bytes_less r.key k ≡ true) (take n rs) last (take-All _ n rs w.0)
          (e ∙ ap some it) in
      ground (arith, bytes_less_asymm r.key last less, select-first n rs last w.1 (e ∙ ap some it))
]

pub select-behind :
    (j n : ℕ) (rs : List Record) (last : Bytes)
    → IsStrict rs
    → last_row_key (take n (drop j rs)) ≡ some last
    → select (behind last) rs ≡ drop n (drop j rs)
select-behind zero n rs last w h = select-first n rs last w h
select-behind (suc j) zero [] last w h = refl
select-behind (suc j) (suc n) [] last w h = refl
select-behind (suc j) n (r ∷ rs) last w h =
    let less =
      last-All (λ k. bytes_less r.key k ≡ true) (take n (drop j rs)) last
        (take-All _ n (drop j rs) (drop-All _ j rs w.0)) h in
    ground (arith, bytes_less_asymm r.key last less, select-behind j n rs last w.1 h)
