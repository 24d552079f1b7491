-- ===== src/Elector/MajorityLaws.antt =====
-- A record that a majority of the cluster holds, and the Primary that is elected after it.
use mathlib.Core.List.{Memᴰ}
use netsy.Base.{
  ℕ, suc, ◌+◌, ◌*◌, ◌/◌, ◌≤◌, ◌<◌, ◌≡◌, refl, sym, ap, ◌∙◌, String, Bool, true, false, none, some,
  List, [], ◌∷◌, ◌++◌, ◌||◌, ◌⊎◌, inl, inr, arith, All, Bool-cases, Option-cases, length,
  length-append, negsuc, ℤ, eq_iff,
}
use netsy.Primary.Quorum.{contains}
use netsy.Primary.Receipts.{NoRepeat, AllIn, length-AllIn}
use netsy.Elector.Election.{
  Candidate, Election, ElectionError, ok, err, Entry, Previous, check_previous_primary, contacted,
  enough_contacted, collect_node_states, filter_candidates, is_active, is_healthy, choose,
  choose_primary, elect_primary_once,
}
use netsy.Elector.ElectionLaws.{IsLatest, choose_primary-IsPicked}

abbrev pub entry_ids : List Entry → List String
entry_ids [] = []
entry_ids (e ∷ es) = e.from_map.info.node_id ∷ entry_ids es

abbrev pub candidate_ids : List Candidate → List String
candidate_ids [] = []
candidate_ids (c ∷ cs) = c.info.node_id ∷ candidate_ids cs

-- A node that answers is the one of its entry.
abbrev pub Answers : Entry → Type 0
Answers e = (c : Candidate) → e.contact ≡ some c → c.info.node_id ≡ e.from_map.info.node_id

contains-append :
    (x : String) (xs ys : List String) → contains x (xs ++ ys) ≡ (contains x xs || contains x ys)
unfolding contains
contains-append x [] ys = refl
contains-append x (y ∷ xs) ys = ground (arith, contains-append x xs ys)

-- The first holder among candidates.
holds_any : List String → List Candidate → Bool
holds_any ids [] = false
holds_any ids (c ∷ cs) = let rest = holds_any ids cs in contains c.info.node_id ids || rest

holds_any-found :
    (ids : List String) (cs : List Candidate)
    → holds_any ids cs ≡ true
    → (c : Candidate) × Memᴰ c cs × (contains c.info.node_id ids ≡ true)
unfolding holds_any
holds_any-found ids [] h = cc
holds_any-found ids (c ∷ cs) h = elim (Bool-cases (contains c.info.node_id ids)) [
  | inl here ↦ (c, Memᴰ.head refl, here)
  | inr later ↦
      let (d, there, held) = holds_any-found ids cs (ground arith) in (d, Memᴰ.tail there, held)
]

disjoint-NoRepeat :
    (ids : List String) (cs : List Candidate)
    → holds_any ids cs ≡ false
    → NoRepeat ids
    → NoRepeat (candidate_ids cs)
    → NoRepeat (candidate_ids cs ++ ids)
unfolding holds_any
disjoint-NoRepeat ids [] h once each = once
disjoint-NoRepeat ids (c ∷ cs) h once each = (
  ground (arith, contains-append c.info.node_id (candidate_ids cs) ids, each.0),
  disjoint-NoRepeat ids cs (ground arith) once each.1,
)

AllIn-append : (xs ys zs : List String) → AllIn xs zs → AllIn ys zs → AllIn (xs ++ ys) zs
AllIn-append [] ys zs h k = k
AllIn-append (x ∷ xs) ys zs h k = (h.0, AllIn-append xs ys zs h.1 k)

AllIn-cons : (x : String) (xs ys : List String) → AllIn xs ys → AllIn xs (x ∷ ys)
unfolding contains
AllIn-cons x [] ys h = tt
AllIn-cons x (y ∷ xs) ys h = (ground (arith, h.0), AllIn-cons x xs ys h.1)

contains-AllIn :
    (x : String) (xs ys : List String) → AllIn xs ys → contains x ys ≡ false → contains x xs ≡ false
unfolding contains
contains-AllIn x [] ys h e = refl
contains-AllIn x (y ∷ xs) ys h e = ground (arith, eq_iff y x, h.0, contains-AllIn x xs ys h.1 e)

contains-first : (x y : String) (ys : List String) → x ≡ y → contains x (y ∷ ys) ≡ true
unfolding contains
contains-first x y ys e = ground (arith, eq_iff y x)

too_many : (a h n : ℕ) → n / 2 + 1 ≤ a → a + h ≤ n → n < 2 * h → ⊥
too_many a h n le all most = omega arith

half : (a n : ℕ) → enough_contacted (negsuc 0) a n ≡ true → n / 2 + 1 ≤ a
unfolding enough_contacted
half a n h = ground arith

-- The nodes that answer are nodes of the map, each once.
contacted-ids :
    (es : List Entry)
    → NoRepeat (entry_ids es)
    → All Answers es
    → NoRepeat (candidate_ids (contacted es)) × AllIn (candidate_ids (contacted es)) (entry_ids es)
unfolding contacted
contacted-ids [] once each = (tt, tt)
contacted-ids (e ∷ es) once each =
    let (distinct, known) = contacted-ids es once.1 each.1 in
    elim (Option-cases e.contact) [
      | inl silent ↦ rw (silent, contacted) (distinct, AllIn-cons e.from_map.info.node_id _ _ known)
      | inr (c, found) ↦
          let same = each.0 c found in
          let new = contains-AllIn e.from_map.info.node_id _ _ known once.0 in
          rw (found, contacted)
            (
              (rw same new, distinct),
              (
                contains-first c.info.node_id e.from_map.info.node_id (entry_ids es) same,
                AllIn-cons e.from_map.info.node_id _ _ known,
              ),
            )
    ]

length-ids : (cs : List Candidate) → length (candidate_ids cs) ≡ length cs
length-ids [] = refl
length-ids (c ∷ cs) = ap suc (length-ids cs)

length-entry_ids : (es : List Entry) → length (entry_ids es) ≡ length es
length-entry_ids [] = refl
length-entry_ids (e ∷ es) = ap suc (length-entry_ids es)

module _ (es : List Entry) (holders : List String) (once : NoRepeat (entry_ids es))
    (each : All Answers es) (distinct : NoRepeat holders)
    (registered : AllIn holders (entry_ids es)) (majority : length es < 2 * length holders)
    (enough : enough_contacted (negsuc 0) (length (contacted es)) (length es) ≡ true) where
  -- More than half of the nodes answer, so one of the holders does.
  answering_holder :
      (c : Candidate) × Memᴰ c (contacted es) × (contains c.info.node_id holders ≡ true)
  answering_holder = elim (Bool-cases (holds_any holders (contacted es))) [
    | inl some_one ↦ holds_any-found holders (contacted es) some_one
    | inr no_one ↦
        let ids = candidate_ids (contacted es) in
        let (each_once, known) = contacted-ids es once each in
        let apart = disjoint-NoRepeat holders (contacted es) no_one distinct each_once in
        let bound =
          length-AllIn (ids ++ holders) (entry_ids es) apart
            (AllIn-append ids holders (entry_ids es) known registered) in
        absurd (
          too_many (length (contacted es)) (length holders) (length es)
            (half (length (contacted es)) (length es) enough)
            (omega (
              arith,
              bound,
              length-append ids holders,
              length-ids (contacted es),
              length-entry_ids es,
            ))
            majority)
  ]

choose-inv :
    (x : Election (List Candidate)) (c : Candidate)
    → choose x ≡ ok c
    → (cs : List Candidate) × (x ≡ ok cs) × (choose_primary cs ≡ ok c)
choose-inv (err e) c h = cc
choose-inv (ok cs) c h = (cs, refl, h)

free-elect :
    (previous : Previous) (quorum : ℤ) (es : List Entry)
    → check_previous_primary previous ≡ none
    → elect_primary_once previous quorum es ≡ choose (collect_node_states quorum es)
unfolding elect_primary_once
free-elect previous quorum es free = rw (free, elect_primary_once) refl

busy-elect :
    (previous : Previous) (quorum : ℤ) (es : List Entry) (e : ElectionError)
    → check_previous_primary previous ≡ some e
    → elect_primary_once previous quorum es ≡ err e
unfolding elect_primary_once
busy-elect previous quorum es e busy = rw (busy, elect_primary_once) refl

collect-inv :
    (es : List Entry) (cs : List Candidate)
    → collect_node_states (negsuc 0) es ≡ ok cs
    → (enough_contacted (negsuc 0) (length (contacted es)) (length es) ≡ true) × (contacted es ≡ cs)
unfolding collect_node_states
collect-inv es cs h = ground arith

err-not-ok : (e : ElectionError) (c : Candidate) → ¬ (err e ≡ ok c)
err-not-ok e c h = cc

elect-inv :
    (previous : Previous) (es : List Entry) (c : Candidate)
    → elect_primary_once previous (negsuc 0) es ≡ ok c
    → (enough_contacted (negsuc 0) (length (contacted es)) (length es) ≡ true)
      × (choose_primary (contacted es) ≡ ok c)
elect-inv previous es c h = elim (Option-cases (check_previous_primary previous)) [
  | inr (e, busy) ↦ absurd (err-not-ok e c (sym (busy-elect previous (negsuc 0) es e busy) ∙ h))
  | inl free ↦
      let (cs, found, chosen) =
        choose-inv (collect_node_states (negsuc 0) es) c
          (sym (free-elect previous (negsuc 0) es free) ∙ h) in
      let (enough, same) = collect-inv es cs found in (enough, ap choose_primary same ∙ chosen)
]

Mem-filter :
    (p : Candidate → Bool) (c : Candidate) (cs : List Candidate)
    → p c ≡ true
    → Memᴰ c cs
    → Memᴰ c (filter_candidates p cs)
unfolding filter_candidates
Mem-filter p c [] e m = m
Mem-filter p c (d ∷ cs) e (Memᴰ.head is) = rw (ap p (sym is) ∙ e) (Memᴰ.head is)
Mem-filter p c (d ∷ cs) e (Memᴰ.tail m) = elim (Bool-cases (p d)) [
  | inl kept ↦ simp kept (Memᴰ.tail (Mem-filter p c cs e m))
  | inr dropped ↦ simp dropped (Mem-filter p c cs e m)
]

IsLatest-Mem :
    (c d : Candidate) (cs : List Candidate)
    → IsLatest c cs
    → Memᴰ d cs
    → d.latest_revision ≤ c.latest_revision
IsLatest-Mem c d [] h m = elim m [ ]
IsLatest-Mem c d (x ∷ cs) h (Memᴰ.head e) =
    let same = ap (λ (y : Candidate). y.latest_revision) e in omega (arith, same, h.0)
IsLatest-Mem c d (x ∷ cs) h (Memᴰ.tail m) = IsLatest-Mem c d cs h.1 m

-- Take a cluster with the automatic quorum in which more than half of the nodes hold a revision. If
-- every holder that answers is healthy and reports at least that revision, the elected Primary does
-- too, unless it is the one node that already is the active Primary.
pub elect_primary_once-majority :
    (previous : Previous) (es : List Entry) (holders : List String) (rev : ℕ) (c : Candidate)
    → NoRepeat (entry_ids es)
    → All Answers es
    → NoRepeat holders
    → AllIn holders (entry_ids es)
    → length es < 2 * length holders
    → ((d : Candidate)
        → Memᴰ d (contacted es)
        → contains d.info.node_id holders ≡ true
        → (is_healthy d ≡ true) × (rev ≤ d.latest_revision))
    → elect_primary_once previous (negsuc 0) es ≡ ok c
    → (filter_candidates is_active (contacted es) ≡ c ∷ []) ⊎ (rev ≤ c.latest_revision)
elect_primary_once-majority previous es holders rev c once each distinct known most fresh h =
    let (enough, chosen) = elect-inv previous es c h in
    let (d, there, held) = answering_holder es holders once each distinct known most enough in
    let (well, has) = fresh d there held in
    elim (choose_primary-IsPicked (contacted es) c chosen).reason [
      | inl alone ↦ inl alone
      | inr (fit, latest, free) ↦
          let le =
            IsLatest-Mem c d (filter_candidates is_healthy (contacted es)) latest
              (Mem-filter is_healthy d (contacted es) well there) in
          inr (omega (arith, le, has))
    ]
