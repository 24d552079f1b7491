-- ===== src/Bootstrap/RegisterLaws.antt =====
-- The results of the registration (loader.go).
use netsy.Base.{
  ℕ, suc, ◌+◌, ◌≤◌, ◌≡◌, refl, sym, ap, ◌∙◌, ◌⊎◌, inl, inr, Bool, true, false, Option, none, some,
  List, [], ◌∷◌, arith, leb, Bool-cases, length,
}
use netsy.Bootstrap.{BootError, register_failed, elector_not_connected, canceled}
use netsy.Bootstrap.Register.{
  Registration, Attempt, Registered, registered, refused, after_failure, after_answer,
  register_turn, register_loop, register_with_elector,
}

abbrev pub total : List ℕ → ℕ
total [] = 0
total (n ∷ ns) = n + total ns

-- An attempt without a client or without an answer, in the wait after which the context ends.
abbrev pub IsCancelled : Attempt → Type 0
IsCancelled m = ((m.connected ≡ false) ⊎ (m.answer ≡ none)) × (m.cancelled ≡ true)

-- What the result says of the attempts: a registration is the answer of the attempt after the waits,
-- and an error comes from the end of the context or from the third attempt.
abbrev pub IsResult : (meets : ℕ → Attempt) → Option Registered → Type 0
IsResult meets none = ⊥
IsResult meets (some (registered r waits)) =
    ((meets (length waits + 1)).answer ≡ some r)
    × ((meets (length waits + 1)).connected ≡ true)
    × (length waits ≤ 2)
    × (total waits ≤ 1500)
IsResult meets (some (refused e waits)) =
    (length waits ≤ 2)
    × (total waits ≤ 1500)
    × (((e ≡ canceled) × IsCancelled (meets (length waits + 1)) × (length waits ≤ 1))
        ⊎ ((length waits ≡ 2)
            × (((e ≡ elector_not_connected) × ((meets 3).connected ≡ false))
                ⊎ ((e ≡ register_failed) × ((meets 3).answer ≡ none)))))

module _ (meets : ℕ → Attempt) (waits : List ℕ) (short : length waits ≤ 2)
    (brief : total waits ≤ 1500) (rest : Option Registered)
    (next : length waits ≤ 1 → IsResult meets rest) where
  after_failure-IsResult :
      (e : BootError) (cancelled : Bool)
      → (meets (length waits + 1)).cancelled ≡ cancelled
      → ((meets (length waits + 1)).connected ≡ false) ⊎ ((meets (length waits + 1)).answer ≡ none)
      → (length waits ≡ 2
          → ((e ≡ elector_not_connected) × ((meets 3).connected ≡ false))
            ⊎ ((e ≡ register_failed) × ((meets 3).answer ≡ none)))
      → IsResult meets (after_failure e (length waits + 1) waits cancelled rest)
  after_failure-IsResult e cancelled over failed why =
      elim (Bool-cases (leb 3 (length waits + 1))) [
        | inl last ↦
            let two : length waits ≡ 2 = ground arith in
            simp last (short, brief, inr (two, why two))
        | inr more ↦ elim (Bool-cases cancelled) [
          | inl c ↦ simp (more, c) (short, brief, inl (refl, (failed, over ∙ c), ground arith))
          | inr c ↦ simp (more, c) (next (ground arith))
        ]
      ]

  after_answer-IsResult :
      (answer : Option Registration) (cancelled : Bool)
      → (meets (length waits + 1)).cancelled ≡ cancelled
      → (meets (length waits + 1)).connected ≡ true
      → (meets (length waits + 1)).answer ≡ answer
      → IsResult meets (after_answer answer (length waits + 1) waits cancelled rest)
  after_answer-IsResult (some r) cancelled over up h = (h, up, short, brief)
  after_answer-IsResult none cancelled over up h =
      after_failure-IsResult register_failed cancelled over (inr h)
        (λ two. inr (refl, rw (ap (λ n. (meets (n + 1)).answer) (sym two)) h))

  register_turn-IsResult :
      IsResult meets (register_turn (meets (length waits + 1)) (length waits + 1) waits rest)
  register_turn-IsResult = elim (Bool-cases (meets (length waits + 1)).connected) [
    | inl up ↦ simp up (after_answer-IsResult _ _ refl up refl)
    | inr down ↦ simp down (
        after_failure-IsResult elector_not_connected _ refl (inl down)
          (λ two. inl (refl, rw (ap (λ n. (meets (n + 1)).connected) (sym two)) down)))
  ]

-- With three turns or more the registration has a result, whatever the attempts meet. If it is a
-- registration, it is what the attempt behind the waits was answered. If it is an error, one of the
-- first two attempts had no client or no answer and the context ended in the wait behind it, or the
-- third attempt had no client or no answer. There are two waits at most, of 1.5 seconds together.
pub register-IsResult :
    (more : ℕ) (meets : ℕ → Attempt)
    → IsResult meets (register_with_elector (suc (suc (suc more))) meets)
unfolding register_loop
register-IsResult more meets = register_turn-IsResult meets [] (omega arith) (omega arith) _ (λ h1.
    register_turn-IsResult meets (500 ∷ []) (omega arith) (omega arith) _ (λ h2.
      register_turn-IsResult meets (1000 ∷ 500 ∷ []) (omega arith) (omega arith) _
        (λ h3. absurd (omega (arith, h3)))))
