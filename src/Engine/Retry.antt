-- ===== src/Engine/Retry.antt =====
-- `_execute_rule_safe`: which attempt decides, and what a failure reports.
use misra_c_agent.Base.{
  ℕ, zero, suc, ◌+◌, ◌<◌, ◌≤◌, ◌≡◌, refl, subst, String, true, false, Option, none, some, List, [],
  ◌∷◌, arith, map, length, Option-cases, inl, inr, ◌⊎◌, get_elem?, sym, ◌∙◌,
}
use mathlib.Core.Option.{some-injective}
use misra_c_agent.Engine.{attempt, execute_rule_safe, score_all, detect_and_score}

module _ {V : Type 0} (detect : ℕ → Option (List V)) where
  -- The outcome of the loop from attempt `start` on: the first attempt that returned, within the
  -- rounds, or none where all of them raised.
  abbrev pub Outcome : ℕ → ℕ → Option (List V) → Type 0
  Outcome rounds start result =
      ((k : ℕ) × (vs : List V) × (result ≡ some vs)
        × (k < rounds)
        × (detect (start + k) ≡ some vs)
        × ((j : ℕ) → j < k → detect (start + j) ≡ none))
      ⊎ ((result ≡ none) × ((j : ℕ) → j < rounds → detect (start + j) ≡ none))

  shift :
      (start k : ℕ)
      → detect start ≡ none
      → ((j : ℕ) → j < k → detect (suc start + j) ≡ none)
      → (j : ℕ) → j < suc k
      → detect (start + j) ≡ none
  shift start k e all zero h = subst (λ n. detect n ≡ none) (omega arith) e
  shift start k e all (suc j) h = subst (λ n. detect n ≡ none) (omega arith) (all j (omega arith))

  attempt-Outcome : (rounds start : ℕ) → Outcome rounds start (attempt detect rounds start)
  unfolding attempt
  attempt-Outcome zero start = inr (refl, λ j h. elim h [ ])
  attempt-Outcome (suc rounds) start = elim (Option-cases (detect start)) [
    | inl e ↦
        rw (e, attempt)
          (elim (attempt-Outcome rounds (suc start)) [
            | inl (k, vs, r, lt, at, before) ↦ inl (
              suc k,
              vs,
              r,
              omega arith,
              subst (λ n. detect n ≡ some vs) (omega arith) at,
              shift start k e before,
            )
            | inr (r, all) ↦ inr (r, shift start rounds e all)
          ])
    | inr (vs, e) ↦
        rw (e, attempt)
          (inl (
            0,
            vs,
            refl,
            omega arith,
            subst (λ n. detect n ≡ some vs) (omega arith) e,
            λ j h. elim h [ ],
          ))
  ]

module _ {V : Type 0} (score : V → Option V) (detect : ℕ → Option (List V)) where
  -- The rule raises at the attempt, or the scoring of one of its findings does.
  abbrev pub Fails : ℕ → Type 0
  Fails attempts =
      (detect attempts ≡ none)
      ⊎ ((found : List V) × (v : V) × (i : ℕ) × (detect attempts ≡ some found)
          × (get_elem? found i ≡ some v)
          × (score v ≡ none))

  -- The rule returns these findings, and each of them can be scored.
  abbrev pub Succeeds : ℕ → List V → Type 0
  Succeeds attempts scored =
      (found : List V) × (detect attempts ≡ some found) × (map score found ≡ map some scored)

  score_all_cases :
      (found : List V)
      → ((scored : List V) × (score_all score found ≡ some scored)
          × (map score found ≡ map some scored))
        ⊎ ((score_all score found ≡ none)
            × (v : V) × (i : ℕ) × (get_elem? found i ≡ some v)
            × (score v ≡ none))
  unfolding score_all
  score_all_cases [] = inl ([], refl, refl)
  score_all_cases (v ∷ vs) = elim (Option-cases (score v)) [
    | inl e ↦ inr (rw (e, score_all) refl, v, 0, refl, e)
    | inr (w, e) ↦ elim (score_all_cases vs) [
      | inl (ws, r, m) ↦ inl (w ∷ ws, rw (e, r, score_all) refl, rw (e, m) refl)
      | inr (r, u, i, at, raised) ↦ inr (rw (e, r, score_all) refl, u, suc i, at, raised)
    ]
  ]

  -- The body of the `try` fails or succeeds.
  detect_and_score_cases :
      (attempts : ℕ)
      → ((scored : List V) × (detect_and_score score detect attempts ≡ some scored)
          × Succeeds attempts scored)
        ⊎ ((detect_and_score score detect attempts ≡ none) × Fails attempts)
  unfolding detect_and_score
  detect_and_score_cases attempts = elim (Option-cases (detect attempts)) [
    | inl e ↦ inr (rw (e, detect_and_score) refl, inl e)
    | inr (found, e) ↦ elim (score_all_cases found) [
      | inl (ws, r, m) ↦ inl (ws, rw (e, r, detect_and_score) refl, (found, e, m))
      | inr (r, v, i, at, raised) ↦
          inr (rw (e, r, detect_and_score) refl, inr (found, v, i, e, at, raised))
    ]
  ]

  failing : (attempts : ℕ) → detect_and_score score detect attempts ≡ none → Fails attempts
  failing attempts h = elim (detect_and_score_cases attempts) [
    | inl (ws, r, ok) ↦ cc
    | inr (r, fails) ↦ fails
  ]

  succeeding :
      (attempts : ℕ) (scored : List V)
      → detect_and_score score detect attempts ≡ some scored
      → Succeeds attempts scored
  succeeding attempts scored h = elim (detect_and_score_cases attempts) [
    | inl (ws, r, ok) ↦
        let same : ws ≡ scored = some-injective ws scored (sym r ∙ h) in
        subst (λ l. Succeeds attempts l) same ok
    | inr (r, fails) ↦ cc
  ]

-- What `_execute_rule_safe` reports: the findings of the first attempt at which neither the rule nor the scoring of
-- a finding raised, at most `max_retries` after the first one, each with its confidence set; or a failure with no
-- findings, and then the rule or the scoring raised at every attempt.
pub execute_rule_safe_outcome :
    {V : Type 0} (score : V → Option V) (max_retries : ℕ) (rule_id : String)
    (detect : ℕ → Option (List V))
    → (let r = execute_rule_safe score max_retries rule_id detect in
        ((k : ℕ) × (vs : List V) × (k ≤ max_retries)
          × Succeeds score detect k vs
          × ((j : ℕ) → j < k → Fails score detect j)
          × (r.0.success ≡ true)
          × (r.0.violation_count ≡ length vs)
          × (r.1 ≡ vs))
        ⊎ (((j : ℕ) → j ≤ max_retries → Fails score detect j)
            × (r.0.success ≡ false)
            × (r.0.violation_count ≡ 0)
            × (r.1 ≡ [])))
unfolding execute_rule_safe
execute_rule_safe_outcome score max_retries rule_id detect =
    let body = detect_and_score score detect in
    elim (attempt-Outcome body (suc max_retries) 0) [
      | inl (k, vs, r, lt, at, before) ↦ inl (
        k,
        vs,
        omega arith,
        succeeding score detect k vs (subst (λ n. body n ≡ some vs) (omega arith) at),
        λ j h. failing score detect j (subst (λ n. body n ≡ none) (omega arith) (before j h)),
        rw (r, execute_rule_safe) refl,
        rw (r, execute_rule_safe) refl,
        rw (r, execute_rule_safe) refl,
      )
      | inr (r, all) ↦ inr (
        λ j h.
            failing score detect j (subst (λ n. body n ≡ none) (omega arith) (all j (omega arith))),
        rw (r, execute_rule_safe) refl,
        rw (r, execute_rule_safe) refl,
        rw (r, execute_rule_safe) refl,
      )
    ]
