-- ===== src/Engine/Orders.antt =====
-- The report of `execute`, in the orders in which rules complete, grouped or not.
use misra_c_agent.Base.{
  ℕ, ◌<◌, ◌≡◌, refl, sym, subst, ap, ◌∙◌, arith, String, Bool, true, false, Option, List, [], ◌∷◌,
  ◌++◌, map, mem, string_eq, nat_eq, ◌==◌, length, length-map, flat_map, append-nil, Distinct, All,
  Permᴰ-flat_map, Permᴰ-length, mem-Permᴰ, Distinct-Permᴰ, Permᴰ-grouped, filter_by, inl, inr, ◌⊎◌,
}
use mathlib.Core.List.{Permᴰ}
use mathlib.Core.List.Permᴰ
use misra_c_agent.Engine.{deduplicate}
use misra_c_agent.Engine.Deduplicate.{deduplicate_one_each, deduplicate_left_out}
use misra_c_agent.Engine.Execution.{
  ExecutionReport, run_rule, report_of, execute, found, collect_waves_lem,
}
use misra_c_agent.Planner.{Rule, done, cyclic}
use misra_c_agent.Planner.Fuel.{IsRankedBy}
use misra_c_agent.Planner.Groups.{IsIncreasing, IsPlan, resolve_execution_groups_outcome}

-- Up to order the reports have the same fingerprints, each of them once, and the same metrics, and as many
-- violations were left out.
pub record IsSameReport {V : Type 0} (r s : ExecutionReport V) : Type 0 where
  pub once : Distinct r.fingerprints
  pub fingerprints : Permᴰ r.fingerprints s.fingerprints
  pub metrics : Permᴰ r.metrics s.metrics
  pub deduplicated : r.deduplicated_count ≡ s.deduplicated_count

-- The report holds the findings of the rules: with those that were left out, which it counts, they are all that the
-- rules found; its fingerprints are those of its violations, and no fingerprint is lost.
pub record IsReport {V : Type 0} (fingerprint : V → String) (all_found : List V)
    (report : ExecutionReport V) : Type 0 where
  pub left_out :
      (rest : List V) × Permᴰ (report.violations ++ rest) all_found
      × (length rest ≡ report.deduplicated_count)
  pub named : report.fingerprints ≡ map fingerprint report.violations
  pub kept : (f : String) → mem f report.fingerprints ≡ mem f (map fingerprint all_found)

IsIncreasing-Distinct : (ts : List ℕ) → IsIncreasing ts → Distinct ts
unfolding IsIncreasing
IsIncreasing-Distinct [] h = tt
IsIncreasing-Distinct (t ∷ ts) h = (absent ts h.0, IsIncreasing-Distinct ts h.1)
  where
    absent : (us : List ℕ) → All (λ u. t < u) us → mem t us ≡ false
    absent [] k = refl
    absent (u ∷ us) k = ground (arith, absent us k.1, k.0)

-- The groups of a plan hold the rules, each as often as it was given.
groups-Permᴰ :
    (rules : List Rule) (groups : List (List Rule))
    → IsPlan rules groups
    → Permᴰ (flat_map (λ group. group) groups) rules
groups-Permᴰ rules groups plan =
    let key = λ (rule : Rule). plan.tier rule.rule_id in
    let fibre = λ (t : ℕ). filter_by (λ (rule : Rule). key rule == t) rules in
    subst (λ l. Permᴰ l rules)
      (sym (ap (λ l. flat_map (λ group. group) l) plan.fibres ∙ flat_map-map fibre plan.tiers))
      (Permᴰ-grouped key plan.tiers rules (IsIncreasing-Distinct plan.tiers plan.increasing)
        plan.complete)
  where
    flat_map-map :
        (f : ℕ → List Rule) (ts : List ℕ) → flat_map (λ group. group) (map f ts) ≡ flat_map f ts
    flat_map-map f [] = refl
    flat_map-map f (t ∷ ts) = ap (λ l. f t ++ l) (flat_map-map f ts)

module _ {V : Type 0} (detect : Rule → ℕ → Option (List V)) (score : V → Option V)
    (fingerprint : V → String) (max_retries : ℕ) where
  -- The pool hands back the futures of a wave, each once.
  abbrev pub IsCompletion : (List Rule → List Rule) → Type 0
  IsCompletion as_completed = (wave : List Rule) → Permᴰ (as_completed wave) wave

  completed-Permᴰ :
      (as_completed : List Rule → List Rule)
      → IsCompletion as_completed
      → (waves : List (List Rule))
      → Permᴰ (flat_map as_completed waves) (flat_map (λ wave. wave) waves)
  completed-Permᴰ as_completed h [] = Permᴰ.nil
  completed-Permᴰ as_completed h (wave ∷ waves) =
      Permᴰ.trans (Permᴰ.append_right (flat_map as_completed waves) (h wave))
        (Permᴰ.append_left wave (completed-Permᴰ as_completed h waves))

  -- What `_deduplicate` does to violations in another order.
  abbrev prints : List V → List String
  prints violations = map fingerprint (deduplicate fingerprint violations).0

  prints-Permᴰ : (xs ys : List V) → Permᴰ xs ys → Permᴰ (prints xs) (prints ys)
  prints-Permᴰ xs ys p =
      let (once, same, counted) = deduplicate_one_each fingerprint xs in
      let (once', same', counted') = deduplicate_one_each fingerprint ys in
      Distinct-Permᴰ (prints xs) (prints ys) once once'
        (λ f. same f ∙ mem-Permᴰ f (Permᴰ.map fingerprint p) ∙ sym (same' f))

  removed-same :
      (xs ys : List V)
      → Permᴰ xs ys
      → (deduplicate fingerprint xs).1 ≡ (deduplicate fingerprint ys).1
  removed-same xs ys p =
      let (once, same, counted) = deduplicate_one_each fingerprint xs in
      let (once', same', counted') = deduplicate_one_each fingerprint ys in
      let all = Permᴰ-length xs ys p in
      let kept = Permᴰ-length (prints xs) (prints ys) (prints-Permᴰ xs ys p) in
      let left = length-map fingerprint (deduplicate fingerprint xs).0 in
      let left' = length-map fingerprint (deduplicate fingerprint ys).0 in
      omega (arith, counted, counted', all, kept, left, left')

  report_of-IsSameReport :
      (f g : List Rule → List Rule) (waves waves' : List (List Rule))
      → Permᴰ (flat_map f waves) (flat_map g waves')
      → IsSameReport
          (report_of detect score fingerprint max_retries f waves)
          (report_of detect score fingerprint max_retries g waves')
  unfolding report_of
  report_of-IsSameReport f g waves waves' p =
      let xs = found detect score fingerprint max_retries (flat_map f waves) in
      let ys = found detect score fingerprint max_retries (flat_map g waves') in
      let q : Permᴰ xs ys = Permᴰ-flat_map _ p in
      rw
        (
          report_of,
          collect_waves_lem detect score fingerprint max_retries f waves [] [],
          collect_waves_lem detect score fingerprint max_retries g waves' [] [],
        )
        (record {
          once = (deduplicate_one_each fingerprint xs).0;
          fingerprints = prints-Permᴰ xs ys q;
          metrics =
              Permᴰ-flat_map (λ rule. (run_rule detect score fingerprint max_retries rule).0 ∷ [])
                p;
          deduplicated = removed-same xs ys q;
        })

  report_of-IsReport :
      (f : List Rule → List Rule) (waves : List (List Rule)) (rules : List Rule)
      → Permᴰ (flat_map f waves) rules
      → IsReport fingerprint
          (found detect score fingerprint max_retries rules)
          (report_of detect score fingerprint max_retries f waves)
  unfolding report_of
  report_of-IsReport f waves rules p =
      let xs = found detect score fingerprint max_retries (flat_map f waves) in
      let q = Permᴰ-flat_map (λ rule. (run_rule detect score fingerprint max_retries rule).1) p in
      let (rest, whole, counted) = deduplicate_left_out fingerprint xs in
      let (once, same, both) = deduplicate_one_each fingerprint xs in
      rw (report_of, collect_waves_lem detect score fingerprint max_retries f waves [] [])
        (record {
          left_out = (rest, Permᴰ.trans whole q, counted);
          named = refl;
          kept = λ g. same g ∙ mem-Permᴰ g (Permᴰ.map fingerprint q);
        })

  -- With the rules in groups or not, and in whatever order the pool completes them, `execute` ends with a report whose
  -- violations are, with those left out as duplicates and counted, all that the rules found; its fingerprints are those
  -- of its violations, each once and none of the found ones missing; and its fingerprints, metrics and count are,
  -- up to order, those of a run of the rules one after the other. Or the rules are to be grouped, it names a cycle, and
  -- then the dependencies admit no rank.
  pub execute_outcome :
      (as_completed : List Rule → List Rule)
      → IsCompletion as_completed
      → (rules : List Rule) (grouped : Bool)
      → ((report : ExecutionReport V) × (execute detect score fingerprint max_retries as_completed
              rules grouped
            ≡ done report)
          × IsReport fingerprint (found detect score fingerprint max_retries rules) report
          × IsSameReport report
              (report_of detect score fingerprint max_retries (λ wave. wave) (rules ∷ [])))
        ⊎ ((id : String) × (grouped ≡ true)
            × (execute detect score fingerprint max_retries as_completed rules grouped ≡ cyclic id)
            × ((rank : String → ℕ) → ¬ IsRankedBy rules rank))
  unfolding execute
  execute_outcome as_completed h rules false = inl (
    _,
    refl,
    report_of-IsReport as_completed (rules ∷ []) rules (
        subst (λ l. Permᴰ (flat_map as_completed (rules ∷ [])) l) (append-nil rules)
          (completed-Permᴰ as_completed h (rules ∷ []))),
    report_of-IsSameReport as_completed (λ wave. wave) (rules ∷ []) (rules ∷ [])
        (completed-Permᴰ as_completed h (rules ∷ [])),
  )
  execute_outcome as_completed h rules true = elim (resolve_execution_groups_outcome rules) [
    | inl (groups, e, plan) ↦ inl (
      report_of detect score fingerprint max_retries as_completed groups,
      rw (execute, e) refl,
      report_of-IsReport as_completed groups rules
          (Permᴰ.trans (completed-Permᴰ as_completed h groups) (groups-Permᴰ rules groups plan)),
      report_of-IsSameReport as_completed (λ wave. wave) groups (rules ∷ [])
          (Permᴰ.trans (completed-Permᴰ as_completed h groups) (
            subst (λ l. Permᴰ (flat_map (λ wave. wave) groups) l) (sym (append-nil rules))
              (groups-Permᴰ rules groups plan))),
    )
    | inr (id, e, no_rank) ↦ inr (id, refl, rw (execute, e) refl, no_rank)
  ]
