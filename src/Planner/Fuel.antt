-- ===== src/Planner/Fuel.antt =====
-- `resolve` ends within its fuel, and finds no cycle where the dependencies have none.
use misra_c_agent.Base.{
  ℕ, zero, suc, ◌+◌, ◌≤◌, ◌<◌, ◌≡◌, sym, subst, arith, String, true, false, some, List, [], ◌∷◌,
  ◌==◌, string_eq, Dict, lookup, mem, not, length, filter_by, Bool-cases, Option-cases, inl, inr,
  All, All-mono, beq_refl,
}
use misra_c_agent.Planner.{
  Rule, tier_of, rule_by_id, Planned, done, cyclic, out_of_fuel, and_then, Resolver, max_tier,
  resolve_dependencies, resolve_fresh, resolve, resolve_all,
}

-- How many rules have no open call.
unfoldable pub unvisited : List Rule → List String → ℕ
unvisited rules visiting =
    length (filter_by (λ (rule : Rule). not (mem rule.rule_id visiting)) rules)

unvisited-le :
    (rules : List Rule) (id : String) (visiting : List String)
    → unvisited rules (id ∷ visiting) ≤ unvisited rules visiting
unfolding unvisited
unvisited-le [] id visiting = omega arith
unvisited-le (rule ∷ rules) id visiting = ground (arith, unvisited-le rules id visiting)

unvisited-lt :
    (rules : List Rule) (id : String) (visiting : List String) (rule : Rule)
    → rule_by_id id rules ≡ some rule
    → mem id visiting ≡ false
    → unvisited rules (id ∷ visiting) < unvisited rules visiting
unfolding unvisited rule_by_id
unvisited-lt [] id visiting rule e apart = cc
unvisited-lt (other ∷ rules) id visiting rule e apart = elim (Option-cases (rule_by_id id rules)) [
  | inr (later, s) ↦
      ground (arith, unvisited-lt rules id visiting later s apart, unvisited-le rules id visiting)
  | inl n ↦
      let here : (other.rule_id == id) ≡ true = ground (arith, e, n) in
      ground
        (arith, here, apart, string_eq.beq_iff other.rule_id id, unvisited-le rules id visiting)
]

absurd_lt : (n : ℕ) → n < n → ⊥
absurd_lt n h = omega (arith, h)

absurd_zero : (n : ℕ) → n < 0 → ⊥
absurd_zero n h = omega (arith, h)

-- A rank that falls from a rule to each of its known dependencies.
unfoldable pub IsRankedBy : List Rule → (String → ℕ) → Type 0
IsRankedBy rules rank =
    (id d : String) (rule dependency : Rule)
    → rule_by_id id rules ≡ some rule
    → mem d rule.rule_dependencies ≡ true
    → rule_by_id d rules ≡ some dependency
    → rank d < rank id

module _ (rules : List Rule) where
  -- A cycle is reported only where no rank exists, and the fuel does not run out.
  unfoldable pub Ends : {A : Type 0} → Planned A → Type 0
  Ends (done a) = Unit
  Ends (cyclic id) = (rank : String → ℕ) → ¬ IsRankedBy rules rank
  Ends out_of_fuel = false ≡ true

  -- Every rank puts `id` below the rules whose calls are open.
  pub IsUnder : List String → String → Type 0
  IsUnder visiting id =
      (rank : String → ℕ) → IsRankedBy rules rank → All (λ v. rank id < rank v) visiting

  pub ResolverEnds : List String → Resolver → Type 0
  ResolverEnds visiting resolver =
      (id : String) (resolved : Dict String ℕ) (dependency : Rule)
      → rule_by_id id rules ≡ some dependency
      → IsUnder visiting id
      → Ends (resolver id resolved)

  Ends-and_then :
      {A B : Type 0} (x : Planned A) (f : A → Planned B)
      → Ends x
      → ((a : A) → Ends (f a))
      → Ends (and_then x f)
  unfolding Ends
  Ends-and_then (done a) f h k = k a
  Ends-and_then (cyclic id) f h k = h
  Ends-and_then out_of_fuel f h k = h

  resolve_dependencies-Ends :
      (visiting : List String) (resolver : Resolver)
      → ResolverEnds visiting resolver
      → (ids : List String) (tier : ℕ) (resolved : Dict String ℕ)
      → ((d : String) (dependency : Rule)
          → mem d ids ≡ true
          → rule_by_id d rules ≡ some dependency
          → IsUnder visiting d)
      → Ends (resolve_dependencies rules resolver ids tier resolved)
  unfolding resolve_dependencies ResolverEnds Ends
  resolve_dependencies-Ends visiting resolver good [] tier resolved under = tt
  resolve_dependencies-Ends visiting resolver good (id ∷ ids) tier resolved under =
      let rest = λ (d : String) (dependency : Rule) (m : mem d ids ≡ true).
        under d dependency (ground (arith, m)) in
      elim (Option-cases (rule_by_id id rules)) [
        | inl n ↦
            rw (n, resolve_dependencies)
              (resolve_dependencies-Ends visiting resolver good ids tier resolved rest)
        | inr (dependency, s) ↦
            rw (s, resolve_dependencies)
              (Ends-and_then (resolver id resolved) _
                (good id resolved dependency s
                  (under id dependency (ground (arith, beq_refl id)) s))
                (λ (t, resolved1).
                  resolve_dependencies-Ends visiting resolver good ids (max_tier tier (t + 1))
                    resolved1 rest))
      ]

  All-mem :
      (P : String → Type 0) (id : String) (ids : List String) → mem id ids ≡ true → All P ids → P id
  All-mem P id [] m h = cc
  All-mem P id (x ∷ xs) m h = elim (Bool-cases (id == x)) [
    | inl same ↦ subst P (sym ((string_eq.beq_iff id x).0 same)) h.0
    | inr other ↦ All-mem P id xs (ground (arith, m, other)) h.1
  ]

  resolve-Ends :
      (fuel : ℕ) (visiting : List String)
      → unvisited rules visiting < fuel
      → ResolverEnds visiting (resolve fuel rules visiting)
  unfolding resolve resolve_fresh ResolverEnds IsUnder Ends IsRankedBy
  resolve-Ends zero visiting lt id resolved rule known under = elim (absurd_zero _ lt) [ ]
  resolve-Ends (suc fuel) visiting lt id resolved rule known under =
      elim (Option-cases (lookup id resolved)) [
        | inr (t, s) ↦ rw (s, resolve) tt
        | inl n ↦ elim (Bool-cases (mem id visiting)) [
          | inl opened ↦
              rw (n, opened, resolve)
                (λ rank ranked.
                  let self =
                    All-mem (λ v. rank id < rank v) id visiting opened (under rank ranked) in
                  absurd_lt (rank id) self)
          | inr apart ↦
              let less = unvisited-lt rules id visiting rule known apart in
              rw (n, apart, known, resolve, resolve_fresh)
                (Ends-and_then
                  (resolve_dependencies rules (resolve fuel rules (id ∷ visiting))
                    rule.rule_dependencies (tier_of rule) resolved)
                  _
                  (resolve_dependencies-Ends (id ∷ visiting) (resolve fuel rules (id ∷ visiting))
                    (resolve-Ends fuel (id ∷ visiting) (omega (arith, less, lt)))
                    rule.rule_dependencies (tier_of rule) resolved
                    (λ d dependency m k rank ranked.
                      let step : rank d < rank id = ranked id d rule dependency known m k in
                      (
                        step,
                        All-mono visiting (λ v h. omega (arith, step, h)) (under rank ranked),
                      )))
                  (λ r. tt))
        ]
      ]

  pub resolve_all-Ends :
      (fuel : ℕ) (todo : List Rule) (resolved : Dict String ℕ)
      → unvisited rules [] < fuel
      → All (λ (rule : Rule). (known : Rule) × (rule_by_id rule.rule_id rules ≡ some known)) todo
      → Ends (resolve_all fuel rules todo resolved)
  unfolding resolve_all Ends IsUnder ResolverEnds
  resolve_all-Ends fuel [] resolved lt all = tt
  resolve_all-Ends fuel (rule ∷ todo) resolved lt ((known, e), all) =
      Ends-and_then (resolve fuel rules [] rule.rule_id resolved) _
        (resolve-Ends fuel [] lt rule.rule_id resolved known e (λ rank ranked. tt))
        (λ r. resolve_all-Ends fuel todo r.1 lt all)

pub unvisited-all : (rules : List Rule) → unvisited rules [] ≤ length rules
unfolding unvisited
unvisited-all [] = omega arith
unvisited-all (rule ∷ rules) = ground (arith, unvisited-all rules)
