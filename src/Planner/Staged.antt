-- ===== src/Planner/Staged.antt =====
-- The tiers that `resolve` gives out: a dependency is in an earlier tier than what depends on it.
use misra_c_agent.Base.{
  ℕ, ◌+◌, ◌≤◌, ◌<◌, ◌≡◌, sym, subst, arith, String, true, none, some, List, [], ◌∷◌, ◌==◌,
  string_eq, Dict, lookup, mem, Bool-cases, Option-cases, inl, inr,
}
use misra_c_agent.Planner.{
  Rule, tier_of, rule_by_id, Planned, done, cyclic, out_of_fuel, and_then, Resolver, max_tier,
  resolve_dependencies,
}

module _ (rules : List Rule) where
  -- Every known dependency of `ids` has a tier below `tier`.
  unfoldable pub Below : Dict String ℕ → List String → ℕ → Type 0
  Below resolved ids tier =
      (d : String) (dependency : Rule)
      → mem d ids ≡ true
      → rule_by_id d rules ≡ some dependency
      → (u : ℕ) × (lookup d resolved ≡ some u) × (u < tier)

  -- Each tier given out is at least the rule's own, and above those of its dependencies.
  unfoldable pub IsStaged : Dict String ℕ → Type 0
  IsStaged resolved =
      (rule_id : String) (tier : ℕ) (rule : Rule)
      → lookup rule_id resolved ≡ some tier
      → rule_by_id rule_id rules ≡ some rule
      → (tier_of rule ≤ tier) × Below resolved rule.rule_dependencies tier

  unfoldable pub Grows : Dict String ℕ → Dict String ℕ → Type 0
  Grows resolved resolved' =
      (id : String) (t : ℕ) → lookup id resolved ≡ some t → lookup id resolved' ≡ some t

  -- The rules whose calls are open get no tier meanwhile.
  unfoldable pub Leaves : List String → Dict String ℕ → Dict String ℕ → Type 0
  Leaves visiting resolved resolved' =
      (id : String)
      → mem id visiting ≡ true
      → lookup id resolved ≡ none
      → lookup id resolved' ≡ none

  pub record Resolved (visiting : List String) (resolved resolved' : Dict String ℕ) : Type 0 where
    pub staged : IsStaged resolved'
    pub grows : Grows resolved resolved'
    pub leaves : Leaves visiting resolved resolved'

  -- What holds of a resolver's result, if it has one.
  unfoldable pub OnDone : {A : Type 0} → (A → Type 0) → Planned A → Type 0
  OnDone P (done a) = P a
  OnDone P (cyclic id) = Unit
  OnDone P out_of_fuel = Unit

  unfoldable pub Resolves : List String → Resolver → Type 0
  Resolves visiting resolver =
      (id : String) (resolved : Dict String ℕ)
      → IsStaged resolved
      → OnDone
          (λ (r : ℕ × Dict String ℕ). Resolved visiting resolved r.1 × (lookup id r.1 ≡ some r.0))
          (resolver id resolved)

  pub OnDone-and_then :
      {A B : Type 0} {P : A → Type 0} (Q : B → Type 0) (x : Planned A) (f : A → Planned B)
      → OnDone P x
      → ((a : A) → P a → OnDone Q (f a))
      → OnDone Q (and_then x f)
  unfolding OnDone
  OnDone-and_then Q (done a) f h k = k a h
  OnDone-and_then Q (cyclic id) f h k = tt
  OnDone-and_then Q out_of_fuel f h k = tt

  pub OnDone-mono :
      {A : Type 0} {P Q : A → Type 0} (x : Planned A)
      → OnDone P x
      → ((a : A) → P a → Q a)
      → OnDone Q x
  unfolding OnDone
  OnDone-mono (done a) h k = k a h
  OnDone-mono (cyclic id) h k = tt
  OnDone-mono out_of_fuel h k = tt

  pub Resolved-refl :
      (visiting : List String) (resolved : Dict String ℕ)
      → IsStaged resolved
      → Resolved visiting resolved resolved
  unfolding Grows Leaves
  Resolved-refl visiting resolved staged = record {
    staged = staged;
    grows = λ id t h. h;
    leaves = λ id m h. h;
  }

  pub Resolved-trans :
      (visiting : List String) (a b c : Dict String ℕ)
      → Resolved visiting a b
      → Resolved visiting b c
      → Resolved visiting a c
  unfolding Grows Leaves
  Resolved-trans visiting a b c h k = record {
    staged = k.staged;
    grows = λ id t e. k.grows id t (h.grows id t e);
    leaves = λ id m e. k.leaves id m (h.leaves id m e);
  }

  pub resolve_dependencies-Resolved :
      (visiting : List String) (resolver : Resolver)
      → Resolves visiting resolver
      → (ids : List String) (tier : ℕ) (resolved : Dict String ℕ) → IsStaged resolved
      → OnDone
          (λ (r : ℕ × Dict String ℕ).
            Resolved visiting resolved r.1 × (tier ≤ r.0) × Below r.1 ids r.0)
          (resolve_dependencies rules resolver ids tier resolved)
  unfolding OnDone resolve_dependencies Resolves Below Grows
  resolve_dependencies-Resolved visiting resolver good [] tier resolved staged =
      (Resolved-refl visiting resolved staged, omega arith, λ d dependency m e. cc)
  resolve_dependencies-Resolved visiting resolver good (id ∷ ids) tier resolved staged =
      elim (Option-cases (rule_by_id id rules)) [
        | inl n ↦
            rw (n, resolve_dependencies)
              (OnDone-mono (resolve_dependencies rules resolver ids tier resolved)
                (resolve_dependencies-Resolved visiting resolver good ids tier resolved staged)
                (λ (u, resolved1) (h, le, below). (
                  h,
                  le,
                  λ d dependency m e. elim (Bool-cases (d == id)) [
                    | inl same ↦
                        let bad : rule_by_id id rules ≡ some dependency =
                          subst (λ i. rule_by_id i rules ≡ some dependency)
                            ((string_eq.beq_iff d id).0 same) e in
                        cc
                    | inr other ↦ below d dependency (ground (arith, other, m)) e
                  ],
                )))
        | inr (dependency, s) ↦
            rw (s, resolve_dependencies)
              (OnDone-and_then _ (resolver id resolved) _ (good id resolved staged)
                (λ (t, resolved1) (h, at).
                  OnDone-mono
                    (resolve_dependencies rules resolver ids (max_tier tier (t + 1)) resolved1)
                    (resolve_dependencies-Resolved visiting resolver good ids
                      (max_tier tier (t + 1)) resolved1 h.staged)
                    (λ (u, resolved2) (k, le, below). (
                      Resolved-trans visiting resolved resolved1 resolved2 h k,
                      ground (arith, le),
                      λ d dependency1 m e. elim (Bool-cases (d == id)) [
                        | inl same ↦ (
                          t,
                          subst (λ i. lookup i resolved2 ≡ some t)
                              (sym ((string_eq.beq_iff d id).0 same)) (k.grows id t at),
                          ground (arith, le),
                        )
                        | inr other ↦ below d dependency1 (ground (arith, other, m)) e
                      ],
                    ))))
      ]
