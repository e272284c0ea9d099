-- ===== src/Planner/Tiers.antt =====
-- The tiers that `resolve` and `resolve_all` store, from those of the dependencies.
use misra_c_agent.Base.{
  ℕ, zero, suc, ◌≤◌, ◌≡◌, sym, subst, arith, String, false, none, some, List, [], ◌∷◌, ◌==◌,
  string_eq, Dict, lookup, insert, lookup-insert, mem, beq_refl, All, Bool-cases, Option-cases, inl,
  inr,
}
use misra_c_agent.Planner.{
  Rule, tier_of, rule_by_id, Resolver, resolve_dependencies, resolve_fresh, resolve, resolve_all,
}
use misra_c_agent.Planner.Staged.{
  IsStaged, Below, Resolved, Grows, Leaves, Resolves, OnDone, OnDone-and_then, OnDone-mono,
  Resolved-refl, Resolved-trans, resolve_dependencies-Resolved,
}

module _ (rules : List Rule) where
  -- The tier of a rule is stored once those of its dependencies are there.
  store_tier :
      (visiting : List String) (rule_id : String) (tier : ℕ) (resolved resolved1 : Dict String ℕ)
      → lookup rule_id resolved ≡ none
      → mem rule_id visiting ≡ false
      → Resolved rules (rule_id ∷ visiting) resolved resolved1
      → ((rule : Rule)
          → rule_by_id rule_id rules ≡ some rule
          → (tier_of rule ≤ tier) × Below rules resolved1 rule.rule_dependencies tier)
      → Resolved rules visiting resolved (insert rule_id tier resolved1)
        × (lookup rule_id (insert rule_id tier resolved1) ≡ some tier)
  unfolding Below IsStaged Grows Leaves
  store_tier visiting rule_id tier resolved resolved1 absent apart h own =
      let still : lookup rule_id resolved1 ≡ none =
        h.leaves rule_id (ground (arith, beq_refl rule_id)) absent in
      let kept : Grows rules resolved1 (insert rule_id tier resolved1) = λ id t e.
        ground (
          arith,
          e,
          still,
          lookup-insert rule_id id tier resolved1,
          string_eq.beq_iff rule_id id,
        ) in
      (
        record {
          staged = λ id t rule at e. elim (Bool-cases (rule_id == id)) [
            | inl same ↦
                let i : rule_id ≡ id = (string_eq.beq_iff rule_id id).0 same in
                let t' : tier ≡ t =
                  ground (arith, same, at, lookup-insert rule_id id tier resolved1) in
                let (le, below) =
                  own rule (subst (λ j. rule_by_id j rules ≡ some rule) (sym i) e) in
                (
                  omega (arith, le, t'),
                  λ d dependency m k.
                      let (u, found, lt) = below d dependency m k in
                      (u, kept d u found, omega (arith, lt, t')),
                )
            | inr other ↦
                let (le, below) =
                  h.staged id t rule
                    (ground (arith, other, at, lookup-insert rule_id id tier resolved1)) e in
                (
                  le,
                  λ d dependency m k.
                      let (u, found, lt) = below d dependency m k in (u, kept d u found, lt),
                )
          ];
          grows = λ id t e. kept id t (h.grows id t e);
          leaves = λ id m e.
              let gone : lookup id resolved1 ≡ none = h.leaves id (ground (arith, m)) e in
              ground (
                arith,
                m,
                apart,
                gone,
                lookup-insert rule_id id tier resolved1,
                string_eq.beq_iff rule_id id,
              );
        },
        ground (arith, lookup-insert rule_id rule_id tier resolved1, beq_refl rule_id),
      )

  resolve_fresh-Resolved :
      (visiting : List String) (resolver : Resolver) (rule_id : String) (resolved : Dict String ℕ)
      → Resolves rules (rule_id ∷ visiting) resolver
      → lookup rule_id resolved ≡ none
      → mem rule_id visiting ≡ false
      → IsStaged rules resolved
      → OnDone rules
          (λ (r : ℕ × Dict String ℕ).
            Resolved rules visiting resolved r.1 × (lookup rule_id r.1 ≡ some r.0))
          (resolve_fresh rules resolver rule_id resolved)
  unfolding resolve_fresh OnDone
  resolve_fresh-Resolved visiting resolver rule_id resolved good absent apart staged =
      elim (Option-cases (rule_by_id rule_id rules)) [
        | inl n ↦
            rw (n, resolve_fresh)
              (store_tier visiting rule_id 0 resolved resolved absent apart
                (Resolved-refl rules (rule_id ∷ visiting) resolved staged) (λ rule e. cc))
        | inr (rule, s) ↦
            rw (s, resolve_fresh)
              (OnDone-and_then rules _
                (resolve_dependencies rules resolver rule.rule_dependencies (tier_of rule) resolved)
                _
                (resolve_dependencies-Resolved rules (rule_id ∷ visiting) resolver good
                  rule.rule_dependencies (tier_of rule) resolved staged)
                (λ (t, resolved1) (h, le, below).
                  store_tier visiting rule_id t resolved resolved1 absent apart h (λ rule1 e.
                    let same : rule ≡ rule1 = cc in
                    subst
                      (λ (x : Rule). (tier_of x ≤ t) × Below rules resolved1 x.rule_dependencies t)
                      same (le, below))))
      ]

  pub resolve-Resolves :
      (fuel : ℕ) (visiting : List String) → Resolves rules visiting (resolve fuel rules visiting)
  unfolding resolve Resolves OnDone
  resolve-Resolves zero visiting id resolved staged = tt
  resolve-Resolves (suc fuel) visiting id resolved staged =
      elim (Option-cases (lookup id resolved)) [
        | inr (t, s) ↦ rw (s, resolve) (Resolved-refl rules visiting resolved staged, s)
        | inl n ↦ elim (Bool-cases (mem id visiting)) [
          | inl opened ↦ rw (n, opened, resolve) tt
          | inr apart ↦
              rw (n, apart, resolve)
                (resolve_fresh-Resolved visiting (resolve fuel rules (id ∷ visiting)) id resolved
                  (resolve-Resolves fuel (id ∷ visiting)) n apart staged)
        ]
      ]

  pub resolve_all-Resolved :
      (fuel : ℕ) (todo : List Rule) (resolved : Dict String ℕ)
      → IsStaged rules resolved
      → OnDone rules
          (λ (r : Dict String ℕ).
            Resolved rules [] resolved r
            × All (λ (rule : Rule). (t : ℕ) × (lookup rule.rule_id r ≡ some t)) todo)
          (resolve_all fuel rules todo resolved)
  unfolding resolve_all OnDone Grows Resolves
  resolve_all-Resolved fuel [] resolved staged = (Resolved-refl rules [] resolved staged, tt)
  resolve_all-Resolved fuel (rule ∷ todo) resolved staged =
      OnDone-and_then rules _ (resolve fuel rules [] rule.rule_id resolved) _
        (resolve-Resolves fuel [] rule.rule_id resolved staged)
        (λ (t, resolved1) (h, at).
          OnDone-mono rules (resolve_all fuel rules todo resolved1)
            (resolve_all-Resolved fuel todo resolved1 h.staged)
            (λ r (k, all). (
              Resolved-trans rules [] resolved resolved1 r h k,
              ((t, k.grows rule.rule_id t at), all),
            )))
