-- ===== src/Base/Contract.antt =====
-- To contract an edge of a graph: a node with one edge out is taken away, and the edges into it
-- lead on to where that edge led.
use misra_c_agent.Base.Tests.{if◌then◌else◌, Bool-cases}
use misra_c_agent.Base.Equality.{Eq, ◌==◌, mem, beq_refl}
use misra_c_agent.Base.Search.{Graph, Reach, here, step, targets}
use mathlib.Core.Path.{◌≡◌, sym, subst}
use mathlib.Core.Logic.{◌⊎◌, inl, inr, ◌↔◌}
use mathlib.Core.Bool.{Bool, true, false}
use mathlib.Core.List.{[], ◌∷◌}
use native.Mathlib.Omega.{arith}

module _ {ℓ} {A : Type ℓ} ⦃e : Eq A⦄ where
  abbrev pub contract : A → A → Graph A → Graph A
  contract v t [] = []
  contract v t ((x, y) ∷ g) =
      let rest = contract v t g in if x == v then rest else (x, if y == v then t else y) ∷ rest

module _ {ℓ} {A : Type ℓ} ⦃e : Eq A⦄ (v t : A) where
  contract-kept :
      (g : Graph A) (y z : A)
      → (y == v) ≡ false
      → mem z (targets g y) ≡ true
      → mem (if z == v then t else z) (targets (contract v t g) y) ≡ true
  contract-kept [] y z ne m = cc
  contract-kept ((a, c) ∷ g) y z ne m = ground (
    arith,
    contract-kept g y z ne,
    e.beq_iff a v,
    e.beq_iff a y,
    e.beq_iff z c,
    e.beq_iff y v,
    e.beq_iff c v,
    e.beq_iff z v,
    beq_refl t,
    beq_refl z,
    beq_refl c,
  )

  contract-new :
      (g : Graph A) (y z : A)
      → mem z (targets (contract v t g) y) ≡ true
      → (mem z (targets g y) ≡ true) ⊎ ((z ≡ t) × (mem v (targets g y) ≡ true))
  contract-new [] y z m = cc
  contract-new ((a, c) ∷ g) y z m = ground (
    arith,
    contract-new g y z,
    e.beq_iff a v,
    e.beq_iff a y,
    e.beq_iff z c,
    e.beq_iff c v,
    e.beq_iff z t,
    e.beq_iff v c,
  )

  contract-source :
      (g : Graph A) (y z : A) → mem z (targets (contract v t g) y) ≡ true → (y == v) ≡ false
  contract-source [] y z m = cc
  contract-source ((a, c) ∷ g) y z m =
      ground (arith, contract-source g y z, e.beq_iff a v, e.beq_iff a y, e.beq_iff y v)

module _ {ℓ} {A : Type ℓ} ⦃e : Eq A⦄ (v t : A) (g : Graph A) (other : (t == v) ≡ false)
    (sole : targets g v ≡ t ∷ []) (x : A) (x_stays : (x == v) ≡ false) where
  only_target : (z : A) → mem z (targets g v) ≡ true → z ≡ t
  only_target z m =
      let m' : mem z (t ∷ []) ≡ true = subst (λ l. mem z l ≡ true) sole m in
      ground (arith, m', e.beq_iff z t)

  -- A walk to a node that goes ends one step earlier; its next node is reached.
  walk-contract :
      {y : A}
      → Reach g x y
      → ((y == v) ≡ false → Reach (contract v t g) x y)
        × ((y == v) ≡ true → Reach (contract v t g) x t)
  walk-contract here = (λ n. Reach.here, λ p. absurd (ground (arith, p, x_stays)))
  walk-contract (step {y = w} {z = z} r m) =
      let (stays, goes) = walk-contract r in
      elim (Bool-cases (w == v)) [
        | inl p ↦
            let w_is_v : w ≡ v = (e.beq_iff w v).0 p in
            let z_is_t : z ≡ t = only_target z (subst (λ u. mem z (targets g u) ≡ true) w_is_v m) in
            (λ n. subst (λ u. Reach (contract v t g) x u) (sym z_is_t) (goes p), λ q. goes p)
        | inr n ↦
            let m' = contract-kept v t g w z n m in
            elim (Bool-cases (z == v)) [
              | inl q ↦ (
                λ o. absurd (ground (arith, q, o)),
                λ o. Reach.step (stays n) (
                    subst
                      (λ (c : Bool). mem (if c then t else z) (targets (contract v t g) w) ≡ true) q
                      m'),
              )
              | inr q ↦ (
                λ o. Reach.step (stays n) (
                    subst
                      (λ (c : Bool). mem (if c then t else z) (targets (contract v t g) w) ≡ true) q
                      m'),
                λ o. absurd (ground (arith, q, o)),
              )
            ]
      ]

  walk-of_contract : {y : A} → Reach (contract v t g) x y → Reach g x y
  walk-of_contract here = Reach.here
  walk-of_contract (step {y = w} {z = z} r m) = elim (contract-new v t g w z m) [
    | inl old ↦ Reach.step (walk-of_contract r) old
    | inr (z_is_t, into) ↦
        subst (λ u. Reach g x u) (sym z_is_t)
          (Reach.step (Reach.step (walk-of_contract r) into)
            (subst (λ l. mem t l ≡ true) (sym sole) (ground (arith, beq_refl t))))
  ]

  -- The nodes that stay are reached in the one graph exactly when they are in the other.
  pub Reach-contract : (y : A) → (y == v) ≡ false → Reach g x y ↔ Reach (contract v t g) x y
  Reach-contract y n = (λ r. (walk-contract r).0 n, walk-of_contract)
