-- ===== src/Base/Settle.antt =====
-- `changed = True; while changed: changed = False; for n in ns: ...`: rounds over a list until one of
-- them changes nothing.
use misra_c_agent.Base.Tests.{Bool-cases}
use misra_c_agent.Base.Lists.{All}
use Prim.Native.Nat.{ℕ, zero, suc, ◌≤◌, ◌<◌}
use mathlib.Core.Path.{◌≡◌, refl, sym, subst}
use mathlib.Core.Logic.{◌⊎◌, inl, inr}
use mathlib.Core.Bool.{Bool, true, false, ◌||◌}
use mathlib.Core.Option.{Option, none, some}
use mathlib.Core.List.{List, [], ◌∷◌}
use native.Mathlib.Omega.{arith}

module _ {ℓ κ} {N : Type ℓ} {S : Type κ} where
  -- One round. A step returns the new state, and whether it sets `changed`.
  unfoldable pub sweep : (N → S → S × Bool) → List N → S → Bool → S × Bool
  sweep step [] s changed = (s, changed)
  sweep step (n ∷ ns) s changed = let (s', c) = step n s in sweep step ns s' (changed || c)

  -- The rounds: `none` if the fuel runs out.
  unfoldable pub settle : (N → S → S × Bool) → ℕ → List N → S → Option S
  unfolding sweep
  settle step zero ns s = none
  settle step (suc fuel) ns s =
      let (s', changed) = sweep step ns s false in
      elim changed [ true ↦ settle step fuel ns s' | false ↦ some s' ]

-- A step keeps the invariant; it lowers the measure when it changes the state, and otherwise leaves the
-- state as it is, where `Stable` then holds.
pub record Settles {ℓ κ μ ν} {N : Type ℓ} {S : Type κ} (step : N → S → S × Bool) (P : N → Type ν)
    (I : S → Type μ) (measure : S → ℕ) (Stable : N → S → Type μ) : Type (ℓ ⊔ κ ⊔ μ ⊔ ν) where
  pub keep : (n : N) (s : S) → P n → I s → I (step n s).0
  pub change : (n : N) (s : S) → P n → I s → (step n s).1 ≡ true → measure (step n s).0 < measure s
  pub stay : (n : N) (s : S) → P n → I s → (step n s).1 ≡ false → ((step n s).0 ≡ s) × Stable n s

module _ {ℓ κ μ ν} {N : Type ℓ} {S : Type κ} (step : N → S → S × Bool) (P : N → Type ν)
    (I : S → Type μ) (measure : S → ℕ) (Stable : N → S → Type μ)
    (ok : Settles step P I measure Stable) where
  abbrev Swept : List N → S → Bool → S × Bool → Type (κ ⊔ μ)
  Swept ns s changed r =
      I r.0
      × (measure r.0 ≤ measure s)
      × (r.1 ≡ true → (changed ≡ true) ⊎ (measure r.0 < measure s))
      × (r.1 ≡ false → (changed ≡ false) × (r.0 ≡ s) × All (λ n. Stable n s) ns)

  sweep-Swept :
      (ns : List N) (s : S) (changed : Bool)
      → All P ns
      → I s
      → Swept ns s changed (sweep step ns s changed)
  unfolding sweep
  sweep-Swept [] s changed ps h = (h, omega arith, λ e. inl e, λ e. (e, refl, tt))
  sweep-Swept (n ∷ ns) s changed (p, ps) h =
      let (s', c) = step n s in
      let (keeps, le, up, still) = sweep-Swept ns s' (changed || c) ps (ok.keep n s p h) in
      elim (Bool-cases c) [
        | inl t ↦
            let lt = ok.change n s p h t in
            (
              keeps,
              omega (arith, le, lt),
              λ e. inr (omega (arith, le, lt)),
              λ e. let k = (still e).0 in ground (arith, k, t),
            )
        | inr f ↦
            let (same, stable) = ok.stay n s p h f in
            (
              keeps,
              subst (λ x. measure (sweep step ns s' (changed || c)).0 ≤ measure x) same le,
              λ e. elim (up e) [
                | inl o ↦ inl (ground (arith, o, f))
                | inr lt ↦
                    inr
                      (subst (λ x. measure (sweep step ns s' (changed || c)).0 < measure x) same lt)
              ],
              λ e.
                  let (k, eq, all) = still e in
                  (
                    ground (arith, k),
                    subst (λ x. (sweep step ns s' (changed || c)).0 ≡ x) same eq,
                    (stable, subst (λ x. All (λ m. Stable m x) ns) same all),
                  ),
            )
      ]

  -- With fuel above the measure the rounds end, in a state that no step changes.
  pub settle_lem :
      (fuel : ℕ) (ns : List N) (s : S)
      → measure s < fuel
      → All P ns
      → I s
      → (s' : S) × (settle step fuel ns s ≡ some s') × I s' × All (λ n. Stable n s') ns
  unfolding settle
  settle_lem zero ns s lt ps h = elim lt [ ]
  settle_lem (suc fuel) ns s lt ps h =
      let (s', c) = sweep step ns s false in
      let (keeps, le, up, still) = sweep-Swept ns s false ps h in
      elim (Bool-cases c) [
        | inl t ↦
            let less : measure s' < measure s = elim (up t) [ inl bad ↦ cc | inr l ↦ l ] in
            let (s'', e, i, all) = settle_lem fuel ns s' (omega (arith, less, lt)) ps keeps in
            (s'', rw (t, settle) e, i, all)
        | inr f ↦
            let (k, same, all) = still f in
            (s', rw (f, settle) refl, keeps, subst (λ x. All (λ n. Stable n x) ns) (sym same) all)
      ]
