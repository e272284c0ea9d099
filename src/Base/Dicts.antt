-- ===== src/Base/Dicts.antt =====
-- A Python dict: an association list in insertion order, with one entry for each key.
use mathlib.Core.Path.{◌≡◌, refl, subst}
use mathlib.Core.Logic.{inl, inr}
use mathlib.Core.Bool.{◌||◌, ◌&&◌, not}
use mathlib.Core.Option.{Option, none, some}
use mathlib.Core.List.{List, [], ◌∷◌}
use native.Mathlib.Omega.{arith}
use Prim.Native.Nat.{◌≤◌, ◌<◌}
use misra_c_agent.Base.Lists.{length}
use misra_c_agent.Base.Tests.{if◌then◌else◌, Bool-cases}
use misra_c_agent.Base.Equality.{Eq, ◌==◌, mem}

abbrev pub Dict {ℓ κ} : Type ℓ → Type κ → Type (ℓ ⊔ κ)
Dict K V = List (K × V)

module _ {ℓ κ} {K : Type ℓ} {V : Type κ} ⦃e : Eq K⦄ where
  -- `d.get(k)`
  abbrev pub lookup : K → Dict K V → Option V
  lookup k [] = none
  lookup k ((j, v) ∷ d) = if j == k then some v else lookup k d

  -- `d[k] = v`
  abbrev pub insert : K → V → Dict K V → Dict K V
  insert k v [] = (k, v) ∷ []
  insert k v ((j, w) ∷ d) = if j == k then (j, v) ∷ d else (j, w) ∷ insert k v d

  pub lookup-insert :
      (k j : K) (v : V) (d : Dict K V)
      → lookup j (insert k v d) ≡ (if k == j then some v else lookup j d)
  lookup-insert k j v [] = refl
  lookup-insert k j v ((i, w) ∷ d) =
      ground (arith, e.beq_iff k j, e.beq_iff i k, e.beq_iff i j, lookup-insert k j v d)

  -- `del d[k]`
  abbrev pub delete : K → Dict K V → Dict K V
  delete k [] = []
  delete k ((j, w) ∷ d) = let rest = delete k d in if j == k then rest else (j, w) ∷ rest

  abbrev pub keys : Dict K V → List K
  keys [] = []
  keys ((j, w) ∷ d) = j ∷ keys d

  pub mem-keys-delete :
      (k j : K) (d : Dict K V) → mem j (keys (delete k d)) ≡ (mem j (keys d) && not (j == k))
  mem-keys-delete k j [] = refl
  mem-keys-delete k j ((i, w) ∷ d) =
      ground (arith, mem-keys-delete k j d, e.beq_iff i k, e.beq_iff j i, e.beq_iff j k)

  pub mem-keys-insert :
      (k j : K) (v : V) (d : Dict K V) → mem j (keys (insert k v d)) ≡ ((j == k) || mem j (keys d))
  mem-keys-insert k j v [] = refl
  mem-keys-insert k j v ((i, w) ∷ d) =
      ground (arith, mem-keys-insert k j v d, e.beq_iff i k, e.beq_iff j i, e.beq_iff j k)

  pub length-delete-le : (k : K) (d : Dict K V) → length (delete k d) ≤ length d
  length-delete-le k [] = omega arith
  length-delete-le k ((j, w) ∷ d) = ground (arith, length-delete-le k d)

  pub length-delete-lt :
      (k : K) (v : V) (d : Dict K V) → lookup k d ≡ some v → length (delete k d) < length d
  length-delete-lt k v [] h = cc
  length-delete-lt k v ((j, w) ∷ d) h = ground (arith, length-delete-lt k v d, length-delete-le k d)

  -- What holds of every value, and of the new one, holds of every value after `d[k] = v`.
  pub values-insert {μ} :
      (P : V → Type μ) (k : K) (v : V) (d : Dict K V)
      → P v
      → ((j : K) (w : V) → lookup j d ≡ some w → P w)
      → (j : K) (w : V) → lookup j (insert k v d) ≡ some w
      → P w
  values-insert P k v d new old j w h = elim (Bool-cases (k == j)) [
    | inl p ↦ let same : v ≡ w = ground (arith, p, h, lookup-insert k j v d) in subst P same new
    | inr n ↦ old j w (ground (arith, n, h, lookup-insert k j v d))
  ]
