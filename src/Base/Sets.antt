-- ===== src/Base/Sets.antt =====
-- Python's sets, as lists without regard to order: union, equality, and how many elements are missing.
use misra_c_agent.Base.Tests.{if◌then◌else◌, Bool-cases}
use misra_c_agent.Base.Lists.{length, all_of}
use misra_c_agent.Base.Equality.{Eq, ◌==◌, mem, add, mem-append_eq, beq_refl}
use Prim.Native.Nat.{ℕ, ◌+◌, ◌≤◌, ◌<◌}
use mathlib.Core.Path.{◌≡◌, refl, sym, subst}
use mathlib.Core.Logic.{inl, inr}
use mathlib.Core.Bool.{Bool, true, false, ◌||◌, ◌&&◌}
use mathlib.Core.List.{List, [], ◌∷◌}
use native.Mathlib.Omega.{arith}

module _ {ℓ} {A : Type ℓ} ⦃e : Eq A⦄ where
  pub mem-add : (a x : A) (xs : List A) → mem a (add x xs) ≡ ((a == x) || mem a xs)
  mem-add a x xs = elim (Bool-cases (a == x)) [
    | inl same ↦
        let s : x ≡ a = sym ((e.beq_iff a x).0 same) in
        elim (Bool-cases (mem x xs)) [
          | inl m ↦
              let m' : mem a xs ≡ true = subst (λ y. mem y xs ≡ true) s m in
              ground (arith, m, m', same)
          | inr n ↦ ground (arith, n, same, mem-append_eq a xs (x ∷ []))
        ]
    | inr other ↦ ground (arith, other, mem-append_eq a xs (x ∷ []))
  ]

  -- `xs | ys`
  abbrev pub union : List A → List A → List A
  union [] ys = ys
  union (x ∷ xs) ys = add x (union xs ys)

  pub mem-union : (a : A) (xs ys : List A) → mem a (union xs ys) ≡ (mem a xs || mem a ys)
  mem-union a [] ys = refl
  mem-union a (x ∷ xs) ys = ground (arith, mem-add a x (union xs ys), mem-union a xs ys)

  abbrev pub subset : List A → List A → Bool
  subset xs ys = all_of (λ x. mem x ys) xs

  -- `xs == ys`
  abbrev pub same_set : List A → List A → Bool
  same_set xs ys = subset xs ys && subset ys xs

  pub subset-mem :
      (xs ys : List A) → subset xs ys ≡ true → (a : A) → mem a xs ≡ true → mem a ys ≡ true
  subset-mem [] ys h a m = cc
  subset-mem (x ∷ xs) ys h a m = elim (Bool-cases (a == x)) [
    | inl same ↦ subst (λ y. mem y ys ≡ true) (sym ((e.beq_iff a x).0 same)) (ground (arith, h))
    | inr other ↦ subset-mem xs ys (ground (arith, h)) a (ground (arith, m, other))
  ]

  -- An element that shows that `xs` is no subset of `ys`.
  pub not-subset :
      (xs ys : List A) → subset xs ys ≡ false → (a : A) × (mem a xs ≡ true) × (mem a ys ≡ false)
  not-subset [] ys h = cc
  not-subset (x ∷ xs) ys h = elim (Bool-cases (mem x ys)) [
    | inl m ↦ let (a, p, q) = not-subset xs ys (ground (arith, h, m)) in (a, ground (arith, p), q)
    | inr n ↦ (x, ground (arith, beq_refl x), n)
  ]

  pub same_set-mem : (xs ys : List A) → same_set xs ys ≡ true → (a : A) → mem a xs ≡ mem a ys
  same_set-mem xs ys h a =
      let to = subset-mem xs ys (ground (arith, h)) a in
      let back = subset-mem ys xs (ground (arith, h)) a in
      elim (Bool-cases (mem a xs)) [
        | inl m ↦ ground (arith, m, to m)
        | inr n ↦ elim (Bool-cases (mem a ys)) [
          | inl k ↦ ground (arith, n, k, back k)
          | inr k ↦ ground (arith, n, k)
        ]
      ]

  -- How many elements of `universe` are not in `xs`.
  abbrev pub missing : List A → List A → ℕ
  missing [] xs = 0
  missing (u ∷ universe) xs = (if mem u xs then 0 else 1) + missing universe xs

  pub missing-bound : (universe xs : List A) → missing universe xs ≤ length universe
  missing-bound [] xs = omega arith
  missing-bound (u ∷ universe) xs = ground (arith, missing-bound universe xs)

  pub missing-le :
      (universe xs ys : List A)
      → ((a : A) → mem a xs ≡ true → mem a ys ≡ true)
      → missing universe ys ≤ missing universe xs
  missing-le [] xs ys h = omega arith
  missing-le (u ∷ universe) xs ys h = elim (Bool-cases (mem u xs)) [
    | inl m ↦ ground (arith, m, h u m, missing-le universe xs ys h)
    | inr n ↦ ground (arith, n, missing-le universe xs ys h)
  ]

  pub missing-lt :
      (universe xs ys : List A)
      → ((a : A) → mem a xs ≡ true → mem a ys ≡ true)
      → (a : A) → mem a universe ≡ true
      → mem a ys ≡ true
      → mem a xs ≡ false
      → missing universe ys < missing universe xs
  missing-lt [] xs ys h a u y x = cc
  missing-lt (v ∷ universe) xs ys h a u y x = elim (Bool-cases (a == v)) [
    | inl same ↦
        let s : a ≡ v = (e.beq_iff a v).0 same in
        let y' : mem v ys ≡ true = subst (λ w. mem w ys ≡ true) s y in
        let x' : mem v xs ≡ false = subst (λ w. mem w xs ≡ false) s x in
        ground (arith, y', x', missing-le universe xs ys h)
    | inr other ↦
        let rest = missing-lt universe xs ys h a (ground (arith, other, u)) y x in
        elim (Bool-cases (mem v xs)) [
          | inl m ↦ ground (arith, m, h v m, rest)
          | inr n ↦ ground (arith, n, rest)
        ]
  ]
