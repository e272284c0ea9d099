-- ===== src/Base/Equality.antt =====
-- Python's `==` on the types that the program compares, and `in` on lists and sets of them.
use Prim.Native.String.{String}
use Prim.Native.Nat.{ℕ}
use text.Mathlib.Text.{◌==◌ as text_beq}
use text.Mathlib.TextEquality.{eq_iff}
use mathlib.Core.Path.{◌≡◌, refl, ap}
use mathlib.Core.Logic.{◌↔◌, inl, inr}
use mathlib.Core.Bool.{Bool, true, false, ◌&&◌, ◌||◌}
use mathlib.Core.List.{List, [], ◌∷◌, ◌++◌, reverse, reverse-append}
use misra_c_agent.Base.Lists.{filter_by}
use native.Mathlib.Omega.{arith}
use misra_c_agent.Base.Tests.{nat_beq, nat_beq_iff, if◌then◌else◌, Bool-cases}

-- A test that decides equality.
pub record Eq {ℓ} (A : Type ℓ) : Type ℓ where
  pub beq : A → A → Bool
  pub beq_iff : (x y : A) → (beq x y ≡ true) ↔ (x ≡ y)

instance abbrev pub string_eq : Eq String
string_eq = record { beq_iff = eq_iff; beq = text_beq }

instance abbrev pub nat_eq : Eq ℕ
nat_eq = record { beq_iff = nat_beq_iff; beq = nat_beq }

infix 50 ◌==◌
abbrev pub ◌==◌ {ℓ} : {A : Type ℓ} ⦃eq : Eq A⦄ → A → A → Bool
◌==◌ ⦃eq⦄ = eq.beq

module _ {ℓ} {A : Type ℓ} ⦃e : Eq A⦄ where
  pub beq_refl : (a : A) → (a == a) ≡ true
  beq_refl a = (e.beq_iff a a).1 refl

  -- `a in xs`
  abbrev pub mem : A → List A → Bool
  mem a [] = false
  mem a (x ∷ xs) = (a == x) || mem a xs

  pub mem-head : (a : A) (xs : List A) → mem a (a ∷ xs) ≡ true
  mem-head a xs = ground (arith, beq_refl a)

  pub mem-append_eq : (a : A) (xs ys : List A) → mem a (xs ++ ys) ≡ (mem a xs || mem a ys)
  mem-append_eq a [] ys = refl
  mem-append_eq a (x ∷ xs) ys = ground (arith, mem-append_eq a xs ys)

  pub mem-reverse_eq : (a : A) (xs : List A) → mem a (reverse xs) ≡ mem a xs
  mem-reverse_eq a [] = refl
  mem-reverse_eq a (x ∷ xs) =
      rw (reverse-append (x ∷ []) xs)
        (ground (arith, mem-append_eq a (reverse xs) (x ∷ []), mem-reverse_eq a xs))

  -- No element stands twice.
  abbrev pub Distinct : List A → Type 0
  Distinct [] = Unit
  Distinct (x ∷ xs) = (mem x xs ≡ false) × Distinct xs

  pub mem-filter_by :
      (p : A → Bool) (a : A) (xs : List A) → mem a (filter_by p xs) ≡ (mem a xs && p a)
  mem-filter_by p a [] = refl
  mem-filter_by p a (x ∷ xs) = elim (Bool-cases (a == x)) [
    | inl same ↦
        let e' : p a ≡ p x = ap p ((e.beq_iff a x).0 same) in
        ground (arith, same, e', mem-filter_by p a xs)
    | inr other ↦ ground (arith, other, mem-filter_by p a xs)
  ]

  -- `xs.add(a)` on a set.
  abbrev pub add : A → List A → List A
  add a xs = if mem a xs then xs else xs ++ a ∷ []
