-- ===== src/Base/Tables.antt =====
-- Tables of sets: what each node of a graph has so far, and what a node gets from its neighbours.
use misra_c_agent.Base.Tests.{if◌then◌else◌, Bool-cases}
use misra_c_agent.Base.Lists.{length}
use misra_c_agent.Base.Equality.{Eq, ◌==◌, mem}
use misra_c_agent.Base.Dicts.{Dict, lookup, insert, lookup-insert}
use misra_c_agent.Base.Sets.{union, mem-union, missing, missing-bound, missing-le, missing-lt}
use Prim.Native.Nat.{ℕ, ◌+◌, ◌*◌, ◌≤◌, ◌<◌}
use mathlib.Core.Path.{◌≡◌, refl, sym, subst}
use mathlib.Core.Logic.{inl, inr}
use mathlib.Core.Bool.{true, false}
use mathlib.Core.Option.{none, some}
use mathlib.Core.List.{List, [], ◌∷◌}
use native.Mathlib.Omega.{arith}

abbrev pub Table {ℓ} : Type ℓ → Type ℓ → Type ℓ
Table N X = Dict N (List X)

module _ {ℓ} {N X : Type ℓ} ⦃d : Eq N⦄ ⦃e : Eq X⦄ where
  -- `table.get(n, set())`
  unfoldable pub get : Table N X → N → List X
  get s n = elim (lookup n s) [ none ↦ [] | some xs ↦ xs ]

  -- `incoming = set()`, then `incoming |= table.get(p, set())` for each neighbour.
  unfoldable pub join : Table N X → List N → List X
  unfolding get
  join s [] = []
  join s (p ∷ ps) = union (get s p) (join s ps)

  pub get-insert :
      (n m : N) (xs : List X) (s : Table N X)
      → get (insert n xs s) m ≡ (if n == m then xs else get s m)
  unfolding get
  get-insert n m xs s = elim (Bool-cases (n == m)) [
    | inl y ↦ ground (arith, y, lookup-insert n m xs s)
    | inr y ↦ ground (arith, y, lookup-insert n m xs s)
  ]

  -- Every set of the one table lies in that of the other.
  unfoldable pub IsWithin : Table N X → Table N X → Type ℓ
  IsWithin s s' = (n : N) (x : X) → mem x (get s n) ≡ true → mem x (get s' n) ≡ true

  pub insert-IsWithin :
      (n : N) (xs : List X) (s : Table N X)
      → ((x : X) → mem x (get s n) ≡ true → mem x xs ≡ true)
      → IsWithin s (insert n xs s)
  unfolding IsWithin
  insert-IsWithin n xs s h m x k = elim (Bool-cases (n == m)) [
    | inl y ↦
        let k' : mem x (get s n) ≡ true =
          subst (λ i. mem x (get s i) ≡ true) (sym ((d.beq_iff n m).0 y)) k in
        ground (arith, y, h x k', get-insert n m xs s)
    | inr y ↦ ground (arith, y, k, get-insert n m xs s)
  ]

  -- An element of a join comes from one of the neighbours.
  pub join-from :
      (s : Table N X) (ps : List N) (x : X)
      → mem x (join s ps) ≡ true
      → (p : N) × (mem p ps ≡ true) × (mem x (get s p) ≡ true)
  unfolding join
  join-from s [] x m = cc
  join-from s (p ∷ ps) x m = elim (Bool-cases (mem x (get s p))) [
    | inl here ↦ (p, ground (arith, (d.beq_iff p p).1 refl), here)
    | inr n ↦
        let (q, r, t) =
          join-from s ps x (ground (arith, m, n, mem-union x (get s p) (join s ps))) in
        (q, ground (arith, r), t)
  ]

  pub join-to :
      (s : Table N X) (ps : List N) (x : X) (p : N)
      → mem p ps ≡ true
      → mem x (get s p) ≡ true
      → mem x (join s ps) ≡ true
  unfolding join
  join-to s [] x p m k = cc
  join-to s (q ∷ ps) x p m k = elim (Bool-cases (p == q)) [
    | inl y ↦
        let k' : mem x (get s q) ≡ true =
          subst (λ i. mem x (get s i) ≡ true) ((d.beq_iff p q).0 y) k in
        ground (arith, k', mem-union x (get s q) (join s ps))
    | inr y ↦
        let rest = join-to s ps x p (ground (arith, m, y)) k in
        ground (arith, rest, mem-union x (get s q) (join s ps))
  ]

  pub join_mono :
      (s s' : Table N X) (ps : List N)
      → IsWithin s s'
      → (x : X) → mem x (join s ps) ≡ true
      → mem x (join s' ps) ≡ true
  unfolding IsWithin
  join_mono s s' ps h x m = let (p, q, k) = join-from s ps x m in join-to s' ps x p q (h p x k)

  -- How much the sets of the nodes can still grow within the universe.
  unfoldable pub room : List N → List X → Table N X → ℕ
  room [] universe s = 0
  room (n ∷ ns) universe s = missing universe (get s n) + room ns universe s

  pub room-bound :
      (ns : List N) (universe : List X) (s : Table N X)
      → room ns universe s ≤ length ns * length universe
  unfolding room
  room-bound [] universe s = omega arith
  room-bound (n ∷ ns) universe s =
      omega (arith, room-bound ns universe s, missing-bound universe (get s n))

  pub room-le :
      (ns : List N) (universe : List X) (s s' : Table N X)
      → IsWithin s s'
      → room ns universe s' ≤ room ns universe s
  unfolding room IsWithin
  room-le [] universe s s' h = omega arith
  room-le (n ∷ ns) universe s s' h =
      omega (arith, room-le ns universe s s' h, missing-le universe (get s n) (get s' n) (h n))

  pub room-lt :
      (ns : List N) (universe : List X) (s s' : Table N X)
      → IsWithin s s'
      → (n : N) → mem n ns ≡ true
      → (x : X) → mem x universe ≡ true
      → mem x (get s' n) ≡ true
      → mem x (get s n) ≡ false
      → room ns universe s' < room ns universe s
  unfolding room IsWithin
  room-lt [] universe s s' h n m x u new old = cc
  room-lt (k ∷ ns) universe s s' h n m x u new old = elim (Bool-cases (n == k)) [
    | inl y ↦
        let here = missing-lt universe (get s n) (get s' n) (h n) x u new old in
        let here' : missing universe (get s' k) < missing universe (get s k) =
          subst (λ i. missing universe (get s' i) < missing universe (get s i))
            ((d.beq_iff n k).0 y) here in
        omega (arith, here', room-le ns universe s s' h)
    | inr y ↦ omega (
      arith,
      room-lt ns universe s s' h n (ground (arith, m, y)) x u new old,
      missing-le universe (get s k) (get s' k) (h k),
    )
  ]
