-- ===== src/Base/Fixpoint.antt =====
-- The iterative data-flow loop: `OUT[n] = f(n, union(OUT[p] for p in neighbours(n)))` until no set changes.
use misra_c_agent.Base.Tests.{if◌then◌else◌, Bool-cases}
use misra_c_agent.Base.Lists.{length, All}
use misra_c_agent.Base.Equality.{Eq, ◌==◌, mem}
use misra_c_agent.Base.Dicts.{insert}
use misra_c_agent.Base.Sets.{same_set, same_set-mem, subset, not-subset}
use misra_c_agent.Base.Tables.{
  Table, get, join, get-insert, IsWithin, insert-IsWithin, join-from, join_mono, room, room-bound,
  room-lt,
}
use misra_c_agent.Base.Settle.{settle, Settles, settle_lem}
use Prim.Native.Nat.{suc, ◌*◌, ◌<◌}
use mathlib.Core.Path.{◌≡◌, refl, sym, subst}
use mathlib.Core.Logic.{inl, inr}
use mathlib.Core.Bool.{Bool, true, false}
use mathlib.Core.Option.{Option, some}
use mathlib.Core.List.{List, [], ◌∷◌}
use native.Mathlib.Omega.{arith}

module _ {ℓ} {N X : Type ℓ} ⦃d : Eq N⦄ ⦃e : Eq X⦄ where
  -- One block of a round.
  unfoldable pub flow_step : (N → List X → List X) → (N → List N) → N → Table N X → Table N X × Bool
  unfolding join
  flow_step f neighbours n s =
      let new = f n (join s (neighbours n)) in
      if same_set new (get s n) then (s, false) else (insert n new s, true)

  -- One round for each element that a set of a node can still get, and one that changes nothing.
  unfoldable pub fixpoint :
      (N → List X → List X) → (N → List N) → List N → List X → Option (Table N X)
  unfolding flow_step settle
  fixpoint f neighbours ns universe =
      settle (flow_step f neighbours) (suc (length ns * length universe)) ns []

-- A transfer function that keeps inclusions, and a family of facts that it does not leave and that lie in
-- the universe.
pub record IsTransfer {ℓ} {N X : Type ℓ} ⦃d : Eq N⦄ ⦃e : Eq X⦄ (f : N → List X → List X)
    (neighbours : N → List N) (ns : List N) (universe : List X) (T : N → X → Type ℓ) : Type ℓ where
  pub mono :
      (n : N) (xs ys : List X)
      → ((x : X) → mem x xs ≡ true → mem x ys ≡ true)
      → (x : X) → mem x (f n xs) ≡ true
      → mem x (f n ys) ≡ true
  pub closed :
      (n : N) (xs : List X)
      → mem n ns ≡ true
      → ((x : X) → mem x xs ≡ true → (p : N) × (mem p (neighbours n) ≡ true) × T p x)
      → (x : X) → mem x (f n xs) ≡ true
      → T n x
  pub bounded : (n : N) (x : X) → T n x → mem x universe ≡ true

module _ {ℓ} {N X : Type ℓ} ⦃d : Eq N⦄ ⦃e : Eq X⦄ (f : N → List X → List X)
    (neighbours : N → List N) (ns : List N) (universe : List X) (T : N → X → Type ℓ)
    (ok : IsTransfer f neighbours ns universe T) where
  pub record IsPrefix (s : Table N X) : Type ℓ where
    pub grown :
        (n : N) (x : X) → mem x (get s n) ≡ true → mem x (f n (join s (neighbours n))) ≡ true
    pub sound : (n : N) (x : X) → mem x (get s n) ≡ true → T n x

  abbrev IsStable : N → Table N X → Type ℓ
  IsStable n s = (x : X) → mem x (get s n) ≡ mem x (f n (join s (neighbours n)))

  -- The set that a step puts in place of another one holds it.
  pub larger :
      (n : N) (s : Table N X) → IsPrefix s → IsWithin s (insert n (f n (join s (neighbours n))) s)
  larger n s h = insert-IsWithin n (f n (join s (neighbours n))) s (h.grown n)

  pub from_neighbour :
      (n : N) (s : Table N X)
      → IsPrefix s
      → (x : X) → mem x (join s (neighbours n)) ≡ true
      → (p : N) × (mem p (neighbours n) ≡ true) × T p x
  from_neighbour n s h x r = let (p, q, u) = join-from s (neighbours n) x r in (p, q, h.sound p x u)

  pub insert-IsPrefix :
      (n : N) (s : Table N X)
      → mem n ns ≡ true
      → IsPrefix s
      → IsPrefix (insert n (f n (join s (neighbours n))) s)
  insert-IsPrefix n s m h =
      let new = f n (join s (neighbours n)) in
      let s' = insert n new s in
      let more = λ (k : N) (x : X).
        ok.mono k (join s (neighbours k)) (join s' (neighbours k))
          (join_mono s s' (neighbours k) (larger n s h)) x in
      record {
        grown = λ k x t. elim (Bool-cases (n == k)) [
          | inl y ↦
              let t' : mem x new ≡ true = ground (arith, y, t, get-insert n k new s) in
              more k x
                (subst (λ i. mem x (f i (join s (neighbours i))) ≡ true) ((d.beq_iff n k).0 y) t')
          | inr y ↦ more k x (h.grown k x (ground (arith, y, t, get-insert n k new s)))
        ];
        sound = λ k x t. elim (Bool-cases (n == k)) [
          | inl y ↦
              let t' : mem x new ≡ true = ground (arith, y, t, get-insert n k new s) in
              subst (λ i. T i x) ((d.beq_iff n k).0 y)
                (ok.closed n (join s (neighbours n)) m (from_neighbour n s h) x t')
          | inr y ↦ h.sound k x (ground (arith, y, t, get-insert n k new s))
        ];
      }

  pub insert-room :
      (n : N) (s : Table N X)
      → mem n ns ≡ true
      → IsPrefix s
      → same_set (f n (join s (neighbours n))) (get s n) ≡ false
      → room ns universe (insert n (f n (join s (neighbours n))) s) < room ns universe s
  insert-room n s m h differ =
      let new = f n (join s (neighbours n)) in
      let s' = insert n new s in
      let next = insert-IsPrefix n s m h in
      elim (Bool-cases (subset new (get s n))) [
        | inl y ↦
            let (x, a, b) = not-subset (get s n) new (ground (arith, y, differ)) in
            let bad = h.grown n x a in cc
        | inr y ↦
            let (x, a, b) = not-subset new (get s n) y in
            let at : mem x (get s' n) ≡ true =
              ground (arith, a, get-insert n n new s, (d.beq_iff n n).1 refl) in
            room-lt ns universe s s' (larger n s h) n m x (ok.bounded n x (next.sound n x at)) at b
      ]

  flow_step-Settles :
      Settles (flow_step f neighbours) (λ n. mem n ns ≡ true) IsPrefix (room ns universe) IsStable
  unfolding flow_step
  flow_step-Settles = record {
    keep = λ n s m h. elim (Bool-cases (same_set (f n (join s (neighbours n))) (get s n))) [
      | inl y ↦ rw (y, flow_step) h
      | inr y ↦ rw (y, flow_step) (insert-IsPrefix n s m h)
    ];
    change = λ n s m h c. elim (Bool-cases (same_set (f n (join s (neighbours n))) (get s n))) [
      | inl y ↦ ground (arith, y, c)
      | inr y ↦ rw (y, flow_step) (insert-room n s m h y)
    ];
    stay = λ n s m h c. elim (Bool-cases (same_set (f n (join s (neighbours n))) (get s n))) [
      | inl y ↦ (
        rw (y, flow_step) refl,
        λ x. sym (same_set-mem (f n (join s (neighbours n))) (get s n) y x),
      )
      | inr y ↦ ground (arith, y, c)
    ];
  }

  pub All-members :
      (ks : List N) → ((n : N) → mem n ks ≡ true → mem n ns ≡ true) → All (λ n. mem n ns ≡ true) ks
  All-members [] h = tt
  All-members (k ∷ ks) h = (
    h k (ground (arith, (d.beq_iff k k).1 refl)),
    All-members ks (λ n m. h n (ground (arith, m))),
  )

  All-at :
      (s : Table N X) (ks : List N) (n : N)
      → All (λ k. IsStable k s) ks
      → mem n ks ≡ true
      → IsStable n s
  All-at s [] n h m = λ x. cc
  All-at s (k ∷ ks) n h m = elim (Bool-cases (n == k)) [
    | inl y ↦ subst (λ i. IsStable i s) (sym ((d.beq_iff n k).0 y)) h.0
    | inr y ↦ All-at s ks n h.1 (ground (arith, m, y))
  ]

  -- The loop ends. Its sets are those of the transfer function at the union of the neighbours' sets, and
  -- they lie in every family of facts that the transfer function does not leave.
  pub fixpoint_lem :
      (s : Table N X) × (fixpoint f neighbours ns universe ≡ some s)
      × ((n : N) (x : X) → mem x (get s n) ≡ true → T n x)
      × ((n : N)
          → mem n ns ≡ true
          → (x : X) → mem x (get s n) ≡ mem x (f n (join s (neighbours n))))
  unfolding fixpoint get
  fixpoint_lem =
      let b = room-bound ns universe [] in
      let (s, ends, h, stable) =
        settle_lem (flow_step f neighbours) (λ n. mem n ns ≡ true) IsPrefix (room ns universe)
          IsStable flow_step-Settles (suc (length ns * length universe)) ns [] (omega (arith, b))
          (All-members ns (λ n m. m)) start in
      (s, ends, h.sound, λ n m. All-at s ns n stable m)
    where
      start : IsPrefix []
      start = record { grown = λ n x m. cc; sound = λ n x m. cc }
