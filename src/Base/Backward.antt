-- ===== src/Base/Backward.antt =====
-- The loop of a backward analysis, which keeps two tables: for each node what it needs (`live_in`), and the
-- union of what its successors need (`live_out`).
use misra_c_agent.Base.Tests.{if◌then◌else◌, Bool-cases}
use misra_c_agent.Base.Lists.{length, All}
use misra_c_agent.Base.Equality.{Eq, ◌==◌, mem}
use misra_c_agent.Base.Dicts.{insert}
use misra_c_agent.Base.Sets.{same_set, same_set-mem, subset, not-subset}
use misra_c_agent.Base.Tables.{
  Table, get, join, get-insert, IsWithin, insert-IsWithin, join-to, join_mono, room, room-bound,
  room-le, room-lt,
}
use misra_c_agent.Base.Settle.{settle, Settles, settle_lem}
use misra_c_agent.Base.Fixpoint.{
  IsTransfer, IsPrefix, larger, from_neighbour, insert-IsPrefix, insert-room, All-members,
}
use misra_c_agent.Base.GenKill.{gen_kill, mem-gen_kill, all_generated, Flows, gen_kill-IsTransfer}
use Prim.Native.Nat.{ℕ, suc, ◌+◌, ◌*◌, ◌<◌}
use mathlib.Core.Path.{◌≡◌, refl, sym, subst}
use mathlib.Core.Logic.{◌↔◌, inl, inr}
use mathlib.Core.Bool.{Bool, true, false, ◌||◌, not}
use mathlib.Core.Option.{Option, some}
use mathlib.Core.List.{List, [], ◌∷◌}
use native.Mathlib.Omega.{arith}

module _ {ℓ} {N X : Type ℓ} ⦃d : Eq N⦄ ⦃e : Eq X⦄ where
  unfoldable pub backward_step :
      (N → List X → List X)
      → (N → List N)
      → N
      → Table N X × Table N X
      → (Table N X × Table N X) × Bool
  unfolding join
  backward_step f successors n (live_in, live_out) =
      let out_set = join live_in (successors n) in
      let new_in = f n out_set in
      if not (same_set new_in (get live_in n)) || not (same_set out_set (get live_out n))
      then ((insert n new_in live_in, insert n out_set live_out), true)
      else ((live_in, live_out), false)

  -- Twice a round for each element that a set can still get, and one that changes nothing.
  unfoldable pub backward :
      (N → List X → List X) → (N → List N) → List N → List X → Option (Table N X × Table N X)
  unfolding backward_step settle
  backward f successors ns universe =
      settle (backward_step f successors)
        (suc (length ns * length universe + length ns * length universe)) ns ([], [])

module _ {ℓ} {N X : Type ℓ} ⦃d : Eq N⦄ ⦃e : Eq X⦄ (gen : N → List X) (kills : N → X → Bool)
    (successors : N → List N) (ns : List N) where
  abbrev Needs : N → X → Type ℓ
  Needs n x = Flows gen kills successors ns x n

  abbrev f : N → List X → List X
  f = gen_kill gen kills

  abbrev universe : List X
  universe = all_generated gen kills ns

  ok : IsTransfer f successors ns universe Needs
  ok = gen_kill-IsTransfer gen kills successors ns

  -- Both tables: the first as in a loop with one, the second below the union over the first.
  record IsSound (s : Table N X × Table N X) : Type ℓ where
    prefix : IsPrefix f successors ns universe Needs ok s.0
    below : (n : N) (x : X) → mem x (get s.1 n) ≡ true → mem x (join s.0 (successors n)) ≡ true

  abbrev IsStable : N → Table N X × Table N X → Type ℓ
  IsStable n s =
      ((x : X) → mem x (get s.0 n) ≡ mem x (f n (join s.0 (successors n))))
      × ((x : X) → mem x (get s.1 n) ≡ mem x (join s.0 (successors n)))

  abbrev measure : Table N X × Table N X → ℕ
  measure s = room ns universe s.0 + room ns universe s.1

  abbrev next : N → Table N X × Table N X → Table N X × Table N X
  next n s = (insert n (f n (join s.0 (successors n))) s.0, insert n (join s.0 (successors n)) s.1)

  next-IsSound :
      (n : N) (s : Table N X × Table N X) → mem n ns ≡ true → IsSound s → IsSound (next n s)
  next-IsSound n s m h =
      let out = join s.0 (successors n) in
      let s' = insert n (f n out) s.0 in
      let more = λ (k : N).
        join_mono s.0 s' (successors k) (larger f successors ns universe Needs ok n s.0 h.prefix) in
      record {
        prefix = insert-IsPrefix f successors ns universe Needs ok n s.0 m h.prefix;
        below = λ k x t. elim (Bool-cases (n == k)) [
          | inl y ↦
              let t' : mem x out ≡ true = ground (arith, y, t, get-insert n k out s.1) in
              more k x
                (subst (λ i. mem x (join s.0 (successors i)) ≡ true) ((d.beq_iff n k).0 y) t')
          | inr y ↦ more k x (h.below k x (ground (arith, y, t, get-insert n k out s.1)))
        ];
      }

  out-IsWithin :
      (n : N) (s : Table N X × Table N X)
      → IsSound s
      → IsWithin s.1 (insert n (join s.0 (successors n)) s.1)
  out-IsWithin n s h = insert-IsWithin n (join s.0 (successors n)) s.1 (h.below n)

  next-measure :
      (n : N) (s : Table N X × Table N X)
      → mem n ns ≡ true
      → IsSound s
      → (not (same_set (f n (join s.0 (successors n))) (get s.0 n))
          || not (same_set (join s.0 (successors n)) (get s.1 n)))
        ≡ true
      → measure (next n s) < measure s
  next-measure n s m h c =
      let out = join s.0 (successors n) in
      let in_le =
        room-le ns universe s.0 (insert n (f n out) s.0)
          (larger f successors ns universe Needs ok n s.0 h.prefix) in
      let out_le = room-le ns universe s.1 (insert n out s.1) (out-IsWithin n s h) in
      elim (Bool-cases (same_set (f n out) (get s.0 n))) [
        | inr y ↦
            omega (arith, out_le, insert-room f successors ns universe Needs ok n s.0 m h.prefix y)
        | inl y ↦ elim (Bool-cases (subset out (get s.1 n))) [
          | inl z ↦
              let (x, a, b) = not-subset (get s.1 n) out (ground (arith, y, z, c)) in
              let bad = h.below n x a in cc
          | inr z ↦
              let (x, a, b) = not-subset out (get s.1 n) z in
              let (p, q, u) = from_neighbour f successors ns universe Needs ok n s.0 h.prefix x a in
              let at : mem x (get (insert n out s.1) n) ≡ true =
                ground (arith, a, get-insert n n out s.1, (d.beq_iff n n).1 refl) in
              omega (
                arith,
                in_le,
                room-lt ns universe s.1 (insert n out s.1) (out-IsWithin n s h) n m x
                    (ok.bounded p x u) at b,
              )
        ]
      ]

  backward_step-Settles :
      Settles (backward_step f successors) (λ n. mem n ns ≡ true) IsSound measure IsStable
  unfolding backward_step
  backward_step-Settles = record {
    keep = λ n s m h.
        elim (Bool-cases (
          not (same_set (f n (join s.0 (successors n))) (get s.0 n))
          || not (same_set (join s.0 (successors n)) (get s.1 n)))) [
            | inl y ↦ rw (y, backward_step) (next-IsSound n s m h)
            | inr y ↦ rw (y, backward_step) h
          ];
    change = λ n s m h c.
        elim (Bool-cases (
          not (same_set (f n (join s.0 (successors n))) (get s.0 n))
          || not (same_set (join s.0 (successors n)) (get s.1 n)))) [
            | inl y ↦ rw (y, backward_step) (next-measure n s m h y)
            | inr y ↦ ground (arith, y, c)
          ];
    stay = λ n s m h c.
        elim (Bool-cases (
          not (same_set (f n (join s.0 (successors n))) (get s.0 n))
          || not (same_set (join s.0 (successors n)) (get s.1 n)))) [
            | inl y ↦ ground (arith, y, c)
            | inr y ↦ (
              rw (y, backward_step) refl,
              (
                λ x. sym (
                    same_set-mem (f n (join s.0 (successors n))) (get s.0 n) (ground (arith, y)) x),
                λ x. sym (same_set-mem (join s.0 (successors n)) (get s.1 n) (ground (arith, y)) x),
              ),
            )
          ];
  }

  All-at :
      (s : Table N X × Table N X) (ks : List N) (n : N)
      → All (λ k. IsStable k s) ks
      → mem n ks ≡ true
      → IsStable n s
  All-at s [] n h m = cc
  All-at s (k ∷ ks) n h m = elim (Bool-cases (n == k)) [
    | inl y ↦ subst (λ i. IsStable i s) (sym ((d.beq_iff n k).0 y)) h.0
    | inr y ↦ All-at s ks n h.1 (ground (arith, m, y))
  ]

  complete :
      (s : Table N X × Table N X)
      → ((n : N) → mem n ns ≡ true → IsStable n s)
      → (x : X) (n : N) → Needs n x
      → mem x (get s.0 n) ≡ true
  complete s stable x n (Flows.generated m g) =
      ground (arith, g, (stable n m).0 x, mem-gen_kill gen kills n (join s.0 (successors n)) x)
  complete s stable x n (Flows.carried {p} m q u k) =
      let before = join-to s.0 (successors n) x p q (complete s stable x p u) in
      ground
        (arith, k, before, (stable n m).0 x, mem-gen_kill gen kills n (join s.0 (successors n)) x)

  -- The loop ends. A node needs exactly what flows to it against the edges, and the second table has for a
  -- node of the list exactly what one of its successors needs.
  pub backward_lem :
      (s : Table N X × Table N X) × (backward f successors ns universe ≡ some s)
      × ((n : N) (x : X) → (mem x (get s.0 n) ≡ true) ↔ Needs n x)
      × ((n : N) (x : X)
          → mem n ns ≡ true
          → (mem x (get s.1 n) ≡ true) ↔ ((p : N) × (mem p (successors n) ≡ true) × Needs p x))
  unfolding backward get
  backward_lem =
      let b = room-bound ns universe [] in
      let (s, ends, h, all) =
        settle_lem (backward_step f successors) (λ n. mem n ns ≡ true) IsSound measure IsStable
          backward_step-Settles (suc (length ns * length universe + length ns * length universe)) ns
          ([], []) (omega (arith, b)) (All-members f successors ns universe Needs ok ns (λ n m. m))
          start in
      (
        s,
        ends,
        λ n x. (h.prefix.sound n x, complete s (λ k m. All-at s ns k all m) x n),
        λ n x m. (
          λ t. from_neighbour f successors ns universe Needs ok n s.0 h.prefix x (h.below n x t),
          λ (p, q, u).
              let there =
                join-to s.0 (successors n) x p q (complete s (λ k m. All-at s ns k all m) x p u) in
              ground (arith, there, (All-at s ns n all m).1 x),
        ),
      )
    where
      start : IsSound ([], [])
      start = record {
        prefix = record { grown = λ n x m. cc; sound = λ n x m. cc };
        below = λ n x m. cc;
      }
