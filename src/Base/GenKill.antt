-- ===== src/Base/GenKill.antt =====
-- The loop at a transfer function `gen(n) | {x in incoming if not killed(n, x)}`: its sets are the facts that flow
-- from where they are generated, along the edges, past nodes that do not kill them.
use misra_c_agent.Base.Tests.{Bool-cases}
use misra_c_agent.Base.Lists.{filter_by}
use misra_c_agent.Base.Equality.{Eq, ◌==◌, mem, mem-filter_by, mem-append_eq}
use misra_c_agent.Base.Sets.{union, mem-union}
use misra_c_agent.Base.Tables.{Table, get, join, join-to}
use misra_c_agent.Base.Fixpoint.{fixpoint, IsTransfer, fixpoint_lem}
use mathlib.Core.Path.{◌≡◌, subst}
use mathlib.Core.Logic.{◌↔◌, inl, inr}
use mathlib.Core.Bool.{Bool, true, false, ◌||◌, ◌&&◌, not}
use mathlib.Core.Option.{some}
use mathlib.Core.List.{List, [], ◌∷◌, ◌++◌}
use native.Mathlib.Omega.{arith}

module _ {ℓ} {N X : Type ℓ} ⦃d : Eq N⦄ ⦃e : Eq X⦄ (gen : N → List X) (kills : N → X → Bool) where
  abbrev pub gen_kill : N → List X → List X
  gen_kill n incoming = union (gen n) (filter_by (λ x. not (kills n x)) incoming)

  -- The sets that the nodes generate, in one list.
  abbrev pub all_generated : List N → List X
  all_generated [] = []
  all_generated (n ∷ ns) = gen n ++ all_generated ns

  mem-all_generated :
      (ns : List N) (n : N) (x : X)
      → mem n ns ≡ true
      → mem x (gen n) ≡ true
      → mem x (all_generated ns) ≡ true
  mem-all_generated [] n x m h = cc
  mem-all_generated (k ∷ ns) n x m h = elim (Bool-cases (n == k)) [
    | inl y ↦
        let h' : mem x (gen k) ≡ true = subst (λ i. mem x (gen i) ≡ true) ((d.beq_iff n k).0 y) h in
        ground (arith, h', mem-append_eq x (gen k) (all_generated ns))
    | inr y ↦
        let rest = mem-all_generated ns n x (ground (arith, m, y)) h in
        ground (arith, rest, mem-append_eq x (gen k) (all_generated ns))
  ]

  pub mem-gen_kill :
      (n : N) (xs : List X) (x : X)
      → mem x (gen_kill n xs) ≡ (mem x (gen n) || (mem x xs && not (kills n x)))
  mem-gen_kill n xs x = ground (
    arith,
    mem-union x (gen n) (filter_by (λ x. not (kills n x)) xs),
    mem-filter_by (λ x. not (kills n x)) x xs,
  )

-- The fact `x` flows to the end of `n`.
pub data Flows {ℓ} {N X : Type ℓ} ⦃d : Eq N⦄ ⦃e : Eq X⦄ (gen : N → List X) (kills : N → X → Bool)
    (neighbours : N → List N) (ns : List N) (x : X) : N → Type ℓ where
  generated : {n : N} → mem n ns ≡ true → mem x (gen n) ≡ true → Flows gen kills neighbours ns x n
  carried :
      {p n : N}
      → mem n ns ≡ true
      → mem p (neighbours n) ≡ true
      → Flows gen kills neighbours ns x p
      → kills n x ≡ false
      → Flows gen kills neighbours ns x n

module _ {ℓ} {N X : Type ℓ} ⦃d : Eq N⦄ ⦃e : Eq X⦄ (gen : N → List X) (kills : N → X → Bool)
    (neighbours : N → List N) (ns : List N) where
  Flows-bounded :
      (x : X) (n : N)
      → Flows gen kills neighbours ns x n
      → mem x (all_generated gen kills ns) ≡ true
  Flows-bounded x n (Flows.generated m g) = mem-all_generated gen kills ns n x m g
  Flows-bounded x n (Flows.carried {p} m q f k) = Flows-bounded x p f

  pub gen_kill-IsTransfer :
      IsTransfer
        (gen_kill gen kills)
        neighbours
        ns
        (all_generated gen kills ns)
        (λ n x. Flows gen kills neighbours ns x n)
  gen_kill-IsTransfer = record {
    mono = λ n xs ys h x m. elim (Bool-cases (mem x xs)) [
      | inl y ↦
          ground (arith, m, y, h x y, mem-gen_kill gen kills n xs x, mem-gen_kill gen kills n ys x)
      | inr y ↦ ground (arith, m, y, mem-gen_kill gen kills n xs x, mem-gen_kill gen kills n ys x)
    ];
    closed = λ n xs m h x t. elim (Bool-cases (mem x (gen n))) [
      | inl y ↦ Flows.generated m y
      | inr y ↦
          let (p, q, f) = h x (ground (arith, t, y, mem-gen_kill gen kills n xs x)) in
          Flows.carried m q f (ground (arith, t, y, mem-gen_kill gen kills n xs x))
    ];
    bounded = λ n x. Flows-bounded x n;
  }

  -- The loop ends, and its sets hold exactly the facts that flow to the node.
  pub gen_kill-fixpoint :
      (s : Table N X) × (fixpoint (gen_kill gen kills) neighbours ns (all_generated gen kills ns)
        ≡ some s)
      × ((n : N) (x : X) → (mem x (get s n) ≡ true) ↔ Flows gen kills neighbours ns x n)
  gen_kill-fixpoint =
      let (s, ends, sound, stable) =
        fixpoint_lem (gen_kill gen kills) neighbours ns (all_generated gen kills ns)
          (λ n x. Flows gen kills neighbours ns x n) gen_kill-IsTransfer in
      (s, ends, λ n x. (sound n x, complete s stable x n))
    where
      complete :
          (s : Table N X)
          → ((n : N)
              → mem n ns ≡ true
              → (x : X) → mem x (get s n) ≡ mem x (gen_kill gen kills n (join s (neighbours n))))
          → (x : X) (n : N) → Flows gen kills neighbours ns x n
          → mem x (get s n) ≡ true
      complete s stable x n (Flows.generated m g) =
          ground (arith, g, stable n m x, mem-gen_kill gen kills n (join s (neighbours n)) x)
      complete s stable x n (Flows.carried {p} m q f k) =
          let before = join-to s (neighbours n) x p q (complete s stable x p f) in
          ground
            (arith, k, before, stable n m x, mem-gen_kill gen kills n (join s (neighbours n)) x)
