-- ===== src/Base/Search.antt =====
-- Worklist search over a finite graph: the loop that `ControlFlowGraph.reachable_blocks` runs with
-- a stack and `compute_affected_translation_units` runs with a queue.
use misra_c_agent.Base.Tests.{if◌then◌else◌, Bool-cases}
use misra_c_agent.Base.Lists.{length, length-append}
use misra_c_agent.Base.Equality.{Eq, ◌==◌, mem, mem-append_eq, beq_refl}
use Prim.Native.Nat.{ℕ, zero, suc, ◌+◌, ◌<◌}
use mathlib.Core.Path.{◌≡◌, refl}
use mathlib.Core.Logic.{inl, inr}
use mathlib.Core.Bool.{true, false, ◌||◌}
use mathlib.Core.Option.{Option, none, some}
use mathlib.Core.List.{List, [], ◌∷◌, ◌++◌}
use native.Mathlib.Omega.{arith}

-- The edges of a graph, as pairs of a source and a target.
abbrev pub Graph {ℓ} : Type ℓ → Type ℓ
Graph A = List (A × A)

module _ {ℓ} {A : Type ℓ} ⦃e : Eq A⦄ where
  abbrev pub targets : Graph A → A → List A
  targets [] x = []
  targets ((s, t) ∷ g) x = if s == x then t ∷ targets g x else targets g x

  -- The number of edges whose source is not in `seen`.
  abbrev pub open_edges : Graph A → List A → ℕ
  open_edges [] seen = 0
  open_edges ((s, t) ∷ g) seen = if mem s seen then open_edges g seen else suc (open_edges g seen)

  -- `some` of the visited nodes when the work list has run empty.
  unfoldable pub visit_all :
      (List A → List A → List A) → ℕ → Graph A → List A → List A → Option (List A)
  visit_all push zero g work seen = none
  visit_all push (suc fuel) g [] seen = some seen
  visit_all push (suc fuel) g (x ∷ work) seen = elim (mem x seen) [
    | true ↦ visit_all push fuel g work seen
    | false ↦ visit_all push fuel g (push (targets g x) work) (seen ++ x ∷ [])
  ]

  pub open_edges-visit :
      (g : Graph A) (x : A) (seen : List A)
      → mem x seen ≡ false
      → open_edges g (seen ++ x ∷ []) + length (targets g x) ≡ open_edges g seen
  open_edges-visit [] x seen h = refl
  open_edges-visit ((s, t) ∷ g) x seen h =
      ground (arith, open_edges-visit g x seen h, e.beq_iff s x, mem-append_eq s seen (x ∷ []))

-- The walks from `x`.
pub data Reach {ℓ} {A : Type ℓ} ⦃e : Eq A⦄ (g : Graph A) (x : A) : A → Type ℓ where
  here : Reach g x x
  step : {y z : A} → Reach g x y → mem z (targets g y) ≡ true → Reach g x z

-- What both disciplines guarantee: nothing pushed is lost, and nothing is invented.
pub record IsPush {ℓ} {A : Type ℓ} ⦃e : Eq A⦄ (push : List A → List A → List A) : Type ℓ where
  pub mem_push : (a : A) (new work : List A) → mem a (push new work) ≡ (mem a new || mem a work)
  pub length_push : (new work : List A) → length (push new work) ≡ length new + length work

module _ {ℓ} {A : Type ℓ} where
  abbrev pub stack_push : List A → List A → List A
  stack_push [] work = work
  stack_push (t ∷ new) work = stack_push new (t ∷ work)

  abbrev pub queue_push : List A → List A → List A
  queue_push new work = work ++ new

module _ {ℓ} {A : Type ℓ} ⦃e : Eq A⦄ where
  mem-stack_push :
      (a : A) (new work : List A) → mem a (stack_push new work) ≡ (mem a new || mem a work)
  mem-stack_push a [] work = refl
  mem-stack_push a (t ∷ new) work = ground (arith, mem-stack_push a new (t ∷ work))

  length-stack_push : (new work : List A) → length (stack_push new work) ≡ length new + length work
  length-stack_push [] work = omega arith
  length-stack_push (t ∷ new) work = omega (arith, length-stack_push new (t ∷ work))

  pub stack_push-IsPush : IsPush ⦃e = e⦄ stack_push
  stack_push-IsPush = record { mem_push = mem-stack_push; length_push = length-stack_push }

  pub queue_push-IsPush : IsPush ⦃e = e⦄ queue_push
  queue_push-IsPush = record {
    mem_push = λ a new work. ground (arith, mem-append_eq a work new);
    length_push = λ new work. omega (arith, length-append work new);
  }

-- A search from `work` with `seen` behind it ends with a set that holds both, is closed under the
-- edges, and lies within every predicate that holds of both and is closed under the edges.
pub record Explored {ℓ κ} {A : Type ℓ} ⦃e : Eq A⦄ (P : A → Type κ) (g : Graph A)
    (work seen : List A) (result : Option (List A)) : Type (ℓ ⊔ κ) where
  pub all : List A
  pub ends : result ≡ some all
  pub sound : (a : A) → mem a all ≡ true → P a
  pub closed : (a b : A) → mem a all ≡ true → mem b (targets g a) ≡ true → mem b all ≡ true
  pub holds : (a : A) → (mem a work || mem a seen) ≡ true → mem a all ≡ true

module _ {ℓ κ} {A : Type ℓ} ⦃e : Eq A⦄ (P : A → Type κ) (g : Graph A)
    (P-step : (a b : A) → P a → mem b (targets g a) ≡ true → P b) {push : List A → List A → List A}
    (ok : IsPush push) where
  pub visit_all_lem :
      (fuel : ℕ) (work seen : List A)
      → length work + open_edges g seen < fuel
      → ((a : A) → (mem a work || mem a seen) ≡ true → P a)
      → ((a b : A)
          → mem a seen ≡ true
          → mem b (targets g a) ≡ true
          → (mem b work || mem b seen) ≡ true)
      → Explored P g work seen (visit_all push fuel g work seen)
  unfolding visit_all
  visit_all_lem zero work seen h sound closed = elim h [ ]
  visit_all_lem (suc fuel) [] seen h sound closed = record {
    all = seen;
    ends = refl;
    sound = sound;
    closed = closed;
    holds = λ a m. m;
  }
  visit_all_lem (suc fuel) (x ∷ work) seen h sound closed = elim (Bool-cases (mem x seen)) [
    | inl old ↦
        let r =
          visit_all_lem fuel work seen (omega arith) (λ a m. sound a (ground arith))
            (λ a b s t. ground (arith, closed a b s t, e.beq_iff b x)) in
        record {
          all = r.all;
          ends = rw (old, visit_all) r.ends;
          sound = r.sound;
          closed = r.closed;
          holds = λ a m. r.holds a (ground (arith, e.beq_iff a x));
        }
    | inr new ↦
        let pushed = λ (a : A). ok.mem_push a (targets g x) work in
        let seen' = seen ++ x ∷ [] in
        let r =
          visit_all_lem fuel (push (targets g x) work) seen'
            (omega (arith, ok.length_push (targets g x) work, open_edges-visit g x seen new))
            (λ a m. ground (
              arith,
              pushed a,
              mem-append_eq a seen (x ∷ []),
              sound a,
              P-step x a (sound x (ground (arith, beq_refl x))),
            ))
            (λ a b s t. ground (
              arith,
              pushed b,
              mem-append_eq a seen (x ∷ []),
              mem-append_eq b seen (x ∷ []),
              closed a b,
              e.beq_iff a x,
            )) in
        record {
          all = r.all;
          ends = rw (new, visit_all) r.ends;
          sound = r.sound;
          closed = r.closed;
          holds = λ a m.
              r.holds a (ground (arith, pushed a, mem-append_eq a seen (x ∷ []), e.beq_iff a x));
        }
  ]

module _ {ℓ} {A : Type ℓ} ⦃e : Eq A⦄ where
  -- From one root the search returns exactly the nodes with a walk from it.
  pub Reach-closed :
      (g : Graph A) (all : List A)
      → ((a b : A) → mem a all ≡ true → mem b (targets g a) ≡ true → mem b all ≡ true)
      → (x y : A) → mem x all ≡ true
      → Reach g x y
      → mem y all ≡ true
  Reach-closed g all closed x y m here = m
  Reach-closed g all closed x y m (step {y = w} r t) =
      closed w y (Reach-closed g all closed x w m r) t
