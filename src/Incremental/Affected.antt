-- ===== src/Incremental/Affected.antt =====
-- The translation units that are analysed again are exactly those that a change reaches.
use misra_c_agent.Base.{
  suc, ◌+◌, ◌≡◌, refl, ◌↔◌, String, Bool, true, false, some, List, [], ◌∷◌, ◌++◌, ◌||◌, ◌&&◌, arith,
  mem, string_eq, mem-filter_by, length, filter_by, ◌==◌,
}
use misra_c_agent.Base.Search.{
  Graph, targets, open_edges, visit_all, visit_all_lem, Explored, queue_push, queue_push-IsPush,
}
use misra_c_agent.Incremental.{
  add_reverse, reverse_includes, reverse_graph, compute_affected_translation_units,
}

-- Whether the include graph says that `source` includes `file`.
abbrev pub includes : List (String × List String) → String → String → Bool
includes [] source file = false
includes ((s, files) ∷ rest) source file =
    (s == source && mem file files) || includes rest source file

-- `file` is the changed file, or includes one that depends on it.
pub data Depends (graph : List (String × List String)) (changed : String) : String → Type 0 where
  itself : Depends graph changed changed
  through :
      {file source : String}
      → Depends graph changed file
      → includes graph source file ≡ true
      → Depends graph changed source

mem-targets-concat :
    (g : Graph String) (i s x y : String)
    → mem y (targets (g ++ (i, s) ∷ []) x) ≡ (mem y (targets g x) || (i == x && y == s))
mem-targets-concat [] i s x y = ground arith
mem-targets-concat ((a, c) ∷ g) i s x y = ground (arith, mem-targets-concat g i s x y)

add_reverse_edges :
    (g : Graph String) (i s x y : String)
    → mem y (targets (add_reverse i s g) x) ≡ (mem y (targets g x) || (i == x && y == s))
unfolding add_reverse
add_reverse_edges g i s x y =
    ground (arith, mem-targets-concat g i s x y, string_eq.beq_iff i x, string_eq.beq_iff y s)

reverse_includes_edges :
    (s : String) (files : List String) (g : Graph String) (x y : String)
    → mem y (targets (reverse_includes s files g) x)
      ≡ (mem y (targets g x) || (s == y && mem x files))
unfolding reverse_includes
reverse_includes_edges s [] g x y = ground arith
reverse_includes_edges s (i ∷ files) g x y = ground (
  arith,
  reverse_includes_edges s files (add_reverse i s g) x y,
  add_reverse_edges g i s x y,
  string_eq.beq_iff i x,
  string_eq.beq_iff x i,
  string_eq.beq_iff y s,
  string_eq.beq_iff s y,
)

reverse_graph_edges :
    (graph : List (String × List String)) (g : Graph String) (x y : String)
    → mem y (targets (reverse_graph graph g) x) ≡ (mem y (targets g x) || includes graph y x)
unfolding reverse_graph
reverse_graph_edges [] g x y = ground arith
reverse_graph_edges ((s, files) ∷ rest) g x y = ground (
  arith,
  reverse_graph_edges rest (reverse_includes s files g) x y,
  reverse_includes_edges s files g x y,
)

-- A file that depends on one of the changed files.
abbrev pub DependsOnChange : List String → List (String × List String) → String → Type 0
DependsOnChange changed graph file = (c : String) × (mem c changed ≡ true) × Depends graph c file

DependsOnChange-step :
    (changed : List String) (graph : List (String × List String)) (x y : String)
    → DependsOnChange changed graph x
    → mem y (targets (reverse_graph graph []) x) ≡ true
    → DependsOnChange changed graph y
DependsOnChange-step changed graph x y (c, m, d) t =
    (c, m, Depends.through d (ground (arith, t, reverse_graph_edges graph [] x y)))

open_edges-nil : (g : Graph String) → open_edges g [] ≡ length g
open_edges-nil [] = refl
open_edges-nil ((s, t) ∷ g) = omega (arith, open_edges-nil g)

explored :
    (changed : List String) (graph : List (String × List String))
    → (let reverse = reverse_graph graph [] in
        Explored
          (DependsOnChange changed graph)
          reverse
          changed
          []
          (visit_all queue_push (suc (length changed + length reverse)) reverse changed []))
explored changed graph =
    let reverse = reverse_graph graph [] in
    visit_all_lem (DependsOnChange changed graph) reverse (DependsOnChange-step changed graph)
      queue_push-IsPush (suc (length changed + length reverse)) changed []
      (omega (arith, open_edges-nil reverse)) (λ a m. (a, ground (arith, m), Depends.itself))
      (λ a b m. cc)

Depends-closed :
    (graph : List (String × List String)) (all : List String) (c x : String)
    → ((a b : String)
        → mem a all ≡ true
        → mem b (targets (reverse_graph graph []) a) ≡ true
        → mem b all ≡ true)
    → mem c all ≡ true
    → Depends graph c x
    → mem x all ≡ true
Depends-closed graph all c x closed m itself = m
Depends-closed graph all c x closed m (through {file = f} d i) =
    closed f x (Depends-closed graph all c f closed m d)
      (ground (arith, i, reverse_graph_edges graph [] f x))

-- The search ends, and a translation unit is in its result exactly when it is one of the units and
-- depends on a changed file.
pub compute_affected_exact :
    (changed : List String) (graph : List (String × List String)) (units : List String)
    → (affected : List String) × (compute_affected_translation_units changed graph units
        ≡ some affected)
      × ((x : String)
          → (mem x affected ≡ true) ↔ ((mem x units ≡ true) × DependsOnChange changed graph x))
unfolding compute_affected_translation_units
compute_affected_exact changed graph units =
    let r = explored changed graph in
    (
      filter_by (λ file. mem file units) r.all,
      rw (r.ends, compute_affected_translation_units) refl,
      λ x. (
        λ m.
            let both : (mem x r.all && mem x units) ≡ true =
              rw (mem-filter_by (λ file. mem file units) x r.all) at m in
            (ground (arith, both), r.sound x (ground (arith, both))),
        λ (u, (c, m, d)).
            let found : mem x r.all ≡ true =
              Depends-closed graph r.all c x r.closed (r.holds c (ground (arith, m))) d in
            rw (mem-filter_by (λ file. mem file units) x r.all) (ground (arith, found, u)),
      ),
    )
