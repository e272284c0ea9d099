-- ===== src/Alias/Growth.antt =====
-- The table of `analyze` only grows.
use misra_c_agent.Base.{
  ℕ, zero, suc, String, true, List, [], ◌∷◌, ◌≡◌, arith, ◌==◌, string_eq, mem, mem-add, add,
  Bool-cases, Option-cases, inl, inr, beq_refl, subst, sym,
}
use misra_c_agent.Base.Tables.{get, get-insert, IsWithin, insert-IsWithin}
use misra_c_agent.Ast.{Node, AstGraph}
use misra_c_agent.Alias.{Pointee, pointee_eq, PointsToTable, add_pointee, add_pointees, resolve_rhs}
use misra_c_agent.Alias.Analysis.{value_given, handle_node, pass, passes, same_table}

pub IsWithin-trans : (r s t : PointsToTable) → IsWithin r s → IsWithin s t → IsWithin r t
unfolding IsWithin
IsWithin-trans r s t h k n x m = k n x (h n x m)

IsWithin-refl : (t : PointsToTable) → IsWithin t t
unfolding IsWithin
IsWithin-refl t n x m = m

pub add_pointee-IsWithin :
    (name : String) (p : Pointee) (t : PointsToTable) → IsWithin t (add_pointee name p t)
unfolding add_pointee
add_pointee-IsWithin name p t =
    insert-IsWithin name (add p (get t name)) t (λ x m. ground (arith, mem-add x p (get t name), m))

pub add_pointees-IsWithin :
    (name : String) (ps : List Pointee) (t : PointsToTable) → IsWithin t (add_pointees name ps t)
unfolding add_pointees
add_pointees-IsWithin name [] t = IsWithin-refl t
add_pointees-IsWithin name (p ∷ ps) t =
    IsWithin-trans t (add_pointee name p t) (add_pointees name ps (add_pointee name p t))
      (add_pointee-IsWithin name p t) (add_pointees-IsWithin name ps (add_pointee name p t))

mem-add_pointee :
    (name : String) (p : Pointee) (t : PointsToTable)
    → mem p (get (add_pointee name p t) name) ≡ true
unfolding add_pointee
mem-add_pointee name p t = ground (
  arith,
  get-insert name name (add p (get t name)) t,
  beq_refl name,
  mem-add p p (get t name),
  beq_refl p,
)

-- A pointee that is added is there.
pub mem-add_pointees :
    (name : String) (q : Pointee) (ps : List Pointee) (t : PointsToTable)
    → mem q ps ≡ true
    → mem q (get (add_pointees name ps t) name) ≡ true
unfolding add_pointees IsWithin
mem-add_pointees name q [] t m = cc
mem-add_pointees name q (p ∷ ps) t m = elim (Bool-cases (q == p)) [
  | inl y ↦ add_pointees-IsWithin name ps (add_pointee name p t) name q (
      subst (λ z. mem z (get (add_pointee name p t) name) ≡ true)
        (sym ((pointee_eq.beq_iff q p).0 y)) (mem-add_pointee name p t))
  | inr n ↦ mem-add_pointees name q ps (add_pointee name p t) (ground (arith, m, n))
]

-- No step takes a pointee away.
pub handle_node-IsWithin :
    (graph : AstGraph) (node : Node) (t : PointsToTable) → IsWithin t (handle_node graph node t)
unfolding handle_node
handle_node-IsWithin graph node t = elim (Option-cases (value_given node graph)) [
  | inl e ↦ rw (e, handle_node) (IsWithin-refl t)
  | inr ((name, rhs), e) ↦
      rw (e, handle_node) (add_pointees-IsWithin name (resolve_rhs rhs graph t) t)
]

pub pass-IsWithin :
    (graph : AstGraph) (nodes : List Node) (t : PointsToTable) → IsWithin t (pass graph nodes t)
unfolding pass
pass-IsWithin graph [] t = IsWithin-refl t
pass-IsWithin graph (node ∷ nodes) t =
    IsWithin-trans t (handle_node graph node t) (pass graph nodes (handle_node graph node t))
      (handle_node-IsWithin graph node t) (pass-IsWithin graph nodes (handle_node graph node t))

pub passes-IsWithin :
    (rounds : ℕ) (graph : AstGraph) (nodes : List Node) (t : PointsToTable)
    → IsWithin t (passes rounds graph nodes t)
unfolding passes
passes-IsWithin zero graph nodes t = IsWithin-refl t
passes-IsWithin (suc rounds) graph nodes t =
    let after = pass graph nodes t in
    let grown = pass-IsWithin graph nodes t in
    elim (Bool-cases (same_table t after)) [
      | inl y ↦ rw (y, passes) grown
      | inr n ↦
          rw (n, passes)
            (IsWithin-trans t after (passes rounds graph nodes after) grown
              (passes-IsWithin rounds graph nodes after))
    ]
