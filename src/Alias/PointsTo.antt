-- ===== src/Alias/PointsTo.antt =====
-- What `analyze` has in its table at the end.
use misra_c_agent.Base.{
  ℕ, suc, String, Bool, true, false, some, List, [], ◌∷◌, ◌≡◌, arith, ◌==◌, ◌&&◌, not, string_eq,
  mem, filter_by, length, get_elem?, All, All-mono, Bool-cases, inl, inr, if◌then◌else◌, mem-head,
  sym, ap, ◌∙◌,
}
use misra_c_agent.Base.Tables.{get, IsWithin}
use misra_c_agent.Ast.{Node, AstGraph, name_of, children, descendants}
use misra_c_agent.DataFlow.{linearize}
use misra_c_agent.DataFlow.Ordered.{linearize-All, filter_by-All, All-get_elem?}
use misra_c_agent.Alias.{
  Pointee, pointee_eq, PointsToTable, definite, address_of, resolve_rhs, seed_pointer_parameters,
}
use misra_c_agent.Alias.Analysis.{
  value_given, handle_node, pass, passes, same_table, is_relevant, analyze,
}
use misra_c_agent.Alias.Queries.{may_alias}
use misra_c_agent.Alias.Aliases.{may_alias_exact}
use misra_c_agent.Alias.Growth.{mem-add_pointees, pass-IsWithin, passes-IsWithin}

-- The right side is the address of the variable, in view of its operands.
unfoldable pub takes_address : Node → List Node → String → Bool
takes_address rhs [] x = false
takes_address rhs (operand ∷ rest) x =
    (rhs.node_kind == "UnaryOperator" && rhs.semantic_properties.opcode == "&")
    && (operand.node_kind == "DeclRefExpr" && name_of operand == x && not (x == ""))

abbrev pub is_address : AstGraph → Node → String → Bool
is_address graph rhs x = takes_address rhs (children graph rhs.node_id) x

-- A pointee with the target.
abbrev PointsAt : List Pointee → String → Type 0
PointsAt pointees x = (p : Pointee) × (mem p pointees ≡ true) × (p.target ≡ x)

address_of-PointsAt :
    (rhs : Node) (operands : List Node) (x : String)
    → takes_address rhs operands x ≡ true
    → PointsAt (address_of operands) x
      × ((rhs.node_kind == "UnaryOperator" && rhs.semantic_properties.opcode == "&") ≡ true)
unfolding takes_address address_of
address_of-PointsAt rhs [] x h = cc
address_of-PointsAt rhs (operand ∷ rest) x h =
    let kind : String =
      if operand.semantic_properties.is_function then "function" else "variable" in
    let pointee : Pointee = record {
      target = name_of operand;
      kind = kind;
      confidence = definite;
    } in
    let named : name_of operand ≡ x =
      (string_eq.beq_iff (name_of operand) x).0 (ground (arith, h)) in
    let test : (operand.node_kind == "DeclRefExpr" && not (name_of operand == "")) ≡ true =
      ground (arith, h, ap (λ n. n == "") named) in
    (rw (test, address_of) (pointee, mem-head pointee [], named), ground (arith, h))

resolve_rhs-PointsAt :
    (graph : AstGraph) (rhs : Node) (x : String) (t : PointsToTable)
    → is_address graph rhs x ≡ true
    → PointsAt (resolve_rhs rhs graph t) x
unfolding resolve_rhs
resolve_rhs-PointsAt graph rhs x t h =
    let (points, test) = address_of-PointsAt rhs (children graph rhs.node_id) x h in
    rw (test, resolve_rhs) points

-- What a node that takes an address has done by the end of a pass.
abbrev HasTaken : AstGraph → PointsToTable → Node → Type 0
HasTaken graph t node =
    (name : String) (rhs : Node) (x : String)
    → value_given node graph ≡ some (name, rhs)
    → is_address graph rhs x ≡ true
    → PointsAt (get t name) x

HasTaken-IsWithin :
    (graph : AstGraph) (s t : PointsToTable) (node : Node)
    → IsWithin s t
    → HasTaken graph s node
    → HasTaken graph t node
unfolding IsWithin
HasTaken-IsWithin graph s t node within h name rhs x e a =
    let (p, m, same) = h name rhs x e a in (p, within name p m, same)

handle_node-HasTaken :
    (graph : AstGraph) (node : Node) (t : PointsToTable)
    → HasTaken graph (handle_node graph node t) node
unfolding handle_node
handle_node-HasTaken graph node t name rhs x e a =
    let (p, m, same) = resolve_rhs-PointsAt graph rhs x t a in
    rw (e, handle_node) (p, mem-add_pointees name p (resolve_rhs rhs graph t) t m, same)

pass-HasTaken :
    (graph : AstGraph) (nodes : List Node) (t : PointsToTable)
    → All (HasTaken graph (pass graph nodes t)) nodes
unfolding pass
pass-HasTaken graph [] t = tt
pass-HasTaken graph (node ∷ nodes) t =
    let s = handle_node graph node t in
    (
      HasTaken-IsWithin graph s (pass graph nodes s) node (pass-IsWithin graph nodes s)
          (handle_node-HasTaken graph node t),
      pass-HasTaken graph nodes s,
    )

passes-HasTaken :
    (rounds : ℕ) (graph : AstGraph) (nodes : List Node) (t : PointsToTable)
    → All (HasTaken graph (passes (suc rounds) graph nodes t)) nodes
unfolding passes
passes-HasTaken rounds graph nodes t =
    let after = pass graph nodes t in
    let taken = pass-HasTaken graph nodes t in
    elim (Bool-cases (same_table t after)) [
      | inl y ↦ rw (y, passes) taken
      | inr n ↦
          rw (n, passes)
            (All-mono nodes
              (λ node.
                HasTaken-IsWithin graph after (passes rounds graph nodes after) node
                  (passes-IsWithin rounds graph nodes after))
              taken)
    ]

module _ (fuel : ℕ) (function_node : Node) (graph : AstGraph) where
  -- Each address that a relevant node of the function takes is in the final table.
  analyze-HasTaken :
      All
        (λ node. is_relevant node ≡ true → HasTaken graph (analyze fuel function_node graph) node)
        (descendants fuel graph function_node.node_id)
  unfolding analyze
  analyze-HasTaken =
      let nodes = descendants fuel graph function_node.node_id in
      let relevant = linearize (filter_by is_relevant nodes) in
      let taken =
        passes-HasTaken (length relevant) graph relevant
          (seed_pointer_parameters (children graph function_node.node_id) []) in
      filter_by-All (HasTaken graph (analyze fuel function_node graph)) is_relevant nodes (
        linearize-All (HasTaken graph (analyze fuel function_node graph))
          (filter_by is_relevant nodes) taken)

  -- Where two declarations or assignments of a function give the address of the same variable to the pointers `p` and
  -- `q`, wherever they stand, `may_alias` says after `analyze` that `p` and `q` may be aliases.
  pub analyze-may_alias :
      (i j : ℕ) (node node' : Node) (p q : String) (rhs rhs' : Node) (x : String)
      → get_elem? (descendants fuel graph function_node.node_id) i ≡ some node
      → get_elem? (descendants fuel graph function_node.node_id) j ≡ some node'
      → is_relevant node ≡ true
      → is_relevant node' ≡ true
      → value_given node graph ≡ some (p, rhs)
      → value_given node' graph ≡ some (q, rhs')
      → is_address graph rhs x ≡ true
      → is_address graph rhs' x ≡ true
      → (may_alias (analyze fuel function_node graph) p q).0 ≡ true
  analyze-may_alias i j node node' p q rhs rhs' x at at' relevant relevant' given given' address
        address' =
      let table = analyze fuel function_node graph in
      let nodes = descendants fuel graph function_node.node_id in
      let Q = λ (n : Node). is_relevant n ≡ true → HasTaken graph table n in
      let (u, m, same) =
        All-get_elem? Q nodes i node analyze-HasTaken at relevant p rhs x given address in
      let (v, k, same') =
        All-get_elem? Q nodes j node' analyze-HasTaken at' relevant' q rhs' x given' address' in
      let equal = (string_eq.beq_iff u.target v.target).1 (same ∙ sym same') in
      (may_alias_exact table p q).1.1 (u, v, m, k, ground (arith, equal))
