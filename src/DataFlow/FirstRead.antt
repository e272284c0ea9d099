-- ===== src/DataFlow/FirstRead.antt =====
-- What `uninitialized_read` of dataflow_engine.py reports.
use misra_c_agent.Base.{
  ℕ, true, false, none, some, List, [], ◌∷◌, ◌≡◌, refl, arith, ◌==◌, string_eq, filter_by, All,
  Bool-cases, inl, inr, sym, ◌∙◌, subst, nat_eq, get_elem?,
}
use mathlib.Core.Option.{some-injective}
use misra_c_agent.Ast.{Node, AstGraph, name_of, descendants}
use misra_c_agent.DataFlow.{at_most, linearize}
use misra_c_agent.DataFlow.Ordered.{
  IsOrdered, linearize-IsOrdered, linearize-All, filter_by-All, All-linearize, All-filter_by,
  All-members,
}
use misra_c_agent.DataFlow.Reaching.{has_initializer}
use misra_c_agent.DataFlow.Textual.{
  is_textual_write, first_read, is_reference_to, references, uninitialized_read,
}

at_most_refl : (node : Node) → at_most node node ≡ true
unfolding at_most
at_most_refl node = ground arith

-- The first of ordered nodes is at most all of them.
first_read_lem :
    (graph : AstGraph) (nodes : List Node) (read : Node)
    → IsOrdered nodes
    → first_read graph nodes ≡ some read
    → (is_textual_write read graph ≡ false) × All (λ node. at_most read node ≡ true) nodes
unfolding first_read IsOrdered
first_read_lem graph [] read ordered h = cc
first_read_lem graph (node ∷ nodes) read ordered h =
    elim (Bool-cases (is_textual_write node graph)) [
      | inl y ↦ ground (arith, h, y)
      | inr n ↦
          let taken : first_read graph (node ∷ nodes) ≡ some node = rw (n, first_read) refl in
          let same : some node ≡ some read = sym taken ∙ h in
          let first : (is_textual_write node graph ≡ false)
              × All (λ next. at_most node next ≡ true) (node ∷ nodes) =
            (n, (at_most_refl node, ordered.0)) in
          subst
            (λ r.
              (is_textual_write r graph ≡ false)
              × All (λ next. at_most r next ≡ true) (node ∷ nodes))
            (some-injective node read same) first
    ]

-- What holds of all nodes holds of the one that is read first.
All-first_read {κ} :
    (Q : Node → Type κ) (graph : AstGraph) (nodes : List Node) (read : Node)
    → All Q nodes
    → first_read graph nodes ≡ some read
    → Q read
unfolding first_read
All-first_read Q graph [] read all h = cc
All-first_read Q graph (node ∷ nodes) read all h = elim (Bool-cases (is_textual_write node graph)) [
  | inl y ↦ ground (arith, h, y)
  | inr n ↦
      let taken : first_read graph (node ∷ nodes) ≡ some node = rw (n, first_read) refl in
      subst Q (some-injective node read (sym taken ∙ h)) all.0
]

-- What `uninitialized_read` reports is a node of the function that refers to the variable and is not written there, the
-- declaration has no initializer, and no reference to the variable in the function stands before it.
pub uninitialized_read-first :
    (fuel : ℕ) (var_decl function_node : Node) (graph : AstGraph) (read : Node)
    → uninitialized_read fuel var_decl function_node graph ≡ some read
    → (has_initializer graph var_decl ≡ false)
      × (is_reference_to (name_of var_decl) read ≡ true)
      × ((i : ℕ) × (get_elem? (descendants fuel graph function_node.node_id) i ≡ some read))
      × (is_textual_write read graph ≡ false)
      × All
          (λ node. is_reference_to (name_of var_decl) node ≡ true → at_most read node ≡ true)
          (descendants fuel graph function_node.node_id)
unfolding uninitialized_read references
uninitialized_read-first fuel var_decl function_node graph read h =
    let nodes = descendants fuel graph function_node.node_id in
    let found = filter_by (is_reference_to (name_of var_decl)) nodes in
    elim (Bool-cases (has_initializer graph var_decl)) [
      | inl y ↦ ground (arith, h, y)
      | inr n ↦ elim (Bool-cases (name_of var_decl == "")) [
        | inl e ↦
            let nothing : uninitialized_read fuel var_decl function_node graph ≡ none =
              rw (uninitialized_read, n, references, e, first_read) refl in
            absurd (ground (arith, sym nothing ∙ h))
        | inr e ↦
            let taken : uninitialized_read fuel var_decl function_node graph
                ≡ first_read graph (linearize found) =
              rw (uninitialized_read, n, references, e) refl in
            let (reads, first) =
              first_read_lem graph (linearize found) read (linearize-IsOrdered found)
                (sym taken ∙ h) in
            let within =
              All-linearize _ found
                (All-filter_by _ (is_reference_to (name_of var_decl)) nodes (All-members nodes)) in
            let (refers, place) =
              All-first_read _ graph (linearize found) read within (sym taken ∙ h) in
            (
              n,
              refers,
              place,
              reads,
              filter_by-All (λ node. at_most read node ≡ true) (is_reference_to (name_of var_decl))
                  nodes (linearize-All (λ node. at_most read node ≡ true) found first),
            )
      ]
    ]
