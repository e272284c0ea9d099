-- ===== src/DataFlow/Lifetimes.antt =====
-- The lines of a lifetime.
use misra_c_agent.Base.{
  ℕ, Bool, true, false, some, List, [], ◌∷◌, ◌==◌, not, ◌≡◌, refl, ◌∙◌, arith, string_eq, All,
  All-append, Bool-cases, inl, inr, Option-cases, ◌||◌, ◌⊎◌, all_of, any_of, filter_by, ltb,
  get_elem?, if◌then◌else◌,
}
use misra_c_agent.Ast.{Node, AstGraph, get_node, children, descendants, name_of}
use misra_c_agent.DataFlow.Ordered.{All-members}
use misra_c_agent.DataFlow.Facts.{
  LifetimeRange, max_line_end, last_line_of, lifetime_of, lifetimes_of, variable_lifetime_ranges,
  escapes_lifetime,
}

abbrev ranged : List Node → List Node
ranged nodes = filter_by (λ (node : Node). node.has_source_range) nodes

-- Each of the nodes that has a source range ends in front of the line, or no node has one and the declaration does.
abbrev pub all_end_before : List Node → ℕ → ℕ → Bool
all_end_before nodes decl_line line =
    if any_of (λ (node : Node). node.has_source_range) nodes
    then all_of (λ (node : Node). not node.has_source_range || ltb node.source_range.line_end line)
        nodes
    else ltb decl_line line

max_line_end_lem :
    (node : Node) (nodes : List Node) (decl_line line : ℕ)
    → ltb (max_line_end (node ∷ nodes) decl_line) line
      ≡ all_of (λ (n : Node). ltb n.source_range.line_end line) (node ∷ nodes)
unfolding max_line_end
max_line_end_lem node [] decl_line line = ground arith
max_line_end_lem node (next ∷ nodes) decl_line line =
    ground (arith, max_line_end_lem next nodes decl_line line)

all_of-ranged :
    (nodes : List Node) (line : ℕ)
    → all_of (λ (n : Node). ltb n.source_range.line_end line) (ranged nodes)
      ≡ all_of (λ (n : Node). not n.has_source_range || ltb n.source_range.line_end line) nodes
all_of-ranged [] line = refl
all_of-ranged (node ∷ nodes) line = elim (Bool-cases node.has_source_range) [
  | inl y ↦ rw (y, all_of-ranged nodes line) refl
  | inr n ↦ rw (n, all_of-ranged nodes line) refl
]

any_of-ranged :
    (nodes : List Node)
    → ((ranged nodes ≡ []) × (any_of (λ (n : Node). n.has_source_range) nodes ≡ false))
      ⊎ ((node : Node) × (rest : List Node) × (ranged nodes ≡ node ∷ rest)
          × (any_of (λ (n : Node). n.has_source_range) nodes ≡ true))
any_of-ranged [] = inl (refl, refl)
any_of-ranged (node ∷ nodes) = elim (Bool-cases node.has_source_range) [
  | inl y ↦ inr (node, ranged nodes, rw (y) refl, rw (y) refl)
  | inr n ↦ elim (any_of-ranged nodes) [
    | inl (e, h) ↦ inl (rw (n, e) refl, rw (n, h) refl)
    | inr (first, rest, e, h) ↦ inr (first, rest, rw (n, e) refl, rw (n, h) refl)
  ]
]

last_line_of_lem :
    (nodes : List Node) (decl_line line : ℕ)
    → ltb (last_line_of nodes decl_line) line ≡ all_end_before nodes decl_line line
unfolding last_line_of max_line_end
last_line_of_lem nodes decl_line line = elim (any_of-ranged nodes) [
  | inl (e, h) ↦ rw (e, h, last_line_of, max_line_end) refl
  | inr (node, rest, e, h) ↦ rw (h) (
      rw (e, last_line_of) (max_line_end_lem node rest decl_line line)
      ∙ rw e at (all_of-ranged nodes line))
]

-- The range is that of a named variable declaration of the list, from its line on; its scope is the parent node of the
-- declaration, and a use escapes it exactly if it starts behind all of the parent's children.
abbrev pub IsExact : AstGraph → List Node → LifetimeRange → Type 0
IsExact graph nodes lifetime =
    (i : ℕ) × (var_decl : Node) × (parent : Node) × (get_elem? nodes i ≡ some var_decl)
    × (var_decl.node_kind ≡ "VarDecl")
    × ((lifetime.variable == "") ≡ false)
    × (lifetime.variable ≡ name_of var_decl)
    × (lifetime.decl_node_id ≡ var_decl.node_id)
    × (get_node graph var_decl.parent_id ≡ some parent)
    × (lifetime.scope_node_id ≡ parent.node_id)
    × (lifetime.first_line ≡ var_decl.source_range.line_start)
    × ((use_node : Node)
        → escapes_lifetime lifetime use_node
          ≡ all_end_before (children graph parent.node_id) lifetime.first_line
              use_node.source_range.line_start)

lifetime_of-IsExact :
    (graph : AstGraph) (nodes : List Node) (node : Node) (i : ℕ)
    → get_elem? nodes i ≡ some node
    → All (IsExact graph nodes) (lifetime_of graph node)
unfolding lifetime_of escapes_lifetime
lifetime_of-IsExact graph nodes node i at =
    elim (Bool-cases (not (node.node_kind == "VarDecl") || name_of node == "")) [
      | inl y ↦ rw (y, lifetime_of) tt
      | inr n ↦ elim (Option-cases (get_node graph node.parent_id)) [
        | inl e ↦ rw (n, e, lifetime_of) tt
        | inr (parent, e) ↦
            rw (n, e, lifetime_of)
              (
                (
                  i,
                  node,
                  parent,
                  at,
                  (string_eq.beq_iff node.node_kind "VarDecl").0 (ground (arith, n)),
                  ground (arith, n),
                  refl,
                  refl,
                  e,
                  refl,
                  refl,
                  λ use_node.
                      last_line_of_lem (children graph parent.node_id) node.source_range.line_start
                        use_node.source_range.line_start,
                ),
                tt,
              )
      ]
    ]

lifetimes_of-IsExact :
    (graph : AstGraph) (all nodes : List Node)
    → All (λ node. (i : ℕ) × (get_elem? all i ≡ some node)) nodes
    → All (IsExact graph all) (lifetimes_of graph nodes)
unfolding lifetimes_of
lifetimes_of-IsExact graph all [] h = tt
lifetimes_of-IsExact graph all (node ∷ nodes) ((i, at), h) =
    All-append (IsExact graph all) (lifetime_of graph node) (lifetimes_of graph nodes)
      (lifetime_of-IsExact graph all node i at) (lifetimes_of-IsExact graph all nodes h)

-- Each lifetime range that is found is that of a named variable declaration in the function: it starts on the line of
-- the declaration, its scope is the declaration's parent node, and a use is an escape exactly if each child of the
-- parent that has a source range ends on a line before that of the use, or none has one and the
-- declaration starts on a line before that of the use.
pub variable_lifetime_ranges-IsExact :
    (fuel : ℕ) (function_node : Node) (graph : AstGraph)
    → All
        (IsExact graph (descendants fuel graph function_node.node_id))
        (variable_lifetime_ranges fuel function_node graph)
unfolding variable_lifetime_ranges
variable_lifetime_ranges-IsExact fuel function_node graph =
    let nodes = descendants fuel graph function_node.node_id in
    lifetimes_of-IsExact graph nodes nodes (All-members nodes)
