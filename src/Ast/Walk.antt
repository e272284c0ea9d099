-- ===== src/Ast/Walk.antt =====
-- `descendants` of ast_graph.py against the recursive walk over a tree.
use misra_c_agent.Base.{
  ℕ, zero, suc, ◌≤◌, ◌<◌, String, List, [], ◌∷◌, ◌++◌, ◌≡◌, refl, sym, ap, ◌∙◌, subst, arith,
  reverse, reverse-append, length, All, All-append, All-mono, flat_map, flat_map-append,
  append_assoc, stack_push,
}
use misra_c_agent.Cfg.Fuel.{IsRanked}
use misra_c_agent.Ast.{Node, AstGraph, children, descend, descendants}

-- A node, and behind it the walks of its children, the last child first.
unfoldable pub walk : ℕ → AstGraph → Node → List Node
unfolding children
walk zero graph node = []
walk (suc depth) graph node =
    node ∷ flat_map (walk depth graph) (reverse (children graph node.node_id))

stack_push_lem : (new work : List Node) → stack_push new work ≡ reverse new ++ work
stack_push_lem [] work = refl
stack_push_lem (node ∷ new) work =
    stack_push_lem new (node ∷ work)
    ∙ sym (
        ap (λ l. l ++ work) (reverse-append (node ∷ []) new)
        ∙ append_assoc (reverse new) (node ∷ []) work)

reverse-All : (P : Node → Type 0) (xs : List Node) → All P xs → All P (reverse xs)
reverse-All P [] h = tt
reverse-All P (x ∷ xs) h =
    subst (λ l. All P l) (sym (reverse-append (x ∷ []) xs))
      (All-append P (reverse xs) (x ∷ []) (reverse-All P xs h.1) (h.0, tt))

flat_map-same :
    (f g : Node → List Node) (nodes : List Node)
    → All (λ node. f node ≡ g node) nodes
    → flat_map f nodes ≡ flat_map g nodes
flat_map-same f g [] h = refl
flat_map-same f g (node ∷ nodes) h = rw (h.0, flat_map-same f g nodes h.1) refl

module _ (graph : AstGraph) (rank : String → ℕ) (ranked : IsRanked graph rank) where
  -- Nodes that rank below a depth.
  abbrev AreBelow : ℕ → List Node → Type 0
  AreBelow depth nodes = All (λ (node : Node). rank node.node_id < depth) nodes

  children-AreBelow :
      (depth : ℕ) (node : Node)
      → rank node.node_id < suc depth
      → AreBelow depth (reverse (children graph node.node_id))
  children-AreBelow depth node lt =
      reverse-All (λ (n : Node). rank n.node_id < depth) (children graph node.node_id)
        (All-mono (children graph node.node_id) (λ (n : Node) below. omega (arith, below, lt))
          (ranked node.node_id))

  -- One depth more changes nothing.
  walk-suc :
      (depth : ℕ) (node : Node)
      → rank node.node_id < depth
      → walk (suc depth) graph node ≡ walk depth graph node
  unfolding walk
  walk-suc zero node lt = absurd (omega (arith, lt))
  walk-suc (suc depth) node lt =
      let kids = reverse (children graph node.node_id) in
      ap (λ l. node ∷ l)
        (flat_map-same (walk (suc depth) graph) (walk depth graph) kids
          (All-mono kids (λ n below. walk-suc depth n below) (children-AreBelow depth node lt)))

  -- The loop does the walks of its stack.
  descend-walk :
      (depth fuel : ℕ) (stack : List Node)
      → AreBelow (suc depth) stack
      → length (flat_map (walk (suc depth) graph) stack) ≤ fuel
      → descend fuel graph stack ≡ flat_map (walk (suc depth) graph) stack
  unfolding descend walk
  descend-walk depth zero [] below enough = refl
  descend-walk depth (suc fuel) [] below enough = refl
  descend-walk depth zero (node ∷ stack) below enough = absurd (omega (arith, enough))
  descend-walk depth (suc fuel) (node ∷ stack) below enough =
      let kids = reverse (children graph node.node_id) in
      let kids_below = children-AreBelow depth node below.0 in
      let pushed : stack_push (children graph node.node_id) stack ≡ kids ++ stack =
        stack_push_lem (children graph node.node_id) stack in
      let walks : flat_map (walk (suc depth) graph) (kids ++ stack)
          ≡ flat_map (walk depth graph) kids ++ flat_map (walk (suc depth) graph) stack =
        flat_map-append (walk (suc depth) graph) kids stack
        ∙ ap (λ l. l ++ flat_map (walk (suc depth) graph) stack)
            (flat_map-same (walk (suc depth) graph) (walk depth graph) kids
              (All-mono kids (λ n lt. walk-suc depth n lt) kids_below)) in
      let all_below : AreBelow (suc depth) (kids ++ stack) =
        All-append (λ (n : Node). rank n.node_id < suc depth) kids stack
          (All-mono kids (λ n lt. omega (arith, lt)) kids_below) below.1 in
      let left : length (flat_map (walk (suc depth) graph) (kids ++ stack)) ≤ fuel =
        subst (λ l. length l ≤ fuel) (sym walks) (omega (arith, enough)) in
      ap (λ l. node ∷ l)
        (ap (descend fuel graph) pushed
          ∙ descend-walk depth fuel (kids ++ stack) all_below left
          ∙ walks)

  -- On a tree, with fuel for every node below it, `descendants` gives the recursive walk over the children of a
  -- node: each of them in front of its descendants, the last child first.
  pub descendants-walk :
      (node_id : String) (fuel : ℕ)
      → length (flat_map (walk (rank node_id) graph) (reverse (children graph node_id))) ≤ fuel
      → descendants fuel graph node_id
        ≡ flat_map (walk (rank node_id) graph) (reverse (children graph node_id))
  unfolding descendants
  descendants-walk node_id fuel enough =
      let kids = reverse (children graph node_id) in
      let below : AreBelow (rank node_id) kids =
        reverse-All (λ (n : Node). rank n.node_id < rank node_id) (children graph node_id)
          (ranked node_id) in
      let same : flat_map (walk (suc (rank node_id)) graph) kids
          ≡ flat_map (walk (rank node_id) graph) kids =
        flat_map-same (walk (suc (rank node_id)) graph) (walk (rank node_id) graph) kids
          (All-mono kids (λ n lt. walk-suc (rank node_id) n lt) below) in
      descend-walk (rank node_id) fuel kids
        (All-mono kids (λ (n : Node) lt. omega (arith, lt)) below)
        (subst (λ l. length l ≤ fuel) (sym same) enough)
      ∙ same
