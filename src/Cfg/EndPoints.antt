-- ===== src/Cfg/EndPoints.antt =====
-- Every edge of a graph that `CFGEngine.build` returns joins two of its blocks.
use misra_c_agent.Base.{
  ℕ, zero, suc, String, Bool, true, false, List, [], ◌∷◌, ◌≡◌, refl, sym, subst, ◌==◌, ◌&&◌, not,
  mem, Option, some, Dict, lookup, keys, mem-head, mem-keys-delete, delete, length, Bool-cases,
  Option-cases, inl, inr, All, All-mono, string_eq,
}
use misra_c_agent.Base.Search.{targets}
use misra_c_agent.Ast.{Node, AstGraph}
use misra_c_agent.Cfg.{
  BlockId, entry_id, exit_id, block_id_eq, block_id_beq_iff, BasicBlock, CfgEdge, ControlFlowGraph,
  pairs, successors, predecessors,
}
use misra_c_agent.Cfg.Builder.{Builder, cfg_of, add_edge, tail_of, add_labelled_edge}
use misra_c_agent.Cfg.WellFormed.{
  Has, JoinsBlocks, IsWellFormed, Extends, Extends-refl, Extends-trans, add_edge-Extends,
  add_labelled_edge-Extends, tail_of-Has,
}
use misra_c_agent.Cfg.Build.{build_block_sequence}
use misra_c_agent.Cfg.Sequences.{build_block_sequence-ExtendsWith}
use misra_c_agent.Cfg.Finish.{
  body_statements, empty_builder, wire_implicit_return, wire_gotos, retarget, collapse,
  pass_through, prune_pass, prune, prune_empty_pass_through_blocks, wire_body_statements, build,
  is_nil,
}
use misra_c_agent.Cfg.Prune.{prune_empty_pass_through_blocks_sound}
use misra_c_agent.Cfg.Collapse.{Collapsible, pass_through-Collapsible}

abbrev pub AllJoin : ControlFlowGraph → Type 0
AllJoin cfg = All (JoinsBlocks cfg.blocks) cfg.edges

target-Has :
    (blocks : Dict BlockId BasicBlock) (edges : List CfgEdge) (y z : BlockId)
    → All (JoinsBlocks blocks) edges
    → mem z (targets (pairs edges) y) ≡ true
    → Has blocks z
target-Has blocks [] y z all m = cc
target-Has blocks (edge ∷ edges) y z all m = elim (Bool-cases (edge.source == y)) [
  | inl p ↦ elim (Bool-cases (z == edge.target)) [
    | inl q ↦ subst (Has blocks) (sym ((block_id_beq_iff z edge.target).0 q)) all.0.1
    | inr q ↦ target-Has blocks edges y z all.1 (simp (p, q) at m)
  ]
  | inr p ↦ target-Has blocks edges y z all.1 (rw p at m)
]

stays :
    (v y : BlockId) (blocks : Dict BlockId BasicBlock)
    → Has blocks y
    → (y == v) ≡ false
    → Has (delete v blocks) y
stays v y blocks h n = rw (mem-keys-delete v y blocks, h, n)

retarget-All :
    (v t : BlockId) (blocks : Dict BlockId BasicBlock) (edges : List CfgEdge)
    → Has blocks t
    → (t == v) ≡ false
    → All (JoinsBlocks blocks) edges
    → All (JoinsBlocks (delete v blocks)) (retarget v t edges)
unfolding retarget
retarget-All v t blocks [] ht n all = tt
retarget-All v t blocks (edge ∷ edges) ht n all =
    let rest = retarget-All v t blocks edges ht n all.1 in
    elim (Bool-cases (edge.source == v)) [
      | inl p ↦ rw p rest
      | inr p ↦ elim (Bool-cases (edge.target == v)) [
        | inl q ↦ rw (p, q) ((stays v edge.source blocks all.0.0 p, stays v t blocks ht n), rest)
        | inr q ↦
            rw (p, q)
              ((stays v edge.source blocks all.0.0 p, stays v edge.target blocks all.0.1 q), rest)
      ]
    ]

collapse-AllJoin :
    (cfg : ControlFlowGraph) (v t : BlockId)
    → Collapsible cfg v t
    → AllJoin cfg
    → AllJoin (collapse v t cfg)
unfolding collapse
collapse-AllJoin cfg v t c all =
    retarget-All v t cfg.blocks cfg.edges
      (target-Has cfg.blocks cfg.edges v t all (rw c.sole (mem-head t []))) c.other all

prune_pass-AllJoin :
    (ids : List BlockId) (cfg : ControlFlowGraph) (changed : Bool)
    → AllJoin cfg
    → AllJoin (prune_pass ids cfg changed).0
unfolding prune_pass
prune_pass-AllJoin [] cfg changed all = all
prune_pass-AllJoin (v ∷ ids) cfg changed all = elim (Option-cases (pass_through cfg v)) [
  | inl e ↦ rw (e, prune_pass) (prune_pass-AllJoin ids cfg changed all)
  | inr (t, e) ↦
      rw (e, prune_pass)
        (prune_pass-AllJoin ids (collapse v t cfg) true
          (collapse-AllJoin cfg v t (pass_through-Collapsible cfg v t e) all))
]

prune-AllJoin :
    (fuel : ℕ) (cfg cfg' : ControlFlowGraph)
    → prune fuel cfg ≡ some cfg'
    → AllJoin cfg
    → AllJoin cfg'
unfolding prune
prune-AllJoin zero cfg cfg' e all = cc
prune-AllJoin (suc fuel) cfg cfg' e all =
    let (cfg1, changed) = prune_pass (keys cfg.blocks) cfg false in
    let all1 = prune_pass-AllJoin (keys cfg.blocks) cfg false all in
    elim (Bool-cases changed) [
      | inl c ↦ prune-AllJoin fuel cfg1 cfg' (rw (c, prune) at e) all1
      | inr c ↦
          let e' : some cfg1 ≡ some cfg' = rw (c, prune) at e in
          let same : cfg1 ≡ cfg' = cc in subst AllJoin same all1
    ]

empty-IsWellFormed : (id : String) → IsWellFormed (empty_builder id)
unfolding empty_builder
empty-IsWellFormed id = record {
  entry = refl;
  exit = refl;
  edges = tt;
  labels = λ name x h. cc;
  gotos = tt;
  tails = λ x y h. cc;
}

wire_implicit_return-Extends :
    (x : BlockId) (s : Builder)
    → IsWellFormed s
    → Has s.blocks x
    → Extends s (wire_implicit_return x s)
unfolding wire_implicit_return
wire_implicit_return-Extends x s w h =
    let tail = tail_of x s in
    elim (Bool-cases
      (is_nil (successors (cfg_of s) tail) && not (is_nil (predecessors (cfg_of s) tail)))) [
        | inl p ↦
            rw p (add_edge-Extends tail exit_id "implicit_return" s w (tail_of-Has x s w h) w.exit)
        | inr p ↦ rw p (Extends-refl w)
      ]

wire_gotos-Extends :
    (gotos : List (BlockId × String)) (s : Builder)
    → IsWellFormed s
    → All (λ g. Has s.blocks g.0) gotos
    → Extends s (wire_gotos gotos s)
unfolding wire_gotos
wire_gotos-Extends [] s w h = Extends-refl w
wire_gotos-Extends ((x, name) ∷ gotos) s w h =
    let step = λ (y : BlockId) (hy : Has s.blocks y).
      let s1 = add_labelled_edge x y "goto" (some name) s in
      let e = add_labelled_edge-Extends x y "goto" (some name) s w h.0 hy in
      Extends-trans e
        (wire_gotos-Extends gotos s1 e.wf (All-mono gotos (λ g k. e.grows g.0 k) h.1)) in
    elim (Option-cases (lookup name s.label_targets)) [
      | inl e ↦ rw (e, wire_gotos) (step exit_id w.exit)
      | inr (y, e) ↦ rw (e, wire_gotos) (step y (w.labels name y e))
    ]

wired-IsWellFormed :
    (fuel : ℕ) (graph : AstGraph) (function_node : Node) (statements : List Node)
    → IsWellFormed (wire_body_statements fuel graph function_node statements)
unfolding wire_body_statements
wired-IsWellFormed fuel graph function_node statements =
    let s0 = empty_builder function_node.node_id in
    let w0 = empty-IsWellFormed function_node.node_id in
    let (x, s) = build_block_sequence fuel graph exit_id [] statements s0 in
    let r = build_block_sequence-ExtendsWith fuel graph [] statements s0 w0 tt in
    let e1 = add_edge-Extends entry_id x "fallthrough" s r.ext.wf r.ext.wf.entry r.found in
    let s1 = add_edge entry_id x "fallthrough" s in
    let e2 = wire_implicit_return-Extends x s1 e1.wf (e1.grows x r.found) in
    let s2 = wire_implicit_return x s1 in
    (wire_gotos-Extends s2.pending_gotos s2 e2.wf e2.wf.gotos).wf

-- A graph with `AllJoin` is the result.
abbrev BuiltJoined : Option ControlFlowGraph → Type 0
BuiltJoined result = (cfg : ControlFlowGraph) × (result ≡ some cfg) × AllJoin cfg

pruned_joined :
    (cfg : ControlFlowGraph) → AllJoin cfg → BuiltJoined (prune_empty_pass_through_blocks cfg)
unfolding prune_empty_pass_through_blocks
pruned_joined cfg all =
    let (cfg', e, q) = prune_empty_pass_through_blocks_sound cfg in
    (cfg', e, prune-AllJoin (suc (length cfg.blocks)) cfg cfg' e all)

-- `build` returns a graph for every AST, function node and fuel, and each edge of that graph joins
-- two of its blocks.
pub build_joins :
    (fuel : ℕ) (graph : AstGraph) (function_node : Node)
    → (cfg : ControlFlowGraph) × (build fuel graph function_node ≡ some cfg) × AllJoin cfg
unfolding build
build_joins fuel graph function_node = go (body_statements graph function_node)
  where
    go :
        (statements : List Node)
        → BuiltJoined (elim statements as (λ _. Option ControlFlowGraph) [
          | [] ↦ some (
              cfg_of
                (add_edge entry_id exit_id "fallthrough" (empty_builder function_node.node_id)))
          | first ∷ rest ↦
              prune_empty_pass_through_blocks
                (cfg_of (wire_body_statements fuel graph function_node (first ∷ rest)))
        ])
    go [] =
        let w = empty-IsWellFormed function_node.node_id in
        (
          _,
          refl,
          (add_edge-Extends entry_id exit_id "fallthrough" (empty_builder function_node.node_id) w
              w.entry w.exit).wf.edges,
        )
    go (first ∷ rest) =
        pruned_joined (cfg_of (wire_body_statements fuel graph function_node (first ∷ rest)))
          (wired-IsWellFormed fuel graph function_node (first ∷ rest)).edges
