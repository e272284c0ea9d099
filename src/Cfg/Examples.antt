-- ===== src/Cfg/Examples.antt =====
-- Small functions and graphs: tests of the builder, and the properties at them.
use misra_c_agent.Base.{
  ℕ, String, true, false, Option, none, some, List, [], ◌∷◌, ◌==◌, ◌≡◌, refl, subst, ◌↔◌, arith,
  string_eq, mem, length, All, Bool-cases, inl, inr, if◌then◌else◌, keys, ◌<◌, flat_map, reverse,
}
use misra_c_agent.Ast.{Node, AstGraph, new_graph, children, descendants}
use misra_c_agent.Ast.Walk.{walk, descendants-walk}
use misra_c_agent.Cfg.{
  BlockId, entry_id, exit_id, b, block_id_eq, CfgEdge, BasicBlock, ControlFlowGraph,
  reachable_blocks, unreachable_blocks,
}
use misra_c_agent.Cfg.Finish.{build, prune_empty_pass_through_blocks, pass_through}
use misra_c_agent.Cfg.Reachable.{IsReachable, reachable_blocks_exact}
use misra_c_agent.Cfg.Prune.{prune_empty_pass_through_blocks_sound}
use misra_c_agent.Cfg.EndPoints.{AllJoin, build_joins}
use misra_c_agent.Cfg.Fuel.{IsRanked, build-stable}

abbrev node : String → String → List String → Node
node id kind ids = record {
  node_id = id;
  node_kind = kind;
  parent_id = "";
  children_ids = ids;
  semantic_properties = record {
    name = none;
    opcode = "";
    callee = "";
    target_label = "";
    value = none;
    storage_class = none;
    is_function = false;
    pointer_name = "";
    invalidated_pointers = [];
    flags = [];
  };
  type_information = record {
    spelling = "";
    fundamental_kind = "";
    is_pointer = false;
    is_array = false;
    pointee_type = "";
  };
  source_range = record { line_start = 0; line_end = 0; column_start = 0 };
  has_source_range = true;
  essential_type = none;
}

-- `while (c) { break; s; }`, in a function `f`.
abbrev looping : List Node
looping =
    node "f" "FunctionDecl" ("body" ∷ [])
    ∷ node "body" "CompoundStmt" ("w" ∷ [])
    ∷ node "w" "WhileStmt" ("c" ∷ "block" ∷ [])
    ∷ node "c" "DeclRefExpr" []
    ∷ node "block" "CompoundStmt" ("out" ∷ "s" ∷ [])
    ∷ node "out" "BreakStmt" []
    ∷ node "s" "NullStmt" []
    ∷ []

abbrev loop_graph : AstGraph
unfolding new_graph
loop_graph = new_graph looping

abbrev loop_function : Node
loop_function = node "f" "FunctionDecl" ("body" ∷ [])

-- How many blocks of the built graph are unreachable code.
unfoldable unreachable_count : Option ControlFlowGraph → Option ℕ
unfolding unreachable_blocks
unreachable_count none = none
unreachable_count (some cfg) = elim (unreachable_blocks cfg) [
  | none ↦ none
  | some blocks ↦ some (length blocks)
]

break_hides_statement : unreachable_count (build 5 loop_graph loop_function) ≡ some 1
unfolding build unreachable_count loop_graph
break_hides_statement = refl

build_joins_example :
    (cfg : ControlFlowGraph) × (build 5 loop_graph loop_function ≡ some cfg) × AllJoin cfg
build_joins_example = build_joins 5 loop_graph loop_function

abbrev edge : BlockId → BlockId → CfgEdge
edge x y = record { source = x; target = y; kind = "fallthrough"; label = none }

abbrev empty_block : BasicBlock
empty_block = record { statements = []; kind = "normal" }

-- An empty block on the way to the exit, and one that nothing leads to.
abbrev chain : ControlFlowGraph
chain = record {
  function_node_id = "f";
  blocks =
      (entry_id, empty_block)
      ∷ (exit_id, empty_block)
      ∷ (b 0, empty_block)
      ∷ (b 1, empty_block)
      ∷ [];
  edges = edge entry_id (b 0) ∷ edge (b 0) exit_id ∷ edge (b 1) exit_id ∷ [];
}

pruned :
    prune_empty_pass_through_blocks chain
    ≡ some (record {
      function_node_id = "f";
      blocks = (entry_id, empty_block) ∷ (exit_id, empty_block) ∷ [];
      edges = edge entry_id exit_id ∷ [];
    })
unfolding prune_empty_pass_through_blocks
pruned = refl

prune_empty_pass_through_blocks_sound_example :
    (cfg' : ControlFlowGraph) × (prune_empty_pass_through_blocks chain ≡ some cfg')
    × ((y : BlockId)
        → mem y (keys cfg'.blocks) ≡ true
        → (mem y (keys chain.blocks) ≡ true)
          × (IsReachable chain y ↔ IsReachable cfg' y)
          × (pass_through cfg' y ≡ none))
prune_empty_pass_through_blocks_sound_example = prune_empty_pass_through_blocks_sound chain

reachable : reachable_blocks chain ≡ some (entry_id ∷ b 0 ∷ exit_id ∷ [])
unfolding reachable_blocks
reachable = refl

reachable_blocks_exact_example :
    (reachable : List BlockId) × (reachable_blocks chain ≡ some reachable)
    × ((x : BlockId) → (mem x reachable ≡ true) ↔ IsReachable chain x)
reachable_blocks_exact_example = reachable_blocks_exact chain

-- A parent's rank in `looping` is above that of its children.
unfoldable height : String → ℕ
height id =
    if id == "f"
    then 4
    else if id == "body"
    then 3
    else if id == "w"
    then 2
    else if id == "block"
    then 1
    else 0

at_id :
    (j id : String)
    → (j == id) ≡ true
    → All (λ child. height child.node_id < height j) (children loop_graph j)
    → All (λ child. height child.node_id < height id) (children loop_graph id)
at_id j id e h =
    subst (λ i. All (λ child. height child.node_id < height i) (children loop_graph i))
      ((string_eq.beq_iff j id).0 e) h

looping-IsRanked : IsRanked loop_graph height
unfolding children height loop_graph
looping-IsRanked id = elim (Bool-cases ("f" == id)) [
  | inl e ↦ at_id "f" id e (omega arith, tt)
  | inr e1 ↦ elim (Bool-cases ("body" == id)) [
    | inl e ↦ at_id "body" id e (omega arith, tt)
    | inr e2 ↦ elim (Bool-cases ("w" == id)) [
      | inl e ↦ at_id "w" id e (omega arith, (omega arith, tt))
      | inr e3 ↦ elim (Bool-cases ("c" == id)) [
        | inl e ↦ at_id "c" id e tt
        | inr e4 ↦ elim (Bool-cases ("block" == id)) [
          | inl e ↦ at_id "block" id e (omega arith, (omega arith, tt))
          | inr e5 ↦ elim (Bool-cases ("out" == id)) [
            | inl e ↦ at_id "out" id e tt
            | inr e6 ↦ elim (Bool-cases ("s" == id)) [
              | inl e ↦ at_id "s" id e tt
              | inr e7 ↦ rw (e1, e2, e3, e4, e5, e6, e7, children) tt
            ]
          ]
        ]
      ]
    ]
  ]
]

build-stable_example : build 4 loop_graph loop_function ≡ build 9 loop_graph loop_function
unfolding height
build-stable_example =
    build-stable loop_graph height loop_function 4 9 looping-IsRanked (omega arith) (omega arith)

descendants-walk_example :
    descendants 6 loop_graph "f"
    ≡ flat_map (walk (height "f") loop_graph) (reverse (children loop_graph "f"))
unfolding walk children loop_graph height
descendants-walk_example = descendants-walk loop_graph height looping-IsRanked "f" 6 (omega arith)
