-- ===== src/Rules/Unreachable.antt =====
-- What Rule 2.1 reports.
use misra_c_agent.Base.{
  ℕ, Bool, true, some, List, [], ◌∷◌, ◌++◌, ◌&&◌, not, ◌≡◌, ◌↔◌, refl, ap, arith, string_eq, mem,
  filter_by, if◌then◌else◌, flat_map, Bool-cases, inl, inr, ◌⊎◌,
}
use misra_c_agent.Ast.{Node, AstGraph, nodes_by_kind}
use misra_c_agent.Cfg.{
  BlockId, block_id_eq, BasicBlock, ControlFlowGraph, is_real, has_statements, unreachable_blocks,
}
use misra_c_agent.Cfg.Finish.{build}
use misra_c_agent.Cfg.Reachable.{IsReachable, reachable_blocks_exact}
use misra_c_agent.Cfg.EndPoints.{build_joins}
use misra_c_agent.DataFlow.{first_one}
use misra_c_agent.Rules.{
  first_statements, unreachable_statements, unreachable_in_function, unreachable_in_functions,
  unreachable_code,
}

-- The first statements of the blocks, entry and exit apart, that no walk from the entry leads to, in order.
abbrev pub IsUnreachableIn : ControlFlowGraph → List Node → Type 0
IsUnreachableIn cfg nodes =
    (is_cut_off : BlockId → Bool) × ((x : BlockId) → (is_cut_off x ≡ true) ↔ ¬ IsReachable cfg x)
    × (nodes
        ≡ flat_map
            (λ (ib : BlockId × BasicBlock).
              if is_cut_off ib.0 && is_real ib.0 then first_one ib.1.statements else [])
            cfg.blocks)

-- An empty block has no first statement.
first_statements_lem :
    (is_cut_off : BlockId → Bool) (blocks : List (BlockId × BasicBlock))
    → first_statements (
        filter_by
          (λ (ib : BlockId × BasicBlock). is_cut_off ib.0 && is_real ib.0 && has_statements ib.1)
          blocks)
      ≡ flat_map
          (λ (ib : BlockId × BasicBlock).
            if is_cut_off ib.0 && is_real ib.0 then first_one ib.1.statements else [])
          blocks
unfolding first_statements
first_statements_lem is_cut_off [] = refl
first_statements_lem is_cut_off ((id, block) ∷ blocks) =
    let rest = first_statements_lem is_cut_off blocks in
    elim (Bool-cases (is_cut_off id && is_real id)) [
      | inr n ↦ rw (n) rest
      | inl y ↦ elim (List-cases block.statements) [
        | inl e ↦ rw (y, e) rest
        | inr (node, nodes, e) ↦ rw (y, e) (ap (λ l. node ∷ l) rest)
      ]
    ]
  where
    List-cases :
        (nodes : List Node)
        → (nodes ≡ []) ⊎ ((node : Node) × (rest : List Node) × (nodes ≡ node ∷ rest))
    List-cases [] = inl refl
    List-cases (node ∷ nodes) = inr (node, nodes, refl)

unreachable_statements_lem :
    (cfg : ControlFlowGraph)
    → (nodes : List Node) × (unreachable_statements cfg ≡ some nodes) × IsUnreachableIn cfg nodes
unfolding unreachable_statements unreachable_blocks
unreachable_statements_lem cfg =
    let (reachable, ends, exact) = reachable_blocks_exact cfg in
    let is_cut_off : BlockId → Bool = λ id. not (mem id reachable) in
    let cut =
      filter_by
        (λ (ib : BlockId × BasicBlock). is_cut_off ib.0 && is_real ib.0 && has_statements ib.1)
        cfg.blocks in
    (
      first_statements cut,
      rw (unreachable_statements, unreachable_blocks, ends) refl,
      (
        is_cut_off,
        (λ x. (
          λ h r. ground (arith, h, (exact x).1 r),
          λ h. elim (Bool-cases (mem x reachable)) [
            | inl m ↦ absurd (h ((exact x).0 m))
            | inr n ↦ ground (arith, n)
          ],
        )),
        first_statements_lem is_cut_off cfg.blocks,
      ),
    )

-- The report on the functions, one after the other: each has a graph, and the statements that are unreachable in it.
unfoldable pub IsReport : ℕ → AstGraph → List Node → List Node → Type 0
IsReport fuel graph [] nodes = nodes ≡ []
IsReport fuel graph (function_node ∷ functions) nodes =
    (cfg : ControlFlowGraph) × (here : List Node) × (rest : List Node) × (nodes ≡ here ++ rest)
    × (build fuel graph function_node ≡ some cfg)
    × IsUnreachableIn cfg here
    × IsReport fuel graph functions rest

-- Rule 2.1 ends for every syntax tree. It reports, for each function in turn, the first statement of each block of
-- its graph that no walk from the entry leads to.
pub unreachable_code-IsReport :
    (fuel : ℕ) (graph : AstGraph)
    → (nodes : List Node) × (unreachable_code fuel graph ≡ some nodes)
      × IsReport fuel graph (nodes_by_kind graph "FunctionDecl") nodes
unfolding unreachable_code unreachable_in_functions unreachable_in_function IsReport
unreachable_code-IsReport fuel graph = go (nodes_by_kind graph "FunctionDecl")
  where
    go :
        (functions : List Node)
        → (nodes : List Node) × (unreachable_in_functions fuel graph functions ≡ some nodes)
          × IsReport fuel graph functions nodes
    go [] = ([], refl, refl)
    go (function_node ∷ functions) =
        let (cfg, built, joins) = build_joins fuel graph function_node in
        let (here, found, unreachable) = unreachable_statements_lem cfg in
        let (rest, others, report) = go functions in
        (
          here ++ rest,
          rw (unreachable_in_functions, unreachable_in_function, built, found, others) refl,
          (cfg, here, rest, refl, built, unreachable, report),
        )
