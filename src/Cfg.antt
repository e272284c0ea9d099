-- ===== src/Cfg.antt =====
-- rule-engine/src/misra_platform_rules/analyzers/cfg_engine.py: basic blocks, edges and the queries
-- of `ControlFlowGraph`. The builder is in `Cfg/Build`.
pub mod Reachable
pub mod Builder
pub mod Build
pub mod WellFormed
pub mod Joined
pub mod Handlers
pub mod Sequences
pub mod Finish
pub mod Collapse
pub mod Prune
pub mod EndPoints
pub mod Fuel
mod Examples
use misra_c_agent.Base.{
  ℕ, zero, suc, String, Bool, true, false, Option, none, some, List, [], ◌∷◌, ◌++◌, map, ◌==◌, Eq,
  ◌≡◌, refl, ◌↔◌, arith, nat_beq, nat_beq_iff, not, ◌&&◌, ◌||◌, string_eq, Dict, lookup, mem,
  filter_by, any_of, length, leb, if◌then◌else◌, stack_push,
}
use misra_c_agent.Base.Search.{Graph, visit_all}
use misra_c_agent.Ast.{Node}

-- `ENTRY_ID`, `EXIT_ID`, and the `f"b{n}"` of the block factory, which are distinct strings.
pub data BlockId : Type 0 where
  entry_id : BlockId
  exit_id : BlockId
  b : ℕ → BlockId

abbrev pub block_id_beq : BlockId → BlockId → Bool
block_id_beq entry_id entry_id = true
block_id_beq exit_id exit_id = true
block_id_beq (b m) (b n) = nat_beq m n
block_id_beq _ _ = false

pub block_id_beq_iff : (x y : BlockId) → (block_id_beq x y ≡ true) ↔ (x ≡ y)
block_id_beq_iff entry_id entry_id = ground arith
block_id_beq_iff (b m) (b n) = ground arith
block_id_beq_iff _ _ = ground arith

instance abbrev pub block_id_eq : Eq BlockId
block_id_eq = record { beq = block_id_beq; beq_iff = block_id_beq_iff }

pub record CfgEdge : Type 0 where
  pub source : BlockId
  pub target : BlockId
  pub kind : String
  pub label : Option String

pub record BasicBlock : Type 0 where
  pub statements : List Node
  pub kind : String

-- A block is stored under its `block_id`, which is the key of the dict.
pub record ControlFlowGraph : Type 0 where
  pub function_node_id : String
  pub blocks : Dict BlockId BasicBlock
  pub edges : List CfgEdge

unfoldable pub successors : ControlFlowGraph → BlockId → List CfgEdge
successors cfg block_id = filter_by (λ edge. edge.source == block_id) cfg.edges

unfoldable pub predecessors : ControlFlowGraph → BlockId → List CfgEdge
predecessors cfg block_id = filter_by (λ edge. edge.target == block_id) cfg.edges

-- The edges as pairs of block ids.
abbrev pub pairs : List CfgEdge → Graph BlockId
pairs [] = []
pairs (edge ∷ edges) = (edge.source, edge.target) ∷ pairs edges

-- The `while stack` loop from `[ENTRY_ID]`. One round for each edge, one for the root and one to
-- find the stack empty are enough (`Cfg/Reachable`).
unfoldable pub reachable_blocks : ControlFlowGraph → Option (List BlockId)
unfolding visit_all
reachable_blocks cfg =
    visit_all stack_push (suc (suc (length cfg.edges))) (pairs cfg.edges) (entry_id ∷ []) []

abbrev pub is_real : BlockId → Bool
is_real entry_id = false
is_real exit_id = false
is_real (b n) = true

abbrev pub has_statements : BasicBlock → Bool
has_statements block = elim block.statements [ [] ↦ false | _ ∷ _ ↦ true ]

unfoldable pub unreachable_blocks : ControlFlowGraph → Option (List (BlockId × BasicBlock))
unfolding reachable_blocks
unreachable_blocks cfg = elim (reachable_blocks cfg) [
  | none ↦ none
  | some reachable ↦
      some (
        filter_by (λ ib. not (mem ib.0 reachable) && is_real ib.0 && has_statements ib.1)
          cfg.blocks)
]

unfoldable pub exit_edges : ControlFlowGraph → List CfgEdge
unfolding predecessors
exit_edges cfg = predecessors cfg exit_id

unfoldable pub has_single_exit_path : ControlFlowGraph → Bool
unfolding exit_edges
has_single_exit_path cfg = leb (length (exit_edges cfg)) 1

unfoldable pub first_containing : String → Dict BlockId BasicBlock → Option (BlockId × BasicBlock)
first_containing node_id [] = none
first_containing node_id (ib ∷ blocks) =
    if any_of (λ statement. statement.node_id == node_id) ib.1.statements
    then some ib
    else first_containing node_id blocks

unfoldable pub block_containing : ControlFlowGraph → String → Option (BlockId × BasicBlock)
unfolding first_containing
block_containing cfg node_id = first_containing node_id cfg.blocks
