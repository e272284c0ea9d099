-- ===== src/Alias.antt =====
-- rule-engine/src/misra_platform_rules/analyzers/alias_analyzer.py: what each pointer of a function may point to, and which
-- pointers may be aliases. `fuel` is that of `AstGraph.descendants`. A set is a list, whose order nothing reads.
pub mod Analysis
pub mod Queries
pub mod Growth
pub mod PointsTo
pub mod Aliases
pub mod Calls
pub mod Invalidated
mod Examples
use misra_c_agent.Base.{
  ℕ, zero, suc, ◌+◌, String, Bool, true, false, Option, none, some, List, [], ◌∷◌, ◌++◌, map, ◌≡◌,
  ◌↔◌, arith, ◌==◌, ◌||◌, ◌&&◌, not, Eq, string_eq, nat_eq, mem, filter_by, any_of, all_of, length,
  ltb, if◌then◌else◌, add, Dict, lookup, insert, keys, same_set, append_text,
}
use misra_c_agent.Base.Tables.{Table, get}
use misra_c_agent.Ast.{Node, AstGraph, name_of, children, descendants}
use misra_c_agent.DataFlow.{linearize}

abbrev pub unknown_target : String
unknown_target = "<unknown>"

abbrev pub definite : String
definite = "definite"

abbrev pub possible : String
possible = "possible"

abbrev pub unknown : String
unknown = "unknown"

pub record Pointee : Type 0 where
  pub target : String
  pub kind : String
  pub confidence : String

abbrev pointee_beq : Pointee → Pointee → Bool
pointee_beq a b = a.target == b.target && (a.kind == b.kind && a.confidence == b.confidence)

pub pointee_beq_iff : (a b : Pointee) → (pointee_beq a b ≡ true) ↔ (a ≡ b)
pointee_beq_iff a b = ground (
  arith,
  string_eq.beq_iff a.target b.target,
  string_eq.beq_iff a.kind b.kind,
  string_eq.beq_iff a.confidence b.confidence,
)

instance abbrev pub pointee_eq : Eq Pointee
pointee_eq = record { beq = pointee_beq; beq_iff = pointee_beq_iff }

abbrev pub opaque : Pointee
opaque = record { target = unknown_target; kind = unknown; confidence = unknown }

-- `self._points_to`
abbrev pub PointsToTable : Type 0
PointsToTable = Table String Pointee

-- `self._points_to.setdefault(name, set()).add(pointee)`
unfoldable pub add_pointee : String → Pointee → PointsToTable → PointsToTable
unfolding get
add_pointee name pointee table = insert name (add pointee (get table name)) table

-- The loop over what `_resolve_rhs` returns.
unfoldable pub add_pointees : String → List Pointee → PointsToTable → PointsToTable
unfolding add_pointee
add_pointees name [] table = table
add_pointees name (pointee ∷ pointees) table =
    add_pointees name pointees (add_pointee name pointee table)

-- `_seed_pointer_parameters`
unfoldable pub seed_pointer_parameters : List Node → PointsToTable → PointsToTable
unfolding add_pointee
seed_pointer_parameters [] table = table
seed_pointer_parameters (node ∷ nodes) table =
    let skipped = seed_pointer_parameters nodes table in
    let seeded = seed_pointer_parameters nodes (add_pointee (name_of node) opaque table) in
    if node.node_kind == "ParmVarDecl"
      && node.type_information.is_pointer
      && not (name_of node == "")
    then seeded
    else skipped

-- The pointee of `&` at the children of the operator.
unfoldable pub address_of : List Node → List Pointee
address_of [] = opaque ∷ []
address_of (operand ∷ rest) =
    let kind = if operand.semantic_properties.is_function then "function" else "variable" in
    if operand.node_kind == "DeclRefExpr" && not (name_of operand == "")
    then record { target = name_of operand; kind = kind; confidence = definite } ∷ []
    else opaque ∷ []

-- What a copied pointer points to.
unfoldable pub inherited : List Pointee → List Pointee
inherited existing =
    map
      (λ (pointee : Pointee).
        if ltb 1 (length existing) && pointee.confidence == definite
        then record pointee { confidence = possible }
        else pointee)
      existing

-- `[Pointee(name, kind, CONFIDENCE_DEFINITE)] if name else []`
abbrev pub named_pointee : String → String → List Pointee
named_pointee name kind =
    if name == "" then [] else record { target = name; kind = kind; confidence = definite } ∷ []

unfoldable pub resolve_reference : Node → PointsToTable → List Pointee
unfolding inherited get
resolve_reference rhs table =
    let name = name_of rhs in
    if rhs.semantic_properties.is_function
    then named_pointee name "function"
    else if rhs.type_information.is_array
    then named_pointee name "array"
    else if mem name (keys table)
    then inherited (get table name)
    else opaque ∷ []

-- `_resolve_rhs`
unfoldable pub resolve_rhs : Node → AstGraph → PointsToTable → List Pointee
unfolding address_of resolve_reference children
resolve_rhs rhs graph table =
    if rhs.node_kind == "UnaryOperator" && rhs.semantic_properties.opcode == "&"
    then address_of (children graph rhs.node_id)
    else if rhs.node_kind == "DeclRefExpr"
    then resolve_reference rhs table
    else if rhs.node_kind == "CallExpr"
    then record {
      target = append_text "<heap:" (append_text rhs.semantic_properties.callee ">");
      kind = "heap";
      confidence = possible;
    }
      ∷ []
    else []
