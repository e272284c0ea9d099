-- ===== src/Types/Expression.antt =====
-- rule-engine/src/misra_platform_rules/analyzers/essential_type_engine.py: the essential type of an
-- expression, from the bottom up. Python's `int(text, 0)` is a parameter: `none` where it raises.
use misra_c_agent.Base.{
  ℕ, zero, suc, ◌+◌, ◌-◌, ◌^◌, String, Bool, false, Option, none, some, List, [], ◌∷◌, ◌==◌, ◌||◌,
  ◌&&◌, string_eq, mem, leb, if◌then◌else◌, codes, reverse, get_elem?, any_of, nat_beq, map,
}
use misra_c_agent.Ast.{Node, AstGraph, children}
use misra_c_agent.Types.{category, promote, max_by_rank, usual_arithmetic_conversion}

abbrev relational_opcodes : List String
relational_opcodes = "==" ∷ "!=" ∷ "<" ∷ ">" ∷ "<=" ∷ ">=" ∷ "&&" ∷ "||" ∷ []

abbrev shift_opcodes : List String
shift_opcodes = "<<" ∷ ">>" ∷ []

abbrev arithmetic_opcodes : List String
arithmetic_opcodes = "+" ∷ "-" ∷ "*" ∷ "/" ∷ "%" ∷ "&" ∷ "|" ∷ "^" ∷ []

-- `node.get("essential_type", "unknown")`
unfoldable pub annotated : Node → String
annotated node = elim node.essential_type [ none ↦ "unknown" | some t ↦ t ]

-- `candidates[start_index:]`, and the last candidate where none is large enough.
unfoldable pub first_large_enough : ℕ → List (String × ℕ) → String → String
first_large_enough value [] last = last
first_large_enough value ((name, max_value) ∷ candidates) last =
    if leb value max_value then name else first_large_enough value candidates last

abbrev wide_unsigned : List (String × ℕ)
wide_unsigned =
    ("unsigned_int", 0xFFFFFFFF)
    ∷ ("unsigned_long", 0xFFFFFFFFFFFFFFFF)
    ∷ ("unsigned_long_long", 2 ^ 128 - 1)
    ∷ []

abbrev wide_signed : List (String × ℕ)
wide_signed =
    ("signed_int", 0x7FFFFFFF)
    ∷ ("signed_long", 0x7FFFFFFFFFFFFFFF)
    ∷ ("signed_long_long", 2 ^ 127 - 1)
    ∷ []

-- The table that `_literal_essential_type` picks by the suffixes of the literal.
unfoldable pub literal_candidates : Bool → Bool → List (String × ℕ)
literal_candidates is_unsigned is_long =
    if is_unsigned
    then (if is_long
        then wide_unsigned
        else ("unsigned_char", 0xFF) ∷ ("unsigned_short", 0xFFFF) ∷ wide_unsigned)
    else if is_long
    then wide_signed
    else ("signed_char", 0x7F) ∷ ("signed_short", 0x7FFF) ∷ wide_signed

-- `raw.lower()` on a code point.
abbrev lower : ℕ → ℕ
lower c = if leb 65 c && leb c 90 then c + 32 else c

-- `raw.lower().endswith(("u", "ul", "ull", "lu", "llu"))`, on the reversed and lowered text.
unfoldable pub ends_unsigned : List ℕ → Bool
ends_unsigned [] = false
ends_unsigned (c ∷ rest) =
    nat_beq c b'u'
    || (nat_beq c b'l' && (elim rest [
      | [] ↦ false
      | d ∷ rest' ↦
          nat_beq d b'u' || (nat_beq d b'l' && (elim rest' [ [] ↦ false | f ∷ _ ↦ nat_beq f b'u' ]))
    ]))

-- `raw.rstrip("uUlL")`, on the reversed text.
unfoldable pub strip_suffix : List ℕ → List ℕ
strip_suffix [] = []
strip_suffix (c ∷ rest) =
    if nat_beq (lower c) b'u' || nat_beq (lower c) b'l' then strip_suffix rest else c ∷ rest

module _ (parse_int : List ℕ → Option ℕ) where
  unfoldable pub literal_essential_type : Node → String
  unfolding ends_unsigned strip_suffix literal_candidates first_large_enough
  literal_essential_type node =
      let raw : String = elim node.semantic_properties.value [ none ↦ "0" | some v ↦ v ] in
      let backwards = reverse (codes raw) in
      let is_unsigned = ends_unsigned (map lower backwards) in
      let is_long = any_of (λ c. nat_beq c b'l') (map lower backwards) in
      elim (parse_int (reverse (strip_suffix backwards))) [
        | none ↦ "unknown"
        | some value ↦
            first_large_enough value (literal_candidates is_unsigned is_long)
              (if is_unsigned then "unsigned_long_long" else "signed_long_long")
      ]

  -- A unary operator at the type of its operand.
  unfoldable pub unary_type : String → String → String
  unfolding promote
  unary_type opcode operand_type =
      if opcode == "!"
      then "boolean"
      else if mem opcode ("-" ∷ "~" ∷ "+" ∷ "++" ∷ "--" ∷ [])
      then promote operand_type
      else operand_type

  -- A binary operator at the types of its operands; `ends_eq` is `opcode.endswith("=")`.
  unfoldable pub binary_type : String → Bool → String → String → String → String
  unfolding promote usual_arithmetic_conversion
  binary_type opcode ends_eq left_type right_type own =
      if mem opcode relational_opcodes
      then "boolean"
      else if mem opcode shift_opcodes
      then promote left_type
      else if mem opcode arithmetic_opcodes || ends_eq
      then usual_arithmetic_conversion left_type right_type
      else own

  unfoldable pub conditional_type : String → String → String
  unfolding category max_by_rank usual_arithmetic_conversion
  conditional_type then_type else_type =
      if then_type == else_type
      then then_type
      else if category then_type == category else_type
      then max_by_rank then_type else_type
      else usual_arithmetic_conversion then_type else_type

  abbrev ends_with_equals : String → Bool
  ends_with_equals opcode = elim (reverse (codes opcode)) [ [] ↦ false | c ∷ _ ↦ nat_beq c b'=' ]

  -- The forms that `essential_type_of_expression` derives, and its recursive calls.
  unfoldable pub composite_type : (Node → String) → AstGraph → Node → String
  unfolding annotated literal_essential_type unary_type binary_type conditional_type children
  composite_type type_of graph node =
      let kind = node.node_kind in
      let kids = children graph node.node_id in
      let opcode = node.semantic_properties.opcode in
      if mem kind ("CStyleCastExpr" ∷ "ExplicitCastExpr" ∷ "CastExpr" ∷ [])
      then (let cast_type = node.type_information.fundamental_kind in
          if cast_type == "" then annotated node else cast_type)
      else if kind == "IntegerLiteral"
      then (elim node.essential_type [
        | none ↦ literal_essential_type node
        | some t ↦ if t == "" then literal_essential_type node else t
      ])
      else if kind == "UnaryOperator"
      then (elim (get_elem? kids 0) [
        | none ↦ annotated node
        | some operand ↦ unary_type opcode (type_of operand)
      ])
      else if kind == "BinaryOperator"
      then (elim (get_elem? kids 0) [
        | none ↦ annotated node
        | some left ↦ elim (get_elem? kids 1) [
          | none ↦ annotated node
          | some right ↦
              binary_type opcode (ends_with_equals opcode) (type_of left) (type_of right)
                (annotated node)
        ]
      ])
      else if kind == "ConditionalOperator"
      then (elim (get_elem? kids 1) [
        | none ↦ annotated node
        | some then_node ↦ elim (get_elem? kids 2) [
          | none ↦ annotated node
          | some else_node ↦ conditional_type (type_of then_node) (type_of else_node)
        ]
      ])
      else annotated node

  -- `essential_type_of_expression`. The fuel bounds the depth of the expression.
  unfoldable pub essential_type_of_expression : ℕ → AstGraph → Node → String
  unfolding composite_type annotated
  essential_type_of_expression zero graph node = annotated node
  essential_type_of_expression (suc fuel) graph node =
      composite_type (essential_type_of_expression fuel graph) graph node
