-- ===== src/Types.antt =====
-- rule-engine/src/misra_platform_rules/analyzers/essential_type_analyzer.py and
-- essential_type_engine.py: ranks and categories of essential types, integer promotion and the usual
-- arithmetic conversions. An essential type is its name, as in the source.
pub mod Expression
pub mod Conversion
mod Examples
use misra_c_agent.Base.{
  ℕ, zero, suc, ◌≤◌, String, Bool, true, false, Option, none, some, List, [], ◌∷◌, ◌==◌, ◌||◌, ◌&&◌,
  not, string_eq, mem, Dict, lookup, leb, ltb, if◌then◌else◌, codes, codes_beq, starts_with,
  ends_with, drop, reverse, any_of,
}

-- `_RANK_ORDER`
abbrev pub rank_order : List String
rank_order =
    "boolean" ∷ "signed_char" ∷ "unsigned_char" ∷ "char" ∷ "signed_short" ∷ "unsigned_short"
    ∷ "signed_int" ∷ "unsigned_int" ∷ "signed_long" ∷ "unsigned_long" ∷ "signed_long_long"
    ∷ "unsigned_long_long" ∷ "float" ∷ "double" ∷ "long_double" ∷ "complex" ∷ "unknown" ∷ []

-- `order.index(t)`, or the length of the list where `t` is not in it.
unfoldable pub index_or_length : String → List String → ℕ
index_or_length t [] = 0
index_or_length t (name ∷ names) = if name == t then 0 else suc (index_or_length t names)

-- `EssentialTypeAnalyzer.rank`; `AstGraph.essential_type_rank` has the same table.
unfoldable pub rank : String → ℕ
unfolding index_or_length
rank essential_type = index_or_length essential_type rank_order

-- `_CATEGORY_BY_TYPE`
abbrev category_by_type : Dict String String
category_by_type =
    ("boolean", "boolean")
    ∷ ("signed_char", "signed")
    ∷ ("signed_short", "signed")
    ∷ ("signed_int", "signed")
    ∷ ("signed_long", "signed")
    ∷ ("signed_long_long", "signed")
    ∷ ("unsigned_char", "unsigned")
    ∷ ("unsigned_short", "unsigned")
    ∷ ("unsigned_int", "unsigned")
    ∷ ("unsigned_long", "unsigned")
    ∷ ("unsigned_long_long", "unsigned")
    ∷ ("char", "character")
    ∷ ("float", "floating")
    ∷ ("double", "floating")
    ∷ ("long_double", "floating")
    ∷ ("complex", "complex")
    ∷ ("unknown", "unknown")
    ∷ []

unfoldable pub category : String → String
category essential_type = elim (lookup essential_type category_by_type) [
  | none ↦ "unknown"
  | some c ↦ c
]

unfoldable pub is_signed : String → Bool
unfolding category
is_signed essential_type = category essential_type == "signed"

unfoldable pub is_unsigned : String → Bool
unfolding category
is_unsigned essential_type = category essential_type == "unsigned"

unfoldable pub is_floating : String → Bool
unfolding category
is_floating essential_type = category essential_type == "floating"

-- `essential_type in ("unknown", "complex")`
abbrev pub is_opaque : String → Bool
is_opaque t = t == "unknown" || t == "complex"

unfoldable pub is_wider : String → String → Bool
unfolding rank
is_wider from_type to_type =
    if is_opaque from_type || is_opaque to_type then false else ltb (rank from_type) (rank to_type)

unfoldable pub is_narrowing : String → String → Bool
unfolding rank category is_floating is_signed is_unsigned
is_narrowing from_type to_type =
    if is_opaque from_type || is_opaque to_type
    then false
    else if category from_type == category to_type
    then ltb (rank to_type) (rank from_type)
    else if is_floating from_type && not (is_floating to_type)
    then true
    else if is_signed from_type && is_unsigned to_type
    then leb (rank to_type) (rank from_type)
    else ltb (rank to_type) (rank from_type)

-- `_INAPPROPRIATE_OPERAND_PAIRS`
abbrev inappropriate_pairs : List (String × String)
inappropriate_pairs =
    ("boolean", "signed_char")
    ∷ ("boolean", "unsigned_char")
    ∷ ("boolean", "signed_short")
    ∷ ("boolean", "unsigned_short")
    ∷ ("boolean", "signed_int")
    ∷ ("boolean", "unsigned_int")
    ∷ ("boolean", "signed_long")
    ∷ ("boolean", "unsigned_long")
    ∷ ("boolean", "float")
    ∷ ("boolean", "double")
    ∷ ("signed_char", "unsigned_char")
    ∷ ("signed_short", "unsigned_short")
    ∷ ("signed_int", "unsigned_int")
    ∷ ("signed_long", "unsigned_long")
    ∷ ("signed_long_long", "unsigned_long_long")
    ∷ []

-- `(left, right) in _INAPPROPRIATE_OPERAND_PAIRS or (right, left) in …`
unfoldable pub is_inappropriate_base_pair : String → String → Bool
is_inappropriate_base_pair left right =
    any_of (λ p. p.0 == left && p.1 == right) inappropriate_pairs
    || any_of (λ p. p.0 == right && p.1 == left) inappropriate_pairs

unfoldable pub is_enum_type : String → Bool
is_enum_type essential_type = starts_with "enum<" essential_type && ends_with ">" essential_type

-- `essential_type[len("enum<") : -1]`, as code points.
unfoldable pub enum_name : String → List ℕ
unfolding is_enum_type
enum_name essential_type =
    if is_enum_type essential_type
    then reverse (drop 1 (reverse (drop 5 (codes essential_type))))
    else []

-- `EssentialTypeEngine.is_inappropriate_operand_pair`
unfoldable pub is_inappropriate_operand_pair : String → String → Bool
unfolding is_enum_type enum_name is_inappropriate_base_pair
is_inappropriate_operand_pair left right =
    if is_enum_type left || is_enum_type right
    then (if is_enum_type left && is_enum_type right
        then not (codes_beq (enum_name left) (enum_name right))
        else true)
    else is_inappropriate_base_pair left right

-- `promote`. An enum promotes as its underlying type, which is `signed_int` and is no enum, so the
-- recursive call is the rest of the body at that type.
unfoldable pub promote_plain : String → String
unfolding rank
promote_plain essential_type =
    if is_opaque essential_type
    then essential_type
    else if leb (rank "signed_int") (rank essential_type)
    then essential_type
    else "signed_int"

unfoldable pub promote : String → String
unfolding is_enum_type promote_plain
promote essential_type =
    promote_plain (if is_enum_type essential_type then "signed_int" else essential_type)

-- `max(left, right, key=rank)`: the first of the greatest.
unfoldable pub max_by_rank : String → String → String
unfolding rank
max_by_rank left right = if ltb (rank left) (rank right) then right else left

-- The conversion of two promoted types.
unfoldable pub convert_promoted : String → String → String
unfolding is_floating is_signed max_by_rank rank
convert_promoted left right =
    if is_opaque left || is_opaque right
    then "unknown"
    else if is_floating left || is_floating right
    then (if is_floating left
        then (if is_floating right then max_by_rank left right else left)
        else right)
    else if left == right
    then left
    else if (is_signed left && is_signed right) || (not (is_signed left) && not (is_signed right))
    then max_by_rank left right
    else let signed_type = if is_signed left then left else right in
      let unsigned_type = if is_signed left then right else left in
      if leb (rank signed_type) (rank unsigned_type) then unsigned_type else signed_type

unfoldable pub usual_arithmetic_conversion : String → String → String
unfolding promote convert_promoted
usual_arithmetic_conversion left right = convert_promoted (promote left) (promote right)

-- The first entry of a table that is wide enough, or the last one.
unfoldable pub first_wide_enough : ℕ → List (ℕ × String) → String → String
first_wide_enough bit_width [] last = last
first_wide_enough bit_width ((max_width, essential_type) ∷ table) last =
    if leb bit_width max_width
    then essential_type
    else first_wide_enough bit_width table essential_type

abbrev bitfield_signed_by_width : List (ℕ × String)
bitfield_signed_by_width =
    (1, "boolean")
    ∷ (8, "signed_char")
    ∷ (16, "signed_short")
    ∷ (32, "signed_int")
    ∷ (64, "signed_long_long")
    ∷ []

abbrev bitfield_unsigned_by_width : List (ℕ × String)
bitfield_unsigned_by_width =
    (1, "boolean")
    ∷ (8, "unsigned_char")
    ∷ (16, "unsigned_short")
    ∷ (32, "unsigned_int")
    ∷ (64, "unsigned_long_long")
    ∷ []

unfoldable pub bitfield_essential_type : Bool → ℕ → String
unfolding first_wide_enough
bitfield_essential_type signed bit_width =
    let table = if signed then bitfield_signed_by_width else bitfield_unsigned_by_width in
    first_wide_enough bit_width table ""
