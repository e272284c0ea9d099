-- ===== src/Types/Examples.antt =====
-- Types at work: tests, and the properties at them.
use misra_c_agent.Base.{◌≡◌, refl, ◌≤◌, true}
use misra_c_agent.Types.{
  rank, promote, usual_arithmetic_conversion, is_narrowing, is_inappropriate_operand_pair,
  bitfield_essential_type,
}
use misra_c_agent.Types.Conversion.{usual_arithmetic_conversion_sound}

enum_promotes : promote "enum<colour>" ≡ "signed_int"
unfolding promote
enum_promotes = refl

narrowing : is_narrowing "signed_long" "unsigned_int" ≡ true
unfolding is_narrowing
narrowing = refl

two_enums : is_inappropriate_operand_pair "enum<a>" "enum<b>" ≡ true
unfolding is_inappropriate_operand_pair
two_enums = refl

wide_bitfield : bitfield_essential_type true 9 ≡ "signed_short"
unfolding bitfield_essential_type
wide_bitfield = refl

usual_arithmetic_conversion_sound_example :
    (usual_arithmetic_conversion "signed_char" "unsigned_long"
      ≡ usual_arithmetic_conversion "unsigned_long" "signed_char")
    × (rank (promote "signed_char")
        ≤ rank (usual_arithmetic_conversion "signed_char" "unsigned_long"))
    × (rank (promote "unsigned_long")
        ≤ rank (usual_arithmetic_conversion "signed_char" "unsigned_long"))
usual_arithmetic_conversion_sound_example =
    usual_arithmetic_conversion_sound "signed_char" "unsigned_long" refl refl
