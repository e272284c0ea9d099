-- ===== src/Types/Conversion.antt =====
-- The usual arithmetic conversions over the types of the rank table.
use misra_c_agent.Base.{
  ℕ, ◌≤◌, ◌≡◌, refl, String, Bool, true, false, List, [], ◌∷◌, ◌==◌, ◌&&◌, string_eq, mem, leb,
  if◌then◌else◌, all_of, arith, subst, sym, Bool-cases, ◌⊎◌, inl, inr,
}
use misra_c_agent.Types.{
  rank_order, rank, promote, promote_plain, usual_arithmetic_conversion, is_opaque,
}

-- A test that passes on a whole list passes on each of its strings.
all_of-mem :
    (p : String → Bool) (x : String) (xs : List String)
    → all_of p xs ≡ true
    → mem x xs ≡ true
    → p x ≡ true
all_of-mem p x [] h m = cc
all_of-mem p x (y ∷ ys) h m = elim (Bool-cases (x == y)) [
  | inl e ↦ subst (λ z. p z ≡ true) (sym ((string_eq.beq_iff x y).0 e)) (ground (arith, h))
  | inr n ↦ all_of-mem p x ys (ground (arith, h)) (ground (arith, n, m))
]

-- The result of a conversion is the same in both orders, and no narrower than a promoted operand.
abbrev converts : String → String → Bool
converts left right =
    let r = usual_arithmetic_conversion left right in
    r == usual_arithmetic_conversion right left
    && leb (rank (promote left)) (rank r)
    && leb (rank (promote right)) (rank r)

conversion_table : all_of (λ left. all_of (converts left) rank_order) rank_order ≡ true
unfolding usual_arithmetic_conversion promote rank
conversion_table = refl

parts : (a : Bool) (m n k : ℕ) → (a && leb m k && leb n k) ≡ true → (a ≡ true) × (m ≤ k) × (n ≤ k)
parts a m n k h = ground arith

-- Over the seventeen types of the rank table the usual arithmetic conversion does not depend on the
-- order of the operands, and its result ranks no lower than either operand after promotion.
pub usual_arithmetic_conversion_sound :
    (left right : String)
    → mem left rank_order ≡ true
    → mem right rank_order ≡ true
    → (usual_arithmetic_conversion left right ≡ usual_arithmetic_conversion right left)
      × (rank (promote left) ≤ rank (usual_arithmetic_conversion left right))
      × (rank (promote right) ≤ rank (usual_arithmetic_conversion left right))
usual_arithmetic_conversion_sound left right l r =
    let row = all_of-mem (λ x. all_of (converts x) rank_order) left rank_order conversion_table l in
    let (same, wide, wide') = parts _ _ _ _ (all_of-mem (converts left) right rank_order row r) in
    ((string_eq.beq_iff _ _).0 same, wide, wide')

plain_cases : (t : String) → (promote_plain t ≡ t) ⊎ (promote_plain t ≡ "signed_int")
unfolding promote_plain
plain_cases t = go (is_opaque t) (leb (rank "signed_int") (rank t))
  where
    go :
        (c d : Bool)
        → ((if c then t else if d then t else "signed_int") ≡ t)
          ⊎ ((if c then t else if d then t else "signed_int") ≡ "signed_int")
    go true d = inl refl
    go false true = inl refl
    go false false = inr refl
