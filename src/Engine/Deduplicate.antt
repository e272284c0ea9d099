-- ===== src/Engine/Deduplicate.antt =====
-- `_deduplicate`: one finding for each fingerprint.
use misra_c_agent.Base.{
  ℕ, ◌+◌, ◌≡◌, refl, ap, ◌∙◌, ◌||◌, String, false, List, [], ◌∷◌, ◌++◌, arith, map, length, mem,
  Distinct, string_eq, mem-append_eq, length-append, Bool-cases, inl, inr, subst, append_assoc,
}
use mathlib.Core.List.{Permᴰ}
use mathlib.Core.List.Permᴰ
use misra_c_agent.Engine.{dedup_loop, deduplicate}

Distinct-concat :
    (xs : List String) (x : String) → mem x xs ≡ false → Distinct xs → Distinct (xs ++ x ∷ [])
Distinct-concat [] x h d = (refl, tt)
Distinct-concat (y ∷ ys) x h d = (
  ground (arith, mem-append_eq y ys (x ∷ []), d.0, h, string_eq.beq_iff x y, string_eq.beq_iff y x),
  Distinct-concat ys x (ground (arith, h)) d.1,
)

module _ {V : Type 0} (fingerprint : V → String) where
  record Loop (violations unique : List V) (removed : ℕ) (result : List V × ℕ) : Type 0 where
    distinct : Distinct (map fingerprint unique) → Distinct (map fingerprint result.0)
    prints :
        (f : String)
        → mem f (map fingerprint result.0)
          ≡ (mem f (map fingerprint unique) || mem f (map fingerprint violations))
    counted : length result.0 + result.1 ≡ length unique + removed + length violations

  map-concat :
      (xs : List V) (x : V)
      → map fingerprint (xs ++ x ∷ []) ≡ map fingerprint xs ++ fingerprint x ∷ []
  map-concat [] x = refl
  map-concat (y ∷ ys) x = ap (λ l. fingerprint y ∷ l) (map-concat ys x)

  dedup_loop-Loop :
      (violations unique : List V) (removed : ℕ)
      → Loop violations unique removed
          (dedup_loop fingerprint violations (map fingerprint unique) unique removed)
  unfolding dedup_loop
  dedup_loop-Loop [] unique removed = record {
    distinct = λ d. d;
    prints = λ f. ground arith;
    counted = omega arith;
  }
  dedup_loop-Loop (v ∷ vs) unique removed =
      let print = fingerprint v in
      elim (Bool-cases (mem print (map fingerprint unique))) [
        | inl old ↦
            let r = dedup_loop-Loop vs unique (removed + 1) in
            rw old (record {
              distinct = r.distinct;
              prints = λ f. ground (arith, r.prints f, old, string_eq.beq_iff f print);
              counted = omega (arith, r.counted);
            })
        | inr new ↦
            let r = dedup_loop-Loop vs (unique ++ v ∷ []) removed in
            let r' : Loop vs (unique ++ v ∷ []) removed (
                dedup_loop fingerprint vs (map fingerprint unique ++ print ∷ []) (unique ++ v ∷ [])
                  removed) =
              rw (map-concat unique v) at r in
            let printed = λ (f : String).
              ap (mem f) (map-concat unique v)
              ∙ mem-append_eq f (map fingerprint unique) (print ∷ []) in
            rw new (record {
              distinct =
                  λ d. r'.distinct (rw (map-concat unique v) (Distinct-concat _ print new d));
              prints = λ f. ground (arith, r'.prints f, printed f);
              counted = omega (arith, r'.counted, length-append unique (v ∷ []));
            })
      ]

-- What the loop keeps and what it leaves out.
dedup_loop_left_out :
    {V : Type 0} (fingerprint : V → String) (violations : List V) (seen : List String)
    (unique : List V) (removed : ℕ)
    → (let r = dedup_loop fingerprint violations seen unique removed in
        (rest : List V) × Permᴰ (r.0 ++ rest) (unique ++ violations)
        × (length rest + removed ≡ r.1))
unfolding dedup_loop
dedup_loop_left_out fingerprint [] seen unique removed =
    ([], Permᴰ.refl (unique ++ []), omega arith)
dedup_loop_left_out fingerprint (v ∷ vs) seen unique removed =
    let print = fingerprint v in
    elim (Bool-cases (mem print seen)) [
      | inl old ↦
          let (rest, p, counted) = dedup_loop_left_out fingerprint vs seen unique (removed + 1) in
          let r = dedup_loop fingerprint vs seen unique (removed + 1) in
          rw old (
            v ∷ rest,
            Permᴰ.trans (Permᴰ.middle v r.0 rest)
                (Permᴰ.trans (Permᴰ.cons refl p) (Permᴰ.symm (Permᴰ.middle v unique vs))),
            omega (arith, counted),
          )
      | inr new ↦
          let (rest, p, counted) =
            dedup_loop_left_out fingerprint vs (seen ++ print ∷ []) (unique ++ v ∷ []) removed in
          let r = dedup_loop fingerprint vs (seen ++ print ∷ []) (unique ++ v ∷ []) removed in
          rw new
            (rest, subst (λ l. Permᴰ (r.0 ++ rest) l) (append_assoc unique (v ∷ []) vs) p, counted)
    ]

-- What `_deduplicate` keeps and what it leaves out are the findings that it was given, and it counts those that it
-- leaves out.
pub deduplicate_left_out :
    {V : Type 0} (fingerprint : V → String) (violations : List V)
    → (let r = deduplicate fingerprint violations in
        (rest : List V) × Permᴰ (r.0 ++ rest) violations × (length rest ≡ r.1))
unfolding deduplicate
deduplicate_left_out fingerprint violations =
    let (rest, p, counted) = dedup_loop_left_out fingerprint violations [] [] 0 in
    (rest, p, omega (arith, counted))

-- `_deduplicate` keeps one finding for each fingerprint of the input, brings in no other, and counts
-- the findings that it leaves out.
pub deduplicate_one_each :
    {V : Type 0} (fingerprint : V → String) (violations : List V)
    → (let r = deduplicate fingerprint violations in
        Distinct (map fingerprint r.0)
        × ((f : String) → mem f (map fingerprint r.0) ≡ mem f (map fingerprint violations))
        × (length r.0 + r.1 ≡ length violations))
unfolding deduplicate
deduplicate_one_each fingerprint violations =
    let r = dedup_loop-Loop fingerprint violations [] 0 in
    (r.distinct tt, r.prints, omega (arith, r.counted))
