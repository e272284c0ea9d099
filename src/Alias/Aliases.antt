-- ===== src/Alias/Aliases.antt =====
-- What `may_alias` answers.
use misra_c_agent.Base.{
  String, Bool, true, false, List, [], ◌∷◌, ◌≡◌, ◌↔◌, refl, arith, ◌==◌, ◌||◌, ◌&&◌, Eq, string_eq,
  mem, any_of, Bool-cases, inl, inr, if◌then◌else◌, beq_refl, sym, ap, ◌∙◌, subst,
}
use misra_c_agent.Base.Tables.{get}
use misra_c_agent.Alias.{Pointee, pointee_eq, PointsToTable, unknown}
use misra_c_agent.Alias.Queries.{is_unknown, target_names, only_definite, alias_of_sets, may_alias}

-- Some element of the one list is in the other.
abbrev meets : List String → List String → Bool
meets xs ys = any_of (λ x. mem x ys) xs

meets-cons : (xs ys : List String) (y : String) → meets xs (y ∷ ys) ≡ (mem y xs || meets xs ys)
meets-cons [] ys y = refl
meets-cons (x ∷ xs) ys y =
    ground (arith, meets-cons xs ys y, string_eq.beq_iff x y, string_eq.beq_iff y x)

meets_comm : (xs ys : List String) → meets xs ys ≡ meets ys xs
meets_comm [] [] = refl
meets_comm [] (y ∷ ys) = ground (arith, meets_comm [] ys)
meets_comm (x ∷ xs) ys = ground (arith, meets-cons ys xs x, meets_comm xs ys)

-- The three tests as one.
alias_of_sets-first :
    (x y : Pointee) (xs ys : List Pointee)
    → (alias_of_sets (x ∷ xs) (y ∷ ys)).0 ≡ (
        any_of is_unknown (x ∷ xs)
        || any_of is_unknown (y ∷ ys)
        || meets (target_names (x ∷ xs)) (target_names (y ∷ ys)))
unfolding alias_of_sets
alias_of_sets-first x y xs ys =
    if-first (any_of is_unknown (x ∷ xs) || any_of is_unknown (y ∷ ys))
      (meets (target_names (x ∷ xs)) (target_names (y ∷ ys))) _ _
  where
    if-first :
        (a b : Bool) (c d : String)
        → (let answer : Bool × String =
              if a then (true, unknown) else if b then (true, c) else (false, d) in
            answer.0)
          ≡ (a || b)
    if-first true b c d = refl
    if-first false true c d = refl
    if-first false false c d = refl

alias_of_sets_comm : (xs ys : List Pointee) → alias_of_sets xs ys ≡ alias_of_sets ys xs
unfolding alias_of_sets
alias_of_sets_comm [] [] = refl
alias_of_sets_comm [] (y ∷ ys) = refl
alias_of_sets_comm (x ∷ xs) [] = refl
alias_of_sets_comm (x ∷ xs) (y ∷ ys) =
    let m = meets_comm (target_names (x ∷ xs)) (target_names (y ∷ ys)) in
    let both : (only_definite (x ∷ xs) && only_definite (y ∷ ys))
        ≡ (only_definite (y ∷ ys) && only_definite (x ∷ xs)) =
      ground arith in
    elim (Bool-cases (any_of is_unknown (x ∷ xs))) [
      | inl u ↦ elim (Bool-cases (any_of is_unknown (y ∷ ys))) [
        | inl v ↦ rw (alias_of_sets, u, v) refl
        | inr v ↦ rw (alias_of_sets, u, v) refl
      ]
      | inr u ↦ elim (Bool-cases (any_of is_unknown (y ∷ ys))) [
        | inl v ↦ rw (alias_of_sets, u, v) refl
        | inr v ↦ rw (alias_of_sets, u, v, m, both) refl
      ]
    ]

module _ {ℓ} {A : Type ℓ} ⦃e : Eq A⦄ (p : A → Bool) where
  any_of-found : (xs : List A) → any_of p xs ≡ true → (x : A) × (mem x xs ≡ true) × (p x ≡ true)
  any_of-found [] h = cc
  any_of-found (x ∷ xs) h = elim (Bool-cases (p x)) [
    | inl y ↦ (x, ground (arith, beq_refl x), y)
    | inr n ↦ let (z, m, k) = any_of-found xs (ground (arith, h, n)) in (z, ground (arith, m), k)
  ]

  any_of-member : (x : A) (xs : List A) → mem x xs ≡ true → p x ≡ true → any_of p xs ≡ true
  any_of-member x [] m k = cc
  any_of-member x (y ∷ xs) m k = elim (Bool-cases (x == y)) [
    | inl s ↦
        let k' : p y ≡ true = subst (λ z. p z ≡ true) ((e.beq_iff x y).0 s) k in ground (arith, k')
    | inr n ↦ ground (arith, any_of-member x xs (ground (arith, m, n)) k)
  ]

mem-target_names :
    (x : Pointee) (xs : List Pointee) → mem x xs ≡ true → mem x.target (target_names xs) ≡ true
mem-target_names x [] m = cc
mem-target_names x (y ∷ xs) m = elim (Bool-cases (x == y)) [
  | inl s ↦
      let same : x.target ≡ y.target =
        ap (λ (z : Pointee). z.target) ((pointee_eq.beq_iff x y).0 s) in
      ground (arith, same, (string_eq.beq_iff x.target y.target).1 same)
  | inr n ↦ ground (arith, mem-target_names x xs (ground (arith, m, n)))
]

target_names-mem :
    (t : String) (xs : List Pointee)
    → mem t (target_names xs) ≡ true
    → (x : Pointee) × (mem x xs ≡ true) × (x.target ≡ t)
target_names-mem t [] m = cc
target_names-mem t (x ∷ xs) m = elim (Bool-cases (t == x.target)) [
  | inl s ↦ (x, ground (arith, beq_refl x), sym ((string_eq.beq_iff t x.target).0 s))
  | inr n ↦
      let (y, k, same) = target_names-mem t xs (ground (arith, m, n)) in
      (y, ground (arith, k), same)
]

-- A pointee of each set, one of them unknown or both with the same target.
abbrev pub HaveCommon : List Pointee → List Pointee → Type 0
HaveCommon xs ys =
    (x : Pointee) × (y : Pointee) × (mem x xs ≡ true)
    × (mem y ys ≡ true)
    × ((is_unknown x || is_unknown y || x.target == y.target) ≡ true)

alias_of_sets-HaveCommon :
    (xs ys : List Pointee) → (alias_of_sets xs ys).0 ≡ true → HaveCommon xs ys
unfolding alias_of_sets
alias_of_sets-HaveCommon [] ys h = cc
alias_of_sets-HaveCommon (x ∷ xs) [] h = cc
alias_of_sets-HaveCommon (x ∷ xs) (y ∷ ys) h = elim (Bool-cases (any_of is_unknown (x ∷ xs))) [
  | inl u ↦
      let (z, m, k) = any_of-found is_unknown (x ∷ xs) u in
      (z, y, m, ground (arith, beq_refl y), ground (arith, k))
  | inr u ↦ elim (Bool-cases (any_of is_unknown (y ∷ ys))) [
    | inl v ↦
        let (z, m, k) = any_of-found is_unknown (y ∷ ys) v in
        (x, z, ground (arith, beq_refl x), m, ground (arith, k))
    | inr v ↦ elim (Bool-cases (meets (target_names (x ∷ xs)) (target_names (y ∷ ys)))) [
      | inr n ↦ ground (arith, h, u, v, n, alias_of_sets-first x y xs ys)
      | inl t ↦
          let (target, m, k) =
            any_of-found (λ target. mem target (target_names (y ∷ ys))) (target_names (x ∷ xs)) t in
          let (z, at, same) = target_names-mem target (x ∷ xs) m in
          let (w, at', same') = target_names-mem target (y ∷ ys) k in
          let equal = (string_eq.beq_iff z.target w.target).1 (same ∙ sym same') in
          (z, w, at, at', ground (arith, equal))
    ]
  ]
]

HaveCommon-alias_of_sets :
    (xs ys : List Pointee) → HaveCommon xs ys → (alias_of_sets xs ys).0 ≡ true
unfolding alias_of_sets
HaveCommon-alias_of_sets [] ys (x, y, m, k, h) = cc
HaveCommon-alias_of_sets (x ∷ xs) [] (z, w, m, k, h) = cc
HaveCommon-alias_of_sets (x ∷ xs) (y ∷ ys) (z, w, m, k, h) = elim (Bool-cases (is_unknown z)) [
  | inl u ↦ alias_of_sets-first x y xs ys ∙ ground (arith, any_of-member is_unknown z (x ∷ xs) m u)
  | inr u ↦ elim (Bool-cases (is_unknown w)) [
    | inl v ↦
        alias_of_sets-first x y xs ys ∙ ground (arith, any_of-member is_unknown w (y ∷ ys) k v)
    | inr v ↦
        let same : z.target ≡ w.target =
          (string_eq.beq_iff z.target w.target).0 (ground (arith, h, u, v)) in
        let at : mem z.target (target_names (y ∷ ys)) ≡ true =
          subst (λ t. mem t (target_names (y ∷ ys)) ≡ true) (sym same)
            (mem-target_names w (y ∷ ys) k) in
        let met : meets (target_names (x ∷ xs)) (target_names (y ∷ ys)) ≡ true =
          any_of-member (λ target. mem target (target_names (y ∷ ys))) z.target
            (target_names (x ∷ xs)) (mem-target_names z (x ∷ xs) m) at in
        alias_of_sets-first x y xs ys ∙ ground (arith, met)
  ]
]

-- `may_alias` does not depend on the order of the two pointers, and says yes exactly when they have pointees of which
-- one is unknown or both have the same target.
pub may_alias_exact :
    (table : PointsToTable) (a b : String)
    → (may_alias table a b ≡ may_alias table b a)
      × (((may_alias table a b).0 ≡ true) ↔ HaveCommon (get table a) (get table b))
unfolding may_alias
may_alias_exact table a b = (
  alias_of_sets_comm (get table a) (get table b),
  (
    alias_of_sets-HaveCommon (get table a) (get table b),
    HaveCommon-alias_of_sets (get table a) (get table b),
  ),
)
