-- ===== src/DataFlow/Ordered.antt =====
-- `_linearize`: the order by source position, and what holds of all of the sorted nodes.
use misra_c_agent.Base.{
  ℕ, zero, suc, Bool, true, false, some, List, [], ◌∷◌, ◌≡◌, refl, subst, arith, filter_by,
  get_elem?, All, All-mono, Bool-cases, inl, inr, nat_eq,
}
use misra_c_agent.Ast.{Node}
use misra_c_agent.DataFlow.{at_most, insert_by_position, linearize}

-- The order is total and transitive.
at_most_total : (a b : Node) → at_most a b ≡ false → at_most b a ≡ true
unfolding at_most
at_most_total a b h = ground (arith, h)

at_most_trans : (a b c : Node) → at_most a b ≡ true → at_most b c ≡ true → at_most a c ≡ true
unfolding at_most
at_most_trans a b c h k = ground (arith, h, k)

-- Each node stands in front of those that it is at most.
unfoldable pub IsOrdered : List Node → Type 0
IsOrdered [] = Unit
IsOrdered (node ∷ nodes) = All (λ next. at_most node next ≡ true) nodes × IsOrdered nodes

-- What holds of a sorted list holds of the list.
module _ {κ} (Q : Node → Type κ) where
  insert_by_position-All :
      (x : Node) (xs : List Node) → All Q (insert_by_position x xs) → Q x × All Q xs
  unfolding insert_by_position
  insert_by_position-All x [] h = (h.0, tt)
  insert_by_position-All x (y ∷ xs) h = elim (Bool-cases (at_most x y)) [
    | inl le ↦
        let split : insert_by_position x (y ∷ xs) ≡ x ∷ y ∷ xs = rw (le, insert_by_position) refl in
        let k = subst (λ l. All Q l) split h in (k.0, k.1)
    | inr gt ↦
        let split : insert_by_position x (y ∷ xs) ≡ y ∷ insert_by_position x xs =
          rw (gt, insert_by_position) refl in
        let k = subst (λ l. All Q l) split h in
        let (q, rest) = insert_by_position-All x xs k.1 in (q, (k.0, rest))
  ]

  pub linearize-All : (xs : List Node) → All Q (linearize xs) → All Q xs
  unfolding linearize
  linearize-All [] h = tt
  linearize-All (x ∷ xs) h =
      let (q, rest) = insert_by_position-All x (linearize xs) h in (q, linearize-All xs rest)

  pub filter_by-All :
      (p : Node → Bool) (xs : List Node) → All Q (filter_by p xs) → All (λ x. p x ≡ true → Q x) xs
  filter_by-All p [] h = tt
  filter_by-All p (x ∷ xs) h = elim (Bool-cases (p x)) [
    | inl y ↦
        let split : filter_by p (x ∷ xs) ≡ x ∷ filter_by p xs = rw (y) refl in
        let k = subst (λ l. All Q l) split h in (λ e. k.0, filter_by-All p xs k.1)
    | inr n ↦
        let split : filter_by p (x ∷ xs) ≡ filter_by p xs = rw (n) refl in
        let k = subst (λ l. All Q l) split h in
        (λ e. absurd (ground (arith, e, n)), filter_by-All p xs k)
  ]

  pub All-get_elem? : (xs : List Node) (i : ℕ) (x : Node) → All Q xs → get_elem? xs i ≡ some x → Q x
  All-get_elem? [] i x h e = cc
  All-get_elem? (y ∷ xs) zero x h e = subst Q (ground (arith, e)) h.0
  All-get_elem? (y ∷ xs) (suc i) x h e = All-get_elem? xs i x h.1 e

  All-insert_by_position :
      (x : Node) (xs : List Node) → Q x → All Q xs → All Q (insert_by_position x xs)
  unfolding insert_by_position
  All-insert_by_position x [] q h = (q, tt)
  All-insert_by_position x (y ∷ xs) q h = elim (Bool-cases (at_most x y)) [
    | inl le ↦ rw (le, insert_by_position) (q, h)
    | inr gt ↦ rw (gt, insert_by_position) (h.0, All-insert_by_position x xs q h.1)
  ]

  pub All-linearize : (xs : List Node) → All Q xs → All Q (linearize xs)
  unfolding linearize
  All-linearize [] h = tt
  All-linearize (x ∷ xs) h = All-insert_by_position x (linearize xs) h.0 (All-linearize xs h.1)

  pub All-filter_by :
      (p : Node → Bool) (xs : List Node) → All Q xs → All (λ x. (p x ≡ true) × Q x) (filter_by p xs)
  All-filter_by p [] h = tt
  All-filter_by p (x ∷ xs) h =
      let rest = All-filter_by p xs h.1 in
      elim (Bool-cases (p x)) [ inl y ↦ rw (y) ((y, h.0), rest) | inr n ↦ rw (n) rest ]

-- Each node of a list stands in it.
pub All-members : (xs : List Node) → All (λ x. (i : ℕ) × (get_elem? xs i ≡ some x)) xs
All-members [] = tt
All-members (x ∷ xs) = ((0, refl), All-mono xs (λ y (i, e). (suc i, e)) (All-members xs))

insert_by_position-IsOrdered :
    (x : Node) (xs : List Node) → IsOrdered xs → IsOrdered (insert_by_position x xs)
unfolding insert_by_position IsOrdered
insert_by_position-IsOrdered x [] h = (tt, tt)
insert_by_position-IsOrdered x (y ∷ xs) h = elim (Bool-cases (at_most x y)) [
  | inl le ↦
      rw (le, insert_by_position) ((le, All-mono xs (λ z k. at_most_trans x y z le k) h.0), h)
  | inr gt ↦
      rw (gt, insert_by_position)
        (
          All-insert_by_position (λ z. at_most y z ≡ true) x xs (at_most_total x y gt) h.0,
          insert_by_position-IsOrdered x xs h.1,
        )
]

pub linearize-IsOrdered : (nodes : List Node) → IsOrdered (linearize nodes)
unfolding linearize IsOrdered
linearize-IsOrdered [] = tt
linearize-IsOrdered (node ∷ nodes) =
    insert_by_position-IsOrdered node (linearize nodes) (linearize-IsOrdered nodes)
