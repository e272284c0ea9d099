-- ===== src/Base/Orders.antt =====
-- Lists that have the same elements in another order.
use misra_c_agent.Base.Tests.{Bool-cases}
use misra_c_agent.Base.Lists.{length, filter_by, All}
use misra_c_agent.Base.Equality.{Eq, ◌==◌, mem, mem-append_eq, mem-head, Distinct, beq_refl}
use mathlib.Core.Path.{◌≡◌, refl, sym, subst, ap, ◌∙◌}
use mathlib.Core.Logic.{inl, inr}
use mathlib.Core.Bool.{Bool, true, false, ◌||◌}
use mathlib.Core.List.{List, [], ◌∷◌, ◌++◌, append_assoc}
use mathlib.Core.List.{Permᴰ}
use mathlib.Core.List.Permᴰ.{append_left, middle}
use mathlib.Core.List.Permᴰ
use native.Mathlib.Omega.{arith}

module _ {ℓ} {A : Type ℓ} where
  -- `[x for xs in xss for x in xs]`
  abbrev pub concat : List (List A) → List A
  concat [] = []
  concat (xs ∷ xss) = xs ++ concat xss

  pub Permᴰ-length : (xs ys : List A) → Permᴰ xs ys → length xs ≡ length ys
  Permᴰ-length [] [] Permᴰ.nil = refl
  Permᴰ-length _ _ (Permᴰ.cons {l₁ = xs} {l₂ = ys} e p) = omega (arith, Permᴰ-length xs ys p)
  Permᴰ-length _ _ (Permᴰ.swap e f) = refl
  Permᴰ-length _ _ (Permᴰ.trans {l₁ = xs} {l₂ = ys} {l₃ = zs} p q) =
      Permᴰ-length xs ys p ∙ Permᴰ-length ys zs q

module _ {ℓ κ} {A : Type ℓ} {B : Type κ} (f : A → List B) where
  -- `[y for x in xs for y in f(x)]`
  abbrev pub flat_map : List A → List B
  flat_map [] = []
  flat_map (x ∷ xs) = f x ++ flat_map xs

  pub flat_map-append : (xs ys : List A) → flat_map (xs ++ ys) ≡ flat_map xs ++ flat_map ys
  flat_map-append [] ys = refl
  flat_map-append (x ∷ xs) ys =
      ap (λ l. f x ++ l) (flat_map-append xs ys)
      ∙ sym (append_assoc (f x) (flat_map xs) (flat_map ys))

  pub Permᴰ-flat_map : {xs ys : List A} → Permᴰ xs ys → Permᴰ (flat_map xs) (flat_map ys)
  Permᴰ-flat_map Permᴰ.nil = Permᴰ.nil
  Permᴰ-flat_map (Permᴰ.cons {a = a} {l₁ = xs} {l₂ = ys} e p) =
      subst (λ b. Permᴰ (f a ++ flat_map xs) (f b ++ flat_map ys)) e
        (append_left (f a) (Permᴰ-flat_map p))
  Permᴰ-flat_map (Permᴰ.swap {a = a} {b = b} {a' = a'} {b' = b'} {l = l} e₁ e₂) =
      subst (λ y. Permᴰ (f a ++ (f b ++ flat_map l)) (f a' ++ (f y ++ flat_map l))) e₁
        (subst (λ x. Permᴰ (f a ++ (f b ++ flat_map l)) (f x ++ (f a ++ flat_map l))) e₂
          (append_swap (f a) (f b) (flat_map l)))
    where
      append_swap : (us vs ws : List B) → Permᴰ (us ++ (vs ++ ws)) (vs ++ (us ++ ws))
      append_swap [] vs ws = Permᴰ.refl (vs ++ ws)
      append_swap (u ∷ us) vs ws =
          Permᴰ.trans (Permᴰ.cons refl (append_swap us vs ws)) (Permᴰ.symm (middle u vs (us ++ ws)))
  Permᴰ-flat_map (Permᴰ.trans p q) = Permᴰ.trans (Permᴰ-flat_map p) (Permᴰ-flat_map q)

module _ {ℓ} {A : Type ℓ} ⦃e : Eq A⦄ where
  pub mem-Permᴰ : (a : A) {xs ys : List A} → Permᴰ xs ys → mem a xs ≡ mem a ys
  mem-Permᴰ a Permᴰ.nil = refl
  mem-Permᴰ a (Permᴰ.cons {a = x} {b = y} {l₁ = xs} {l₂ = ys} d p) =
      ap (λ b. (a == b) || mem a xs) d ∙ ap (λ m. (a == y) || m) (mem-Permᴰ a p)
  mem-Permᴰ a (Permᴰ.swap {a = u} {b = v} {a' = u'} {b' = v'} {l = l} d₁ d₂) =
      let first : mem a (u ∷ v ∷ l) ≡ mem a (v ∷ u ∷ l) = ground arith in
      first
      ∙ ap (λ b. (a == b) || ((a == u) || mem a l)) d₂
      ∙ ap (λ b. (a == u') || ((a == b) || mem a l)) d₁
  mem-Permᴰ a (Permᴰ.trans p q) = mem-Permᴰ a p ∙ mem-Permᴰ a q

  -- A list is cut at an element of it.
  mem-split :
      (a : A) (xs : List A) → mem a xs ≡ true → (l : List A) × (r : List A) × (xs ≡ l ++ a ∷ r)
  mem-split a [] h = cc
  mem-split a (x ∷ xs) h = elim (Bool-cases (a == x)) [
    | inl y ↦ ([], xs, ap (λ b. b ∷ xs) (sym ((e.beq_iff a x).0 y)))
    | inr n ↦ let (l, r, k) = mem-split a xs (ground (arith, h, n)) in (x ∷ l, r, ap (λ t. x ∷ t) k)
  ]

  Distinct-middle :
      (l : List A) (a : A) (r : List A)
      → Distinct (l ++ a ∷ r)
      → Distinct (l ++ r) × (mem a (l ++ r) ≡ false)
  Distinct-middle [] a r h = (h.1, h.0)
  Distinct-middle (x ∷ l) a r h =
      let (d, n) = Distinct-middle l a r h.1 in
      (
        (ground (arith, h.0, mem-append_eq x l (a ∷ r), mem-append_eq x l r), d),
        ground (arith, h.0, n, mem-append_eq x l (a ∷ r), e.beq_iff a x, e.beq_iff x a),
      )

  -- Lists without repetition that have the same elements are one another in another order.
  pub Distinct-Permᴰ :
      (xs ys : List A) → Distinct xs → Distinct ys → ((a : A) → mem a xs ≡ mem a ys) → Permᴰ xs ys
  Distinct-Permᴰ [] [] d d' h = Permᴰ.nil
  Distinct-Permᴰ [] (y ∷ ys) d d' h = absurd (ground (arith, h y, beq_refl y))
  Distinct-Permᴰ (x ∷ xs) ys d d' h =
      let (l, r, k) = mem-split x ys (sym (h x) ∙ mem-head x xs) in
      let (d'', n) = Distinct-middle l x r (subst Distinct k d') in
      let p : Permᴰ xs (l ++ r) = Distinct-Permᴰ xs (l ++ r) d.1 d'' (λ a.
        elim (Bool-cases (a == x)) [
          | inl y ↦ subst (λ b. mem b xs ≡ mem b (l ++ r)) (sym ((e.beq_iff a x).0 y)) (d.0 ∙ sym n)
          | inr m ↦
              let at : mem a ys ≡ mem a (l ++ x ∷ r) = ap (λ t. mem a t) k in
              ground (arith, at, h a, m, mem-append_eq a l (x ∷ r), mem-append_eq a l r)
        ]) in
      subst (λ t. Permᴰ (x ∷ xs) t) (sym k)
        (Permᴰ.trans (Permᴰ.cons refl p) (Permᴰ.symm (middle x l r)))

module _ {ℓ} {A : Type ℓ} where
  -- A test splits a list.
  filter_by-or :
      (p q : A → Bool) (xs : List A)
      → ((x : A) → p x ≡ true → q x ≡ false)
      → Permᴰ (filter_by p xs ++ filter_by q xs) (filter_by (λ x. p x || q x) xs)
  filter_by-or p q [] h = Permᴰ.nil
  filter_by-or p q (x ∷ xs) h = elim (Bool-cases (p x)) [
    | inl y ↦ rw (y, h x y) (Permᴰ.cons refl (filter_by-or p q xs h))
    | inr n ↦ elim (Bool-cases (q x)) [
      | inl y ↦
          rw (n, y)
            (Permᴰ.trans (middle x (filter_by p xs) (filter_by q xs))
              (Permᴰ.cons refl (filter_by-or p q xs h)))
      | inr m ↦ rw (n, m) (filter_by-or p q xs h)
    ]
  ]

module _ {ℓ κ} {A : Type ℓ} {T : Type κ} ⦃e : Eq T⦄ (key : A → T) where
  -- The elements with a key in `keys`, by key.
  filter_by-keys :
      (keys : List T) (xs : List A)
      → Distinct keys
      → Permᴰ
          (flat_map (λ t. filter_by (λ x. key x == t) xs) keys)
          (filter_by (λ x. mem (key x) keys) xs)
  filter_by-keys [] xs d = none_left xs
    where
      none_left : (ys : List A) → Permᴰ [] (filter_by (λ x. false) ys)
      none_left [] = Permᴰ.nil
      none_left (y ∷ ys) = none_left ys
  filter_by-keys (t ∷ keys) xs d =
      Permᴰ.trans (append_left (filter_by (λ x. key x == t) xs) (filter_by-keys keys xs d.1)) (
        filter_by-or (λ x. key x == t) (λ x. mem (key x) keys) xs
          (λ x y. subst (λ b. mem b keys ≡ false) (sym ((e.beq_iff (key x) t).0 y)) d.0))

  filter_by-All : (p : A → Bool) (xs : List A) → All (λ x. p x ≡ true) xs → filter_by p xs ≡ xs
  filter_by-All p [] h = refl
  filter_by-All p (x ∷ xs) h = rw (h.0) (ap (λ l. x ∷ l) (filter_by-All p xs h.1))

  -- Grouped by key, the elements are the same.
  pub Permᴰ-grouped :
      (keys : List T) (xs : List A)
      → Distinct keys
      → All (λ x. mem (key x) keys ≡ true) xs
      → Permᴰ (flat_map (λ t. filter_by (λ x. key x == t) xs) keys) xs
  Permᴰ-grouped keys xs d h =
      subst (λ l. Permᴰ (flat_map (λ t. filter_by (λ x. key x == t) xs) keys) l)
        (filter_by-All (λ x. mem (key x) keys) xs h) (filter_by-keys keys xs d)
