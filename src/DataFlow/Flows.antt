-- ===== src/DataFlow/Flows.antt =====
-- How the items of a block carry taint from one variable to another.
use misra_c_agent.Base.{
  String, true, false, List, [], ◌∷◌, ◌==◌, ◌||◌, not, ◌≡◌, ◌⊎◌, refl, sym, subst, arith, string_eq,
  mem, mem-filter_by, mem-add, filter_by, any_of, Bool-cases, inl, inr, add, beq_refl,
}
use misra_c_agent.Cfg.{block_id_eq}
use misra_c_agent.DataFlow.Taint.{TaintItem, assigns, calls, taint_step, taint_transfer, targets_in}

-- Past the items, `y` is tainted if `x` was tainted before them, whatever else was.
unfoldable pub Through : List TaintItem → String → String → Type 0
Through [] x y = x ≡ y
Through (assigns target is_tainted_source reads ∷ items) x y =
    (((x == target) ≡ false) × Through items x y) ⊎ ((mem x reads ≡ true) × Through items target y)
Through (calls node_id callee arguments ∷ items) x y = Through items x y

-- Past the items, `y` is tainted by a source that one of them calls.
unfoldable pub Born : List TaintItem → String → Type 0
unfolding Through
Born [] y = ⊥
Born (assigns target is_tainted_source reads ∷ items) y =
    ((is_tainted_source ≡ true) × Through items target y) ⊎ Born items y
Born (calls node_id callee arguments ∷ items) y = Born items y

any_of-mem :
    (names xs : List String)
    → any_of (λ name. mem name xs) names ≡ true
    → (x : String) × (mem x names ≡ true) × (mem x xs ≡ true)
any_of-mem [] xs h = cc
any_of-mem (name ∷ names) xs h = elim (Bool-cases (mem name xs)) [
  | inl y ↦ (name, ground (arith, beq_refl name), y)
  | inr n ↦ let (x, p, q) = any_of-mem names xs (ground (arith, h, n)) in (x, ground (arith, p), q)
]

mem-any_of :
    (names xs : List String) (x : String)
    → mem x names ≡ true
    → mem x xs ≡ true
    → any_of (λ name. mem name xs) names ≡ true
mem-any_of [] xs x p q = cc
mem-any_of (name ∷ names) xs x p q = elim (Bool-cases (x == name)) [
  | inl y ↦
      let q' : mem name xs ≡ true =
        subst (λ z. mem z xs ≡ true) ((string_eq.beq_iff x name).0 y) q in
      ground (arith, q')
  | inr n ↦ ground (arith, mem-any_of names xs x (ground (arith, p, n)) q)
]

absurd_of {ℓ} : {A : Type ℓ} → false ≡ true → A
absurd_of e = cc

-- What the scan returns is born in it, or comes through it from a variable that was tainted before.
pub taint_transfer-from :
    (items : List TaintItem) (xs : List String) (y : String)
    → mem y (taint_transfer items xs) ≡ true
    → Born items y ⊎ ((x : String) × (mem x xs ≡ true) × Through items x y)
unfolding taint_transfer taint_step Born Through
taint_transfer-from [] xs y m = inr (y, m, refl)
taint_transfer-from (calls node_id callee arguments ∷ items) xs y m =
    taint_transfer-from items xs y m
taint_transfer-from (assigns target source reads ∷ items) xs y m =
    elim (Bool-cases (source || any_of (λ name. mem name xs) reads)) [
      | inl dirty ↦
          elim (taint_transfer-from items (add target xs) y
            (rw (dirty, taint_transfer, taint_step) at m)) [
              | inl b ↦ inl (inr b)
              | inr (x, k, t) ↦ elim (Bool-cases (x == target)) [
                | inr n ↦ inr (x, ground (arith, n, k, mem-add x target xs), inl (n, t))
                | inl e ↦
                    let t' : Through items target y =
                      subst (λ z. Through items z y) ((string_eq.beq_iff x target).0 e) t in
                    elim (Bool-cases source) [
                      | inl s ↦ inl (inl (s, t'))
                      | inr s ↦
                          let (z, p, q) = any_of-mem reads xs (ground (arith, dirty, s)) in
                          inr (z, q, inr (p, t'))
                    ]
              ]
            ]
      | inr clean ↦
          elim (taint_transfer-from items (filter_by (λ name. not (name == target)) xs) y
            (rw (clean, taint_transfer, taint_step) at m)) [
              | inl b ↦ inl (inr b)
              | inr (x, k, t) ↦
                  let kept = mem-filter_by (λ name. not (name == target)) x xs in
                  inr (x, ground (arith, k, kept), inl (ground (arith, k, kept), t))
            ]
    ]

pub taint_transfer-to :
    (items : List TaintItem) (xs : List String) (y : String)
    → Born items y ⊎ ((x : String) × (mem x xs ≡ true) × Through items x y)
    → mem y (taint_transfer items xs) ≡ true
unfolding taint_transfer taint_step Born Through
taint_transfer-to [] xs y (inl b) = absurd b
taint_transfer-to [] xs y (inr (x, m, e)) = subst (λ z. mem z xs ≡ true) e m
taint_transfer-to (calls node_id callee arguments ∷ items) xs y h = taint_transfer-to items xs y h
taint_transfer-to (assigns target source reads ∷ items) xs y h =
    elim (Bool-cases (source || any_of (λ name. mem name xs) reads)) [
      | inl dirty ↦
          rw (dirty, taint_transfer, taint_step)
            (taint_transfer-to items (add target xs) y (elim h [
              | inl (inl (s, t)) ↦
                  inr (target, ground (arith, mem-add target target xs, beq_refl target), t)
              | inl (inr b) ↦ inl b
              | inr (x, m, inl (n, t)) ↦ inr (x, ground (arith, m, mem-add x target xs), t)
              | inr (x, m, inr (r, t)) ↦
                  inr (target, ground (arith, mem-add target target xs, beq_refl target), t)
            ]))
      | inr clean ↦
          rw (clean, taint_transfer, taint_step)
            (taint_transfer-to items (filter_by (λ name. not (name == target)) xs) y (elim h [
              | inl (inl (s, t)) ↦ absurd_of (ground (arith, s, clean))
              | inl (inr b) ↦ inl b
              | inr (x, m, inl (n, t)) ↦
                  inr
                    (x, ground (arith, m, n, mem-filter_by (λ name. not (name == target)) x xs), t)
              | inr (x, m, inr (r, t)) ↦
                  absurd_of (ground (arith, clean, mem-any_of reads xs x r m))
            ]))
    ]

pub Through-target :
    (items : List TaintItem) (x y : String)
    → Through items x y
    → (x ≡ y) ⊎ (mem y (targets_in items) ≡ true)
unfolding Through
Through-target [] x y e = inl e
Through-target (calls node_id callee arguments ∷ items) x y t = Through-target items x y t
Through-target (assigns target source reads ∷ items) x y (inl (n, t)) =
    elim (Through-target items x y t) [ inl e ↦ inl e | inr m ↦ inr (ground (arith, m)) ]
Through-target (assigns target source reads ∷ items) x y (inr (r, t)) =
    elim (Through-target items target y t) [
      | inl e ↦ inr (ground (arith, (string_eq.beq_iff y target).1 (sym e)))
      | inr m ↦ inr (ground (arith, m))
    ]

pub Born-target :
    (items : List TaintItem) (y : String) → Born items y → mem y (targets_in items) ≡ true
unfolding Born
Born-target [] y b = absurd b
Born-target (calls node_id callee arguments ∷ items) y b = Born-target items y b
Born-target (assigns target source reads ∷ items) y (inl (s, t)) =
    elim (Through-target items target y t) [
      | inl e ↦ ground (arith, (string_eq.beq_iff y target).1 (sym e))
      | inr m ↦ ground (arith, m)
    ]
Born-target (assigns target source reads ∷ items) y (inr b) = ground (arith, Born-target items y b)
