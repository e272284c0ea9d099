-- ===== src/Incremental/Changed.antt =====
-- `compute_changed_files` lists exactly the paths whose recorded hash is not the current one.
use misra_c_agent.Base.{
  ◌≡◌, refl, ap, String, Bool, true, false, Option, none, some, [], ◌∷◌, ◌||◌, ◌&&◌, not, arith,
  mem, string_eq, mem-append_eq, mem-filter_by, Dict, lookup, keys, filter_by, ◌==◌, Bool-cases,
  Option-cases, inl, inr, Distinct,
}
use misra_c_agent.Incremental.{changed_current, compute_changed_files}

-- Whether a recorded hash and a current one differ; a missing one differs from every hash.
abbrev pub differs : Option String → Option String → Bool
differs none none = false
differs none (some h) = true
differs (some h) none = true
differs (some a) (some c) = not (a == c)

abbrev current_part : Option String → Option String → Bool
current_part previous none = false
current_part previous (some h) = differs previous (some h)

mem-keys-lookup : (x : String) (d : Dict String String) → mem x (keys d) ≡ differs none (lookup x d)
mem-keys-lookup x [] = refl
mem-keys-lookup x ((j, v) ∷ d) =
    ground (arith, mem-keys-lookup x d, string_eq.beq_iff j x, string_eq.beq_iff x j)

changed_current-cons :
    (previous : Dict String String) (path h x : String) (d : Dict String String)
    → mem x (changed_current previous ((path, h) ∷ d)) ≡ (
        (x == path && differs (lookup path previous) (some h))
        || mem x (changed_current previous d))
unfolding changed_current
changed_current-cons previous path h x d = elim (Option-cases (lookup path previous)) [
  | inl e ↦ rw (e, changed_current) (ground arith)
  | inr (v, e) ↦ rw (e, changed_current) (ground arith)
]

changed_current_lem :
    (previous d : Dict String String) (x : String)
    → Distinct (keys d)
    → mem x (changed_current previous d) ≡ current_part (lookup x previous) (lookup x d)
changed_current_lem previous [] x u = unfold changed_current in refl
changed_current_lem previous ((path, h) ∷ d) x u =
    let ih = changed_current_lem previous d x u.1 in
    let one = changed_current-cons previous path h x d in
    elim (Bool-cases (path == x)) [
      | inl same ↦
          let e : path ≡ x = (string_eq.beq_iff path x).0 same in
          let absent : lookup x d ≡ none = ground (arith, mem-keys-lookup path d, u.0, e) in
          ground (
            arith,
            ih,
            one,
            same,
            e,
            absent,
            ap (λ (p : String). lookup p previous) e,
            string_eq.beq_iff x path,
          )
      | inr other ↦
          ground (arith, ih, one, other, string_eq.beq_iff x path, string_eq.beq_iff path x)
    ]

-- A path is listed exactly when its recorded and its current hash differ, a path that only one of
-- the two knows included. The current index names each path once.
pub compute_changed_files_exact :
    (previous current : Dict String String) (x : String)
    → Distinct (keys current)
    → mem x (compute_changed_files previous current)
      ≡ differs (lookup x previous) (lookup x current)
unfolding compute_changed_files
compute_changed_files_exact previous current x u = ground (
  arith,
  changed_current_lem previous current x u,
  mem-keys-lookup x previous,
  mem-keys-lookup x current,
  mem-append_eq x (changed_current previous current)
      (filter_by (λ path. not (mem path (keys current))) (keys previous)),
  mem-filter_by (λ path. not (mem path (keys current))) x (keys previous),
)
