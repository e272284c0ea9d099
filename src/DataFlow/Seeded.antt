-- ===== src/DataFlow/Seeded.antt =====
-- The names that a block of `uninitialized_reads` starts with: `decl_names_by_block` and the `UNINIT` definitions.
use misra_c_agent.Base.{
  ℕ, zero, suc, String, true, false, some, List, [], ◌∷◌, ◌==◌, ◌&&◌, not, ◌≡◌, ◌⊎◌, refl, sym,
  subst, ap, ◌∙◌, arith, string_eq, mem, mem-add, add, get_elem?, if◌then◌else◌, Bool-cases,
  Option-cases, inl, inr,
}
use mathlib.Core.Option.{some-injective}
use misra_c_agent.Ast.{Node, name_of}
use misra_c_agent.Cfg.{BlockId, block_id_eq, BasicBlock, ControlFlowGraph, block_containing}
use misra_c_agent.DataFlow.Reaching.{uninit, Definition, definition_eq, decl_names, reaching_uninit}

-- One of the declarations leaves the variable uninitialized in the block.
abbrev pub IsDeclaredIn : ControlFlowGraph → List Node → BlockId → String → Type 0
IsDeclaredIn cfg decls block_id name =
    (i : ℕ) × (var_decl : Node) × (block : BasicBlock) × (get_elem? decls i ≡ some var_decl)
    × (block_containing cfg var_decl.node_id ≡ some (block_id, block))
    × (name_of var_decl ≡ name)
    × ((name == "") ≡ false)

later_decl :
    (cfg : ControlFlowGraph) (var_decl : Node) (decls : List Node) (block_id : BlockId)
    (name : String)
    → IsDeclaredIn cfg decls block_id name
    → IsDeclaredIn cfg (var_decl ∷ decls) block_id name
later_decl cfg var_decl decls block_id name (i, d, block, at, within, named, full) =
    (suc i, d, block, at, within, named, full)

-- What the loop over the declarations does with one of them that is in a block.
decl_names_step :
    (cfg : ControlFlowGraph) (var_decl : Node) (decls : List Node) (block_id decl_block : BlockId)
    (block : BasicBlock) (name : String)
    → block_containing cfg var_decl.node_id ≡ some (decl_block, block)
    → mem name (decl_names cfg (var_decl ∷ decls) block_id) ≡ (
        if decl_block == block_id && not (name_of var_decl == "")
        then mem name (add (name_of var_decl) (decl_names cfg decls block_id))
        else mem name (decl_names cfg decls block_id))
unfolding decl_names
decl_names_step cfg var_decl decls block_id decl_block block name e =
    elim (Bool-cases (decl_block == block_id && not (name_of var_decl == ""))) [
      | inl y ↦ rw (e, y, decl_names) refl
      | inr n ↦ rw (e, n, decl_names) refl
    ]

pub decl_names-from :
    (cfg : ControlFlowGraph) (decls : List Node) (block_id : BlockId) (name : String)
    → mem name (decl_names cfg decls block_id) ≡ true
    → IsDeclaredIn cfg decls block_id name
unfolding decl_names
decl_names-from cfg [] block_id name m = cc
decl_names-from cfg (var_decl ∷ decls) block_id name m =
    let rest = decl_names-from cfg decls block_id name in
    elim (Option-cases (block_containing cfg var_decl.node_id)) [
      | inl e ↦ later_decl cfg var_decl decls block_id name (rest (rw (e, decl_names) at m))
      | inr ((decl_block, block), e) ↦
          let step = decl_names_step cfg var_decl decls block_id decl_block block name e in
          elim (Bool-cases
            (decl_block == block_id && not (name_of var_decl == "") && name == name_of var_decl)) [
              | inl y ↦
                  let here = (block_id_eq.beq_iff decl_block block_id).0 (ground (arith, y)) in
                  let named = (string_eq.beq_iff name (name_of var_decl)).0 (ground (arith, y)) in
                  let full : (name_of var_decl == "") ≡ false = ground (arith, y) in
                  (
                    0,
                    var_decl,
                    block,
                    refl,
                    e ∙ ap (λ i. some (i, block)) here,
                    sym named,
                    subst (λ n. (n == "") ≡ false) (sym named) full,
                  )
              | inr n ↦
                  let among : mem name (decl_names cfg decls block_id) ≡ true = ground (
                    arith,
                    step,
                    m,
                    n,
                    mem-add name (name_of var_decl) (decl_names cfg decls block_id),
                  ) in
                  later_decl cfg var_decl decls block_id name (rest among)
            ]
    ]

pub decl_names-to :
    (cfg : ControlFlowGraph) (decls : List Node) (block_id : BlockId) (name : String)
    → IsDeclaredIn cfg decls block_id name
    → mem name (decl_names cfg decls block_id) ≡ true
unfolding decl_names
decl_names-to cfg [] block_id name (i, d, block, at, within, named, full) = cc
decl_names-to cfg (var_decl ∷ decls) block_id name (zero, d, block, at, within, named, full) =
    let same : var_decl ≡ d = some-injective var_decl d at in
    let within' : block_containing cfg var_decl.node_id ≡ some (block_id, block) =
      subst (λ (n : Node). block_containing cfg n.node_id ≡ some (block_id, block)) (sym same)
        within in
    let named' : name_of var_decl ≡ name = subst (λ n. name_of n ≡ name) (sym same) named in
    let full' : (name_of var_decl == "") ≡ false =
      subst (λ n. (n == "") ≡ false) (sym named') full in
    decl_names_step cfg var_decl decls block_id block_id block name within'
    ∙ ground (
      arith,
      full',
      block_id_eq.beq_iff block_id block_id,
      string_eq.beq_iff name (name_of var_decl),
      named',
      mem-add name (name_of var_decl) (decl_names cfg decls block_id),
    )
decl_names-to cfg (var_decl ∷ decls) block_id name (suc i, d, block, at, within, named, full) =
    let later = decl_names-to cfg decls block_id name (i, d, block, at, within, named, full) in
    elim (Option-cases (block_containing cfg var_decl.node_id)) [
      | inl e ↦ rw (e, decl_names) later
      | inr ((decl_block, other), e) ↦
          decl_names_step cfg var_decl decls block_id decl_block other name e
          ∙ ground (arith, later, mem-add name (name_of var_decl) (decl_names cfg decls block_id))
    ]

-- One of the definitions is that of the variable without a value.
abbrev pub IsAmong : List Definition → String → Type 0
IsAmong ds name =
    (d : Definition) × (mem d ds ≡ true) × (d.site_node_id ≡ uninit) × (d.variable ≡ name)

later_definition :
    (d : Definition) (ds : List Definition) (name : String)
    → IsAmong ds name
    → IsAmong (d ∷ ds) name
later_definition d ds name (e, m, site, named) = (e, ground (arith, m), site, named)

pub reaching_uninit-from :
    (ds : List Definition) (names : List String) (name : String)
    → mem name (reaching_uninit ds names) ≡ true
    → IsAmong ds name ⊎ (mem name names ≡ true)
unfolding reaching_uninit
reaching_uninit-from [] names name m = inr m
reaching_uninit-from (d ∷ ds) names name m =
    elim (Bool-cases (d.site_node_id == uninit && name == d.variable)) [
      | inl y ↦ inl (
        d,
        ground (arith, definition_eq.beq_iff d d),
        (string_eq.beq_iff d.site_node_id uninit).0 (ground (arith, y)),
        sym ((string_eq.beq_iff name d.variable).0 (ground (arith, y))),
      )
      | inr n ↦
          let rest : mem name (reaching_uninit ds names) ≡ true =
            ground (arith, m, n, mem-add name d.variable (reaching_uninit ds names)) in
          elim (reaching_uninit-from ds names name rest) [
            | inl among ↦ inl (later_definition d ds name among)
            | inr k ↦ inr k
          ]
    ]

pub reaching_uninit-names :
    (ds : List Definition) (names : List String) (name : String)
    → mem name names ≡ true
    → mem name (reaching_uninit ds names) ≡ true
unfolding reaching_uninit
reaching_uninit-names [] names name m = m
reaching_uninit-names (d ∷ ds) names name m =
    let rest = reaching_uninit-names ds names name m in
    ground (arith, rest, mem-add name d.variable (reaching_uninit ds names))

pub reaching_uninit-to :
    (ds : List Definition) (names : List String) (d : Definition)
    → mem d ds ≡ true
    → d.site_node_id ≡ uninit
    → mem d.variable (reaching_uninit ds names) ≡ true
unfolding reaching_uninit
reaching_uninit-to [] names d m site = cc
reaching_uninit-to (e ∷ ds) names d m site = elim (Bool-cases (d == e)) [
  | inl y ↦
      let same = (definition_eq.beq_iff d e).0 y in
      let at : (e.site_node_id == uninit) ≡ true =
        (string_eq.beq_iff e.site_node_id uninit).1
          (subst (λ (f : Definition). f.site_node_id ≡ uninit) same site) in
      let named : d.variable ≡ e.variable = ap (λ (f : Definition). f.variable) same in
      ground (
        arith,
        at,
        (string_eq.beq_iff d.variable e.variable).1 named,
        mem-add d.variable e.variable (reaching_uninit ds names),
      )
  | inr n ↦
      let rest = reaching_uninit-to ds names d (ground (arith, m, n)) site in
      ground (arith, rest, mem-add d.variable e.variable (reaching_uninit ds names))
]
