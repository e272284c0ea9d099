-- ===== src/Cfg/Collapse.antt =====
-- One step of `_prune_empty_pass_through_blocks`: to collapse a block keeps which of the others are
-- reachable.
use misra_c_agent.Base.{
  Bool-cases, Bool, true, false, List, [], ◌∷◌, ◌≡◌, refl, ◌↔◌, inl, inr, ◌==◌, ◌&&◌, ◌||◌, not,
  mem, if◌then◌else◌, Option, none, some, lookup, ap, subst, keys, filter_by, mem-keys-delete,
}
use misra_c_agent.Base.Search.{targets}
use misra_c_agent.Base.Contract.{contract, Reach-contract}
use misra_c_agent.Cfg.{
  BlockId, entry_id, exit_id, b, block_id_eq, is_real, CfgEdge, BasicBlock, ControlFlowGraph, pairs,
  successors,
}
use misra_c_agent.Cfg.Reachable.{IsReachable}
use misra_c_agent.Cfg.Finish.{retarget, collapse, sole_fallthrough, pass_through, is_nil}

pairs-if :
    (d c : Bool) (t : BlockId) (edge : CfgEdge) (rest : List CfgEdge)
    → pairs (if d then rest else (if c then record edge { target = t } else edge) ∷ rest)
      ≡ (if d then pairs rest else (edge.source, if c then t else edge.target) ∷ pairs rest)
pairs-if true c t edge rest = refl
pairs-if false true t edge rest = refl
pairs-if false false t edge rest = refl

pairs-retarget :
    (v t : BlockId) (edges : List CfgEdge) → pairs (retarget v t edges) ≡ contract v t (pairs edges)
unfolding retarget
pairs-retarget v t [] = refl
pairs-retarget v t (edge ∷ edges) =
    rw (← pairs-retarget v t edges)
      (pairs-if (edge.source == v) (edge.target == v) t edge (retarget v t edges))

abbrev edge_targets : List CfgEdge → List BlockId
edge_targets [] = []
edge_targets (edge ∷ edges) = edge.target ∷ edge_targets edges

targets-filter :
    (v : BlockId) (edges : List CfgEdge)
    → targets (pairs edges) v ≡ edge_targets (filter_by (λ edge. edge.source == v) edges)
targets-filter v [] = refl
targets-filter v (edge ∷ edges) = elim (Bool-cases (edge.source == v)) [
  | inl p ↦ simp (p, targets-filter v edges)
  | inr p ↦ simp (p, targets-filter v edges)
]

none_or_some :
    {A : Type 0} (c : Bool) (x t : A)
    → (if c then none else some x) ≡ some t
    → (c ≡ false) × (x ≡ t)
none_or_some true x t h = cc
none_or_some false x t h = (refl, cc)

or_false : (a c : Bool) → (a || c) ≡ false → c ≡ false
or_false false c h = h
or_false true c h = cc

sole_cases :
    (v t : BlockId) (out : List CfgEdge)
    → sole_fallthrough v out ≡ some t
    → (edge_targets out ≡ t ∷ []) × ((t == v) ≡ false)
unfolding sole_fallthrough
sole_cases v t [] h = cc
sole_cases v t (edge ∷ []) h =
    let (stays, same) = none_or_some _ edge.target t h in
    (ap (λ x. x ∷ []) same, subst (λ x. (x == v) ≡ false) same (or_false _ _ stays))
sole_cases v t (e1 ∷ e2 ∷ es) h = cc

targets-successors :
    (cfg : ControlFlowGraph) (v t : BlockId)
    → sole_fallthrough v (successors cfg v) ≡ some t
    → (targets (pairs cfg.edges) v ≡ t ∷ []) × ((t == v) ≡ false)
unfolding successors
targets-successors cfg v t h = rw (targets-filter v cfg.edges) (sole_cases v t (successors cfg v) h)

-- What the tests of a pass say of a block that it collapses.
pub record Collapsible (cfg : ControlFlowGraph) (v t : BlockId) : Type 0 where
  pub real : is_real v ≡ true
  pub block : BasicBlock
  pub stored : lookup v cfg.blocks ≡ some block
  pub sole : targets (pairs cfg.edges) v ≡ t ∷ []
  pub other : (t == v) ≡ false

pub pass_through-Collapsible :
    (cfg : ControlFlowGraph) (v t : BlockId) → pass_through cfg v ≡ some t → Collapsible cfg v t
unfolding pass_through
pass_through-Collapsible cfg entry_id t h = cc
pass_through-Collapsible cfg exit_id t h = cc
pass_through-Collapsible cfg (b n) t h = go (lookup (b n) cfg.blocks) refl h
  where
    empty :
        (block : BasicBlock)
        → (if is_nil block.statements then sole_fallthrough (b n) (successors cfg (b n)) else none)
          ≡ some t
        → sole_fallthrough (b n) (successors cfg (b n)) ≡ some t
    empty block k = elim (Bool-cases (is_nil block.statements)) [
      | inl e ↦ rw e at k
      | inr e ↦ cc (let k' : none ≡ some t = rw e at k in k')
    ]

    go :
        (o : Option BasicBlock)
        → lookup (b n) cfg.blocks ≡ o
        → elim o as (λ _. Option BlockId) [
          | none ↦ none
          | some block ↦
              if is_nil block.statements
              then sole_fallthrough (b n) (successors cfg (b n))
              else none
        ]
          ≡ some t
        → Collapsible cfg (b n) t
    go none e k = cc
    go (some block) e k =
        let (sole, other) = targets-successors cfg (b n) t (empty block k) in
        record { real = refl; block = block; stored = e; sole = sole; other = other }

-- What pruning keeps: no block appears, and those that are left are as reachable as before.
pub record Pruned (cfg cfg' : ControlFlowGraph) : Type 0 where
  pub kept : (y : BlockId) → mem y (keys cfg'.blocks) ≡ true → mem y (keys cfg.blocks) ≡ true
  pub same :
      (y : BlockId) → mem y (keys cfg'.blocks) ≡ true → IsReachable cfg y ↔ IsReachable cfg' y

pub Pruned-refl : (cfg : ControlFlowGraph) → Pruned cfg cfg
Pruned-refl cfg = record { kept = λ y m. m; same = λ y m. (λ r. r, λ r. r) }

pub Pruned-trans : (c1 c2 c3 : ControlFlowGraph) → Pruned c1 c2 → Pruned c2 c3 → Pruned c1 c3
Pruned-trans c1 c2 c3 p q = record {
  kept = λ y m. p.kept y (q.kept y m);
  same = λ y m.
      let (to, from) = p.same y (q.kept y m) in
      let (to', from') = q.same y m in (λ r. to' (to r), λ r. from (from' r));
}

and_parts : (a c : Bool) → (a && not c) ≡ true → (a ≡ true) × (c ≡ false)
and_parts true false h = (refl, refl)
and_parts true true h = cc
and_parts false c h = cc

entry-ne-real : (v : BlockId) → is_real v ≡ true → (entry_id == v) ≡ false
entry-ne-real entry_id h = cc
entry-ne-real exit_id h = refl
entry-ne-real (b n) h = refl

pub collapse-Pruned :
    (cfg : ControlFlowGraph) (v t : BlockId) → Collapsible cfg v t → Pruned cfg (collapse v t cfg)
unfolding collapse
collapse-Pruned cfg v t c = record {
  kept = λ y m. (and_parts _ _ (rw mem-keys-delete at m)).0;
  same = λ y m. rw (pairs-retarget v t cfg.edges) (
      Reach-contract v t (pairs cfg.edges) c.other c.sole entry_id (entry-ne-real v c.real) y
        (and_parts _ _ (rw mem-keys-delete at m)).1);
}
