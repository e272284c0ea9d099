-- ===== src/Cfg/Prune.antt =====
-- `_prune_empty_pass_through_blocks`: the passes end, keep which of the remaining blocks are
-- reachable, and leave no block to collapse.
use misra_c_agent.Base.{
  ℕ, zero, suc, ◌<◌, ◌≤◌, Bool-cases, Bool, true, false, List, [], ◌∷◌, ◌≡◌, refl, ◌↔◌, ◌⊎◌, inl,
  inr, arith, ◌==◌, mem, none, some, length, subst, sym, Option-cases, keys, length-delete-lt,
}
use misra_c_agent.Cfg.{BlockId, block_id_beq_iff, block_id_eq, ControlFlowGraph}
use misra_c_agent.Cfg.Reachable.{IsReachable}
use misra_c_agent.Cfg.Finish.{
  collapse, pass_through, prune_pass, prune, prune_empty_pass_through_blocks,
}
use misra_c_agent.Cfg.Collapse.{
  Collapsible, pass_through-Collapsible, Pruned, Pruned-refl, Pruned-trans, collapse-Pruned,
}

collapse_shrinks :
    (cfg : ControlFlowGraph) (v t : BlockId)
    → Collapsible cfg v t
    → length (collapse v t cfg).blocks < length cfg.blocks
unfolding collapse
collapse_shrinks cfg v t c = length-delete-lt v c.block cfg.blocks c.stored

-- One pass over `ids`: it reports a change only if it deleted a block, and otherwise none of `ids`
-- could be collapsed.
record Pass (ids : List BlockId) (cfg : ControlFlowGraph) (changed : Bool)
    (result : ControlFlowGraph × Bool) : Type 0 where
  pruned : Pruned cfg result.0
  shorter : length result.0.blocks ≤ length cfg.blocks
  change : result.1 ≡ true → (changed ≡ true) ⊎ (length result.0.blocks < length cfg.blocks)
  stable :
      result.1 ≡ false
      → (result.0 ≡ cfg)
        × (changed ≡ false)
        × ((y : BlockId) → mem y ids ≡ true → pass_through cfg y ≡ none)

prune_pass-Pass :
    (ids : List BlockId) (cfg : ControlFlowGraph) (changed : Bool)
    → Pass ids cfg changed (prune_pass ids cfg changed)
unfolding prune_pass
prune_pass-Pass [] cfg changed = record {
  pruned = Pruned-refl cfg;
  shorter = omega arith;
  change = λ e. inl e;
  stable = λ e. (refl, e, λ y m. cc);
}
prune_pass-Pass (v ∷ ids) cfg changed = elim (Option-cases (pass_through cfg v)) [
  | inl e ↦
      let r = prune_pass-Pass ids cfg changed in
      rw (e, prune_pass)
        (record {
          pruned = r.pruned;
          shorter = r.shorter;
          change = r.change;
          stable = λ f.
              let (same, before, all) = r.stable f in
              (
                same,
                before,
                λ y m. elim (Bool-cases (y == v)) [
                  | inl p ↦
                      subst (λ u. pass_through cfg u ≡ none) (sym ((block_id_beq_iff y v).0 p)) e
                  | inr n ↦ all y (rw n at m)
                ],
              );
        })
  | inr (t, e) ↦
      let c = pass_through-Collapsible cfg v t e in
      let smaller = collapse_shrinks cfg v t c in
      let r = prune_pass-Pass ids (collapse v t cfg) true in
      rw (e, prune_pass)
        (record {
          pruned = Pruned-trans cfg (collapse v t cfg) _ (collapse-Pruned cfg v t c) r.pruned;
          shorter = omega (arith, r.shorter);
          change = λ f. inr (omega (arith, r.shorter));
          stable = λ f. cc ((r.stable f).1);
        })
]

prune_lem :
    (fuel : ℕ) (cfg : ControlFlowGraph)
    → length cfg.blocks < fuel
    → (cfg' : ControlFlowGraph) × (prune fuel cfg ≡ some cfg')
      × Pruned cfg cfg'
      × ((y : BlockId) → mem y (keys cfg'.blocks) ≡ true → pass_through cfg' y ≡ none)
unfolding prune
prune_lem zero cfg h = elim h [ ]
prune_lem (suc fuel) cfg h =
    let r = prune_pass-Pass (keys cfg.blocks) cfg false in
    let (cfg1, changed) = prune_pass (keys cfg.blocks) cfg false in
    elim (Bool-cases changed) [
      | inl c ↦
          let smaller : length cfg1.blocks < length cfg.blocks = elim (r.change c) [
            | inl f ↦ cc
            | inr lt ↦ lt
          ] in
          let (cfg2, e, p, q) = prune_lem fuel cfg1 (omega arith) in
          (cfg2, rw (c, prune) e, Pruned-trans cfg cfg1 cfg2 r.pruned p, q)
      | inr c ↦
          let (same, before, all) = r.stable c in
          (
            cfg1,
            rw (c, prune) refl,
            r.pruned,
            λ y m.
                subst (λ g. pass_through g y ≡ none) (sym same)
                  (all y (subst (λ (g : ControlFlowGraph). mem y (keys g.blocks) ≡ true) same m)),
          )
    ]

-- Pruning ends. Which of the remaining blocks are reachable from the entry stays as it was, no block
-- appears, and none is left that the tests of a pass would collapse.
pub prune_empty_pass_through_blocks_sound :
    (cfg : ControlFlowGraph)
    → (cfg' : ControlFlowGraph) × (prune_empty_pass_through_blocks cfg ≡ some cfg')
      × ((y : BlockId)
          → mem y (keys cfg'.blocks) ≡ true
          → (mem y (keys cfg.blocks) ≡ true)
            × (IsReachable cfg y ↔ IsReachable cfg' y)
            × (pass_through cfg' y ≡ none))
unfolding prune_empty_pass_through_blocks
prune_empty_pass_through_blocks_sound cfg =
    let (cfg', e, p, q) = prune_lem (suc (length cfg.blocks)) cfg (omega arith) in
    (cfg', e, λ y m. (p.kept y m, p.same y m, q y m))
