-- ===== src/DataFlow/Tainted.antt =====
-- What the sets of `propagate_taint` hold: the variables that a source flows into along some walk.
use misra_c_agent.Base.{
  ℕ, String, true, some, List, [], ◌∷◌, ◌==◌, ◌≡◌, ◌↔◌, subst, ◌∙◌, arith, string_eq, mem,
  mem-append_eq, Bool-cases, inl, inr,
}
use misra_c_agent.Base.Tables.{Table, get, join, join-to}
use misra_c_agent.Base.Fixpoint.{IsTransfer, fixpoint_lem}
use misra_c_agent.Ast.{AstGraph}
use misra_c_agent.Cfg.{BlockId, block_id_eq, ControlFlowGraph}
use misra_c_agent.DataFlow.Reaching.{block_ids, sources_of}
use misra_c_agent.DataFlow.Taint.{taint_transfer, targets_in, block_items, assigned_in, taint_sets}
use misra_c_agent.DataFlow.Flows.{
  Through, Born, taint_transfer-from, taint_transfer-to, Through-target, Born-target,
}

-- A source flows into the variable along a walk to the end of `block_id`.
pub data IsTainted (fuel : ℕ) (sources : List String) (cfg : ControlFlowGraph) (graph : AstGraph)
    : BlockId → String → Type 0 where
  born :
      {block_id : BlockId} {y : String}
      → mem block_id (block_ids cfg) ≡ true
      → Born (block_items fuel sources cfg graph block_id) y
      → IsTainted fuel sources cfg graph block_id y
  flowed :
      {p block_id : BlockId} {x y : String}
      → mem block_id (block_ids cfg) ≡ true
      → mem p (sources_of cfg block_id) ≡ true
      → IsTainted fuel sources cfg graph p x
      → Through (block_items fuel sources cfg graph block_id) x y
      → IsTainted fuel sources cfg graph block_id y

module _ (fuel : ℕ) (sources : List String) (cfg : ControlFlowGraph) (graph : AstGraph) where
  mem-assigned_in :
      (ids : List BlockId) (block_id : BlockId) (y : String)
      → mem block_id ids ≡ true
      → mem y (targets_in (block_items fuel sources cfg graph block_id)) ≡ true
      → mem y (assigned_in fuel sources cfg graph ids) ≡ true
  unfolding assigned_in
  mem-assigned_in [] block_id y m t = cc
  mem-assigned_in (k ∷ ids) block_id y m t =
      let split =
        mem-append_eq y (targets_in (block_items fuel sources cfg graph k))
          (assigned_in fuel sources cfg graph ids) in
      elim (Bool-cases (block_id == k)) [
        | inl e ↦
            let t' : mem y (targets_in (block_items fuel sources cfg graph k)) ≡ true =
              subst (λ i. mem y (targets_in (block_items fuel sources cfg graph i)) ≡ true)
                ((block_id_eq.beq_iff block_id k).0 e) t in
            ground (arith, t', split)
        | inr n ↦ ground (arith, mem-assigned_in ids block_id y (ground (arith, m, n)) t, split)
      ]

  IsTainted-bounded :
      (block_id : BlockId) (y : String)
      → IsTainted fuel sources cfg graph block_id y
      → mem y (assigned_in fuel sources cfg graph (block_ids cfg)) ≡ true
  IsTainted-bounded block_id y (IsTainted.born m b) =
      mem-assigned_in (block_ids cfg) block_id y m (Born-target _ y b)
  IsTainted-bounded block_id y (IsTainted.flowed {p} {x = x} m q t h) =
      elim (Through-target (block_items fuel sources cfg graph block_id) x y h) [
        | inl e ↦
            subst (λ z. mem z (assigned_in fuel sources cfg graph (block_ids cfg)) ≡ true) e
              (IsTainted-bounded p x t)
        | inr k ↦ mem-assigned_in (block_ids cfg) block_id y m k
      ]

  abbrev transfer : BlockId → List String → List String
  transfer block_id incoming = taint_transfer (block_items fuel sources cfg graph block_id) incoming

  taint-IsTransfer :
      IsTransfer transfer
        (sources_of cfg)
        (block_ids cfg)
        (assigned_in fuel sources cfg graph (block_ids cfg))
        (λ block_id y. IsTainted fuel sources cfg graph block_id y)
  taint-IsTransfer = record {
    mono = λ n xs ys h y m.
        taint_transfer-to (block_items fuel sources cfg graph n) ys y
          (elim (taint_transfer-from (block_items fuel sources cfg graph n) xs y m) [
            | inl b ↦ inl b
            | inr (x, k, t) ↦ inr (x, h x k, t)
          ]);
    closed = λ n xs m h y k.
        elim (taint_transfer-from (block_items fuel sources cfg graph n) xs y k) [
          | inl b ↦ IsTainted.born m b
          | inr (x, r, t) ↦ let (p, q, u) = h x r in IsTainted.flowed m q u t
        ];
    bounded = IsTainted-bounded;
  }

  -- The loop ends, and its set at a block holds exactly the variables that a source flows into along some walk
  -- to the end of the block.
  pub taint_sets_exact :
      (out_sets : Table BlockId String) × (taint_sets fuel sources cfg graph ≡ some out_sets)
      × ((block_id : BlockId) (y : String)
          → (mem y (get out_sets block_id) ≡ true) ↔ IsTainted fuel sources cfg graph block_id y)
  unfolding taint_sets
  taint_sets_exact =
      let (s, ends, sound, stable) =
        fixpoint_lem transfer (sources_of cfg) (block_ids cfg)
          (assigned_in fuel sources cfg graph (block_ids cfg))
          (λ block_id y. IsTainted fuel sources cfg graph block_id y) taint-IsTransfer in
      (s, ends, λ n y. (sound n y, complete s stable n y))
    where
      complete :
          (s : Table BlockId String)
          → ((n : BlockId)
              → mem n (block_ids cfg) ≡ true
              → (x : String) → mem x (get s n) ≡ mem x (transfer n (join s (sources_of cfg n))))
          → (n : BlockId) (y : String) → IsTainted fuel sources cfg graph n y
          → mem y (get s n) ≡ true
      complete s stable n y (IsTainted.born m b) =
          stable n m y
          ∙ taint_transfer-to (block_items fuel sources cfg graph n) (join s (sources_of cfg n)) y
              (inl b)
      complete s stable n y (IsTainted.flowed {p} {x = x} m q t h) =
          stable n m y
          ∙ taint_transfer-to (block_items fuel sources cfg graph n) (join s (sources_of cfg n)) y
              (inr (x, join-to s (sources_of cfg n) x p q (complete s stable p x t), h))
