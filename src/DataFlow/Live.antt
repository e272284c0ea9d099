-- ===== src/DataFlow/Live.antt =====
-- What `liveness` computes, and which writes `dead_stores` reports in a block.
use misra_c_agent.Base.{
  ℕ, String, Bool, true, some, List, [], ◌∷◌, ◌++◌, ◌==◌, ◌&&◌, not, ◌≡◌, ◌↔◌, refl, ap, ◌∙◌, arith,
  string_eq, mem, mem-filter_by, mem-add, filter_by, if◌then◌else◌, reverse, reverse-append,
  flat_map, Dict,
}
use misra_c_agent.Base.Tables.{Table, get}
use misra_c_agent.Base.GenKill.{Flows}
use misra_c_agent.Base.Backward.{backward_lem}
use misra_c_agent.Ast.{Node, AstGraph}
use misra_c_agent.Cfg.{BlockId, block_id_eq, BasicBlock, ControlFlowGraph}
use misra_c_agent.DataFlow.{Event, reads, block_events}
use misra_c_agent.DataFlow.Reaching.{block_ids}
use misra_c_agent.DataFlow.Liveness.{
  targets_of, use_of, defines, live_tables, liveness, before_event, dead_scan, dead_in_blocks,
  dead_stores,
}

-- From the start of `block_id` a walk leads to a block that reads the variable before it writes it, and no block
-- before that one writes it.
abbrev pub IsLiveAt : ℕ → ControlFlowGraph → AstGraph → String → BlockId → Type 0
IsLiveAt fuel cfg graph name block_id =
    Flows (use_of fuel cfg graph) (defines fuel cfg graph) (targets_of cfg) (block_ids cfg) name
      block_id

-- The loop ends, and it assigns to a block exactly the variables that are live at the start of one of its
-- successors.
pub liveness_exact :
    (fuel : ℕ) (cfg : ControlFlowGraph) (graph : AstGraph)
    → (live_out : Table BlockId String) × (liveness fuel cfg graph ≡ some live_out)
      × ((block_id : BlockId) (name : String)
          → mem block_id (block_ids cfg) ≡ true
          → (mem name (get live_out block_id) ≡ true) ↔ (
              (next : BlockId) × (mem next (targets_of cfg block_id) ≡ true)
              × IsLiveAt fuel cfg graph name next))
unfolding liveness live_tables
liveness_exact fuel cfg graph =
    let (s, ends, needs, out) =
      backward_lem (use_of fuel cfg graph) (defines fuel cfg graph) (targets_of cfg)
        (block_ids cfg) in
    (s.1, rw (ends, liveness, live_tables) refl, out)

-- The events read the variable before they overwrite it, or do neither and it is live after them.
unfoldable pub needed : List Event → List String → String → Bool
needed [] live name = mem name live
needed (event ∷ events) live name =
    let rest = needed events live name in if event.variable == name then reads event else rest

-- The set past all of the reversed events.
unfoldable pub before_all : List Event → List String → List String
unfolding before_event
before_all [] live = live
before_all (event ∷ events) live = before_all events (before_event event live)

before_all-append :
    (xs ys : List Event) (live : List String)
    → before_all (xs ++ ys) live ≡ before_all ys (before_all xs live)
unfolding before_all
before_all-append [] ys live = refl
before_all-append (x ∷ xs) ys live = before_all-append xs ys (before_event x live)

mem-before_event :
    (event : Event) (live : List String) (name : String)
    → mem name (before_event event live)
      ≡ (if event.variable == name then reads event else mem name live)
unfolding before_event
mem-before_event event live name =
    let pure = event.is_write && not event.is_read_too in
    let without = filter_by (λ n. not (n == event.variable)) live in
    ground (
      arith,
      string_eq.beq_iff event.variable name,
      string_eq.beq_iff name event.variable,
      mem-filter_by (λ n. not (n == event.variable)) name live,
      mem-add name event.variable without,
      mem-add name event.variable live,
    )

pub before_all-reverse :
    (events : List Event) (live : List String) (name : String)
    → mem name (before_all (reverse events) live) ≡ needed events live name
unfolding before_all needed
before_all-reverse [] live name = refl
before_all-reverse (event ∷ events) live name =
    rw
      (
        reverse-append (event ∷ []) events,
        before_all-append (reverse events) (event ∷ []) live,
        mem-before_event event (before_all (reverse events) live) name,
        before_all-reverse events live name,
      )
      refl

dead_scan-append :
    (xs ys : List Event) (live : List String)
    → dead_scan (xs ++ ys) live ≡ dead_scan xs live ++ dead_scan ys (before_all xs live)
unfolding dead_scan before_all
dead_scan-append [] ys live = refl
dead_scan-append (x ∷ xs) ys live = ground (arith, dead_scan-append xs ys (before_event x live))

dead_one :
    (event : Event) (after : List Event) (live : List String)
    → dead_scan (event ∷ []) (before_all (reverse after) live) ≡ (
        if event.is_write && not event.is_read_too && not (needed after live event.variable)
        then event.node ∷ []
        else [])
unfolding dead_scan
dead_one event after live = ground (arith, before_all-reverse after live event.variable)

-- The writes among the events, the last one first, that do not read their variable and whose value is not needed by
-- the events behind them, nor at the end, where `live` is live.
unfoldable pub unneeded : List Event → List String → List Node
unneeded [] live = []
unneeded (event ∷ after) live =
    unneeded after live
    ++ (if event.is_write && not event.is_read_too && not (needed after live event.variable)
        then event.node ∷ []
        else [])

-- The scan of the reversed events reports those writes.
dead_scan-reverse :
    (events : List Event) (live : List String)
    → dead_scan (reverse events) live ≡ unneeded events live
unfolding dead_scan unneeded
dead_scan-reverse [] live = refl
dead_scan-reverse (event ∷ after) live =
    ap (λ l. dead_scan l live) (reverse-append (event ∷ []) after)
    ∙ dead_scan-append (reverse after) (event ∷ []) live
    ∙ rw (dead_one event after live, dead_scan-reverse after live) refl

dead_in_blocks_lem :
    (fuel : ℕ) (graph : AstGraph) (live_out : Table BlockId String)
    (blocks : Dict BlockId BasicBlock)
    → dead_in_blocks fuel graph live_out blocks
      ≡ flat_map
          (λ (row : BlockId × BasicBlock).
            unneeded (block_events fuel row.1 graph) (get live_out row.0))
          blocks
unfolding dead_in_blocks
dead_in_blocks_lem fuel graph live_out [] = refl
dead_in_blocks_lem fuel graph live_out ((block_id, block) ∷ blocks) =
    rw
      (
        dead_scan-reverse (block_events fuel block graph) (get live_out block_id),
        dead_in_blocks_lem fuel graph live_out blocks,
      )
      refl

-- `dead_stores` ends, and it reports, block after block and in a block from the last event to the first, the writes that
-- do not read their variable and whose value is not needed: the later events of the block overwrite the
-- variable before any of them reads it, or none of them touches it and it is not live at the end of
-- the block, that is at the start of a successor.
pub dead_stores_exact :
    (fuel : ℕ) (cfg : ControlFlowGraph) (graph : AstGraph)
    → (stores : List Node) × (live : BlockId → List String) × (dead_stores fuel cfg graph
        ≡ some stores)
      × (stores
          ≡ flat_map
              (λ (row : BlockId × BasicBlock).
                unneeded (block_events fuel row.1 graph) (live row.0))
              cfg.blocks)
      × ((block_id : BlockId) (name : String)
          → mem block_id (block_ids cfg) ≡ true
          → (mem name (live block_id) ≡ true) ↔ (
              (next : BlockId) × (mem next (targets_of cfg block_id) ≡ true)
              × IsLiveAt fuel cfg graph name next))
unfolding dead_stores
dead_stores_exact fuel cfg graph =
    let (live_out, ends, exact) = liveness_exact fuel cfg graph in
    (
      dead_in_blocks fuel graph live_out cfg.blocks,
      get live_out,
      rw (ends, dead_stores) refl,
      dead_in_blocks_lem fuel graph live_out cfg.blocks,
      exact,
    )
