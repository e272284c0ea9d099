-- ===== src/DataFlow/Definitions.antt =====
-- What `reaching_definitions` computes, and which reads `uninitialized_reads` reports in a block.
use misra_c_agent.Base.{
  ℕ, String, Bool, true, false, some, List, [], ◌∷◌, ◌++◌, ◌==◌, ◌&&◌, not, ◌≡◌, ◌↔◌, refl, subst,
  ap, ◌∙◌, arith, string_eq, mem, mem-filter_by, filter_by, any_of, any_of-append, if◌then◌else◌,
  Bool-cases, inl, inr,
}
use misra_c_agent.Base.Tables.{Table, get}
use misra_c_agent.Base.GenKill.{Flows, gen_kill-fixpoint}
use misra_c_agent.Ast.{Node, AstGraph}
use misra_c_agent.Cfg.{BlockId, block_id_eq, ControlFlowGraph}
use misra_c_agent.DataFlow.{Event, reads}
use misra_c_agent.DataFlow.Reaching.{
  Definition, definition_eq, block_ids, sources_of, gen_of, killed, reaching_definitions,
  uninit_scan,
}

-- The definition is generated in a block from which a walk leads to the end of `block_id`, and no later block
-- of the walk writes its variable.
abbrev pub ReachesEnd : ℕ → Node → ControlFlowGraph → AstGraph → Definition → BlockId → Type 0
ReachesEnd fuel function_node cfg graph d block_id =
    Flows (gen_of fuel function_node cfg graph) (killed fuel cfg graph) (sources_of cfg)
      (block_ids cfg) d block_id

-- The loop ends, and it assigns to a block exactly the definitions that reach its end.
pub reaching_definitions_exact :
    (fuel : ℕ) (function_node : Node) (cfg : ControlFlowGraph) (graph : AstGraph)
    → (out_sets : Table BlockId Definition) × (reaching_definitions fuel function_node cfg graph
        ≡ some out_sets)
      × ((block_id : BlockId) (d : Definition)
          → (mem d (get out_sets block_id) ≡ true)
            ↔ ReachesEnd fuel function_node cfg graph d block_id)
unfolding reaching_definitions
reaching_definitions_exact fuel function_node cfg graph =
    gen_kill-fixpoint (gen_of fuel function_node cfg graph) (killed fuel cfg graph) (sources_of cfg)
      (block_ids cfg)

-- One of the events writes the variable.
abbrev pub is_written_by : List Event → String → Bool
is_written_by events name =
    any_of (λ (event : Event). event.is_write && event.variable == name) events

-- The names of `reaching` that none of the events writes.
unfoldable pub unwritten : List Event → List String → List String
unwritten events reaching = filter_by (λ name. not (is_written_by events name)) reaching

mem-unwritten :
    (events : List Event) (reaching : List String) (name : String)
    → mem name (unwritten events reaching) ≡ (mem name reaching && not (is_written_by events name))
unfolding unwritten
mem-unwritten events reaching name = mem-filter_by (λ n. not (is_written_by events n)) name reaching

-- The scan depends only on which names are in the set.
uninit_scan-same :
    (events : List Event) (xs ys : List String)
    → ((name : String) → mem name xs ≡ mem name ys)
    → uninit_scan events xs ≡ uninit_scan events ys
unfolding uninit_scan
uninit_scan-same [] xs ys h = refl
uninit_scan-same (event ∷ events) xs ys h =
    let without = λ (zs : List String). filter_by (λ name. not (name == event.variable)) zs in
    let skipped = uninit_scan-same events xs ys h in
    let rest : uninit_scan events (without xs) ≡ uninit_scan events (without ys) =
      uninit_scan-same events (without xs) (without ys) (λ name. ground (
        arith,
        h name,
        mem-filter_by (λ n. not (n == event.variable)) name xs,
        mem-filter_by (λ n. not (n == event.variable)) name ys,
      )) in
    ground (arith, h event.variable, skipped, rest)

-- What the scan carries past an event whose variable is in the set.
abbrev carried : Event → List String → List String
carried event reaching =
    if event.is_write then filter_by (λ name. not (name == event.variable)) reaching else reaching

mem-carried :
    (event : Event) (reaching : List String) (name : String)
    → mem name (carried event reaching)
      ≡ (mem name reaching && not (event.is_write && event.variable == name))
mem-carried event reaching name = ground (
  arith,
  mem-filter_by (λ n. not (n == event.variable)) name reaching,
  string_eq.beq_iff name event.variable,
  string_eq.beq_iff event.variable name,
)

-- Past `event`, whether the scan skips it or not, the names that the later events leave are the same.
unwritten-carried :
    (event : Event) (before : List Event) (reaching : List String) (name : String)
    → mem name (unwritten before (carried event reaching))
      ≡ mem name (unwritten (event ∷ before) reaching)
unwritten-carried event before reaching name = ground (
  arith,
  mem-unwritten before (carried event reaching) name,
  mem-unwritten (event ∷ before) reaching name,
  mem-carried event reaching name,
)

carried-absent :
    (event : Event) (reaching : List String) (name : String)
    → mem event.variable reaching ≡ false
    → mem name (carried event reaching) ≡ mem name reaching
carried-absent event reaching name absent = elim (Bool-cases (event.variable == name)) [
  | inl y ↦
      let gone : mem name reaching ≡ false =
        subst (λ n. mem n reaching ≡ false) ((string_eq.beq_iff event.variable name).0 y) absent in
      ground (arith, y, gone, mem-carried event reaching name)
  | inr y ↦ ground (arith, y, mem-carried event reaching name)
]

unwritten-absent :
    (event : Event) (before : List Event) (reaching : List String) (name : String)
    → mem event.variable reaching ≡ false
    → mem name (unwritten before reaching) ≡ mem name (unwritten (event ∷ before) reaching)
unwritten-absent event before reaching name absent = ground (
  arith,
  carried-absent event reaching name absent,
  unwritten-carried event before reaching name,
  mem-unwritten before (carried event reaching) name,
  mem-unwritten before reaching name,
)

scan-append :
    (before rest : List Event) (reaching : List String)
    → uninit_scan (before ++ rest) reaching
      ≡ uninit_scan before reaching ++ uninit_scan rest (unwritten before reaching)
unfolding uninit_scan
scan-append [] rest reaching =
    uninit_scan-same rest reaching (unwritten [] reaching)
      (λ name. ground (arith, mem-unwritten [] reaching name))
scan-append (event ∷ before) rest reaching =
    let old = unwritten (event ∷ before) reaching in
    elim (Bool-cases (mem event.variable reaching)) [
      | inr n ↦
          rw (n, uninit_scan)
            (scan-append before rest reaching
              ∙ ap (λ l. uninit_scan before reaching ++ l)
                  (uninit_scan-same rest (unwritten before reaching) old
                    (λ name. unwritten-absent event before reaching name n)))
      | inl y ↦
          let later : uninit_scan (before ++ rest) (carried event reaching)
              ≡ uninit_scan before (carried event reaching) ++ uninit_scan rest old =
            scan-append before rest (carried event reaching)
            ∙ ap (λ l. uninit_scan before (carried event reaching) ++ l)
                (uninit_scan-same rest (unwritten before (carried event reaching)) old
                  (λ name. unwritten-carried event before reaching name)) in
          elim (Bool-cases (reads event)) [
            | inl r ↦ rw (y, r, uninit_scan) (ap (λ l. event.node ∷ l) later)
            | inr r ↦ rw (y, r, uninit_scan) later
          ]
    ]

mem-unwritten-append :
    (before : List Event) (event : Event) (reaching : List String) (name : String)
    → mem name (unwritten (event ∷ []) (unwritten before reaching))
      ≡ mem name (unwritten (before ++ event ∷ []) reaching)
mem-unwritten-append before event reaching name = ground (
  arith,
  mem-unwritten (event ∷ []) (unwritten before reaching) name,
  mem-unwritten before reaching name,
  mem-unwritten (before ++ event ∷ []) reaching name,
  any_of-append (λ (e : Event). e.is_write && e.variable == name) before (event ∷ []),
)

scan_head :
    (event : Event) (after : List Event) (reaching : List String)
    → uninit_scan (event ∷ after) reaching
      ≡ (if reads event && mem event.variable reaching then event.node ∷ [] else [])
        ++ uninit_scan after (unwritten (event ∷ []) reaching)
unfolding uninit_scan
scan_head event after reaching =
    scan-append (event ∷ []) after reaching
    ∙ ap (λ l. l ++ uninit_scan after (unwritten (event ∷ []) reaching)) first
  where
    first :
        uninit_scan (event ∷ []) reaching
        ≡ (if reads event && mem event.variable reaching then event.node ∷ [] else [])
    first = ground arith

-- The reads among the events, after the events `before`, of a variable that is one of `starts` and that no event
-- in front of the read writes.
unfoldable pub observed : List String → List Event → List Event → List Node
observed starts before [] = []
observed starts before (event ∷ after) =
    (if reads event && (mem event.variable starts && not (is_written_by before event.variable))
      then event.node ∷ []
      else [])
    ++ observed starts (before ++ event ∷ []) after

-- The scan reports those reads.
pub uninit_scan_lem :
    (starts : List String) (before events : List Event)
    → uninit_scan events (unwritten before starts) ≡ observed starts before events
unfolding uninit_scan observed
uninit_scan_lem starts before [] = refl
uninit_scan_lem starts before (event ∷ after) =
    rw
      (
        scan_head event after (unwritten before starts),
        mem-unwritten before starts event.variable,
        uninit_scan-same after (unwritten (event ∷ []) (unwritten before starts))
            (unwritten (before ++ event ∷ []) starts) (mem-unwritten-append before event starts),
        uninit_scan_lem starts (before ++ event ∷ []) after,
      )
      refl

pub observed_lem :
    (starts : List String) (events : List Event)
    → uninit_scan events starts ≡ observed starts [] events
observed_lem starts events =
    uninit_scan-same events starts (unwritten [] starts)
      (λ name. ground (arith, mem-unwritten [] starts name))
    ∙ uninit_scan_lem starts [] events
