-- ===== src/Cfg/Sequences.antt =====
-- `_build_block_sequence` keeps the builder's state well-formed, whatever the fuel.
use misra_c_agent.Base.{ℕ, zero, suc, String, List, [], ◌∷◌, ◌++◌, ◌≡◌, insert, string_eq, Option}
use misra_c_agent.Ast.{Node, AstGraph, children}
use misra_c_agent.Cfg.{BlockId}
use misra_c_agent.Cfg.Builder.{
  Builder, LoopStack, new_block, add_edge, append_statement, label_block, label_name,
}
use misra_c_agent.Cfg.WellFormed.{
  Has, IsWellFormed, ExtendsWith, Extends-refl, Extends-trans, new_block-ExtendsWith,
  add_edge-Extends, append_statement-Extends, set_tail-Extends, add_label-Extends, add_goto-Extends,
  label_block-ExtendsWith,
}
use misra_c_agent.Cfg.Joined.{
  StackIn, stack-grows, then_block, jump_edge-Extends, break_target-Has, continue_target-Has, Keeps,
}
use misra_c_agent.Cfg.Build.{
  StatementKind, label, if_stmt, loop, switch, compound, return_stmt, break_stmt, continue_stmt,
  goto, plain, classify, Sequencer, jump_edge, break_target, continue_target, handle_statement,
  run_statements, run_sequence, build_block_sequence,
}
use misra_c_agent.Cfg.Handlers.{
  handle_if-ExtendsWith, handle_loop-ExtendsWith, handle_switch-ExtendsWith,
}

module _ (rec : Sequencer) (graph : AstGraph) (exit_target : BlockId) (keeps : Keeps rec) where
  -- A jump statement: it ends the current block, adds at most an edge, and a new block starts.
  jump-ExtendsWith :
      (statement : Node) (x : BlockId) (target : Option BlockId) (kind : String) (s : Builder)
      → IsWellFormed s
      → Has s.blocks x
      → ((y : BlockId) → target ≡ Option.some y → Has s.blocks y)
      → ExtendsWith s
          (new_block "normal" (jump_edge x target kind (append_statement x statement s)))
  jump-ExtendsWith statement x target kind s w hx ht =
      let s1 = append_statement x statement s in
      let e1 = append_statement-Extends x statement s w in
      let e2 =
        jump_edge-Extends x target kind s1 e1.wf (e1.grows x hx) (λ y q. e1.grows y (ht y q)) in
      then_block s (jump_edge x target kind s1) "normal" (Extends-trans e1 e2)

  handle_statement-ExtendsWith :
      (kind : StatementKind) (stack : LoopStack) (statement : Node) (x : BlockId) (s : Builder)
      → IsWellFormed s
      → StackIn s stack
      → Has s.blocks x
      → Has s.blocks exit_target
      → ExtendsWith s (handle_statement rec graph exit_target kind stack statement x s)
  unfolding handle_statement
  handle_statement-ExtendsWith label stack statement x s w h hx ht =
      let (y, s1) = label_block x s in
      let r = label_block-ExtendsWith x s w hx in
      let name = label_name statement in
      let e2 = add_label-Extends name y s1 r.ext.wf r.found in
      let s2 : Builder = record s1 { label_targets = insert name y s1.label_targets } in
      let e3 = append_statement-Extends y statement s2 e2.wf in
      record {
        ext = Extends-trans r.ext (Extends-trans e2 e3);
        found = e3.grows y (e2.grows y r.found);
      }
  handle_statement-ExtendsWith if_stmt stack statement x s w h hx ht =
      handle_if-ExtendsWith rec graph exit_target keeps stack statement x s w h hx
  handle_statement-ExtendsWith loop stack statement x s w h hx ht =
      handle_loop-ExtendsWith rec graph exit_target keeps stack statement x s w h hx
  handle_statement-ExtendsWith switch stack statement x s w h hx ht =
      handle_switch-ExtendsWith rec graph exit_target keeps stack statement x s w h hx
  handle_statement-ExtendsWith compound stack statement x s w h hx ht =
      let kids = children graph statement.node_id in
      let (entry, s1) = rec stack kids s in
      let r = keeps stack kids s w h in
      let e2 = add_edge-Extends x entry "fallthrough" s1 r.ext.wf (r.ext.grows x hx) r.found in
      then_block s (add_edge x entry "fallthrough" s1) "normal" (Extends-trans r.ext e2)
  handle_statement-ExtendsWith return_stmt stack statement x s w h hx ht =
      let s1 = append_statement x statement s in
      let e1 = append_statement-Extends x statement s w in
      let e2 =
        add_edge-Extends x exit_target "return" s1 e1.wf (e1.grows x hx)
          (e1.grows exit_target ht) in
      then_block s (add_edge x exit_target "return" s1) "normal" (Extends-trans e1 e2)
  handle_statement-ExtendsWith break_stmt stack statement x s w h hx ht =
      jump-ExtendsWith statement x (break_target stack) "break" s w hx
        (λ y. break_target-Has s stack y h)
  handle_statement-ExtendsWith continue_stmt stack statement x s w h hx ht =
      jump-ExtendsWith statement x (continue_target stack) "continue" s w hx
        (λ y. continue_target-Has s stack y h)
  handle_statement-ExtendsWith goto stack statement x s w h hx ht =
      let s1 = append_statement x statement s in
      let e1 = append_statement-Extends x statement s w in
      let name = statement.semantic_properties.target_label in
      let e2 = add_goto-Extends x name s1 e1.wf (e1.grows x hx) in
      let jump : BlockId × String = (x, name) in
      then_block s (record s1 { pending_gotos = s1.pending_gotos ++ jump ∷ [] }) "normal"
        (Extends-trans e1 e2)
  handle_statement-ExtendsWith plain stack statement x s w h hx ht =
      let e1 = append_statement-Extends x statement s w in
      record { ext = e1; found = e1.grows x hx }

  run_statements-ExtendsWith :
      (stack : LoopStack) (statements : List Node) (x : BlockId) (s : Builder)
      → IsWellFormed s
      → StackIn s stack
      → Has s.blocks x
      → Has s.blocks exit_target
      → ExtendsWith s (run_statements rec graph exit_target stack statements x s)
  unfolding run_statements
  run_statements-ExtendsWith stack [] x s w h hx ht = record { ext = Extends-refl w; found = hx }
  run_statements-ExtendsWith stack (statement ∷ statements) x s w h hx ht =
      let kind = classify statement.node_kind in
      let (next, s1) = handle_statement rec graph exit_target kind stack statement x s in
      let r1 = handle_statement-ExtendsWith kind stack statement x s w h hx ht in
      let r =
        run_statements-ExtendsWith stack statements next s1 r1.ext.wf
          (stack-grows s s1 stack r1.ext h) r1.found (r1.ext.grows exit_target ht) in
      record { ext = Extends-trans r1.ext r.ext; found = r.found }

  run_sequence-ExtendsWith :
      (stack : LoopStack) (statements : List Node) (s : Builder)
      → IsWellFormed s
      → StackIn s stack
      → Has s.blocks exit_target
      → ExtendsWith s (run_sequence rec graph exit_target stack statements s)
  unfolding run_sequence
  run_sequence-ExtendsWith stack statements s w h ht =
      let (first, s1) = new_block "normal" s in
      let r1 = new_block-ExtendsWith "normal" s w in
      let (last, s2) = run_statements rec graph exit_target stack statements first s1 in
      let r2 =
        run_statements-ExtendsWith stack statements first s1 r1.ext.wf
          (stack-grows s s1 stack r1.ext h) r1.found (r1.ext.grows exit_target ht) in
      let e3 = set_tail-Extends first last s2 r2.ext.wf r2.found in
      record {
        ext = Extends-trans r1.ext (Extends-trans r2.ext e3);
        found = e3.grows first (r2.ext.grows first r1.found);
      }

-- Every edge and every recorded block id refers to a block, whatever the nesting depth.
pub build_block_sequence-ExtendsWith :
    (fuel : ℕ) (graph : AstGraph) → Keeps (build_block_sequence fuel graph BlockId.exit_id)
unfolding build_block_sequence
build_block_sequence-ExtendsWith zero graph stack statements s w h =
    let (first, s1) = new_block "normal" s in
    let r1 = new_block-ExtendsWith "normal" s w in
    let e2 = set_tail-Extends first first s1 r1.ext.wf r1.found in
    record { ext = Extends-trans r1.ext e2; found = e2.grows first r1.found }
build_block_sequence-ExtendsWith (suc fuel) graph stack statements s w h =
    run_sequence-ExtendsWith (build_block_sequence fuel graph BlockId.exit_id) graph BlockId.exit_id
      (build_block_sequence-ExtendsWith fuel graph) stack statements s w h w.exit
