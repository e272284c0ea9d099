-- ===== src/Cfg/Handlers.antt =====
-- Every handler of `_build_block_sequence` keeps the builder's state well-formed.
use misra_c_agent.Base.{
  String, List, [], ◌∷◌, ◌≡◌, refl, arith, ◌==◌, Option, none, some, get_elem?, filter_by,
  if◌then◌else◌, Bool-cases, inl, inr, any_of, string_eq,
}
use misra_c_agent.Ast.{Node, AstGraph, children}
use misra_c_agent.Cfg.{BlockId}
use misra_c_agent.Cfg.Builder.{
  Builder, LoopStack, new_block, add_edge, append_statement, tail_of, terminates,
}
use misra_c_agent.Cfg.WellFormed.{
  Has, IsWellFormed, Extends, ExtendsWith, Extends-refl, Extends-trans, new_block-ExtendsWith,
  add_edge-Extends, append_statement-Extends, tail_of-Has,
}
use misra_c_agent.Cfg.Joined.{
  StackIn, stack-grows, then_block, Keeps, wire_branch-Extends, wire_body-Extends,
}
use misra_c_agent.Cfg.Build.{
  Sequencer, last?, case_groups, wire_branch, handle_if, wire_body, handle_loop, leave_group,
  wire_groups, wire_switch, handle_switch,
}

module _ (rec : Sequencer) (graph : AstGraph) (exit_target : BlockId) (keeps : Keeps rec) where
  pub handle_if-ExtendsWith :
      (stack : LoopStack) (statement : Node) (x : BlockId) (s : Builder)
      → IsWellFormed s
      → StackIn s stack
      → Has s.blocks x
      → ExtendsWith s (handle_if rec graph exit_target stack statement x s)
  unfolding handle_if
  handle_if-ExtendsWith stack statement x s w h hx =
      let s1 = append_statement x statement s in
      let e1 = append_statement-Extends x statement s w in
      let (join, s2) = new_block "normal" s1 in
      let r2 = then_block s s1 "normal" e1 in
      let kids = children graph statement.node_id in
      let e3 =
        wire_branch-Extends rec graph exit_target keeps stack x join "true" (get_elem? kids 1) s2
          r2.ext.wf (stack-grows s s2 stack r2.ext h) (r2.ext.grows x hx) r2.found in
      let s3 = wire_branch rec graph exit_target stack x join "true" (get_elem? kids 1) s2 in
      let e = Extends-trans r2.ext e3 in
      let e4 =
        wire_branch-Extends rec graph exit_target keeps stack x join "false" (get_elem? kids 2) s3
          e3.wf (stack-grows s s3 stack e h) (e.grows x hx) (e3.grows join r2.found) in
      record { ext = Extends-trans e e4; found = e4.grows join (e3.grows join r2.found) }

  pub handle_loop-ExtendsWith :
      (stack : LoopStack) (statement : Node) (x : BlockId) (s : Builder)
      → IsWellFormed s
      → StackIn s stack
      → Has s.blocks x
      → ExtendsWith s (handle_loop rec graph exit_target stack statement x s)
  unfolding handle_loop
  handle_loop-ExtendsWith stack statement x s w h hx =
      let (header, s1) = new_block "loop_header" s in
      let r1 = new_block-ExtendsWith "loop_header" s w in
      let s2 = append_statement header statement s1 in
      let e2 = append_statement-Extends header statement s1 r1.ext.wf in
      let (after, s3) = new_block "normal" s2 in
      let r3 = then_block s s2 "normal" (Extends-trans r1.ext e2) in
      let r3' = new_block-ExtendsWith "normal" s2 e2.wf in
      let has_header = r3'.ext.grows header (e2.grows header r1.found) in
      let e4 =
        add_edge-Extends x header "fallthrough" s3 r3.ext.wf (r3.ext.grows x hx) has_header in
      let s4 = add_edge x header "fallthrough" s3 in
      let e = Extends-trans r3.ext e4 in
      let kids = children graph statement.node_id in
      let is_do = statement.node_kind == "DoStmt" in
      let body = if is_do then get_elem? kids 0 else last? kids in
      let kind : String = if is_do then "fallthrough" else "true" in
      let inner = (header, after) ∷ stack in
      let e5 =
        wire_body-Extends rec graph exit_target keeps inner header kind body s4 e4.wf
          ((e4.grows header has_header, e4.grows after r3.found), stack-grows s s4 stack e h)
          (e4.grows header has_header) in
      let s5 = wire_body rec graph exit_target inner header kind body s4 in
      let f = Extends-trans e4 e5 in
      let e6 =
        add_edge-Extends header after "false" s5 e5.wf (f.grows header has_header)
          (f.grows after r3.found) in
      record {
        ext = Extends-trans r3.ext (Extends-trans f e6);
        found = e6.grows after (f.grows after r3.found);
      }

  leave_group-Extends :
      (tail : Option BlockId) (y : BlockId) (kind : String) (s : Builder)
      → IsWellFormed s
      → ((x : BlockId) → tail ≡ some x → Has s.blocks x)
      → Has s.blocks y
      → Extends s (leave_group tail y kind s)
  unfolding leave_group
  leave_group-Extends none y kind s w ht hy = Extends-refl w
  leave_group-Extends (some x) y kind s w ht hy = elim (Bool-cases (terminates s x)) [
    | inl p ↦ rw p (Extends-refl w)
    | inr p ↦ rw p (add_edge-Extends x y kind s w (ht x refl) hy)
  ]

  -- The state after the case groups, and the last tail.
  record Groups (s : Builder) (r : Option BlockId × Builder) : Type 0 where
    ext : Extends s r.1
    tail : (x : BlockId) → r.0 ≡ some x → Has r.1.blocks x

  wire_groups-Groups :
      (stack : LoopStack) (x : BlockId) (tail : Option BlockId) (groups : List (Node × List Node))
      (s : Builder)
      → IsWellFormed s
      → StackIn s stack
      → Has s.blocks x
      → ((y : BlockId) → tail ≡ some y → Has s.blocks y)
      → Groups s (wire_groups rec graph exit_target stack x tail groups s)
  unfolding wire_groups
  wire_groups-Groups stack x tail [] s w h hx ht = record { ext = Extends-refl w; tail = ht }
  wire_groups-Groups stack x tail ((case_stmt, group) ∷ groups) s w h hx ht =
      let label : String = if case_stmt.node_kind == "DefaultStmt" then "default" else "case" in
      let (entry, s1) = rec stack (case_stmt ∷ group) s in
      let r1 = keeps stack (case_stmt ∷ group) s w h in
      let s2 = add_edge x entry label s1 in
      let e2 = add_edge-Extends x entry label s1 r1.ext.wf (r1.ext.grows x hx) r1.found in
      let e12 = Extends-trans r1.ext e2 in
      let s3 = leave_group tail entry "switch_fallthrough" s2 in
      let e3 =
        leave_group-Extends tail entry "switch_fallthrough" s2 e2.wf (λ y q. e12.grows y (ht y q))
          (e2.grows entry r1.found) in
      let e = Extends-trans e12 e3 in
      let last = tail_of entry s3 in
      let has_last = tail_of-Has entry s3 e3.wf (e3.grows entry (e2.grows entry r1.found)) in
      let r =
        wire_groups-Groups stack x (some last) groups s3 e3.wf (stack-grows s s3 stack e h)
          (e.grows x hx) (λ y q. ground (arith, q, has_last)) in
      record { ext = Extends-trans e r.ext; tail = r.tail }

  wire_switch-Extends :
      (stack : LoopStack) (x y : BlockId) (bodies : List Node) (s : Builder)
      → IsWellFormed s
      → StackIn s stack
      → Has s.blocks x
      → Has s.blocks y
      → Extends s (wire_switch rec graph exit_target stack x y bodies s)
  unfolding wire_switch
  wire_switch-Extends stack x y [] s w h hx hy = add_edge-Extends x y "fallthrough" s w hx hy
  wire_switch-Extends stack x y (body ∷ _) s w h hx hy =
      let groups = case_groups none [] (children graph body.node_id) in
      let (last, s1) = wire_groups rec graph exit_target stack x none groups s in
      let r1 = wire_groups-Groups stack x none groups s w h hx (λ z q. cc) in
      let s2 = leave_group last y "fallthrough" s1 in
      let e2 = leave_group-Extends last y "fallthrough" s1 r1.ext.wf r1.tail (r1.ext.grows y hy) in
      let e = Extends-trans r1.ext e2 in
      elim (Bool-cases (any_of (λ (g : Node × List Node). g.0.node_kind == "DefaultStmt") groups)) [
        | inl p ↦ rw p e
        | inr p ↦ rw p (
            Extends-trans e
              (add_edge-Extends x y "no_match" s2 e2.wf (e.grows x hx) (e.grows y hy)))
      ]

  pub handle_switch-ExtendsWith :
      (stack : LoopStack) (statement : Node) (x : BlockId) (s : Builder)
      → IsWellFormed s
      → StackIn s stack
      → Has s.blocks x
      → ExtendsWith s (handle_switch rec graph exit_target stack statement x s)
  unfolding handle_switch
  handle_switch-ExtendsWith stack statement x s w h hx =
      let s1 = append_statement x statement s in
      let e1 = append_statement-Extends x statement s w in
      let (after, s2) = new_block "normal" s1 in
      let r2 = then_block s s1 "normal" e1 in
      let bodies =
        filter_by (λ (child : Node). child.node_kind == "CompoundStmt")
          (children graph statement.node_id) in
      let hx2 = r2.ext.grows x hx in
      let e3 =
        wire_switch-Extends ((x, after) ∷ stack) x after bodies s2 r2.ext.wf
          ((hx2, r2.found), stack-grows s s2 stack r2.ext h) hx2 r2.found in
      record { ext = Extends-trans r2.ext e3; found = e3.grows after r2.found }
