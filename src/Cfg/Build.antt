-- ===== src/Cfg/Build.antt =====
-- rule-engine/src/misra_platform_rules/analyzers/cfg_engine.py: `_build_block_sequence` and the
-- handlers of compound statements. The recursive calls go through the parameter `rec`, which
-- `build_block_sequence` ties at the end.
use misra_c_agent.Base.{
  ℕ, zero, suc, String, Option, none, some, List, [], ◌∷◌, ◌++◌, ◌==◌, ◌||◌, string_eq, insert,
  any_of, filter_by, get_elem?, if◌then◌else◌,
}
use misra_c_agent.Ast.{Node, AstGraph, children}
use misra_c_agent.Cfg.{BlockId}
use misra_c_agent.Cfg.Builder.{
  Builder, LoopStack, new_block, add_edge, append_statement, tail_of, set_tail, terminates,
  label_block, label_name,
}

-- The tests of `_build_block_sequence` on a statement's kind, in their order.
pub data StatementKind : Type 0 where
  label if_stmt loop switch compound return_stmt break_stmt continue_stmt goto plain : StatementKind

unfoldable pub classify : String → StatementKind
classify kind =
    if kind == "LabelStmt"
    then label
    else if kind == "IfStmt"
    then if_stmt
    else if kind == "ForStmt" || kind == "WhileStmt" || kind == "DoStmt"
    then loop
    else if kind == "SwitchStmt"
    then switch
    else if kind == "CompoundStmt"
    then compound
    else if kind == "ReturnStmt"
    then return_stmt
    else if kind == "BreakStmt"
    then break_stmt
    else if kind == "ContinueStmt"
    then continue_stmt
    else if kind == "GotoStmt"
    then goto
    else plain

-- The recursive calls of `_build_block_sequence`: the entry block of a list of statements.
abbrev pub Sequencer : Type 0
Sequencer = LoopStack → List Node → Builder → BlockId × Builder

unfoldable pub last? : List Node → Option Node
last? [] = none
last? (x ∷ []) = some x
last? (x ∷ y ∷ xs) = last? (y ∷ xs)

-- The groups of `_handle_switch`: each case or default label with the statements behind it.
unfoldable pub case_groups : Option Node → List Node → List Node → List (Node × List Node)
case_groups none group [] = []
case_groups (some case_stmt) group [] = (case_stmt, group) ∷ []
case_groups current group (stmt ∷ stmts) =
    if stmt.node_kind == "CaseStmt" || stmt.node_kind == "DefaultStmt"
    then (elim current [
      | none ↦ case_groups (some stmt) [] stmts
      | some case_stmt ↦ (case_stmt, group) ∷ case_groups (some stmt) [] stmts
    ])
    else case_groups current (group ++ stmt ∷ []) stmts

-- The target of `break` or `continue`: without an enclosing loop there is no edge.
unfoldable pub jump_edge : BlockId → Option BlockId → String → Builder → Builder
unfolding add_edge
jump_edge current none kind s = s
jump_edge current (some target) kind s = add_edge current target kind s

abbrev pub break_target : LoopStack → Option BlockId
break_target [] = none
break_target ((c, t) ∷ stack) = some t

abbrev pub continue_target : LoopStack → Option BlockId
continue_target [] = none
continue_target ((c, t) ∷ stack) = some c

-- The edge out of the previous case group, unless its tail has ended with a jump.
unfoldable pub leave_group : Option BlockId → BlockId → String → Builder → Builder
unfolding terminates add_edge
leave_group none target kind s = s
leave_group (some tail) target kind s = if terminates s tail then s else add_edge tail target kind s

module _ (rec : Sequencer) (graph : AstGraph) (exit_target : BlockId) where
  -- `_as_sequence_entry`
  unfoldable pub as_sequence_entry : LoopStack → Node → Builder → BlockId × Builder
  as_sequence_entry stack node s =
      if node.node_kind == "CompoundStmt"
      then rec stack (children graph node.node_id) s
      else rec stack (node ∷ []) s

  -- One branch of `_handle_if`.
  unfoldable pub wire_branch :
      LoopStack → BlockId → BlockId → String → Option Node → Builder → Builder
  unfolding as_sequence_entry add_edge tail_of
  wire_branch stack branch join kind none s = add_edge branch join kind s
  wire_branch stack branch join kind (some node) s =
      let (entry, s1) = as_sequence_entry stack node s in
      let s2 = add_edge branch entry kind s1 in add_edge (tail_of entry s2) join "fallthrough" s2

  -- `_handle_if`
  unfoldable pub handle_if : LoopStack → Node → BlockId → Builder → BlockId × Builder
  unfolding append_statement new_block wire_branch children
  handle_if stack statement current s =
      let s1 = append_statement current statement s in
      let kids = children graph statement.node_id in
      let (join, s2) = new_block "normal" s1 in
      let s3 = wire_branch stack current join "true" (get_elem? kids 1) s2 in
      (join, wire_branch stack current join "false" (get_elem? kids 2) s3)

  -- The body of a loop, with the edge back to its header.
  unfoldable pub wire_body : LoopStack → BlockId → String → Option Node → Builder → Builder
  unfolding as_sequence_entry add_edge tail_of
  wire_body stack header kind none s = s
  wire_body stack header kind (some node) s =
      let (entry, s1) = as_sequence_entry stack node s in
      let s2 = add_edge header entry kind s1 in add_edge (tail_of entry s2) header "loop_back" s2

  -- `_handle_loop`
  unfoldable pub handle_loop : LoopStack → Node → BlockId → Builder → BlockId × Builder
  unfolding append_statement new_block wire_body children add_edge last?
  handle_loop stack statement current s =
      let (header, s1) = new_block "loop_header" s in
      let s2 = append_statement header statement s1 in
      let (after_loop, s3) = new_block "normal" s2 in
      let s4 = add_edge current header "fallthrough" s3 in
      let kids = children graph statement.node_id in
      let is_do = statement.node_kind == "DoStmt" in
      let body = if is_do then get_elem? kids 0 else last? kids in
      let kind : String = if is_do then "fallthrough" else "true" in
      let s5 = wire_body ((header, after_loop) ∷ stack) header kind body s4 in
      (after_loop, add_edge header after_loop "false" s5)

  -- The loop over the case groups: the last group's tail.
  unfoldable pub wire_groups :
      LoopStack
      → BlockId
      → Option BlockId
      → List (Node × List Node)
      → Builder
      → Option BlockId × Builder
  unfolding leave_group add_edge tail_of
  wire_groups stack switch_block previous [] s = (previous, s)
  wire_groups stack switch_block previous ((case_stmt, group) ∷ groups) s =
      let label : String = if case_stmt.node_kind == "DefaultStmt" then "default" else "case" in
      let (entry, s1) = rec stack (case_stmt ∷ group) s in
      let s2 = add_edge switch_block entry label s1 in
      let s3 = leave_group previous entry "switch_fallthrough" s2 in
      wire_groups stack switch_block (some (tail_of entry s3)) groups s3

  -- The body of `_handle_switch`, from its first `CompoundStmt` child on.
  unfoldable pub wire_switch : LoopStack → BlockId → BlockId → List Node → Builder → Builder
  unfolding wire_groups leave_group add_edge case_groups children
  wire_switch stack switch_block after_switch [] s =
      add_edge switch_block after_switch "fallthrough" s
  wire_switch stack switch_block after_switch (body ∷ _) s =
      let groups = case_groups none [] (children graph body.node_id) in
      let (previous, s1) = wire_groups stack switch_block none groups s in
      let s2 = leave_group previous after_switch "fallthrough" s1 in
      if any_of (λ g. g.0.node_kind == "DefaultStmt") groups
      then s2
      else add_edge switch_block after_switch "no_match" s2

  -- `_handle_switch`
  unfoldable pub handle_switch : LoopStack → Node → BlockId → Builder → BlockId × Builder
  unfolding append_statement new_block wire_switch children
  handle_switch stack statement current s =
      let s1 = append_statement current statement s in
      let (after_switch, s2) = new_block "normal" s1 in
      let kids = children graph statement.node_id in
      let bodies = filter_by (λ child. child.node_kind == "CompoundStmt") kids in
      (after_switch, wire_switch ((current, after_switch) ∷ stack) current after_switch bodies s2)

  -- One round of the `while` loop of `_build_block_sequence`: the new `current`.
  unfoldable pub handle_statement :
      StatementKind → LoopStack → Node → BlockId → Builder → BlockId × Builder
  unfolding label_block label_name append_statement handle_if handle_loop handle_switch new_block
      add_edge jump_edge children
  handle_statement label stack statement current s =
      let (block_id, s1) = label_block current s in
      let s2 = record s1 {
        label_targets = insert (label_name statement) block_id s1.label_targets;
      } in
      (block_id, append_statement block_id statement s2)
  handle_statement if_stmt stack statement current s = handle_if stack statement current s
  handle_statement loop stack statement current s = handle_loop stack statement current s
  handle_statement switch stack statement current s = handle_switch stack statement current s
  handle_statement compound stack statement current s =
      let (entry, s1) = rec stack (children graph statement.node_id) s in
      new_block "normal" (add_edge current entry "fallthrough" s1)
  handle_statement return_stmt stack statement current s =
      let s1 = append_statement current statement s in
      new_block "normal" (add_edge current exit_target "return" s1)
  handle_statement break_stmt stack statement current s =
      let s1 = append_statement current statement s in
      new_block "normal" (jump_edge current (break_target stack) "break" s1)
  handle_statement continue_stmt stack statement current s =
      let s1 = append_statement current statement s in
      new_block "normal" (jump_edge current (continue_target stack) "continue" s1)
  handle_statement goto stack statement current s =
      let s1 = append_statement current statement s in
      let jump : BlockId × String = (current, statement.semantic_properties.target_label) in
      new_block "normal" (record s1 { pending_gotos = s1.pending_gotos ++ jump ∷ [] })
  handle_statement plain stack statement current s = (current, append_statement current statement s)

  unfoldable pub run_statements : LoopStack → List Node → BlockId → Builder → BlockId × Builder
  unfolding handle_statement classify
  run_statements stack [] current s = (current, s)
  run_statements stack (statement ∷ statements) current s =
      let (next, s1) = handle_statement (classify statement.node_kind) stack statement current s in
      run_statements stack statements next s1

  unfoldable pub run_sequence : Sequencer
  unfolding new_block run_statements set_tail
  run_sequence stack statements s =
      let (first, s1) = new_block "normal" s in
      let (current, s2) = run_statements stack statements first s1 in
      (first, set_tail first current s2)

-- `_build_block_sequence`. The fuel bounds the nesting of statements; `Cfg/Fuel` shows that any fuel
-- above the nesting depth gives the same result. Out of fuel, a list of statements counts as empty.
unfoldable pub build_block_sequence : ℕ → AstGraph → BlockId → Sequencer
unfolding run_sequence new_block set_tail
build_block_sequence zero graph exit_target stack statements s =
    let (first, s1) = new_block "normal" s in (first, set_tail first first s1)
build_block_sequence (suc fuel) graph exit_target stack statements s =
    run_sequence (build_block_sequence fuel graph exit_target) graph exit_target stack statements s
