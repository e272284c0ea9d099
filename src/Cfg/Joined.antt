-- ===== src/Cfg/Joined.antt =====
-- Every edge that `_build_block_sequence` adds joins two blocks of the graph.
use misra_c_agent.Base.{
  String, List, [], ◌∷◌, ◌≡◌, refl, arith, ◌==◌, Option, none, some, Bool-cases, inl, inr, All,
  All-mono, string_eq,
}
use misra_c_agent.Ast.{Node, AstGraph}
use misra_c_agent.Cfg.{BlockId}
use misra_c_agent.Cfg.Builder.{Builder, LoopStack, new_block, add_edge, tail_of}
use misra_c_agent.Cfg.WellFormed.{
  Has, IsWellFormed, Extends, ExtendsWith, Extends-refl, Extends-trans, new_block-ExtendsWith,
  add_edge-Extends, tail_of-Has,
}
use misra_c_agent.Cfg.Build.{
  Sequencer, jump_edge, break_target, continue_target, as_sequence_entry, wire_branch, wire_body,
}

-- The targets on a loop stack are blocks.
abbrev pub StackIn : Builder → LoopStack → Type 0
StackIn s stack = All (λ t. Has s.blocks t.0 × Has s.blocks t.1) stack

pub stack-grows :
    (s s' : Builder) (stack : LoopStack) → Extends s s' → StackIn s stack → StackIn s' stack
stack-grows s s' stack e = All-mono stack (λ t h. (e.grows t.0 h.0, e.grows t.1 h.1))

-- One more step after `Extends`, with a new block in hand.
pub then_block : (s s1 : Builder) (kind : String) → Extends s s1 → ExtendsWith s (new_block kind s1)
then_block s s1 kind e =
    let r = new_block-ExtendsWith kind s1 e.wf in
    record { ext = Extends-trans e r.ext; found = r.found }

pub jump_edge-Extends :
    (x : BlockId) (target : Option BlockId) (kind : String) (s : Builder)
    → IsWellFormed s
    → Has s.blocks x
    → ((y : BlockId) → target ≡ some y → Has s.blocks y)
    → Extends s (jump_edge x target kind s)
unfolding jump_edge
jump_edge-Extends x none kind s w hx ht = Extends-refl w
jump_edge-Extends x (some y) kind s w hx ht = add_edge-Extends x y kind s w hx (ht y refl)

pub break_target-Has :
    (s : Builder) (stack : LoopStack) (y : BlockId)
    → StackIn s stack
    → break_target stack ≡ some y
    → Has s.blocks y
break_target-Has s [] y h e = cc
break_target-Has s ((c, t) ∷ stack) y h e = ground (arith, h.0.1)

pub continue_target-Has :
    (s : Builder) (stack : LoopStack) (y : BlockId)
    → StackIn s stack
    → continue_target stack ≡ some y
    → Has s.blocks y
continue_target-Has s [] y h e = cc
continue_target-Has s ((c, t) ∷ stack) y h e = ground (arith, h.0.0)

-- What the recursive calls are to keep.
abbrev pub Keeps : Sequencer → Type 0
Keeps rec =
    (stack : LoopStack) (statements : List Node) (s : Builder)
    → IsWellFormed s
    → StackIn s stack
    → ExtendsWith s (rec stack statements s)

module _ (rec : Sequencer) (graph : AstGraph) (exit_target : BlockId) (keeps : Keeps rec) where
  pub as_sequence_entry-ExtendsWith :
      (stack : LoopStack) (node : Node) (s : Builder)
      → IsWellFormed s
      → StackIn s stack
      → ExtendsWith s (as_sequence_entry rec graph exit_target stack node s)
  unfolding as_sequence_entry
  as_sequence_entry-ExtendsWith stack node s w h =
      elim (Bool-cases (node.node_kind == "CompoundStmt")) [
        | inl p ↦ rw p (keeps stack _ s w h)
        | inr p ↦ rw p (keeps stack _ s w h)
      ]

  -- The entry of a nested statement is wired from `x`, and its tail to `y`.
  pub nested-Extends :
      (stack : LoopStack) (node : Node) (x y : BlockId) (kind last : String) (s : Builder)
      → IsWellFormed s
      → StackIn s stack
      → Has s.blocks x
      → Has s.blocks y
      → Extends s (
          let r = as_sequence_entry rec graph exit_target stack node s in
          let s2 = add_edge x r.0 kind r.1 in add_edge (tail_of r.0 s2) y last s2)
  nested-Extends stack node x y kind last s w h hx hy =
      let (entry, s1) = as_sequence_entry rec graph exit_target stack node s in
      let r = as_sequence_entry-ExtendsWith stack node s w h in
      let e1 = add_edge-Extends x entry kind s1 r.ext.wf (r.ext.grows x hx) r.found in
      let s2 = add_edge x entry kind s1 in
      let e2 =
        add_edge-Extends (tail_of entry s2) y last s2 e1.wf
          (tail_of-Has entry s2 e1.wf (e1.grows entry r.found)) (e1.grows y (r.ext.grows y hy)) in
      Extends-trans r.ext (Extends-trans e1 e2)

  pub wire_branch-Extends :
      (stack : LoopStack) (x y : BlockId) (kind : String) (node : Option Node) (s : Builder)
      → IsWellFormed s
      → StackIn s stack
      → Has s.blocks x
      → Has s.blocks y
      → Extends s (wire_branch rec graph exit_target stack x y kind node s)
  unfolding wire_branch
  wire_branch-Extends stack x y kind none s w h hx hy = add_edge-Extends x y kind s w hx hy
  wire_branch-Extends stack x y kind (some node) s w h hx hy =
      nested-Extends stack node x y kind "fallthrough" s w h hx hy

  pub wire_body-Extends :
      (stack : LoopStack) (x : BlockId) (kind : String) (node : Option Node) (s : Builder)
      → IsWellFormed s
      → StackIn s stack
      → Has s.blocks x
      → Extends s (wire_body rec graph exit_target stack x kind node s)
  unfolding wire_body
  wire_body-Extends stack x kind none s w h hx = Extends-refl w
  wire_body-Extends stack x kind (some node) s w h hx =
      nested-Extends stack node x x kind "loop_back" s w h hx hx
