-- ===== src/Cfg/Fuel.antt =====
-- The fuel of `build_block_sequence` bounds the nesting of statements and nothing else: above the
-- nesting depth the result does not depend on it.
use misra_c_agent.Base.{
  ℕ, zero, suc, ◌<◌, ◌≤◌, String, Bool, true, false, List, [], ◌∷◌, ◌++◌, ◌≡◌, refl, ap, arith,
  ◌==◌, ◌||◌, Option, none, some, get_elem?, filter_by, if◌then◌else◌, Bool-cases, inl, inr, All,
  All-mono, All-append, string_eq,
}
use misra_c_agent.Ast.{Node, AstGraph, children}
use misra_c_agent.Cfg.{BlockId, entry_id, exit_id, ControlFlowGraph}
use misra_c_agent.Cfg.Finish.{
  body_among, body_statements, wire_body_statements, build, prune_empty_pass_through_blocks,
  empty_builder,
}
use misra_c_agent.Cfg.Builder.{Builder, cfg_of, LoopStack, add_edge}
use misra_c_agent.Cfg.Build.{
  StatementKind, if_stmt, loop, switch, compound, classify, Sequencer, last?, case_groups,
  as_sequence_entry, wire_branch, handle_if, wire_body, handle_loop, wire_groups, wire_switch,
  handle_switch, handle_statement, run_statements, run_sequence, build_block_sequence,
}

-- Every child ranks below its parent, so that the graph below a node has a finite depth.
abbrev pub IsRanked : AstGraph → (String → ℕ) → Type 0
IsRanked graph rank =
    (id : String) → All (λ child. rank child.node_id < rank id) (children graph id)

abbrev OnSome : (Node → Type 0) → Option Node → Type 0
OnSome P none = Unit
OnSome P (some x) = P x

module _ (P : Node → Type 0) where
  OnSome-get_elem? : (xs : List Node) (i : ℕ) → All P xs → OnSome P (get_elem? xs i)
  OnSome-get_elem? [] i h = tt
  OnSome-get_elem? (x ∷ xs) zero h = h.0
  OnSome-get_elem? (x ∷ xs) (suc i) h = OnSome-get_elem? xs i h.1

  OnSome-last? : (xs : List Node) → All P xs → OnSome P (last? xs)
  unfolding last?
  OnSome-last? [] h = tt
  OnSome-last? (x ∷ []) h = h.0
  OnSome-last? (x ∷ y ∷ xs) h = OnSome-last? (y ∷ xs) h.1

  OnSome-if :
      (c : Bool) (x y : Option Node) → OnSome P x → OnSome P y → OnSome P (if c then x else y)
  OnSome-if true x y h k = h
  OnSome-if false x y h k = k

  All-filter_by : (p : Node → Bool) (xs : List Node) → All P xs → All P (filter_by p xs)
  All-filter_by p [] h = tt
  All-filter_by p (x ∷ xs) h = elim (Bool-cases (p x)) [
    | inl e ↦ rw e (h.0, All-filter_by p xs h.1)
    | inr e ↦ rw e (All-filter_by p xs h.1)
  ]

  -- The label and the statements of each group are among the statements that were grouped.
  All-case_groups :
      (current : Option Node) (group stmts : List Node)
      → OnSome P current
      → All P group
      → All P stmts
      → All (λ g. All P (g.0 ∷ g.1)) (case_groups current group stmts)
  unfolding case_groups
  All-case_groups none group [] hc hg hs = tt
  All-case_groups (some c) group [] hc hg hs = ((hc, hg), tt)
  All-case_groups none group (x ∷ xs) hc hg hs =
      elim (Bool-cases (x.node_kind == "CaseStmt" || x.node_kind == "DefaultStmt")) [
        | inl e ↦ rw e (All-case_groups (some x) [] xs hs.0 tt hs.1)
        | inr e ↦ rw e (
            All-case_groups none (group ++ x ∷ []) xs hc (All-append P group (x ∷ []) hg (hs.0, tt))
              hs.1)
      ]
  All-case_groups (some c) group (x ∷ xs) hc hg hs =
      elim (Bool-cases (x.node_kind == "CaseStmt" || x.node_kind == "DefaultStmt")) [
        | inl e ↦ rw e ((hc, hg), All-case_groups (some x) [] xs hs.0 tt hs.1)
        | inr e ↦ rw e (
            All-case_groups (some c) (group ++ x ∷ []) xs hc
              (All-append P group (x ∷ []) hg (hs.0, tt)) hs.1)
      ]

module _ (graph : AstGraph) (rank : String → ℕ) (ranked : IsRanked graph rank)
    (exit_target : BlockId) where
  abbrev Below : ℕ → Node → Type 0
  Below n node = rank node.node_id < n

  abbrev Agree : ℕ → Sequencer → Sequencer → Type 0
  Agree n rec rec' =
      (stack : LoopStack) (statements : List Node) (s : Builder)
      → All (Below n) statements
      → rec stack statements s ≡ rec' stack statements s

  children-Below : (n : ℕ) (id : String) → rank id < suc n → All (Below n) (children graph id)
  children-Below n id h = All-mono (children graph id) (λ c k. omega arith) (ranked id)

  module _ (n : ℕ) (rec rec' : Sequencer) (agree : Agree n rec rec') where
    as_sequence_entry-Agree :
        (stack : LoopStack) (node : Node) (s : Builder)
        → Below n node
        → as_sequence_entry rec graph exit_target stack node s
          ≡ as_sequence_entry rec' graph exit_target stack node s
    unfolding as_sequence_entry
    as_sequence_entry-Agree stack node s h =
        rw
          (
            agree stack (children graph node.node_id) s
                (children-Below n node.node_id (omega arith)),
            agree stack (node ∷ []) s (h, tt),
          )
          refl

    wire_branch-Agree :
        (stack : LoopStack) (x y : BlockId) (kind : String) (node : Option Node) (s : Builder)
        → OnSome (Below n) node
        → wire_branch rec graph exit_target stack x y kind node s
          ≡ wire_branch rec' graph exit_target stack x y kind node s
    unfolding wire_branch
    wire_branch-Agree stack x y kind none s h = refl
    wire_branch-Agree stack x y kind (some node) s h = rw (as_sequence_entry-Agree stack node s h)

    wire_body-Agree :
        (stack : LoopStack) (x : BlockId) (kind : String) (node : Option Node) (s : Builder)
        → OnSome (Below n) node
        → wire_body rec graph exit_target stack x kind node s
          ≡ wire_body rec' graph exit_target stack x kind node s
    unfolding wire_body
    wire_body-Agree stack x kind none s h = refl
    wire_body-Agree stack x kind (some node) s h = rw (as_sequence_entry-Agree stack node s h)

    wire_groups-Agree :
        (groups : List (Node × List Node)) (stack : LoopStack) (x : BlockId) (tail : Option BlockId)
        (s : Builder)
        → All (λ g. All (Below n) (g.0 ∷ g.1)) groups
        → wire_groups rec graph exit_target stack x tail groups s
          ≡ wire_groups rec' graph exit_target stack x tail groups s
    unfolding wire_groups
    wire_groups-Agree [] stack x tail s h = refl
    wire_groups-Agree ((c, group) ∷ groups) stack x tail s h =
        rw (agree stack (c ∷ group) s h.0) (wire_groups-Agree groups stack x _ _ h.1)

    wire_switch-Agree :
        (stack : LoopStack) (x y : BlockId) (bodies : List Node) (s : Builder)
        → All (Below n) bodies
        → wire_switch rec graph exit_target stack x y bodies s
          ≡ wire_switch rec' graph exit_target stack x y bodies s
    unfolding wire_switch
    wire_switch-Agree stack x y [] s h = refl
    wire_switch-Agree stack x y (body ∷ bodies) s h = rw (
        wire_groups-Agree _ stack x none s (
          All-case_groups (Below n) none [] _ tt tt
            (children-Below n body.node_id (omega (arith, h.0)))))

    handle_statement-Agree :
        (kind : StatementKind) (stack : LoopStack) (statement : Node) (x : BlockId) (s : Builder)
        → Below (suc n) statement
        → handle_statement rec graph exit_target kind stack statement x s
          ≡ handle_statement rec' graph exit_target kind stack statement x s
    unfolding handle_statement handle_if handle_loop handle_switch
    handle_statement-Agree if_stmt stack statement x s h =
        let kids = children-Below n statement.node_id h in
        rw (wire_branch-Agree stack x _ "true" _ _ (OnSome-get_elem? (Below n) _ 1 kids))
          (rw (wire_branch-Agree stack x _ "false" _ _ (OnSome-get_elem? (Below n) _ 2 kids)))
    handle_statement-Agree loop stack statement x s h =
        let kids = children-Below n statement.node_id h in
        rw (
          wire_body-Agree _ _ _ _ _ (
            OnSome-if (Below n) (statement.node_kind == "DoStmt") _ _
              (OnSome-get_elem? (Below n) _ 0 kids) (OnSome-last? (Below n) _ kids)))
    handle_statement-Agree switch stack statement x s h = rw (
        wire_switch-Agree _ x _ _ _ (
          All-filter_by (Below n) (λ child. child.node_kind == "CompoundStmt") _
            (children-Below n statement.node_id h)))
    handle_statement-Agree compound stack statement x s h =
        rw (agree stack _ s (children-Below n statement.node_id h))
    handle_statement-Agree _ stack statement x s h = refl

    run_statements-Agree :
        (stack : LoopStack) (statements : List Node) (x : BlockId) (s : Builder)
        → All (Below (suc n)) statements
        → run_statements rec graph exit_target stack statements x s
          ≡ run_statements rec' graph exit_target stack statements x s
    unfolding run_statements
    run_statements-Agree stack [] x s h = refl
    run_statements-Agree stack (statement ∷ statements) x s h =
        rw (handle_statement-Agree (classify statement.node_kind) stack statement x s h.0)
          (run_statements-Agree stack statements _ _ h.1)

    run_sequence-Agree :
        Agree (suc n) (run_sequence rec graph exit_target) (run_sequence rec' graph exit_target)
    unfolding run_sequence
    run_sequence-Agree stack statements s h = rw (run_statements-Agree stack statements _ _ h)

  no_statements-Agree :
      (fuel fuel' : ℕ)
      → Agree 0
          (build_block_sequence fuel graph exit_target)
          (build_block_sequence fuel' graph exit_target)
  unfolding build_block_sequence run_sequence run_statements
  no_statements-Agree zero zero stack [] s h = refl
  no_statements-Agree zero (suc m) stack [] s h = refl
  no_statements-Agree (suc m) zero stack [] s h = refl
  no_statements-Agree (suc m) (suc k) stack [] s h = refl
  no_statements-Agree fuel fuel' stack (x ∷ xs) s h = absurd (omega (arith, h.0))

  build_block_sequence-Agree :
      (n m k : ℕ)
      → n ≤ m
      → n ≤ k
      → Agree n
          (build_block_sequence m graph exit_target)
          (build_block_sequence k graph exit_target)
  unfolding build_block_sequence
  build_block_sequence-Agree zero m k hm hk = no_statements-Agree m k
  build_block_sequence-Agree (suc n) zero k hm hk = absurd (omega arith)
  build_block_sequence-Agree (suc n) (suc m) zero hm hk = absurd (omega arith)
  build_block_sequence-Agree (suc n) (suc m) (suc k) hm hk =
      run_sequence-Agree n (build_block_sequence m graph exit_target)
        (build_block_sequence k graph exit_target)
        (build_block_sequence-Agree n m k (omega arith) (omega arith))

  All-body_among :
      (n : ℕ) (all kids : List Node)
      → All (Below n) all
      → All (Below n) kids
      → All (Below n) (body_among graph all kids)
  unfolding body_among
  All-body_among n all [] ha hk = All-filter_by (Below n) _ all ha
  All-body_among n all (child ∷ rest) ha hk =
      elim (Bool-cases (child.node_kind == "CompoundStmt")) [
        | inl e ↦ rw e (
            All-mono (children graph child.node_id) (λ c k. omega (arith, hk.0))
              (ranked child.node_id))
        | inr e ↦ rw e (All-body_among n all rest ha hk.1)
      ]

  body_statements-Below :
      (n : ℕ) (function_node : Node)
      → rank function_node.node_id ≤ n
      → All (Below n) (body_statements graph function_node)
  unfolding body_statements
  body_statements-Below n function_node h =
      let kids = children-Below n function_node.node_id (omega arith) in
      All-body_among n _ _ kids kids

wire_body_statements-stable :
    (graph : AstGraph) (rank : String → ℕ) (ranked : IsRanked graph rank) (function_node : Node)
    (n fuel fuel' : ℕ)
    → n ≤ fuel
    → n ≤ fuel'
    → (statements : List Node) → All (λ node. rank node.node_id < n) statements
    → wire_body_statements fuel graph function_node statements
      ≡ wire_body_statements fuel' graph function_node statements
unfolding wire_body_statements
wire_body_statements-stable graph rank ranked function_node n fuel fuel' h h' statements all = rw (
    build_block_sequence-Agree graph rank ranked exit_id n fuel fuel' h h' [] statements
      (empty_builder function_node.node_id) all)

-- In an AST of finite depth the fuel does not matter, from the rank of the function on.
pub build-stable :
    (graph : AstGraph) (rank : String → ℕ) (function_node : Node) (fuel fuel' : ℕ)
    → IsRanked graph rank
    → rank function_node.node_id ≤ fuel
    → rank function_node.node_id ≤ fuel'
    → build fuel graph function_node ≡ build fuel' graph function_node
unfolding build
build-stable graph rank function_node fuel fuel' ranked h h' =
    go (body_statements graph function_node)
      (body_statements-Below graph rank ranked exit_id n function_node (omega arith))
  where
    n : ℕ
    n = rank function_node.node_id

    go :
        (statements : List Node)
        → All (λ node. rank node.node_id < rank function_node.node_id) statements
        → elim statements as (λ _. Option ControlFlowGraph) [
          | [] ↦ some (
              cfg_of
                (add_edge entry_id exit_id "fallthrough" (empty_builder function_node.node_id)))
          | first ∷ rest ↦
              prune_empty_pass_through_blocks
                (cfg_of (wire_body_statements fuel graph function_node (first ∷ rest)))
        ]
          ≡ elim statements as (λ _. Option ControlFlowGraph) [
            | [] ↦ some (
                cfg_of
                  (add_edge entry_id exit_id "fallthrough" (empty_builder function_node.node_id)))
            | first ∷ rest ↦
                prune_empty_pass_through_blocks
                  (cfg_of (wire_body_statements fuel' graph function_node (first ∷ rest)))
          ]
    go [] all = refl
    go (first ∷ rest) all =
        ap (λ w. prune_empty_pass_through_blocks (cfg_of w))
          (wire_body_statements-stable graph rank ranked function_node n fuel fuel' h h'
            (first ∷ rest) all)
