-- ===== src/Cfg/WellFormed.antt =====
-- The state of `CFGEngine.build` refers to blocks of the graph only: what that says, and the helpers
-- that keep it.
use misra_c_agent.Base.{
  ℕ, suc, String, Bool, true, false, List, [], ◌∷◌, ◌++◌, ◌≡◌, refl, ◌==◌, ◌||◌, mem, Option, none,
  some, Dict, lookup, insert, keys, mem-keys-insert, values-insert, Bool-cases, inl, inr, All,
  All-mono, All-append, string_eq, beq_refl, Option-cases, ap,
}
use misra_c_agent.Ast.{Node}
use misra_c_agent.Cfg.{BlockId, entry_id, exit_id, b, block_id_eq, BasicBlock, CfgEdge}
use misra_c_agent.Cfg.Builder.{
  Builder, new_block, add_labelled_edge, add_edge, append_to, append_statement, tail_of, set_tail,
  label_block, is_filled,
}

abbrev pub Has : Dict BlockId BasicBlock → BlockId → Type 0
Has blocks x = mem x (keys blocks) ≡ true

abbrev pub JoinsBlocks : Dict BlockId BasicBlock → CfgEdge → Type 0
JoinsBlocks blocks edge = Has blocks edge.source × Has blocks edge.target

pub record IsWellFormed (s : Builder) : Type 0 where
  pub entry : Has s.blocks entry_id
  pub exit : Has s.blocks exit_id
  pub edges : All (JoinsBlocks s.blocks) s.edges
  pub labels : (name : String) (x : BlockId) → lookup name s.label_targets ≡ some x → Has s.blocks x
  pub gotos : All (λ g. Has s.blocks g.0) s.pending_gotos
  pub tails : (x y : BlockId) → lookup x s.sequence_tails ≡ some y → Has s.blocks y

-- `s'` is well-formed and has every block of `s`.
pub record Extends (s s' : Builder) : Type 0 where
  pub wf : IsWellFormed s'
  pub grows : (x : BlockId) → Has s.blocks x → Has s'.blocks x

pub record ExtendsWith (s : Builder) (r : BlockId × Builder) : Type 0 where
  pub ext : Extends s r.1
  pub found : Has r.1.blocks r.0

pub Extends-refl : {s : Builder} → IsWellFormed s → Extends s s
Extends-refl w = record { wf = w; grows = λ x h. h }

pub Extends-trans : {s s1 s2 : Builder} → Extends s s1 → Extends s1 s2 → Extends s s2
Extends-trans p q = record { wf = q.wf; grows = λ x h. q.grows x (p.grows x h) }

regrow :
    (s : Builder) (n : ℕ) (blocks : Dict BlockId BasicBlock)
    → ((x : BlockId) → Has s.blocks x → Has blocks x)
    → IsWellFormed s
    → IsWellFormed (record s { counter = n; blocks = blocks })
regrow s n blocks g w = record {
  entry = g entry_id w.entry;
  exit = g exit_id w.exit;
  edges = All-mono s.edges (λ e h. (g e.source h.0, g e.target h.1)) w.edges;
  labels = λ name x h. g x (w.labels name x h);
  gotos = All-mono s.pending_gotos (λ j h. g j.0 h) w.gotos;
  tails = λ x y h. g y (w.tails x y h);
}

or_right : (a c : Bool) → c ≡ true → (a || c) ≡ true
or_right true c h = refl
or_right false c h = h

or_left : (a c : Bool) → a ≡ true → (a || c) ≡ true
or_left a c h = rw h

pub new_block-ExtendsWith :
    (kind : String) (s : Builder) → IsWellFormed s → ExtendsWith s (new_block kind s)
unfolding new_block
new_block-ExtendsWith kind s w =
    let n = suc s.counter in
    let fresh : BasicBlock = record { statements = []; kind = kind } in
    let blocks = insert (b n) fresh s.blocks in
    let grows : (x : BlockId) → Has s.blocks x → Has blocks x =
      λ x h. rw mem-keys-insert (or_right _ _ h) in
    record {
      ext = record { wf = regrow s n blocks grows w; grows = grows };
      found = rw mem-keys-insert (or_left _ _ (beq_refl (b n)));
    }

pub add_labelled_edge-Extends :
    (x y : BlockId) (kind : String) (label : Option String) (s : Builder)
    → IsWellFormed s
    → Has s.blocks x
    → Has s.blocks y
    → Extends s (add_labelled_edge x y kind label s)
unfolding add_labelled_edge
add_labelled_edge-Extends x y kind label s w hx hy = record {
  wf = record {
    entry = w.entry;
    exit = w.exit;
    edges = All-append (JoinsBlocks s.blocks) s.edges _ w.edges ((hx, hy), tt);
    labels = w.labels;
    gotos = w.gotos;
    tails = w.tails;
  };
  grows = λ z h. h;
}

pub add_edge-Extends :
    (x y : BlockId) (kind : String) (s : Builder)
    → IsWellFormed s
    → Has s.blocks x
    → Has s.blocks y
    → Extends s (add_edge x y kind s)
unfolding add_edge
add_edge-Extends x y kind s = add_labelled_edge-Extends x y kind none s

keys-append_to :
    (x : BlockId) (statement : Node) (blocks : Dict BlockId BasicBlock)
    → keys (append_to x statement blocks) ≡ keys blocks
unfolding append_to
keys-append_to x statement [] = refl
keys-append_to x statement ((j, block) ∷ blocks) = elim (Bool-cases (j == x)) [
  | inl p ↦ rw p
  | inr p ↦ rw p (ap (λ (l : List BlockId). j ∷ l) (keys-append_to x statement blocks))
]

pub append_statement-Extends :
    (x : BlockId) (statement : Node) (s : Builder)
    → IsWellFormed s
    → Extends s (append_statement x statement s)
unfolding append_statement
append_statement-Extends x statement s w =
    let grows : (y : BlockId) → Has s.blocks y → Has (append_to x statement s.blocks) y =
      λ y h. rw (keys-append_to x statement s.blocks) h in
    record { wf = regrow s s.counter (append_to x statement s.blocks) grows w; grows = grows }

pub tail_of-Has :
    (x : BlockId) (s : Builder) → IsWellFormed s → Has s.blocks x → Has s.blocks (tail_of x s)
unfolding tail_of
tail_of-Has x s w h = elim (Option-cases (lookup x s.sequence_tails)) [
  | inl e ↦ rw (e, tail_of) h
  | inr (y, e) ↦ rw (e, tail_of) (w.tails x y e)
]

pub set_tail-Extends :
    (x y : BlockId) (s : Builder) → IsWellFormed s → Has s.blocks y → Extends s (set_tail x y s)
unfolding set_tail
set_tail-Extends x y s w h = elim (Option-cases (lookup x s.sequence_tails)) [
  | inl e ↦
      rw (e, set_tail)
        (record {
          wf = record {
            entry = w.entry;
            exit = w.exit;
            edges = w.edges;
            labels = w.labels;
            gotos = w.gotos;
            tails = values-insert (Has s.blocks) x y s.sequence_tails h w.tails;
          };
          grows = λ z k. k;
        })
  | inr (z, e) ↦ rw (e, set_tail) (Extends-refl w)
]

pub add_label-Extends :
    (name : String) (x : BlockId) (s : Builder)
    → IsWellFormed s
    → Has s.blocks x
    → Extends s (record s { label_targets = insert name x s.label_targets })
add_label-Extends name x s w h = record {
  wf = record {
    entry = w.entry;
    exit = w.exit;
    edges = w.edges;
    labels = values-insert (Has s.blocks) name x s.label_targets h w.labels;
    gotos = w.gotos;
    tails = w.tails;
  };
  grows = λ z k. k;
}

pub add_goto-Extends :
    (x : BlockId) (name : String) (s : Builder)
    → IsWellFormed s
    → Has s.blocks x
    → Extends s (record s { pending_gotos = s.pending_gotos ++ (x, name) ∷ [] })
add_goto-Extends x name s w h = record {
  wf = record {
    entry = w.entry;
    exit = w.exit;
    edges = w.edges;
    labels = w.labels;
    gotos = All-append (λ g. Has s.blocks g.0) s.pending_gotos _ w.gotos (h, tt);
    tails = w.tails;
  };
  grows = λ z k. k;
}

pub label_block-ExtendsWith :
    (x : BlockId) (s : Builder) → IsWellFormed s → Has s.blocks x → ExtendsWith s (label_block x s)
unfolding label_block
label_block-ExtendsWith x s w h = elim (Bool-cases (is_filled x s)) [
  | inl p ↦
      let (n, s1) = new_block "normal" s in
      let r = new_block-ExtendsWith "normal" s w in
      let e = add_edge-Extends x n "fallthrough" s1 r.ext.wf (r.ext.grows x h) r.found in
      rw p (record { ext = Extends-trans r.ext e; found = e.grows n r.found })
  | inr p ↦ rw p (record { ext = Extends-refl w; found = h })
]
