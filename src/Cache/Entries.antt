-- ===== src/Cache/Entries.antt =====
-- The dicts of the cache: what they hold for a node, and how often it has been built.
use misra_c_agent.Base.{
  ℕ, ◌+◌, false, [], ◌∷◌, length, arith, beq_refl, Option-cases, String, Option, none, some, ◌==◌,
  ◌≡◌, refl, sym, ap, ◌∙◌, string_eq, Dict, lookup, insert, lookup-insert, Bool-cases, inl, inr,
}
use misra_c_agent.Ast.{Node, AstGraph, get_node}
use misra_c_agent.Cache.{ResultKey, key_eq, bump}

-- The count of a key: one where the dict has it.
abbrev pub once : {V : Type 0} → Option V → Option ℕ
once none = none
once (some v) = some 1

module _ {V : Type 0} where
  -- What is in the dict has been built once, and nothing else has.
  unfoldable pub BuiltOnce : Dict String V → Dict String ℕ → Type 0
  BuiltOnce d builds = (id : String) → lookup id builds ≡ once (lookup id d)

  pub BuiltOnce-insert :
      (id : String) (v : V) (d : Dict String V) (builds : Dict String ℕ)
      → lookup id d ≡ none
      → BuiltOnce d builds
      → BuiltOnce (insert id v d) (bump id builds)
  unfolding BuiltOnce bump
  BuiltOnce-insert id v d builds free h j =
      let none_yet : lookup id builds ≡ none = h id ∙ ap once free in
      let fresh : lookup j (bump id builds) ≡ lookup j (insert id 1 builds) =
        rw (none_yet, bump) refl in
      elim (Bool-cases (id == j)) [
        | inl y ↦ fresh ∙ rw (lookup-insert id j 1 builds, lookup-insert id j v d, y) refl
        | inr n ↦ fresh ∙ rw (lookup-insert id j 1 builds, lookup-insert id j v d, n) (h j)
      ]

-- How often a key has been counted.
unfoldable pub count_of : String → Dict String ℕ → ℕ
count_of key d = elim (lookup key d) [ none ↦ 0 | some n ↦ n ]

count_of-bump : (key : String) (d : Dict String ℕ) → count_of key (bump key d) ≡ count_of key d + 1
unfolding count_of bump
count_of-bump key d = elim (Option-cases (lookup key d)) [
  | inl e ↦
      let before : count_of key d ≡ 0 = rw (count_of, e) refl in
      let after : count_of key (bump key d) ≡ 1 =
        rw (e, bump) (rw (count_of, lookup-insert key key 1 d, beq_refl key) refl) in
      omega (arith, before, after)
  | inr (n, e) ↦
      let before : count_of key d ≡ n = rw (count_of, e) refl in
      let after : count_of key (bump key d) ≡ n + 1 =
        rw (e, bump) (rw (count_of, lookup-insert key key (n + 1) d, beq_refl key) refl) in
      omega (arith, before, after)
]

count_of-bump_other :
    (key other : String) (d : Dict String ℕ)
    → (other == key) ≡ false
    → count_of key (bump other d) ≡ count_of key d
unfolding count_of bump
count_of-bump_other key other d h = elim (Option-cases (lookup other d)) [
  | inl e ↦ rw (e, bump) (rw (count_of, lookup-insert other key 1 d, h) refl)
  | inr (n, e) ↦ rw (e, bump) (rw (count_of, lookup-insert other key (n + 1) d, h) refl)
]

length-insert :
    {V : Type 0} (key : ResultKey) (v : V) (d : Dict ResultKey V)
    → lookup key d ≡ none
    → length (insert key v d) ≡ length d + 1
length-insert key v [] h = refl
length-insert key v ((j, w) ∷ d) h =
    ground (arith, length-insert key v d, key_eq.beq_iff key j, key_eq.beq_iff j key, h)

module _ (graph : AstGraph) where
  -- The node is the one that the graph has under its id.
  abbrev pub IsNode : Node → Type 0
  IsNode node = get_node graph node.node_id ≡ some node

  module _ {V : Type 0} (f : Node → V) where
    -- What the dict has for a node is `f` of it.
    unfoldable pub Holds : Dict String V → Type 0
    Holds d = (node : Node) (v : V) → IsNode node → lookup node.node_id d ≡ some v → v ≡ f node

    pub Holds-insert :
        (node : Node) (d : Dict String V)
        → IsNode node
        → Holds d
        → Holds (insert node.node_id (f node) d)
    unfolding Holds
    Holds-insert node d known h other v known' e =
        elim (Bool-cases (node.node_id == other.node_id)) [
          | inl y ↦
              let id : node.node_id ≡ other.node_id =
                (string_eq.beq_iff node.node_id other.node_id).0 y in
              let same : some node ≡ some other = sym known ∙ ap (get_node graph) id ∙ known' in
              let value : some (f node) ≡ some v =
                sym (lookup-insert node.node_id other.node_id (f node) d ∙ rw (y) refl) ∙ e in
              cc
          | inr n ↦
              h other v known'
                (sym (lookup-insert node.node_id other.node_id (f node) d ∙ rw (n) refl) ∙ e)
        ]

  module _ {R : Type 0} (f : Node → String → R) where
    -- What the dict has for a node and a name is `f` of them.
    unfoldable pub HoldsResults : Dict ResultKey R → Type 0
    HoldsResults d =
        (node : Node) (name : String) (v : R)
        → IsNode node
        → lookup (node.node_id, name) d ≡ some v
        → v ≡ f node name

    pub HoldsResults-insert :
        (node : Node) (name : String) (d : Dict ResultKey R)
        → IsNode node
        → HoldsResults d
        → HoldsResults (insert (node.node_id, name) (f node name) d)
    unfolding HoldsResults
    HoldsResults-insert node name d known h other other_name v known' e =
        let key : ResultKey = (node.node_id, name) in
        let other_key : ResultKey = (other.node_id, other_name) in
        elim (Bool-cases (key == other_key)) [
          | inl y ↦
              let keys : key ≡ other_key = (key_eq.beq_iff key other_key).0 y in
              let id : node.node_id ≡ other.node_id = ap (λ (k : ResultKey). k.0) keys in
              let named : name ≡ other_name = ap (λ (k : ResultKey). k.1) keys in
              let same : some node ≡ some other = sym known ∙ ap (get_node graph) id ∙ known' in
              let value : some (f node name) ≡ some v =
                sym (lookup-insert key other_key (f node name) d ∙ rw (y) refl) ∙ e in
              cc
          | inr n ↦
              h other other_name v known'
                (sym (lookup-insert key other_key (f node name) d ∙ rw (n) refl) ∙ e)
        ]

    -- The results are those of `f`, and as many have been computed as there are.
    abbrev pub AreResults : Dict ResultKey R → Dict String ℕ → Type 0
    AreResults d misses = HoldsResults d × (count_of "dataflow_result" misses ≡ length d)

    pub AreResults-insert :
        (node : Node) (name : String) (d : Dict ResultKey R) (misses : Dict String ℕ)
        → IsNode node
        → lookup (node.node_id, name) d ≡ none
        → AreResults d misses
        → AreResults (insert (node.node_id, name) (f node name) d) (bump "dataflow_result" misses)
    AreResults-insert node name d misses known free (holds, counted) = (
      HoldsResults-insert node name d known holds,
      omega (
        arith,
        count_of-bump "dataflow_result" misses,
        length-insert (node.node_id, name) (f node name) d free,
        counted,
      ),
    )

    -- A miss of another analyzer changes nothing here.
    pub AreResults-bump :
        (other : String) (d : Dict ResultKey R) (misses : Dict String ℕ)
        → (other == "dataflow_result") ≡ false
        → AreResults d misses
        → AreResults d (bump other misses)
    AreResults-bump other d misses h (holds, counted) =
        (holds, count_of-bump_other "dataflow_result" other misses h ∙ counted)
