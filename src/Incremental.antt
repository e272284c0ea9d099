-- ===== src/Incremental.antt =====
-- backend/src/misra_platform/integrations/clang_bridge/incremental_index.py: which files changed, and
-- which translation units a change reaches through the include graph.
pub mod Changed
pub mod Affected
mod Examples
use misra_c_agent.Base.{
  ℕ, zero, suc, ◌+◌, ◌≡◌, refl, ◌↔◌, String, Bool, true, false, Option, none, some, List, [], ◌∷◌,
  ◌++◌, ◌||◌, ◌&&◌, not, arith, map, mem, string_eq, Dict, lookup, keys, length, filter_by,
  if◌then◌else◌, ◌==◌,
}
use misra_c_agent.Base.Search.{Graph, targets, visit_all, queue_push}

-- `changed.append(path)` for the paths of the current index whose hash is new or different.
unfoldable pub changed_current : Dict String String → Dict String String → List String
changed_current previous_hashes [] = []
changed_current previous_hashes ((path, content_hash) ∷ index) =
    let rest = changed_current previous_hashes index in
    elim (lookup path previous_hashes) [
      | none ↦ path ∷ rest
      | some previous ↦ if not (previous == content_hash) then path ∷ rest else rest
    ]

-- `compute_changed_files`. An index node is its content hash here: the rest of it is not read.
unfoldable pub compute_changed_files : Dict String String → Dict String String → List String
unfolding changed_current
compute_changed_files previous_hashes current_index =
    changed_current previous_hashes current_index
    ++ filter_by (λ path. not (mem path (keys current_index))) (keys previous_hashes)

-- `reverse_graph.setdefault(include, set()).add(source)`. The dict of sets is kept as the pairs of
-- an include and a source that has it, each pair once.
unfoldable pub add_reverse : String → String → Graph String → Graph String
add_reverse include source reverse =
    if mem source (targets reverse include) then reverse else reverse ++ (include, source) ∷ []

unfoldable pub reverse_includes : String → List String → Graph String → Graph String
unfolding add_reverse
reverse_includes source [] reverse = reverse
reverse_includes source (include ∷ includes) reverse =
    reverse_includes source includes (add_reverse include source reverse)

-- The two nested loops that fill `reverse_graph`.
unfoldable pub reverse_graph : List (String × List String) → Graph String → Graph String
unfolding reverse_includes
reverse_graph [] reverse = reverse
reverse_graph ((source, includes) ∷ rest) reverse =
    reverse_graph rest (reverse_includes source includes reverse)

-- `compute_affected_translation_units`, as the set before it is sorted. A unit is added when it
-- leaves the queue for the first time, so the set is the visited files that are units. One round
-- for each changed file and each include, and one to find the queue empty, are enough.
unfoldable pub compute_affected_translation_units :
    List String → List (String × List String) → List String → Option (List String)
unfolding visit_all reverse_graph
compute_affected_translation_units changed_files include_graph translation_unit_files =
    let reverse = reverse_graph include_graph [] in
    elim (visit_all queue_push (suc (length changed_files + length reverse)) reverse changed_files
      []) [
        | none ↦ none
        | some visited ↦ some (filter_by (λ file. mem file translation_unit_files) visited)
      ]
