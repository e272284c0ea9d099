-- ===== src/Alias/Queries.antt =====
-- `may_alias` and the queries of alias_analyzer.py on a points-to table.
use misra_c_agent.Base.{
  String, Bool, true, false, List, [], ◌∷◌, ◌++◌, map, ◌==◌, ◌||◌, ◌&&◌, not, string_eq, nat_eq,
  mem, filter_by, any_of, if◌then◌else◌, keys,
}
use misra_c_agent.Base.Tables.{get}
use misra_c_agent.Alias.{Pointee, pointee_eq, PointsToTable, definite, possible, unknown}

-- `points_to`
abbrev pub points_to : PointsToTable → String → List Pointee
points_to table name = get table name

abbrev pub is_unknown : Pointee → Bool
is_unknown pointee = pointee.kind == unknown

-- `{p.target for p in pointees}`
abbrev pub target_names : List Pointee → List String
target_names pointees = map (λ (pointee : Pointee). pointee.target) pointees

unfoldable pub only_definite : List Pointee → Bool
only_definite (pointee ∷ []) = pointee.confidence == definite
only_definite _ = false

unfoldable pub alias_of_sets : List Pointee → List Pointee → Bool × String
unfolding only_definite
alias_of_sets [] ys = (false, unknown)
alias_of_sets (x ∷ xs) [] = (false, unknown)
alias_of_sets (x ∷ xs) (y ∷ ys) =
    if any_of is_unknown (x ∷ xs) || any_of is_unknown (y ∷ ys)
    then (true, unknown)
    else if any_of (λ target. mem target (target_names (y ∷ ys))) (target_names (x ∷ xs))
    then (true, if only_definite (x ∷ xs) && only_definite (y ∷ ys) then definite else possible)
    else (false, definite)

-- `may_alias`
unfoldable pub may_alias : PointsToTable → String → String → Bool × String
unfolding alias_of_sets get
may_alias table a b = alias_of_sets (get table a) (get table b)

-- `pointer_aliases`, `array_aliases` and `function_pointer_aliases`, by the kind of the pointee.
unfoldable pub aliases_of_kind : String → PointsToTable → List (String × Pointee)
aliases_of_kind kind [] = []
aliases_of_kind kind ((name, pointees) ∷ table) =
    map (λ (pointee : Pointee). (name, pointee))
      (filter_by (λ (pointee : Pointee). pointee.kind == kind) pointees)
    ++ aliases_of_kind kind table

-- `_aliases_of`: the name itself, and the other pointers that may alias it.
unfoldable pub aliases_of : PointsToTable → String → List String
unfolding may_alias
aliases_of table name =
    name ∷ filter_by (λ other. not (other == name) && (may_alias table name other).0) (keys table)
