-- ===== src/Incremental/Examples.antt =====
-- Small indexes and include graphs: tests, and the properties at them.
use misra_c_agent.Base.{
  String, true, some, List, [], ◌∷◌, ◌≡◌, refl, ◌↔◌, string_eq, mem, lookup, Dict,
}
use misra_c_agent.Incremental.{compute_changed_files, compute_affected_translation_units}
use misra_c_agent.Incremental.Changed.{differs, compute_changed_files_exact}
use misra_c_agent.Incremental.Affected.{DependsOnChange, compute_affected_exact}

abbrev before : Dict String String
before = ("a.c", "1") ∷ ("b.c", "2") ∷ ("gone.c", "3") ∷ []

abbrev after : Dict String String
after = ("a.c", "1") ∷ ("b.c", "9") ∷ ("new.c", "4") ∷ []

changed_files : compute_changed_files before after ≡ ("b.c" ∷ "new.c" ∷ "gone.c" ∷ [])
unfolding compute_changed_files
changed_files = refl

compute_changed_files_exact_example :
    mem "b.c" (compute_changed_files before after)
    ≡ differs (lookup "b.c" before) (lookup "b.c" after)
compute_changed_files_exact_example =
    compute_changed_files_exact before after "b.c" (refl, (refl, (refl, tt)))

-- `m.c` includes `u.h`, which includes `t.h`.
abbrev include_graph : List (String × List String)
include_graph = ("m.c", "u.h" ∷ []) ∷ ("u.h", "t.h" ∷ []) ∷ ("n.c", []) ∷ []

affected_units :
    compute_affected_translation_units ("t.h" ∷ []) include_graph ("m.c" ∷ "n.c" ∷ [])
    ≡ some ("m.c" ∷ [])
unfolding compute_affected_translation_units
affected_units = refl

compute_affected_exact_example :
    (affected : List String) × (compute_affected_translation_units
        ("t.h" ∷ [])
        include_graph
        ("m.c" ∷ "n.c" ∷ [])
      ≡ some affected)
    × ((x : String)
        → (mem x affected ≡ true)
          ↔ ((mem x ("m.c" ∷ "n.c" ∷ []) ≡ true) × DependsOnChange ("t.h" ∷ []) include_graph x))
compute_affected_exact_example =
    compute_affected_exact ("t.h" ∷ []) include_graph ("m.c" ∷ "n.c" ∷ [])
