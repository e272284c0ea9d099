-- ===== src/Registry/Examples.antt =====
-- A manifest with two rules, loaded into an empty registry: tests, and the properties at it.
use misra_c_agent.Base.{String, none, some, List, [], ◌∷◌, ◌≡◌, ◌↔◌, refl, string_eq, keys, lookup}
use misra_c_agent.Registry.{
  ManifestEntry, Manifest, mapping, RuleRegistry, PluginLoader, empty_registry,
  unresolved_dependency, duplicate_registration, manifest_error, load_standard, load_all, discover,
  select_rules,
}
use misra_c_agent.Registry.Loading.{IsRegistry, Keeps, discover-IsRegistry}
use misra_c_agent.Registry.Accepted.{AreLoadable, load_standard_exact, load_standard_twice}

-- A plugin is the name of its class, which is its rule id as well.
abbrev loader : PluginLoader String String
loader = record {
  create = λ module_path class_name. some class_name;
  metadata_of = λ plugin. plugin;
  rule_id_of = λ metadata. metadata;
}

abbrev entry : String → List String → ManifestEntry
entry rule_id dependencies = record {
  rule_id = rule_id;
  module_path = "rules";
  class_name = rule_id;
  dependencies = dependencies;
}

abbrev rules_in_order : Manifest
rules_in_order = record {
  standard = "misra_c_2012";
  version = "0.1.0";
  extends = "";
  rules = entry "2.1" [] ∷ entry "2.2" ("2.1" ∷ []) ∷ [];
}

abbrev rules_reversed : Manifest
rules_reversed = record rules_in_order {
  rules = entry "1.3" [] ∷ entry "2.2" ("2.1" ∷ []) ∷ entry "2.1" [] ∷ [];
}

abbrev unloaded : RuleRegistry String String
unloaded = empty_registry

abbrev loaded : RuleRegistry String String
loaded = (load_standard loader (mapping rules_in_order) unloaded).0

ids_in_order : keys loaded.plugins ≡ ("2.1" ∷ "2.2" ∷ [])
unfolding load_standard
ids_in_order = refl

-- What was registered in front of the entry that raises stays.
partial_load :
    (let (registry, raised) = load_standard loader (mapping rules_reversed) unloaded in
      (keys registry.plugins ≡ ("1.3" ∷ [])) × (raised ≡ some unresolved_dependency))
unfolding load_standard
partial_load = (refl, refl)

reload_raises :
    (load_standard loader (mapping rules_in_order) loaded).1 ≡ some duplicate_registration
unfolding load_standard
reload_raises = refl

selected : select_rules loaded ("2.2" ∷ "9.9" ∷ []) ≡ ("2.2" ∷ [])
unfolding load_standard select_rules
selected = refl

unloaded-IsRegistry : IsRegistry loader unloaded
unloaded-IsRegistry = record { ids = λ rule_id plugin h. cc; described = λ rule_id. refl }

discover-IsRegistry_example :
    IsRegistry loader (discover loader (some (mapping rules_in_order ∷ [])) unloaded).0
    × Keeps loader unloaded (discover loader (some (mapping rules_in_order ∷ [])) unloaded).0
discover-IsRegistry_example =
    discover-IsRegistry loader (some (mapping rules_in_order ∷ [])) unloaded unloaded-IsRegistry

load_standard_exact_example :
    (let (registry, raised) = load_standard loader (mapping rules_in_order) unloaded in
      ((raised ≡ none) ↔ (
        (manifest_error rules_in_order unloaded ≡ none)
        × AreLoadable loader [] rules_in_order.rules))
      × ((raised ≡ none)
          → (keys registry.plugins ≡ ("2.1" ∷ "2.2" ∷ []))
            × (lookup "misra_c_2012" registry.manifest_versions ≡ some "0.1.0")))
load_standard_exact_example = load_standard_exact loader rules_in_order unloaded

-- A later version that drops rule 2.1 and brings in 3.1.
abbrev rules_updated : Manifest
rules_updated = record rules_in_order {
  version = "0.2.0";
  rules = entry "3.1" [] ∷ entry "2.2" ("2.1" ∷ []) ∷ [];
}

-- A second manifest of the standard, with rules of its own.
abbrev more_rules : Manifest
more_rules = record rules_in_order { rules = entry "9.1" [] ∷ [] }

more_rules_load : (load_standard loader (mapping more_rules) loaded).1 ≡ none
unfolding load_standard
more_rules_load = refl

load_standard_twice_example : ¬ (
    (load_standard loader
      (mapping rules_updated)
      (load_all loader (mapping more_rules ∷ mapping rules_reversed ∷ []) loaded).0).1
    ≡ none)
unfolding load_standard
load_standard_twice_example =
    load_standard_twice loader rules_in_order rules_updated
      (mapping more_rules ∷ mapping rules_reversed ∷ []) "2.2" unloaded unloaded-IsRegistry refl
      refl refl
