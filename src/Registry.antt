-- ===== src/Registry.antt =====
-- rule-engine/src/misra_platform_rules/registry.py: rule plugins and their metadata by rule id. The file system with the
-- YAML reader, and the import of a plugin class, are parameters. An exception leaves the registry as far as it had
-- been changed, so an operation returns the registry and what it raised.
pub mod Loading
pub mod Accepted
mod Examples
use misra_c_agent.Base.{
  String, Bool, true, false, Option, none, some, List, [], ◌∷◌, ◌==◌, ◌||◌, ◌&&◌, not, string_eq,
  mem, if◌then◌else◌, add, Dict, lookup, insert, keys,
}

-- An entry of a manifest. A key that is missing is `""` here: the source treats the two alike.
pub record ManifestEntry : Type 0 where
  pub rule_id : String
  pub module_path : String
  pub class_name : String
  pub dependencies : List String

-- `version` holds its default where the key is missing.
pub record Manifest : Type 0 where
  pub standard : String
  pub version : String
  pub extends : String
  pub rules : List ManifestEntry

-- What the path of a manifest holds.
pub data ManifestFile : Type 0 where
  missing : ManifestFile
  not_yaml : ManifestFile
  not_mapping : ManifestFile
  mapping : (manifest : Manifest) → ManifestFile

-- The cases of `RuleRegistryError`, and the exceptions of the YAML reader and of the import.
pub data RegistryError : Type 0 where
  manifest_not_found : RegistryError
  yaml_error : RegistryError
  invalid_manifest : RegistryError
  missing_standard : RegistryError
  dependency_standard_not_loaded : RegistryError
  version_mismatch : RegistryError
  incomplete_entry : RegistryError
  duplicate_in_manifest : RegistryError
  duplicate_registration : RegistryError
  unresolved_dependency : RegistryError
  import_error : RegistryError
  metadata_mismatch : RegistryError
  root_not_found : RegistryError
  no_manifests : RegistryError

-- `P` is a plugin and `M` its metadata, of which the registry reads the rule id.
pub record RuleRegistry (P M : Type 0) : Type 0 where
  pub plugins : Dict String P
  pub metadata : Dict String M
  pub manifest_versions : Dict String String

-- `module = importlib.import_module(module_path)` and the rest up to `plugin_class()`, and `plugin.metadata`.
pub record PluginLoader (P M : Type 0) : Type 0 where
  pub create : String → String → Option P
  pub metadata_of : P → M
  pub rule_id_of : M → String

module _ {V : Type 0} where
  -- `d.values()`
  abbrev pub values : Dict String V → List V
  values [] = []
  values ((key, value) ∷ d) = value ∷ values d

module _ {P M : Type 0} where
  abbrev pub empty_registry : RuleRegistry P M
  empty_registry = record { plugins = []; metadata = []; manifest_versions = [] }

  -- The statements after a call, which an exception of the call skips.
  abbrev pub unless_raised :
      RuleRegistry P M × Option RegistryError
      → (RuleRegistry P M → RuleRegistry P M × Option RegistryError)
      → RuleRegistry P M × Option RegistryError
  unless_raised (registry, some error) rest = (registry, some error)
  unless_raised (registry, none) rest = rest registry

  unfoldable pub has_unresolved : RuleRegistry P M → List String → Bool
  has_unresolved registry [] = false
  has_unresolved registry (dependency ∷ dependencies) =
      not (mem dependency (keys registry.plugins)) || has_unresolved registry dependencies

  -- The guards of `_register_manifest_entry` in front of the import, in their order.
  unfoldable pub entry_error : ManifestEntry → List String → RuleRegistry P M → Option RegistryError
  unfolding has_unresolved
  entry_error entry seen_rule_ids registry =
      if entry.rule_id == "" || entry.module_path == "" || entry.class_name == ""
      then some incomplete_entry
      else if mem entry.rule_id seen_rule_ids
      then some duplicate_in_manifest
      else if mem entry.rule_id (keys registry.plugins)
      then some duplicate_registration
      else if has_unresolved registry entry.dependencies
      then some unresolved_dependency
      else none

  -- The tests of `load_standard` on a manifest.
  unfoldable pub manifest_error : Manifest → RuleRegistry P M → Option RegistryError
  manifest_error manifest registry =
      if manifest.standard == ""
      then some missing_standard
      else if not (manifest.extends == "")
          && not (mem manifest.extends (keys registry.manifest_versions))
      then some dependency_standard_not_loaded
      else elim (lookup manifest.standard registry.manifest_versions) [
        | none ↦ none
        | some existing ↦ if manifest.version == existing then none else some version_mismatch
      ]

  -- `self._manifest_versions[standard] = version`
  unfoldable pub store_version : Manifest → RuleRegistry P M → RuleRegistry P M
  store_version manifest registry = record registry {
    manifest_versions = insert manifest.standard manifest.version registry.manifest_versions;
  }

  module _ (loader : PluginLoader P M) where
    unfoldable pub store_plugin : String → P → RuleRegistry P M → RuleRegistry P M
    store_plugin rule_id plugin registry = record registry {
      plugins = insert rule_id plugin registry.plugins;
      metadata = insert rule_id (loader.metadata_of plugin) registry.metadata;
    }

    -- From the import on.
    unfoldable pub register_plugin :
        ManifestEntry → RuleRegistry P M → RuleRegistry P M × Option RegistryError
    unfolding store_plugin
    register_plugin entry registry = elim (loader.create entry.module_path entry.class_name) [
      | none ↦ (registry, some import_error)
      | some plugin ↦
          if loader.rule_id_of (loader.metadata_of plugin) == entry.rule_id
          then (store_plugin entry.rule_id plugin registry, none)
          else (registry, some metadata_mismatch)
    ]

    -- `_register_manifest_entry`
    unfoldable pub register_manifest_entry :
        ManifestEntry → List String → RuleRegistry P M → RuleRegistry P M × Option RegistryError
    unfolding entry_error register_plugin
    register_manifest_entry entry seen_rule_ids registry =
        elim (entry_error entry seen_rule_ids registry) [
          | some error ↦ (registry, some error)
          | none ↦ register_plugin entry registry
        ]

    -- The loop of `load_standard`. The set of seen ids matters only until an entry raises.
    unfoldable pub register_entries :
        List ManifestEntry
        → List String
        → RuleRegistry P M
        → RuleRegistry P M × Option RegistryError
    unfolding register_manifest_entry
    register_entries [] seen_rule_ids registry = (registry, none)
    register_entries (entry ∷ entries) seen_rule_ids registry =
        unless_raised (register_manifest_entry entry seen_rule_ids registry)
          (λ registry'. register_entries entries (add entry.rule_id seen_rule_ids) registry')

    unfoldable pub load_manifest :
        Manifest → RuleRegistry P M → RuleRegistry P M × Option RegistryError
    unfolding manifest_error register_entries store_version
    load_manifest manifest registry = elim (manifest_error manifest registry) [
      | some error ↦ (registry, some error)
      | none ↦
          unless_raised (register_entries manifest.rules [] registry)
            (λ registry'. (store_version manifest registry', none))
    ]

    -- `load_standard`
    unfoldable pub load_standard :
        ManifestFile → RuleRegistry P M → RuleRegistry P M × Option RegistryError
    unfolding load_manifest
    load_standard missing registry = (registry, some manifest_not_found)
    load_standard not_yaml registry = (registry, some yaml_error)
    load_standard not_mapping registry = (registry, some invalid_manifest)
    load_standard (mapping manifest) registry = load_manifest manifest registry

    unfoldable pub load_all :
        List ManifestFile → RuleRegistry P M → RuleRegistry P M × Option RegistryError
    unfolding load_standard
    load_all [] registry = (registry, none)
    load_all (file ∷ files) registry =
        unless_raised (load_standard file registry) (λ registry'. load_all files registry')

    -- `discover`: `none` where the root does not exist, else what the sorted paths of the manifests hold.
    unfoldable pub discover :
        Option (List ManifestFile) → RuleRegistry P M → RuleRegistry P M × Option RegistryError
    unfolding load_all
    discover none registry = (registry, some root_not_found)
    discover (some []) registry = (registry, some no_manifests)
    discover (some (file ∷ files)) registry = load_all (file ∷ files) registry

  -- `get` and `get_metadata`, `none` for `RuleRegistryError`.
  unfoldable pub get_plugin : String → RuleRegistry P M → Option P
  get_plugin rule_id registry = lookup rule_id registry.plugins

  unfoldable pub get_metadata : String → RuleRegistry P M → Option M
  get_metadata rule_id registry = lookup rule_id registry.metadata

  unfoldable pub list_metadata : RuleRegistry P M → List M
  list_metadata registry = values registry.metadata

  unfoldable pub select_known : RuleRegistry P M → List String → List P
  select_known registry [] = []
  select_known registry (rule_id ∷ rule_ids) =
      let rest = select_known registry rule_ids in
      elim (lookup rule_id registry.plugins) [ none ↦ rest | some plugin ↦ plugin ∷ rest ]

  -- `select_rules`: `None` and `[]` are alike.
  unfoldable pub select_rules : RuleRegistry P M → List String → List P
  unfolding select_known
  select_rules registry [] = values registry.plugins
  select_rules registry (rule_id ∷ rule_ids) = select_known registry (rule_id ∷ rule_ids)
