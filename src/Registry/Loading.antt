-- ===== src/Registry/Loading.antt =====
-- What loading manifests does to a registry, where it raises and where it does not.
use misra_c_agent.Base.{
  String, false, Option, none, some, List, [], ◌∷◌, ◌==◌, ◌≡◌, refl, arith, string_eq, mem,
  Bool-cases, Option-cases, inl, inr, lookup, keys, lookup-insert,
}
use misra_c_agent.Registry.{
  ManifestEntry, Manifest, ManifestFile, missing, not_yaml, not_mapping, mapping, RegistryError,
  RuleRegistry, PluginLoader, unless_raised, entry_error, store_plugin, register_plugin,
  register_manifest_entry, register_entries, manifest_error, load_manifest, load_standard,
  store_version, load_all, discover,
}

module _ {P M : Type 0} (loader : PluginLoader P M) where
  -- A plugin is under the id that its metadata has, and its metadata is what it is asked for.
  pub record IsRegistry (registry : RuleRegistry P M) : Type 0 where
    pub ids :
        (rule_id : String) (plugin : P)
        → lookup rule_id registry.plugins ≡ some plugin
        → loader.rule_id_of (loader.metadata_of plugin) ≡ rule_id
    pub described :
        (rule_id : String)
        → lookup rule_id registry.metadata ≡ elim (lookup rule_id registry.plugins) [
          | none ↦ none
          | some plugin ↦ some (loader.metadata_of plugin)
        ]

  -- Every plugin of the one registry is in the other.
  unfoldable pub Keeps : RuleRegistry P M → RuleRegistry P M → Type 0
  Keeps before after =
      (rule_id : String) (plugin : P)
      → lookup rule_id before.plugins ≡ some plugin
      → lookup rule_id after.plugins ≡ some plugin

  -- What an operation leaves, whether it raises or not.
  abbrev pub IsSound : RuleRegistry P M → RuleRegistry P M × Option RegistryError → Type 0
  IsSound before result = IsRegistry result.0 × Keeps before result.0

  Keeps-refl : (r : RuleRegistry P M) → Keeps r r
  unfolding Keeps
  Keeps-refl r rule_id plugin h = h

  Keeps-trans : (r s t : RuleRegistry P M) → Keeps r s → Keeps s t → Keeps r t
  unfolding Keeps
  Keeps-trans r s t h k rule_id plugin e = k rule_id plugin (h rule_id plugin e)

  -- An id without a plugin can get one.
  store_plugin-IsSound :
      (rule_id : String) (plugin : P) (r : RuleRegistry P M)
      → lookup rule_id r.plugins ≡ none
      → loader.rule_id_of (loader.metadata_of plugin) ≡ rule_id
      → IsRegistry r
      → IsRegistry (store_plugin loader rule_id plugin r)
        × Keeps r (store_plugin loader rule_id plugin r)
  unfolding store_plugin Keeps
  store_plugin-IsSound rule_id plugin r free named ok = (
    record {
      ids = λ j p h. elim (Bool-cases (rule_id == j)) [
        | inl y ↦ ground (
          arith,
          y,
          h,
          named,
          lookup-insert rule_id j plugin r.plugins,
          string_eq.beq_iff rule_id j,
        )
        | inr n ↦ ok.ids j p (ground (arith, n, h, lookup-insert rule_id j plugin r.plugins))
      ];
      described = λ j. elim (Bool-cases (rule_id == j)) [
        | inl y ↦
            rw
              (
                lookup-insert rule_id j plugin r.plugins,
                lookup-insert rule_id j (loader.metadata_of plugin) r.metadata,
                y,
              )
              refl
        | inr n ↦
            rw
              (
                lookup-insert rule_id j plugin r.plugins,
                lookup-insert rule_id j (loader.metadata_of plugin) r.metadata,
                n,
              )
              (ok.described j)
      ];
    },
    λ j p h. elim (Bool-cases (rule_id == j)) [
      | inl y ↦ ground (arith, y, h, free, string_eq.beq_iff rule_id j)
      | inr n ↦ ground (arith, n, h, lookup-insert rule_id j plugin r.plugins)
    ],
  )

  pub lookup-absent :
      {V : Type 0} (k : String) (d : List (String × V)) → mem k (keys d) ≡ false → lookup k d ≡ none
  lookup-absent k [] h = refl
  lookup-absent k ((j, v) ∷ d) h =
      ground (arith, lookup-absent k d, string_eq.beq_iff k j, string_eq.beq_iff j k, h)

  -- An entry whose guards pass has an id without a plugin.
  entry_error-free :
      (entry : ManifestEntry) (seen : List String) (r : RuleRegistry P M)
      → entry_error entry seen r ≡ none
      → mem entry.rule_id (keys r.plugins) ≡ false
  unfolding entry_error
  entry_error-free entry seen r h = ground (arith, h)

  register_plugin-IsSound :
      (entry : ManifestEntry) (r : RuleRegistry P M)
      → lookup entry.rule_id r.plugins ≡ none
      → IsRegistry r
      → IsSound r (register_plugin loader entry r)
  unfolding register_plugin
  register_plugin-IsSound entry r free ok =
      elim (Option-cases (loader.create entry.module_path entry.class_name)) [
        | inl e ↦ rw (e, register_plugin) (ok, Keeps-refl r)
        | inr (plugin, e) ↦
            elim (Bool-cases (loader.rule_id_of (loader.metadata_of plugin) == entry.rule_id)) [
              | inl y ↦
                  rw (e, y, register_plugin)
                    (store_plugin-IsSound entry.rule_id plugin r free ((string_eq.beq_iff _ _).0 y)
                      ok)
              | inr n ↦ rw (e, n, register_plugin) (ok, Keeps-refl r)
            ]
      ]

  register_manifest_entry-IsSound :
      (entry : ManifestEntry) (seen : List String) (r : RuleRegistry P M)
      → IsRegistry r
      → IsSound r (register_manifest_entry loader entry seen r)
  unfolding register_manifest_entry
  register_manifest_entry-IsSound entry seen r ok = elim (Option-cases (entry_error entry seen r)) [
    | inl e ↦
        rw (e, register_manifest_entry)
          (register_plugin-IsSound entry r
            (lookup-absent entry.rule_id r.plugins (entry_error-free entry seen r e)) ok)
    | inr (error, e) ↦ rw (e, register_manifest_entry) (ok, Keeps-refl r)
  ]

  unless_raised-IsSound :
      (r : RuleRegistry P M) (result : RuleRegistry P M × Option RegistryError)
      (rest : RuleRegistry P M → RuleRegistry P M × Option RegistryError)
      → IsSound r result
      → ((s : RuleRegistry P M) → IsRegistry s → IsSound s (rest s))
      → IsSound r (unless_raised result rest)
  unless_raised-IsSound r (s, some error) rest h k = h
  unless_raised-IsSound r (s, none) rest (ok, kept) k =
      let (ok', kept') = k s ok in (ok', Keeps-trans r s (rest s).0 kept kept')

  register_entries-IsSound :
      (entries : List ManifestEntry) (seen : List String) (r : RuleRegistry P M)
      → IsRegistry r
      → IsSound r (register_entries loader entries seen r)
  unfolding register_entries
  register_entries-IsSound [] seen r ok = (ok, Keeps-refl r)
  register_entries-IsSound (entry ∷ entries) seen r ok =
      unless_raised-IsSound r (register_manifest_entry loader entry seen r) _
        (register_manifest_entry-IsSound entry seen r ok)
        (λ s h. register_entries-IsSound entries _ s h)

  store_version-IsSound :
      (manifest : Manifest) (r : RuleRegistry P M)
      → IsRegistry r
      → IsRegistry (store_version manifest r) × Keeps r (store_version manifest r)
  unfolding store_version Keeps
  store_version-IsSound manifest r ok =
      (record { ids = ok.ids; described = ok.described }, Keeps-refl r)

  pub load_standard-IsSound :
      (file : ManifestFile) (r : RuleRegistry P M)
      → IsRegistry r
      → IsSound r (load_standard loader file r)
  unfolding load_standard load_manifest
  load_standard-IsSound missing r ok = (ok, Keeps-refl r)
  load_standard-IsSound not_yaml r ok = (ok, Keeps-refl r)
  load_standard-IsSound not_mapping r ok = (ok, Keeps-refl r)
  load_standard-IsSound (mapping manifest) r ok = elim (Option-cases (manifest_error manifest r)) [
    | inl e ↦
        rw (e, load_manifest)
          (unless_raised-IsSound r (register_entries loader manifest.rules [] r) _
            (register_entries-IsSound manifest.rules [] r ok)
            (λ s h. store_version-IsSound manifest s h))
    | inr (error, e) ↦ rw (e, load_manifest) (ok, Keeps-refl r)
  ]

  pub load_all-IsSound :
      (files : List ManifestFile) (r : RuleRegistry P M)
      → IsRegistry r
      → IsSound r (load_all loader files r)
  unfolding load_all
  load_all-IsSound [] r ok = (ok, Keeps-refl r)
  load_all-IsSound (file ∷ files) r ok =
      unless_raised-IsSound r (load_standard loader file r) _ (load_standard-IsSound file r ok)
        (λ s h. load_all-IsSound files s h)

  -- Whether `discover` raises or not, each plugin stays under the id that its metadata has and keeps that
  -- metadata, and no plugin that was registered is dropped or replaced.
  pub discover-IsRegistry :
      (files : Option (List ManifestFile)) (r : RuleRegistry P M)
      → IsRegistry r
      → IsRegistry (discover loader files r).0 × Keeps r (discover loader files r).0
  unfolding discover
  discover-IsRegistry none r ok = (ok, Keeps-refl r)
  discover-IsRegistry (some []) r ok = (ok, Keeps-refl r)
  discover-IsRegistry (some (file ∷ files)) r ok = load_all-IsSound (file ∷ files) r ok
