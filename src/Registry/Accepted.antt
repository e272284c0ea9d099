-- ===== src/Registry/Accepted.antt =====
-- Which manifests `load_standard` accepts.
use misra_c_agent.Base.{
  String, true, false, Option, none, some, List, [], ◌∷◌, ◌++◌, map, ◌==◌, ◌||◌, ◌≡◌, ◌↔◌, refl,
  sym, ap, ◌∙◌, subst, arith, string_eq, mem, mem-append_eq, beq_refl, All, Bool-cases,
  Option-cases, inl, inr, lookup, insert, keys, lookup-insert, add, append-nil, append_assoc,
}
use misra_c_agent.Registry.{
  ManifestEntry, Manifest, mapping, RegistryError, RuleRegistry, PluginLoader, unless_raised,
  has_unresolved, entry_error, store_plugin, register_plugin, register_manifest_entry,
  register_entries, manifest_error, load_manifest, store_version, load_standard, load_all,
  ManifestFile,
}
use misra_c_agent.Registry.Loading.{
  IsRegistry, Keeps, load_standard-IsSound, load_all-IsSound, lookup-absent,
}

abbrev pub entry_ids : List ManifestEntry → List String
entry_ids entries = map (λ (entry : ManifestEntry). entry.rule_id) entries

module _ {V : Type 0} where
  keys-insert_new :
      (k : String) (v : V) (d : List (String × V))
      → mem k (keys d) ≡ false
      → keys (insert k v d) ≡ keys d ++ k ∷ []
  keys-insert_new k v [] h = refl
  keys-insert_new k v ((j, w) ∷ d) h =
      ground (arith, keys-insert_new k v d, string_eq.beq_iff k j, string_eq.beq_iff j k, h)

  keyless : (k : String) (d : List (String × V)) → lookup k d ≡ none → mem k (keys d) ≡ false
  keyless k [] h = refl
  keyless k ((j, v) ∷ d) h =
      ground (arith, keyless k d, string_eq.beq_iff k j, string_eq.beq_iff j k, h)

module _ {P M : Type 0} (loader : PluginLoader P M) where
  -- With these ids registered: the entry is complete, its id is new, its dependencies are registered, and its
  -- class gives a plugin with that id.
  abbrev pub IsLoadable : List String → ManifestEntry → Type 0
  IsLoadable known entry =
      ((entry.rule_id == "" || entry.module_path == "" || entry.class_name == "") ≡ false)
      × (mem entry.rule_id known ≡ false)
      × All (λ dependency. mem dependency known ≡ true) entry.dependencies
      × ((plugin : P) × (loader.create entry.module_path entry.class_name ≡ some plugin)
          × (loader.rule_id_of (loader.metadata_of plugin) ≡ entry.rule_id))

  -- Each entry is loadable once those in front of it are registered.
  unfoldable pub AreLoadable : List String → List ManifestEntry → Type 0
  AreLoadable known [] = Unit
  AreLoadable known (entry ∷ entries) =
      IsLoadable known entry × AreLoadable (known ++ entry.rule_id ∷ []) entries

  has_unresolved_iff :
      (r : RuleRegistry P M) (dependencies : List String)
      → (has_unresolved r dependencies ≡ false)
        ↔ All (λ dependency. mem dependency (keys r.plugins) ≡ true) dependencies
  unfolding has_unresolved
  has_unresolved_iff r [] = (λ h. tt, λ h. refl)
  has_unresolved_iff r (dependency ∷ dependencies) =
      let rest = has_unresolved_iff r dependencies in
      (
        λ h. (ground (arith, h), rest.0 (ground (arith, h))),
        λ h. let k = rest.1 h.1 in ground (arith, h.0, k),
      )

  -- A loadable entry is registered.
  register-IsLoadable :
      (entry : ManifestEntry) (seen : List String) (r : RuleRegistry P M)
      → ((id : String) → mem id seen ≡ true → mem id (keys r.plugins) ≡ true)
      → IsLoadable (keys r.plugins) entry
      → (plugin : P) × (register_manifest_entry loader entry seen r
          ≡ (store_plugin loader entry.rule_id plugin r, none))
  unfolding register_manifest_entry entry_error register_plugin
  register-IsLoadable entry seen r h (complete, fresh, resolved, (plugin, created, named)) =
      let unseen : mem entry.rule_id seen ≡ false = elim (Bool-cases (mem entry.rule_id seen)) [
        | inl y ↦ ground (arith, h entry.rule_id y, fresh)
        | inr n ↦ n
      ] in
      let same : (loader.rule_id_of (loader.metadata_of plugin) == entry.rule_id) ≡ true =
        (string_eq.beq_iff _ _).1 named in
      let ok = (has_unresolved_iff r entry.dependencies).1 resolved in
      (
        plugin,
        rw
            (
              register_manifest_entry, entry_error, complete, unseen, fresh, ok, register_plugin,
              created, same,
            )
            refl,
      )

  -- An entry that is registered was loadable.
  IsLoadable-register :
      (entry : ManifestEntry) (seen : List String) (r : RuleRegistry P M)
      → (register_manifest_entry loader entry seen r).1 ≡ none
      → IsLoadable (keys r.plugins) entry
  unfolding register_manifest_entry entry_error register_plugin
  IsLoadable-register entry seen r h = elim (Option-cases (entry_error entry seen r)) [
    | inr (error, e) ↦ ground (arith, h, e)
    | inl e ↦ elim (Option-cases (loader.create entry.module_path entry.class_name)) [
      | inl c ↦ ground (arith, h, e, c)
      | inr (plugin, c) ↦ (
        ground (arith, e),
        ground (arith, e),
        (has_unresolved_iff r entry.dependencies).0 (ground (arith, e)),
        (
          plugin,
          c,
          ground (
            arith,
            h,
            e,
            c,
            string_eq.beq_iff (loader.rule_id_of (loader.metadata_of plugin)) entry.rule_id,
          ),
        ),
      )
    ]
  ]

  keys-store_plugin :
      (entry : ManifestEntry) (plugin : P) (r : RuleRegistry P M)
      → mem entry.rule_id (keys r.plugins) ≡ false
      → keys (store_plugin loader entry.rule_id plugin r).plugins
        ≡ keys r.plugins ++ entry.rule_id ∷ []
  unfolding store_plugin
  keys-store_plugin entry plugin r h = keys-insert_new entry.rule_id plugin r.plugins h

  -- The seen ids stay registered ones.
  seen-registered :
      (id : String) (seen known : List String)
      → ((k : String) → mem k seen ≡ true → mem k known ≡ true)
      → (k : String) → mem k (add id seen) ≡ true
      → mem k (known ++ id ∷ []) ≡ true
  seen-registered id seen known h k m =
      ground (arith, mem-append_eq k known (id ∷ []), mem-append_eq k seen (id ∷ []), h k, m)

  -- What the loop does, and whether it raises, if the seen ids are registered ones.
  abbrev IsLoaded :
      List ManifestEntry → RuleRegistry P M → RuleRegistry P M × Option RegistryError → Type 0
  IsLoaded entries r result =
      ((result.1 ≡ none) ↔ AreLoadable (keys r.plugins) entries)
      × ((result.1 ≡ none) → keys result.0.plugins ≡ keys r.plugins ++ entry_ids entries)

  -- One round of the loop, with what the rest of it does.
  step-IsLoaded :
      (entry : ManifestEntry) (entries : List ManifestEntry) (seen : List String)
      (r : RuleRegistry P M)
      → ((id : String) → mem id seen ≡ true → mem id (keys r.plugins) ≡ true)
      → ((s : RuleRegistry P M)
          → ((id : String)
              → mem id (add entry.rule_id seen) ≡ true
              → mem id (keys s.plugins) ≡ true)
          → IsLoaded entries s (register_entries loader entries (add entry.rule_id seen) s))
      → IsLoadable (keys r.plugins) entry
      → IsLoaded (entry ∷ entries) r (register_entries loader (entry ∷ entries) seen r)
  unfolding register_entries AreLoadable
  step-IsLoaded entry entries seen r h rest ok =
      let (plugin, e) = register-IsLoadable entry seen r h ok in
      let s = store_plugin loader entry.rule_id plugin r in
      let k : keys s.plugins ≡ keys r.plugins ++ entry.rule_id ∷ [] =
        keys-store_plugin entry plugin r ok.1 in
      let (exact, named) = rest s (λ id m.
        subst (λ l. mem id l ≡ true) (sym k)
          (seen-registered entry.rule_id seen (keys r.plugins) h id m)) in
      rw (register_entries, e)
        (
          (
            λ raised. (ok, subst (λ l. AreLoadable l entries) k (exact.0 raised)),
            λ all. exact.1 (subst (λ l. AreLoadable l entries) (sym k) all.1),
          ),
          λ raised.
              named raised
              ∙ ap (λ l. l ++ entry_ids entries) k
              ∙ append_assoc (keys r.plugins) (entry.rule_id ∷ []) (entry_ids entries),
        )

  register_entries-IsLoaded :
      (entries : List ManifestEntry) (seen : List String) (r : RuleRegistry P M)
      → ((id : String) → mem id seen ≡ true → mem id (keys r.plugins) ≡ true)
      → IsLoaded entries r (register_entries loader entries seen r)
  unfolding register_entries AreLoadable
  register_entries-IsLoaded [] seen r h =
      ((λ e. tt, λ e. refl), λ e. sym (append-nil (keys r.plugins)))
  register_entries-IsLoaded (entry ∷ entries) seen r h =
      let rest = register_entries-IsLoaded entries (add entry.rule_id seen) in
      elim (Option-cases (register_manifest_entry loader entry seen r).1) [
        | inl e ↦ step-IsLoaded entry entries seen r h rest (IsLoadable-register entry seen r e)
        | inr (error, e) ↦
            let raised : (register_entries loader (entry ∷ entries) seen r).1 ≡ some error =
              ground (arith, e) in
            (
              (
                λ n. absurd (ground (arith, n, raised)),
                λ (ok, all).
                    let (plugin, stored) = register-IsLoadable entry seen r h ok in
                    absurd (ground (arith, stored, e)),
              ),
              λ n. absurd (ground (arith, n, raised)),
            )
      ]

  -- The version is put on record once the loop is through.
  versioned-IsLoaded :
      (manifest : Manifest) (r : RuleRegistry P M)
      (result : RuleRegistry P M × Option RegistryError)
      → IsLoaded manifest.rules r result
      → (let (registry, raised) = unless_raised result (λ s. (store_version manifest s, none)) in
          ((raised ≡ none) ↔ AreLoadable (keys r.plugins) manifest.rules)
          × ((raised ≡ none)
              → (keys registry.plugins ≡ keys r.plugins ++ entry_ids manifest.rules)
                × (lookup manifest.standard registry.manifest_versions ≡ some manifest.version)))
  unfolding store_version
  versioned-IsLoaded manifest r (s, some error) (exact, named) =
      (exact, λ raised. absurd (ground (arith, raised)))
  versioned-IsLoaded manifest r (s, none) (exact, named) = (
    exact,
    λ raised. (
      named raised,
      rw
          (
            lookup-insert manifest.standard manifest.standard manifest.version s.manifest_versions,
            beq_refl manifest.standard,
          )
          refl,
    ),
  )

  -- `load_standard` accepts a manifest exactly when its head passes the tests and each entry is loadable once those
  -- in front of it are registered. The ids then registered are the old ones and those of the entries, in
  -- order, and the version is on record.
  pub load_standard_exact :
      (manifest : Manifest) (r : RuleRegistry P M)
      → (let (registry, raised) = load_standard loader (mapping manifest) r in
          ((raised ≡ none)
            ↔ ((manifest_error manifest r ≡ none) × AreLoadable (keys r.plugins) manifest.rules))
          × ((raised ≡ none)
              → (keys registry.plugins ≡ keys r.plugins ++ entry_ids manifest.rules)
                × (lookup manifest.standard registry.manifest_versions ≡ some manifest.version)))
  unfolding load_standard load_manifest
  load_standard_exact manifest r = elim (Option-cases (manifest_error manifest r)) [
    | inr (error, e) ↦
        rw (e, load_manifest)
          (
            (λ n. absurd (ground (arith, n)), λ (n, all). absurd (ground (arith, n))),
            λ n. absurd (ground (arith, n)),
          )
    | inl e ↦
        let (exact, named) =
          versioned-IsLoaded manifest r (register_entries loader manifest.rules [] r)
            (register_entries-IsLoaded manifest.rules [] r (λ id m. absurd (ground (arith, m)))) in
        rw (e, load_manifest) ((λ raised. (refl, exact.0 raised), λ (n, all). exact.1 all), named)
  ]

  -- An entry that can be loaded is new.
  fresh-AreLoadable :
      (known : List String) (entries : List ManifestEntry) (id : String)
      → AreLoadable known entries
      → mem id (entry_ids entries) ≡ true
      → mem id known ≡ false
  unfolding AreLoadable
  fresh-AreLoadable known [] id all m = absurd (ground (arith, m))
  fresh-AreLoadable known (entry ∷ entries) id (ok, all) m =
      elim (Bool-cases (id == entry.rule_id)) [
        | inl y ↦
            subst (λ i. mem i known ≡ false) (sym ((string_eq.beq_iff id entry.rule_id).0 y)) ok.1
        | inr n ↦
            let later : mem id (entry_ids entries) ≡ true = ground (
              arith,
              m,
              n,
              string_eq.beq_iff id entry.rule_id,
              string_eq.beq_iff entry.rule_id id,
            ) in
            let fresh = fresh-AreLoadable (known ++ entry.rule_id ∷ []) entries id all later in
            ground (arith, fresh, mem-append_eq id known (entry.rule_id ∷ []))
      ]

  -- A registered id stays registered.
  mem-Keeps :
      (id : String) (before after : RuleRegistry P M)
      → Keeps loader before after
      → mem id (keys before.plugins) ≡ true
      → mem id (keys after.plugins) ≡ true
  unfolding Keeps
  mem-Keeps id before after kept m = elim (Option-cases (lookup id before.plugins)) [
    | inl n ↦ absurd (ground (arith, m, keyless id before.plugins n))
    | inr (plugin, e) ↦ elim (Bool-cases (mem id (keys after.plugins))) [
      | inl y ↦ y
      | inr n ↦
          let gone = lookup-absent loader id after.plugins n in let there = kept id plugin e in cc
    ]
  ]

  -- After a manifest has been accepted by a registry whose plugins are under their ids, and whatever manifests are loaded then, with or without an error, a manifest
  -- that has one of its rule ids is refused, whatever its standard and its version.
  pub load_standard_twice :
      (manifest manifest' : Manifest) (files : List ManifestFile) (id : String)
      (r : RuleRegistry P M)
      → IsRegistry loader r
      → (load_standard loader (mapping manifest) r).1 ≡ none
      → mem id (entry_ids manifest.rules) ≡ true
      → mem id (entry_ids manifest'.rules) ≡ true
      → ¬ (
          (load_standard loader
            (mapping manifest')
            (load_all loader files (load_standard loader (mapping manifest) r).0).0).1
          ≡ none)
  load_standard_twice manifest manifest' files id r ok first m m' again =
      let s = (load_standard loader (mapping manifest) r).0 in
      let t = (load_all loader files s).0 in
      let (sound, kept) = load_standard-IsSound loader (mapping manifest) r ok in
      let (sound', kept') = load_all-IsSound loader files s sound in
      let named = ((load_standard_exact manifest r).1 first).0 in
      let there : mem id (keys s.plugins) ≡ true =
        subst (λ l. mem id l ≡ true) (sym named)
          (ground (arith, m, mem-append_eq id (keys r.plugins) (entry_ids manifest.rules))) in
      let all = ((load_standard_exact manifest' t).0.0 again).1 in
      let fresh = fresh-AreLoadable (keys t.plugins) manifest'.rules id all m' in
      ground (arith, fresh, mem-Keeps id s t kept' there)
