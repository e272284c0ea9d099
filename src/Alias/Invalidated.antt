-- ===== src/Alias/Invalidated.antt =====
-- Which uses the scans of alias_analyzer.py for invalidated strings and closed files report.
use misra_c_agent.Base.{
  String, Bool, false, List, [], ◌∷◌, ◌++◌, ◌≡◌, refl, ap, ◌∙◌, arith, ◌==◌, ◌||◌, ◌&&◌, not,
  string_eq, mem, mem-union, union, any_of, if◌then◌else◌, Bool-cases, inl, inr,
}
use misra_c_agent.Ast.{Node, name_of}
use misra_c_agent.Alias.{PointsToTable}
use misra_c_agent.Alias.Queries.{aliases_of}
use misra_c_agent.Alias.Calls.{ScanItem, invalidates, uses, mark_aliases, scan}

module _ (table : PointsToTable) where
  -- The name is one of the pointers or an alias of one.
  abbrev is_alias_of : List String → String → Bool
  is_alias_of pointers name = any_of (λ pointer. mem name (aliases_of table pointer)) pointers

  -- Some of the items invalidates a pointer that the name is an alias of.
  unfoldable pub is_stale_after : List ScanItem → String → Bool
  is_stale_after [] name = false
  is_stale_after (invalidates pointers ∷ items) name =
      is_alias_of pointers name || is_stale_after items name
  is_stale_after (uses node is_flagged ∷ items) name = is_stale_after items name

  mem-mark_aliases :
      (pointers marked : List String) (name : String)
      → mem name (mark_aliases table pointers marked)
        ≡ (mem name marked || is_alias_of pointers name)
  unfolding mark_aliases
  mem-mark_aliases [] marked name = ground arith
  mem-mark_aliases (pointer ∷ pointers) marked name = ground (
    arith,
    mem-mark_aliases pointers (union marked (aliases_of table pointer)) name,
    mem-union name marked (aliases_of table pointer),
  )

  -- The scan depends only on which names are in the set.
  scan-same :
      (items : List ScanItem) (xs ys : List String)
      → ((name : String) → mem name xs ≡ mem name ys)
      → scan table items xs ≡ scan table items ys
  unfolding scan
  scan-same [] xs ys h = refl
  scan-same (invalidates pointers ∷ items) xs ys h = scan-same items _ _ (λ name.
      ground (arith, mem-mark_aliases pointers xs name, mem-mark_aliases pointers ys name, h name))
  scan-same (uses node is_flagged ∷ items) xs ys h =
      ground (arith, scan-same items xs ys h, h (name_of node))

  -- The set at the end of a run of items.
  unfoldable pub stale_set : List ScanItem → List String → List String
  stale_set [] stale = stale
  stale_set (invalidates pointers ∷ items) stale =
      stale_set items (mark_aliases table pointers stale)
  stale_set (uses node is_flagged ∷ items) stale = stale_set items stale

  mem-stale_set :
      (items : List ScanItem) (stale : List String) (name : String)
      → mem name (stale_set items stale) ≡ (mem name stale || is_stale_after items name)
  unfolding stale_set is_stale_after
  mem-stale_set [] stale name = ground arith
  mem-stale_set (invalidates pointers ∷ items) stale name = ground (
    arith,
    mem-stale_set items (mark_aliases table pointers stale) name,
    mem-mark_aliases pointers stale name,
  )
  mem-stale_set (uses node is_flagged ∷ items) stale name = mem-stale_set items stale name

  scan-append :
      (xs ys : List ScanItem) (stale : List String)
      → scan table (xs ++ ys) stale ≡ scan table xs stale ++ scan table ys (stale_set xs stale)
  unfolding scan stale_set
  scan-append [] ys stale = refl
  scan-append (invalidates pointers ∷ xs) ys stale =
      scan-append xs ys (mark_aliases table pointers stale)
  scan-append (uses node is_flagged ∷ xs) ys stale =
      elim (Bool-cases (is_flagged || (not (name_of node == "") && mem (name_of node) stale))) [
        | inl y ↦ rw (y, scan) (ap (λ l. node ∷ l) (scan-append xs ys stale))
        | inr n ↦ rw (n, scan) (scan-append xs ys stale)
      ]

  -- A scan reports a use between the items `before` and `after` exactly when the use is flagged, or has the name of
  -- a pointer that some item before it invalidates or of an alias of one: what it reports of all is what
  -- it reports of `before`, then that use in that case, then what it reports of the rest.
  pub scan_exact :
      (before : List ScanItem) (node : Node) (is_flagged : Bool) (after : List ScanItem)
      → scan table (before ++ uses node is_flagged ∷ after) []
        ≡ scan table before []
          ++ ((if is_flagged || (not (name_of node == "") && is_stale_after before (name_of node))
                then node ∷ []
                else [])
              ++ scan table after (stale_set before []))
  unfolding scan
  scan_exact before node is_flagged after =
      let m : mem (name_of node) (stale_set before []) ≡ is_stale_after before (name_of node) =
        mem-stale_set before [] (name_of node) in
      scan-append before (uses node is_flagged ∷ after) []
      ∙ ap (λ l. scan table before [] ++ l) (ground (arith, m))
