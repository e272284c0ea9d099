-- ===== src/Review/AuditTrail.antt =====
-- The history of a database over any sequence of operations of the review and bulk review services.
use misra_c_agent.Base.{
  ℕ, ◌+◌, length, String, Option, none, some, List, ◌≡◌, refl, subst, string_eq, mem, filter_by,
}
use misra_c_agent.Review.{
  Violation, bulk_skipped, bulk_assigned, bulk_exported, Patch, Database, GeneratedPatch, ok,
  Submission, ReviewOutcome,
}
use misra_c_agent.Review.Service.{submit_review, assign_reviewer, add_audit_entry}
use misra_c_agent.Review.Bulk.{
  BulkSkipResult, skip_request, bulk_skip, assign_loop, bulk_assign_reviewer, export_loop,
  bulk_export_approved_patches, split_eligible,
}
use misra_c_agent.Review.Submitting.{refusal}
use misra_c_agent.Review.Kept.{Keeps, Keeps-refl, Keeps-trans}
use misra_c_agent.Review.Keeping.{
  add_audit_entry-Keeps, submit_review-Keeps, assign_reviewer-Keeps, assign_loop-Keeps,
  export_loop-Keeps, skip_loop-Keeps,
}

module _ (uuid : ℕ → String) (generate : String → Violation → String → GeneratedPatch) where
  -- `bulk_skip` never fails, changes no patch and loses nothing of the history, and every id of the request
  -- is counted once, as skipped or as not found.
  pub bulk_skip_outcome :
      (project_root : String → String) (ids : List String) (reviewer_id : String)
      (name notes : Option String) (db : Database)
      → (result : BulkSkipResult) × (db' : Database) × (bulk_skip uuid generate project_root ids
            reviewer_id name notes db
          ≡ ok (result, db'))
        × Keeps db db'
        × (db'.patches ≡ db.patches)
        × (length result.skipped_violation_ids + length result.not_found_violation_ids ≡ length ids)
  unfolding bulk_skip add_audit_entry refusal
  bulk_skip_outcome project_root ids reviewer_id name notes db =
      let (result, db1, e, keeps, same, counted) =
        skip_loop-Keeps uuid generate project_root (skip_request reviewer_id name notes) refl refl
          ids db in
      let logged =
        add_audit_entry-Keeps uuid generate (bulk_skipped result.skipped_violation_ids) reviewer_id
          name none notes db1 in
      (result, _, rw (bulk_skip, e) refl, Keeps-trans db db1 _ keeps logged, same, counted)

  -- One call of the services that succeeds, from one database to the next.
  pub data Step (project_root : String → String) : Database → Database → Type 0 where
    submitted :
        (root : String) (violation : Violation) (request : Submission) (outcome : ReviewOutcome)
        {db db' : Database}
        → submit_review uuid generate root violation request db ≡ ok (outcome, db')
        → Step project_root db db'
    assigned :
        (violation : Violation) (reviewer_id : String) (name : Option String) (by : String)
        {db : Database}
        → Step project_root db (assign_reviewer uuid generate violation reviewer_id name by db).1
    skipped :
        (ids : List String) (reviewer_id : String) (name notes : Option String)
        (result : BulkSkipResult) {db db' : Database}
        → bulk_skip uuid generate project_root ids reviewer_id name notes db ≡ ok (result, db')
        → Step project_root db db'
    assigned_all :
        (ids : List String) (reviewer_id : String) (name : Option String) (by : String)
        {db : Database}
        → Step project_root db
            (bulk_assign_reviewer uuid generate project_root ids reviewer_id name by db).1
    exported_all :
        (ids : List String) (by : String) {db : Database}
        → Step project_root db (bulk_export_approved_patches uuid generate project_root ids by db).1

  pub data Steps (project_root : String → String) : Database → Database → Type 0 where
    done : {db : Database} → Steps project_root db db
    and_then :
        {a b c : Database} → Step project_root a b → Steps project_root b c → Steps project_root a c

  Step-Keeps :
      (project_root : String → String) {db db' : Database} → Step project_root db db' → Keeps db db'
  unfolding bulk_assign_reviewer bulk_export_approved_patches
  Step-Keeps project_root (submitted root violation request outcome {db} {db'} h) =
      submit_review-Keeps uuid generate root violation request db outcome db' h
  Step-Keeps project_root (assigned violation reviewer_id name by {db}) =
      assign_reviewer-Keeps uuid generate violation reviewer_id name by db
  Step-Keeps project_root (skipped ids reviewer_id name notes result {db} {db'} h) =
      let (result1, db1, e, keeps, same_patches, counted) =
        bulk_skip_outcome project_root ids reviewer_id name notes db in
      let same : db1 ≡ db' = cc in subst (λ d. Keeps db d) same keeps
  Step-Keeps project_root (assigned_all ids reviewer_id name by {db}) =
      let (result, db1) = assign_loop uuid generate project_root reviewer_id name by ids db in
      Keeps-trans db db1 _ (assign_loop-Keeps uuid generate project_root reviewer_id name by ids db)
        (add_audit_entry-Keeps uuid generate
          (bulk_assigned result.assigned_violation_ids reviewer_id name) by none none none db1)
  Step-Keeps project_root (exported_all ids by {db}) =
      let (eligible, rejected) = split_eligible db ids in
      let found = filter_by (λ (patch : Patch). mem patch.violation_id eligible) db.patches in
      let (result, db1) = export_loop found by eligible db in
      Keeps-trans db db1 _ (export_loop-Keeps uuid generate found by eligible db) (
        add_audit_entry-Keeps uuid generate (bulk_exported result.exported_patch_ids) by none none
          (some "Export only. No patches were applied automatically.") db1)

  -- Whatever calls of the review and bulk review services succeed, in whatever order, no review, no audit entry
  -- and no patch is lost or changed, but for the export marks of patches: rows are only added at the
  -- end, and every review that is added has its justification where its action needs one.
  pub history_kept :
      (project_root : String → String) {db db' : Database}
      → Steps project_root db db'
      → Keeps db db'
  history_kept project_root (done {db}) = Keeps-refl db
  history_kept project_root (and_then {a} {b} {c} step steps) =
      Keeps-trans a b c (Step-Keeps project_root step) (history_kept project_root steps)
