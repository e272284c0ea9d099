-- ===== src/Review/Bulk.antt =====
-- backend/src/misra_platform/services/bulk_review_service.py. `project_root` is the table of projects
-- that `get_project_root` reads.
use misra_c_agent.Base.{
  ℕ, String, Bool, true, false, Option, none, some, List, [], ◌∷◌, ◌++◌, ◌==◌, string_eq, mem,
  lookup, filter_by, if◌then◌else◌,
}
use misra_c_agent.Review.{
  ViolationStatus, accepted, edited, skip, Violation, bulk_skipped, bulk_assigned, bulk_exported,
  exported, Patch, Database, GeneratedPatch, Result, ok, ◌>>=◌, Submission, ReviewOutcome,
}
use misra_c_agent.Review.Service.{add_audit_entry, submit_review, assign_reviewer}

pub record BulkSkipResult : Type 0 where
  pub outcomes : List ReviewOutcome
  pub skipped_violation_ids : List String
  pub not_found_violation_ids : List String

pub record BulkAssignResult : Type 0 where
  pub assigned_violation_ids : List String
  pub not_found_violation_ids : List String

pub record BulkExportResult : Type 0 where
  pub patch_bodies : List String
  pub exported_patch_ids : List String
  pub skipped_violation_ids : List String

abbrev pub skip_request : String → Option String → Option String → Submission
skip_request reviewer_id reviewer_name notes = record {
  action = skip;
  reviewer_id = reviewer_id;
  reviewer_name = reviewer_name;
  justification = none;
  notes = notes;
  edited_fix = none;
}

-- `violation.status in approved_statuses`
unfoldable pub is_approved : ViolationStatus → Bool
is_approved accepted = true
is_approved edited = true
is_approved _ = false

-- The eligible ids, and the skipped ones.
unfoldable pub split_eligible : Database → List String → List String × List String
unfolding is_approved
split_eligible db [] = ([], [])
split_eligible db (violation_id ∷ ids) =
    let (eligible, skipped) = split_eligible db ids in
    elim (lookup violation_id db.violations) [
      | none ↦ (eligible, violation_id ∷ skipped)
      | some violation ↦
          if is_approved violation.status
          then (violation_id ∷ eligible, skipped)
          else (eligible, violation_id ∷ skipped)
    ]

-- `latest_patch_by_violation`: the patch of a violation that was created last. The query sorts by
-- descending creation time, and rows are added in the order of that time.
unfoldable pub latest_patch : String → List Patch → Option Patch
latest_patch violation_id [] = none
latest_patch violation_id (patch ∷ patches) = elim (latest_patch violation_id patches) [
  | some later ↦ some later
  | none ↦ if patch.violation_id == violation_id then some patch else none
]

-- `mark_patch_exported`
unfoldable pub mark_patch_exported : String → String → List Patch → List Patch
mark_patch_exported patch_id exported_by [] = []
mark_patch_exported patch_id exported_by (patch ∷ patches) =
    (if patch.id == patch_id
      then record patch { status = exported; exported_by = some exported_by }
      else patch)
    ∷ mark_patch_exported patch_id exported_by patches

-- The loop over the eligible ids. The patches were read before it.
unfoldable pub export_loop :
    List Patch → String → List String → Database → BulkExportResult × Database
unfolding latest_patch mark_patch_exported
export_loop found exported_by [] db =
    (record { patch_bodies = []; exported_patch_ids = []; skipped_violation_ids = [] }, db)
export_loop found exported_by (violation_id ∷ ids) db = elim (latest_patch violation_id found) [
  | none ↦
      let (result, db1) = export_loop found exported_by ids db in
      (record result { skipped_violation_ids = violation_id ∷ result.skipped_violation_ids }, db1)
  | some patch ↦
      let marked : Database = record db {
        patches = mark_patch_exported patch.id exported_by db.patches;
      } in
      let (result, db1) = export_loop found exported_by ids marked in
      (
        record result {
          patch_bodies = patch.git_patch ∷ result.patch_bodies;
          exported_patch_ids = patch.id ∷ result.exported_patch_ids;
        },
        db1,
      )
]

module _ (uuid : ℕ → String) (generate : String → Violation → String → GeneratedPatch)
    (project_root : String → String) where
  -- The loop of `bulk_skip`.
  unfoldable pub skip_loop :
      Submission → List String → Database → Result (BulkSkipResult × Database)
  unfolding submit_review
  skip_loop request [] db =
      ok (record { outcomes = []; skipped_violation_ids = []; not_found_violation_ids = [] }, db)
  skip_loop request (violation_id ∷ ids) db = elim (lookup violation_id db.violations) [
    | none ↦ skip_loop request ids db >>= λ r.
        ok (
          record (r.0) { not_found_violation_ids = violation_id ∷ r.0.not_found_violation_ids },
          r.1,
        )
    | some violation ↦
        submit_review uuid generate (project_root violation.project_id) violation request db
        >>= λ o. skip_loop request ids o.1 >>= λ r. ok (
          record (r.0) {
            outcomes = o.0 ∷ r.0.outcomes;
            skipped_violation_ids = violation_id ∷ r.0.skipped_violation_ids;
          },
          r.1,
        )
  ]

  -- `bulk_skip`
  unfoldable pub bulk_skip :
      List String
      → String
      → Option String
      → Option String
      → Database
      → Result (BulkSkipResult × Database)
  unfolding skip_loop add_audit_entry
  bulk_skip violation_ids reviewer_id reviewer_name notes db =
      skip_loop (skip_request reviewer_id reviewer_name notes) violation_ids db >>= λ r.
      let (entry, db1) =
        add_audit_entry uuid generate (bulk_skipped r.0.skipped_violation_ids) reviewer_id
          reviewer_name none notes r.1 in
      ok (r.0, db1)

  -- The loop of `bulk_assign_reviewer`.
  unfoldable pub assign_loop :
      String → Option String → String → List String → Database → BulkAssignResult × Database
  unfolding assign_reviewer
  assign_loop reviewer_id reviewer_name assigned_by [] db =
      (record { assigned_violation_ids = []; not_found_violation_ids = [] }, db)
  assign_loop reviewer_id reviewer_name assigned_by (violation_id ∷ ids) db =
      elim (lookup violation_id db.violations) [
        | none ↦
            let (result, db1) = assign_loop reviewer_id reviewer_name assigned_by ids db in
            (
              record result {
                not_found_violation_ids = violation_id ∷ result.not_found_violation_ids;
              },
              db1,
            )
        | some violation ↦
            let (entry, db1) =
              assign_reviewer uuid generate violation reviewer_id reviewer_name assigned_by db in
            let (result, db2) = assign_loop reviewer_id reviewer_name assigned_by ids db1 in
            (
              record result {
                assigned_violation_ids = violation_id ∷ result.assigned_violation_ids;
              },
              db2,
            )
      ]

  -- `bulk_assign_reviewer`
  unfoldable pub bulk_assign_reviewer :
      List String → String → Option String → String → Database → BulkAssignResult × Database
  unfolding assign_loop add_audit_entry
  bulk_assign_reviewer violation_ids reviewer_id reviewer_name assigned_by db =
      let (result, db1) = assign_loop reviewer_id reviewer_name assigned_by violation_ids db in
      let (entry, db2) =
        add_audit_entry uuid generate
          (bulk_assigned result.assigned_violation_ids reviewer_id reviewer_name) assigned_by none
          none none db1 in
      (result, db2)

  -- `bulk_export_approved_patches`; `combined_patch` is the patch bodies joined by newlines.
  unfoldable pub bulk_export_approved_patches :
      List String → String → Database → BulkExportResult × Database
  unfolding split_eligible export_loop add_audit_entry
  bulk_export_approved_patches violation_ids exported_by db =
      let (eligible, skipped) = split_eligible db violation_ids in
      let found = filter_by (λ (patch : Patch). mem patch.violation_id eligible) db.patches in
      let (result, db1) = export_loop found exported_by eligible db in
      let (entry, db2) =
        add_audit_entry uuid generate (bulk_exported result.exported_patch_ids) exported_by none
          none (some "Export only. No patches were applied automatically.") db1 in
      (record result { skipped_violation_ids = skipped ++ result.skipped_violation_ids }, db2)
