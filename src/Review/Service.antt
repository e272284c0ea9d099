-- ===== src/Review/Service.antt =====
-- backend/src/misra_platform/services/review_service.py: `submit_review` and `assign_reviewer`. A row's
-- id is drawn from `uuid`, which stands for `uuid.uuid4`; `generate` is `PatchEngine.generate`, whose
-- text comes from `difflib` and the file system.
use misra_c_agent.Base.{
  ℕ, suc, String, Option, none, some, [], ◌∷◌, ◌++◌, ◌==◌, ◌&&◌, not, string_eq, insert,
  if◌then◌else◌,
}
use misra_c_agent.Review.{
  ViolationStatus, edit, action_to_status, generates_patch, Violation, Review, AuditEvent, reviewed,
  patch_generated, reviewer_assigned, AuditEntry, generated, Patch, Database, GeneratedPatch,
  Result, ok, ◌>>=◌, validate_justification, resolve_fix_text, Submission, ReviewOutcome,
}

module _ (uuid : ℕ → String) (generate : String → Violation → String → GeneratedPatch) where
  -- `add_audit_entry`
  unfoldable pub add_audit_entry :
      AuditEvent
      → String
      → Option String
      → Option String
      → Option String
      → Database
      → AuditEntry × Database
  add_audit_entry event actor_id actor_name justification notes db =
      let entry : AuditEntry = record {
        id = uuid db.issued;
        event = event;
        actor_id = actor_id;
        actor_name = actor_name;
        justification = justification;
        notes = notes;
      } in
      (entry, record db { audit = db.audit ++ entry ∷ []; issued = suc db.issued })

  -- `add_review`
  unfoldable pub add_review : Violation → Submission → Database → Review × Database
  unfolding action_to_status
  add_review violation request db =
      let review : Review = record {
        id = uuid db.issued;
        violation_id = violation.id;
        action = request.action;
        previous_status = violation.status;
        new_status = action_to_status request.action;
        reviewer_id = request.reviewer_id;
        reviewer_name = request.reviewer_name;
        justification = request.justification;
        notes = request.notes;
        edited_fix = elim request.action [ edit ↦ request.edited_fix | _ ↦ none ];
      } in
      (review, record db { reviews = db.reviews ++ review ∷ []; issued = suc db.issued })

  -- `violation.status = new_status`, on the row that the session holds.
  unfoldable pub set_status : Violation → ViolationStatus → Database → Database
  set_status violation status db = record db {
    violations = insert violation.id (record violation { status = status }) db.violations;
  }

  -- The patch of an accepted or edited fix, with its audit entry.
  unfoldable pub add_patch :
      String → Violation → Submission → String → String → Database → Patch × Database
  unfolding add_audit_entry
  add_patch project_root violation request review_id fix_text db =
      let made = generate project_root violation fix_text in
      let patch : Patch = record {
        id = uuid db.issued;
        violation_id = violation.id;
        review_id = review_id;
        file_path = violation.file_path;
        unified_diff = made.unified_diff;
        git_patch = made.git_patch;
        source_available = made.source_available;
        confidence_score = violation.confidence_score;
        status = generated;
        created_by = request.reviewer_id;
        exported_by = none;
      } in
      let db1 : Database = record db {
        patches = db.patches ++ patch ∷ [];
        issued = suc db.issued;
      } in
      let (entry, db2) =
        add_audit_entry (patch_generated patch.id violation.id review_id) request.reviewer_id
          request.reviewer_name none
          (some "Patch generated for export. No automatic apply operation exists.") db1 in
      (patch, db2)

  -- `if action in ACTIONS_GENERATING_PATCHES and fix_text`
  unfoldable pub maybe_patch :
      String → Violation → Submission → String → Option String → Database → Option Patch × Database
  unfolding add_patch generates_patch
  maybe_patch project_root violation request review_id none db = (none, db)
  maybe_patch project_root violation request review_id (some fix_text) db =
      if generates_patch request.action && not (fix_text == "")
      then (let (patch, db1) = add_patch project_root violation request review_id fix_text db in
          (some patch, db1))
      else (none, db)

  -- The writes of `submit_review`, once its input is accepted.
  unfoldable pub record_review :
      String → Violation → Submission → Option String → Database → ReviewOutcome × Database
  unfolding add_review set_status add_audit_entry maybe_patch action_to_status
  record_review project_root violation request fix_text db =
      let (review, db1) = add_review violation request db in
      let new_status = action_to_status request.action in
      let db2 = set_status violation new_status db1 in
      let (entry, db3) =
        add_audit_entry (reviewed violation.id request.action violation.status new_status review.id)
          request.reviewer_id request.reviewer_name request.justification request.notes db2 in
      let (patch, db4) = maybe_patch project_root violation request review.id fix_text db3 in
      (record { review = review; audit_entry = entry; patch = patch }, db4)

  -- `submit_review`
  unfoldable pub submit_review :
      String → Violation → Submission → Database → Result (ReviewOutcome × Database)
  unfolding validate_justification resolve_fix_text record_review
  submit_review project_root violation request db = do
    checked ← validate_justification request.action request.justification
    fix_text ← resolve_fix_text request.action violation request.edited_fix
    ok (record_review project_root violation request fix_text db)

  -- `assign_reviewer`
  unfoldable pub assign_reviewer :
      Violation → String → Option String → String → Database → AuditEntry × Database
  unfolding add_audit_entry
  assign_reviewer violation reviewer_id reviewer_name assigned_by db =
      let db1 : Database = record db {
        violations =
            insert violation.id
              (record violation {
                assigned_reviewer_id = some reviewer_id;
                assigned_reviewer_name = reviewer_name;
              })
              db.violations;
      } in
      add_audit_entry
        (reviewer_assigned violation.id violation.assigned_reviewer_id
          violation.assigned_reviewer_name reviewer_id reviewer_name)
        assigned_by none none none db1
