-- ===== src/Review/Examples.antt =====
-- One violation and its reviews: tests, and the properties at them.
use misra_c_agent.Base.{
  ℕ, zero, suc, ◌+◌, String, true, Option, none, some, [], ◌∷◌, ◌≡◌, refl, ◌⊎◌, string_eq, length,
}
use misra_c_agent.Review.{
  open_status, accept, Violation, Database, GeneratedPatch, ReviewError, justification_too_short,
  Result, ok, err, Submission, ReviewOutcome, validate_justification,
}
use misra_c_agent.Review.Service.{submit_review, assign_reviewer}
use misra_c_agent.Review.Bulk.{BulkSkipResult, bulk_skip}
use misra_c_agent.Review.Submitting.{Reviewed, refusal, submit_review_outcome}
use misra_c_agent.Review.Kept.{Keeps}
use misra_c_agent.Review.AuditTrail.{Step, Steps, bulk_skip_outcome, history_kept}

abbrev uuid : ℕ → String
uuid zero = "id0"
uuid (suc zero) = "id1"
uuid (suc (suc n)) = "id2"

abbrev generate : String → Violation → String → GeneratedPatch
generate root violation fix_text = record {
  unified_diff = fix_text;
  git_patch = fix_text;
  source_available = true;
}

abbrev violation : Violation
violation = record {
  id = "v1";
  project_id = "p";
  status = open_status;
  file_path = "a.c";
  line_start = 3;
  line_end = 3;
  offending_expression = "x = x";
  suggested_code = some "x = 1;";
  confidence_score = 0;
  assigned_reviewer_id = none;
  assigned_reviewer_name = none;
}

abbrev db : Database
db = record {
  violations = ("v1", violation) ∷ [];
  reviews = [];
  audit = [];
  patches = [];
  issued = 0;
}

abbrev accepting : Option String → Submission
accepting justification = record {
  action = accept;
  reviewer_id = "r";
  reviewer_name = none;
  justification = justification;
  notes = none;
  edited_fix = none;
}

too_short :
    validate_justification accept (some "  looks fine          ") ≡ err justification_too_short
unfolding validate_justification
too_short = refl

patch_count : Result (ReviewOutcome × Database) → Option ℕ
patch_count (ok r) = some (length r.1.patches)
patch_count (err e) = none

accepted_patch :
    patch_count
      (submit_review uuid generate "/" violation (accepting (some "The fix removes the defect")) db)
    ≡ some 1
unfolding patch_count submit_review
accepted_patch = refl

submit_review_outcome_example :
    (let request = accepting (some "The fix removes the defect") in
      ((e : ReviewError) × (refusal request ≡ some e)
        × (submit_review uuid generate "/" violation request db ≡ err e))
      ⊎ ((refusal request ≡ none)
          × (outcome : ReviewOutcome) × (db' : Database) × (submit_review uuid generate "/"
                violation request db
              ≡ ok (outcome, db'))
          × Reviewed uuid generate "/" violation request db db' outcome))
submit_review_outcome_example =
    submit_review_outcome uuid generate "/" violation
      (accepting (some "The fix removes the defect")) db

abbrev roots : String → String
roots project_id = "/"

bulk_skip_outcome_example :
    (result : BulkSkipResult) × (db' : Database) × (bulk_skip uuid generate roots
        ("v1" ∷ "v9" ∷ [])
        "r"
        none
        none
        db
      ≡ ok (result, db'))
    × Keeps db db'
    × (db'.patches ≡ db.patches)
    × (length result.skipped_violation_ids + length result.not_found_violation_ids ≡ 2)
bulk_skip_outcome_example =
    bulk_skip_outcome uuid generate roots ("v1" ∷ "v9" ∷ []) "r" none none db

two-Steps :
    Steps uuid generate roots db
      (assign_reviewer uuid generate violation "r" none "lead"
        (assign_reviewer uuid generate violation "q" none "lead" db).1).1
two-Steps =
    Steps.and_then (Step.assigned violation "q" none "lead")
      (Steps.and_then (Step.assigned violation "r" none "lead") Steps.done)

history_kept_example :
    Keeps db
      (assign_reviewer uuid generate violation "r" none "lead"
        (assign_reviewer uuid generate violation "q" none "lead" db).1).1
history_kept_example = history_kept uuid generate roots two-Steps
