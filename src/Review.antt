-- ===== src/Review.antt =====
-- backend/src/misra_platform/services/review_service.py: the data and the validation, with the
-- enums of domain/enums/review_action.py and violation_status.py, the rows of domain/models/review.py and the
-- writes of repositories/review_repo.py. `Database` holds the rows that the session has: violations by
-- id, and the tables of reviews, audit entries and patches in the order in which rows were added.
-- Timestamps are left out, and so are
-- columns that no operation reads. A float is kept as its bit pattern, since it is only copied.
pub mod Service
pub mod Bulk
pub mod Submitting
pub mod Kept
pub mod Keeping
pub mod AuditTrail
mod Examples
use misra_c_agent.Base.{
  ℕ, zero, suc, ◌+◌, ◌≤◌, String, Bool, true, false, Option, none, some, List, [], ◌∷◌, ◌++◌, ◌==◌,
  ◌||◌, ◌&&◌, not, string_eq, Dict, lookup, insert, length, leb, ltb, if◌then◌else◌, codes, reverse,
  nat_beq, arith,
}

pub data ViolationStatus : Type 0 where
  open_status accepted rejected edited skipped false_positive suppressed resolved : ViolationStatus

pub data ReviewAction : Type 0 where
  accept reject edit skip mark_false_positive suppress : ReviewAction

-- `ACTION_TO_STATUS`
unfoldable pub action_to_status : ReviewAction → ViolationStatus
action_to_status accept = accepted
action_to_status reject = rejected
action_to_status edit = edited
action_to_status skip = skipped
action_to_status mark_false_positive = false_positive
action_to_status suppress = suppressed

-- `action in ACTIONS_REQUIRING_JUSTIFICATION`
unfoldable pub requires_justification : ReviewAction → Bool
requires_justification accept = true
requires_justification suppress = true
requires_justification mark_false_positive = true
requires_justification _ = false

-- `action in ACTIONS_GENERATING_PATCHES`
unfoldable pub generates_patch : ReviewAction → Bool
generates_patch accept = true
generates_patch edit = true
generates_patch _ = false

abbrev pub min_justification_length : ℕ
min_justification_length = 20

pub record Violation : Type 0 where
  pub id : String
  pub project_id : String
  pub status : ViolationStatus
  pub file_path : String
  pub line_start : ℕ
  pub line_end : ℕ
  pub offending_expression : String
  -- `suggested_fix_json.get("suggested_code")`
  pub suggested_code : Option String
  pub confidence_score : ℕ
  pub assigned_reviewer_id : Option String
  pub assigned_reviewer_name : Option String

-- `edited_fix`: absent, or a dict with or without `suggested_code`.
abbrev pub EditedFix : Type 0
EditedFix = Option (Option String)

pub record Review : Type 0 where
  pub id : String
  pub violation_id : String
  pub action : ReviewAction
  pub previous_status : ViolationStatus
  pub new_status : ViolationStatus
  pub reviewer_id : String
  pub reviewer_name : Option String
  pub justification : Option String
  pub notes : Option String
  pub edited_fix : EditedFix

-- What an audit entry records, with its `entity_type`, `entity_id`, `action` and states.
pub data AuditEvent : Type 0 where
  reviewed :
      (violation_id : String) (action : ReviewAction) (old new : ViolationStatus)
      (review_id : String)
      → AuditEvent
  patch_generated : (patch_id violation_id review_id : String) → AuditEvent
  reviewer_assigned :
      (violation_id : String) (old_id old_name : Option String) (new_id : String)
      (new_name : Option String)
      → AuditEvent
  bulk_skipped : (violation_ids : List String) → AuditEvent
  bulk_assigned :
      (violation_ids : List String) (reviewer_id : String) (reviewer_name : Option String)
      → AuditEvent
  bulk_exported : (patch_ids : List String) → AuditEvent

pub record AuditEntry : Type 0 where
  pub id : String
  pub event : AuditEvent
  pub actor_id : String
  pub actor_name : Option String
  pub justification : Option String
  pub notes : Option String

pub data PatchStatus : Type 0 where
  generated exported : PatchStatus

pub record Patch : Type 0 where
  pub id : String
  pub violation_id : String
  pub review_id : String
  pub file_path : String
  pub unified_diff : String
  pub git_patch : String
  pub source_available : Bool
  pub confidence_score : ℕ
  pub status : PatchStatus
  pub created_by : String
  pub exported_by : Option String

pub record Database : Type 0 where
  pub violations : Dict String Violation
  pub reviews : List Review
  pub audit : List AuditEntry
  pub patches : List Patch
  pub issued : ℕ

pub record GeneratedPatch : Type 0 where
  pub unified_diff : String
  pub git_patch : String
  pub source_available : Bool

pub data ReviewError : Type 0 where
  justification_too_short missing_suggested_code : ReviewError

pub data Result (A : Type 0) : Type 0 where
  ok : A → Result A
  err : ReviewError → Result A

infixl 5 ◌>>=◌
abbrev pub ◌>>=◌ : {A B : Type 0} → Result A → (A → Result B) → Result B
ok a >>= f = f a
err e >>= f = err e

-- The code points that `str.strip` removes: those that `str.isspace` holds of.
abbrev is_space : ℕ → Bool
is_space c =
    nat_beq c 32
    || (leb 9 c && leb c 13)
    || (leb 28 c && leb c 31)
    || nat_beq c 133
    || nat_beq c 160
    || nat_beq c 5760
    || (leb 8192 c && leb c 8202)
    || nat_beq c 8232
    || nat_beq c 8233
    || nat_beq c 8239
    || nat_beq c 8287
    || nat_beq c 12288

unfoldable pub strip_left : List ℕ → List ℕ
strip_left [] = []
strip_left (c ∷ cs) = if is_space c then strip_left cs else c ∷ cs

-- `len(text.strip())`
unfoldable pub stripped_length : String → ℕ
unfolding strip_left
stripped_length text = length (strip_left (reverse (strip_left (codes text))))

-- `not text`, for an optional text.
abbrev pub is_blank : Option String → Bool
is_blank none = true
is_blank (some text) = text == ""

-- `justification and len(justification.strip()) >= MIN_JUSTIFICATION_LENGTH`
unfoldable pub is_justified : Option String → Bool
unfolding stripped_length
is_justified none = false
is_justified (some text) = not (text == "") && leb min_justification_length (stripped_length text)

-- `_validate_justification`
unfoldable pub validate_justification : ReviewAction → Option String → Result Unit
unfolding requires_justification is_justified
validate_justification action justification =
    if requires_justification action && not (is_justified justification)
    then err justification_too_short
    else ok tt

-- `_resolve_fix_text`
unfoldable pub resolve_fix_text : ReviewAction → Violation → EditedFix → Result (Option String)
resolve_fix_text edit violation none = err missing_suggested_code
resolve_fix_text edit violation (some code) =
    if is_blank code then err missing_suggested_code else ok code
resolve_fix_text accept violation edited_fix = ok violation.suggested_code
resolve_fix_text _ violation edited_fix = ok none

pub record Submission : Type 0 where
  pub action : ReviewAction
  pub reviewer_id : String
  pub reviewer_name : Option String
  pub justification : Option String
  pub notes : Option String
  pub edited_fix : EditedFix

pub record ReviewOutcome : Type 0 where
  pub review : Review
  pub audit_entry : AuditEntry
  pub patch : Option Patch
