-- ===== src/Review/Submitting.antt =====
-- What `submit_review` refuses, and what it writes.
use misra_c_agent.Base.{
  ℕ, suc, subst, String, Bool, true, false, Option, none, some, List, [], ◌∷◌, ◌++◌, ◌==◌, ◌&&◌,
  not, ◌≡◌, refl, sym, ap, ◌∙◌, arith, string_eq, lookup, lookup-insert, Bool-cases, inl, inr,
  append-nil, append_assoc, ◌⊎◌, if◌then◌else◌,
}
use misra_c_agent.Review.{
  ReviewAction, accept, reject, edit, skip, mark_false_positive, suppress, action_to_status,
  generates_patch, requires_justification, is_justified, Violation, Review, reviewed,
  patch_generated, generated, AuditEntry, Patch, Database, GeneratedPatch, ok, err, ReviewError,
  justification_too_short, missing_suggested_code, validate_justification, resolve_fix_text,
  EditedFix, Submission, is_blank, ReviewOutcome,
}
use misra_c_agent.Review.Service.{
  maybe_patch, add_patch, add_audit_entry, add_review, set_status, record_review, submit_review,
}

-- An edit without code to put in.
unfoldable lacks_code : ReviewAction → EditedFix → Bool
lacks_code edit none = true
lacks_code edit (some code) = is_blank code
lacks_code _ edited_fix = false

-- Why a submission is refused, if it is.
unfoldable pub refusal : Submission → Option ReviewError
unfolding lacks_code requires_justification is_justified
refusal request =
    if requires_justification request.action && not (is_justified request.justification)
    then some justification_too_short
    else if lacks_code request.action request.edited_fix
    then some missing_suggested_code
    else none

-- The text, unless there is none in it.
unfoldable unless_empty : Option String → Option String
unless_empty none = none
unless_empty (some text) = if text == "" then none else some text

-- The text that a patch is to be made of: the suggested one for an accepted fix and the edited one for an edit. An
-- empty one gives no patch.
unfoldable pub fix_wanted : ReviewAction → Option String → EditedFix → Option String
unfolding unless_empty
fix_wanted accept suggested edited_fix = unless_empty suggested
fix_wanted edit suggested none = none
fix_wanted edit suggested (some code) = unless_empty code
fix_wanted reject suggested edited_fix = none
fix_wanted skip suggested edited_fix = none
fix_wanted mark_false_positive suggested edited_fix = none
fix_wanted suppress suggested edited_fix = none

-- The edited fix is kept with the review of an edit alone.
unfoldable pub kept_fix : ReviewAction → EditedFix → EditedFix
kept_fix accept edited_fix = none
kept_fix reject edited_fix = none
kept_fix edit edited_fix = edited_fix
kept_fix skip edited_fix = none
kept_fix mark_false_positive edited_fix = none
kept_fix suppress edited_fix = none

abbrev pub listed {ℓ} : {A : Type ℓ} → Option A → List A
listed none = []
listed (some x) = x ∷ []

-- The test of `submit_review` in front of the patch, on the text that it has.
unfoldable chosen : ReviewAction → Option String → Option String
unfolding generates_patch
chosen action none = none
chosen action (some text) = if generates_patch action && not (text == "") then some text else none

chosen-unless_empty :
    (text : Option String)
    → (chosen accept text ≡ unless_empty text) × (chosen edit text ≡ unless_empty text)
unfolding chosen unless_empty
chosen-unless_empty none = (refl, refl)
chosen-unless_empty (some text) = elim (Bool-cases (text == "")) [
  | inl y ↦ rw (y, chosen, unless_empty) (refl, refl)
  | inr n ↦ rw (n, chosen, unless_empty) (refl, refl)
]

-- An action that generates no patches wants none.
pub fix_wanted-none :
    (action : ReviewAction) (suggested : Option String) (edited_fix : EditedFix)
    → generates_patch action ≡ false
    → fix_wanted action suggested edited_fix ≡ none
unfolding fix_wanted generates_patch
fix_wanted-none accept suggested edited_fix h = absurd (ground (arith, h))
fix_wanted-none reject suggested edited_fix h = refl
fix_wanted-none edit suggested edited_fix h = absurd (ground (arith, h))
fix_wanted-none skip suggested edited_fix h = refl
fix_wanted-none mark_false_positive suggested edited_fix h = refl
fix_wanted-none suppress suggested edited_fix h = refl

resolve_fix_text_lem :
    (action : ReviewAction) (violation : Violation) (edited_fix : EditedFix)
    → ((lacks_code action edited_fix ≡ true)
        × (resolve_fix_text action violation edited_fix ≡ err missing_suggested_code))
      ⊎ ((lacks_code action edited_fix ≡ false)
          × (fix_text : Option String) × (resolve_fix_text action violation edited_fix
              ≡ ok fix_text)
          × (chosen action fix_text ≡ fix_wanted action violation.suggested_code edited_fix))
unfolding lacks_code resolve_fix_text fix_wanted chosen
resolve_fix_text_lem accept violation edited_fix =
    inr (refl, violation.suggested_code, refl, (chosen-unless_empty violation.suggested_code).0)
resolve_fix_text_lem reject violation edited_fix = inr (refl, none, refl, refl)
resolve_fix_text_lem edit violation none = inl (refl, refl)
resolve_fix_text_lem edit violation (some code) = elim (Bool-cases (is_blank code)) [
  | inl b ↦ inl (b, rw (b, resolve_fix_text) refl)
  | inr b ↦ inr (b, code, rw (b, resolve_fix_text) refl, (chosen-unless_empty code).1)
]
resolve_fix_text_lem skip violation edited_fix = inr (refl, none, refl, refl)
resolve_fix_text_lem mark_false_positive violation edited_fix = inr (refl, none, refl, refl)
resolve_fix_text_lem suppress violation edited_fix = inr (refl, none, refl, refl)

module _ (uuid : ℕ → String) (generate : String → Violation → String → GeneratedPatch) where
  -- The rows of a review. `issued` is how many ids have been drawn.
  abbrev pub review_row : Violation → Submission → ℕ → Review
  review_row violation request issued = record {
    id = uuid issued;
    violation_id = violation.id;
    action = request.action;
    previous_status = violation.status;
    new_status = action_to_status request.action;
    reviewer_id = request.reviewer_id;
    reviewer_name = request.reviewer_name;
    justification = request.justification;
    notes = request.notes;
    edited_fix = kept_fix request.action request.edited_fix;
  }

  abbrev pub review_entry : Violation → Submission → ℕ → AuditEntry
  review_entry violation request issued = record {
    id = uuid (suc issued);
    event =
        reviewed violation.id request.action violation.status (action_to_status request.action)
          (uuid issued);
    actor_id = request.reviewer_id;
    actor_name = request.reviewer_name;
    justification = request.justification;
    notes = request.notes;
  }

  -- The rows of a patch from this text, if one is wanted.
  abbrev pub patch_row : String → Violation → Submission → String → ℕ → Option String → Option Patch
  patch_row root violation request review_id issued none = none
  patch_row root violation request review_id issued (some text) = some (record {
    id = uuid issued;
    violation_id = violation.id;
    review_id = review_id;
    file_path = violation.file_path;
    unified_diff = (generate root violation text).unified_diff;
    git_patch = (generate root violation text).git_patch;
    source_available = (generate root violation text).source_available;
    confidence_score = violation.confidence_score;
    status = generated;
    created_by = request.reviewer_id;
    exported_by = none;
  })

  abbrev pub patch_entry : Violation → Submission → String → ℕ → Option String → Option AuditEntry
  patch_entry violation request review_id issued none = none
  patch_entry violation request review_id issued (some text) = some (record {
    id = uuid (suc issued);
    event = patch_generated (uuid issued) violation.id review_id;
    actor_id = request.reviewer_id;
    actor_name = request.reviewer_name;
    justification = none;
    notes = some "Patch generated for export. No automatic apply operation exists.";
  })

  -- The text that the patch of this request is to be made of.
  abbrev pub wanted_by : Violation → Submission → Option String
  wanted_by violation request =
      fix_wanted request.action violation.suggested_code request.edited_fix

  -- What a review leaves behind, for a request that was accepted: the new status, and each row that is added.
  pub record Reviewed (root : String) (violation : Violation) (request : Submission)
      (db db' : Database) (outcome : ReviewOutcome) : Type 0 where
    pub statuses :
        (id : String)
        → lookup id db'.violations ≡ (
            if violation.id == id
            then some (record violation { status = action_to_status request.action })
            else lookup id db.violations)
    pub review : outcome.review ≡ review_row violation request db.issued
    pub entry : outcome.audit_entry ≡ review_entry violation request db.issued
    pub patch :
        outcome.patch
        ≡ patch_row root violation request
            (uuid db.issued)
            (suc (suc db.issued))
            (wanted_by violation request)
    pub reviews : db'.reviews ≡ db.reviews ++ outcome.review ∷ []
    pub patches : db'.patches ≡ db.patches ++ listed outcome.patch
    pub audit :
        db'.audit
        ≡ db.audit
          ++ outcome.audit_entry
            ∷ listed (
                patch_entry violation request
                  (uuid db.issued)
                  (suc (suc db.issued))
                  (wanted_by violation request))

  -- What the patch step adds, if it adds one.
  record Patched (root : String) (violation : Violation) (request : Submission) (review_id : String)
      (db : Database) (wanted : Option String) (r : Option Patch × Database) : Type 0 where
    violations : r.1.violations ≡ db.violations
    reviews : r.1.reviews ≡ db.reviews
    patch : r.0 ≡ patch_row root violation request review_id db.issued wanted
    patches : r.1.patches ≡ db.patches ++ listed r.0
    audit :
        r.1.audit ≡ db.audit ++ listed (patch_entry violation request review_id db.issued wanted)

  not-Patched :
      (root : String) (violation : Violation) (request : Submission) (review_id : String)
      (db : Database)
      → Patched root violation request review_id db none (none, db)
  not-Patched root violation request review_id db = record {
    violations = refl;
    reviews = refl;
    patch = refl;
    patches = sym (append-nil db.patches);
    audit = sym (append-nil db.audit);
  }

  maybe_patch-Patched :
      (root : String) (violation : Violation) (request : Submission) (review_id : String)
      (fix_text : Option String) (db : Database)
      → Patched root violation request review_id db
          (chosen request.action fix_text)
          (maybe_patch uuid generate root violation request review_id fix_text db)
  unfolding maybe_patch add_patch add_audit_entry chosen
  maybe_patch-Patched root violation request review_id none db =
      not-Patched root violation request review_id db
  maybe_patch-Patched root violation request review_id (some fix_text) db =
      elim (Bool-cases (generates_patch request.action && not (fix_text == ""))) [
        | inl b ↦
            rw (b, maybe_patch, chosen)
              record {
                violations = refl;
                reviews = refl;
                patch = refl;
                patches = refl;
                audit = refl;
              }
        | inr b ↦ rw (b, maybe_patch, chosen) (not-Patched root violation request review_id db)
      ]

  -- The source's own way to keep the edited fix.
  kept_fix_lem :
      (action : ReviewAction) (edited_fix : EditedFix)
      → (elim action [ edit ↦ edited_fix | _ ↦ none ]) ≡ kept_fix action edited_fix
  unfolding kept_fix
  kept_fix_lem accept edited_fix = refl
  kept_fix_lem reject edited_fix = refl
  kept_fix_lem edit edited_fix = refl
  kept_fix_lem skip edited_fix = refl
  kept_fix_lem mark_false_positive edited_fix = refl
  kept_fix_lem suppress edited_fix = refl

  record_review-Reviewed :
      (root : String) (violation : Violation) (request : Submission) (fix_text : Option String)
      (db : Database)
      → chosen request.action fix_text ≡ wanted_by violation request
      → (let r = record_review uuid generate root violation request fix_text db in
          Reviewed root violation request db r.1 r.0)
  unfolding record_review add_review set_status add_audit_entry maybe_patch add_patch
  record_review-Reviewed root violation request fix_text db wanted =
      let (review, db1) = add_review uuid generate violation request db in
      let (entry, db2) =
        add_audit_entry uuid generate
          (reviewed violation.id request.action violation.status (action_to_status request.action)
            review.id)
          request.reviewer_id request.reviewer_name request.justification request.notes
          (set_status uuid generate violation (action_to_status request.action) db1) in
      let r = maybe_patch uuid generate root violation request review.id fix_text db2 in
      let p : Patched root violation request review.id db2 (wanted_by violation request) r =
        subst (λ w. Patched root violation request review.id db2 w r) wanted
          (maybe_patch-Patched root violation request review.id fix_text db2) in
      record {
        statuses = λ id. rw p.violations (lookup-insert violation.id id _ db.violations);
        review =
            ap (λ fix. record (review_row violation request db.issued) { edited_fix = fix })
              (kept_fix_lem request.action request.edited_fix);
        entry = refl;
        patch = p.patch;
        reviews = p.reviews;
        patches = p.patches;
        audit = p.audit ∙ append_assoc db.audit (entry ∷ []) _;
      }

  -- `submit_review` refuses a submission exactly where `refusal` names a reason, and gives that reason.
  -- Any other one goes through: the violation's status becomes the one of the action and no other row of the violations
  -- changes; the review and its audit entry are added with exactly the values of the request; a patch and its audit entry
  -- are added exactly for an accepted fix with a suggested text or an edit with a text, if the text is not empty,
  -- with exactly the values of the request and of what is generated from that text. No other row is added to the three
  -- tables, and none is changed.
  pub submit_review_outcome :
      (root : String) (violation : Violation) (request : Submission) (db : Database)
      → ((e : ReviewError) × (refusal request ≡ some e)
          × (submit_review uuid generate root violation request db ≡ err e))
        ⊎ ((refusal request ≡ none)
            × (outcome : ReviewOutcome) × (db' : Database) × (submit_review uuid generate root
                  violation request db
                ≡ ok (outcome, db'))
            × Reviewed root violation request db db' outcome)
  unfolding submit_review refusal validate_justification
  submit_review_outcome root violation request db =
      elim (Bool-cases
        (requires_justification request.action && not (is_justified request.justification))) [
          | inl b ↦ inl (
            justification_too_short,
            rw (b, refusal) refl,
            rw (b, submit_review, validate_justification) refl,
          )
          | inr b ↦ elim (resolve_fix_text_lem request.action violation request.edited_fix) [
            | inl (l, e) ↦ inl (
              missing_suggested_code,
              rw (b, l, refusal) refl,
              rw (b, submit_review, validate_justification, e) refl,
            )
            | inr (l, fix_text, e, wanted) ↦
                let r = record_review uuid generate root violation request fix_text db in
                inr (
                  rw (b, l, refusal) refl,
                  r.0,
                  r.1,
                  rw (b, submit_review, validate_justification, e) refl,
                  record_review-Reviewed root violation request fix_text db wanted,
                )
          ]
        ]
