-- ===== src/Review/Keeping.antt =====
-- What each operation of the review and bulk review services keeps of the rows written before it.
use misra_c_agent.Base.{
  ℕ, ◌+◌, length, String, false, Option, none, List, [], ◌∷◌, map, ◌≡◌, refl, sym, ap, ◌∙◌, subst,
  arith, string_eq, lookup, Option-cases, inl, inr, append-nil,
}
use misra_c_agent.Review.{
  generates_patch, Violation, AuditEvent, Review, Patch, Database, GeneratedPatch, ok, Submission,
  ReviewOutcome,
}
use misra_c_agent.Review.Service.{submit_review, assign_reviewer, add_audit_entry}
use misra_c_agent.Review.Bulk.{
  BulkSkipResult, skip_loop, assign_loop, mark_patch_exported, export_loop, latest_patch,
}
use misra_c_agent.Review.Submitting.{
  Reviewed, fix_wanted-none, listed, refusal, submit_review_outcome,
}
use misra_c_agent.Review.Kept.{
  as_written, Keeps, Keeps-refl, Keeps-trans, map-append, mark_patch_exported-as_written,
}

module _ (uuid : ℕ → String) (generate : String → Violation → String → GeneratedPatch) where
  pub add_audit_entry-Keeps :
      (event : AuditEvent) (actor : String) (name justification notes : Option String)
      (db : Database)
      → Keeps db (add_audit_entry uuid generate event actor name justification notes db).1
  unfolding add_audit_entry
  add_audit_entry-Keeps event actor name justification notes db = record {
    reviews = (Keeps-refl db).reviews;
    audit = (_, refl);
    patches = (Keeps-refl db).patches;
  }

  pub Reviewed-Keeps :
      (root : String) (violation : Violation) (request : Submission) (db db' : Database)
      (outcome : ReviewOutcome)
      → refusal request ≡ none
      → Reviewed uuid generate root violation request db db' outcome
      → Keeps db db'
  unfolding refusal
  Reviewed-Keeps root violation request db db' outcome accepted r =
      let action = ap (λ (row : Review). row.action) r.review in
      let justification = ap (λ (row : Review). row.justification) r.review in
      record {
        reviews = (
          outcome.review ∷ [],
          r.reviews,
          (rw (action, justification) (ground (arith, accepted)), tt),
        );
        audit = (_, r.audit);
        patches = (
          map as_written (listed outcome.patch),
          ap (λ l. map as_written l) r.patches
              ∙ map-append as_written db.patches (listed outcome.patch),
        );
      }

  pub submit_review-Keeps :
      (root : String) (violation : Violation) (request : Submission) (db : Database)
      (outcome : ReviewOutcome) (db' : Database)
      → submit_review uuid generate root violation request db ≡ ok (outcome, db')
      → Keeps db db'
  submit_review-Keeps root violation request db outcome db' h =
      elim (submit_review_outcome uuid generate root violation request db) [
        | inl (e, refused, failed) ↦ cc
        | inr (accepted, outcome1, db1, done, r) ↦
            let same : db1 ≡ db' = cc in
            subst (λ d. Keeps db d) same
              (Reviewed-Keeps root violation request db db1 outcome1 accepted r)
      ]

  pub assign_reviewer-Keeps :
      (violation : Violation) (reviewer_id : String) (name : Option String) (by : String)
      (db : Database)
      → Keeps db (assign_reviewer uuid generate violation reviewer_id name by db).1
  unfolding assign_reviewer add_audit_entry
  assign_reviewer-Keeps violation reviewer_id name by db = record {
    reviews = (Keeps-refl db).reviews;
    audit = (_, refl);
    patches = (Keeps-refl db).patches;
  }

  pub assign_loop-Keeps :
      (project_root : String → String) (reviewer_id : String) (name : Option String) (by : String)
      (ids : List String) (db : Database)
      → Keeps db (assign_loop uuid generate project_root reviewer_id name by ids db).1
  unfolding assign_loop
  assign_loop-Keeps project_root reviewer_id name by [] db = Keeps-refl db
  assign_loop-Keeps project_root reviewer_id name by (id ∷ ids) db =
      elim (Option-cases (lookup id db.violations)) [
        | inl n ↦ rw (n, assign_loop) (assign_loop-Keeps project_root reviewer_id name by ids db)
        | inr (violation, s) ↦
            let db1 = (assign_reviewer uuid generate violation reviewer_id name by db).1 in
            rw (s, assign_loop)
              (Keeps-trans db db1 _ (assign_reviewer-Keeps violation reviewer_id name by db)
                (assign_loop-Keeps project_root reviewer_id name by ids db1))
      ]

  pub export_loop-Keeps :
      (found : List Patch) (by : String) (ids : List String) (db : Database)
      → Keeps db (export_loop found by ids db).1
  unfolding export_loop
  export_loop-Keeps found by [] db = Keeps-refl db
  export_loop-Keeps found by (id ∷ ids) db = elim (Option-cases (latest_patch id found)) [
    | inl n ↦ rw (n, export_loop) (export_loop-Keeps found by ids db)
    | inr (patch, s) ↦
        let db1 : Database = record db { patches = mark_patch_exported patch.id by db.patches } in
        let marked : Keeps db db1 = record {
          reviews = (Keeps-refl db).reviews;
          audit = (Keeps-refl db).audit;
          patches = (
            [],
            mark_patch_exported-as_written patch.id by db.patches
                ∙ sym (append-nil (map as_written db.patches)),
          );
        } in
        rw (s, export_loop) (Keeps-trans db db1 _ marked (export_loop-Keeps found by ids db1))
  ]

  pub none_added :
      (root : String) (request : Submission) (violation : Violation) (db db' : Database)
      (outcome : ReviewOutcome)
      → generates_patch request.action ≡ false
      → Reviewed uuid generate root violation request db db' outcome
      → db'.patches ≡ db.patches
  none_added root request violation db db' outcome n r =
      let unwanted = fix_wanted-none request.action violation.suggested_code request.edited_fix n in
      let e : outcome.patch ≡ none = rw unwanted at r.patch in
      r.patches ∙ rw (e, append-nil db.patches) refl

  -- A request that is not refused and makes no patch goes through for every violation there is.
  pub skip_loop-Keeps :
      (project_root : String → String) (request : Submission)
      → refusal request ≡ none
      → generates_patch request.action ≡ false
      → (ids : List String) (db : Database)
      → (result : BulkSkipResult) × (db' : Database) × (skip_loop uuid generate project_root request
            ids db
          ≡ ok (result, db'))
        × Keeps db db'
        × (db'.patches ≡ db.patches)
        × (length result.skipped_violation_ids + length result.not_found_violation_ids ≡ length ids)
  unfolding skip_loop
  skip_loop-Keeps project_root request valid plain [] db = (
    record { outcomes = []; skipped_violation_ids = []; not_found_violation_ids = [] },
    db,
    refl,
    Keeps-refl db,
    refl,
    refl,
  )
  skip_loop-Keeps project_root request valid plain (id ∷ ids) db =
      elim (Option-cases (lookup id db.violations)) [
        | inl n ↦
            let (result, db', e, keeps, same, counted) =
              skip_loop-Keeps project_root request valid plain ids db in
            (
              record result { not_found_violation_ids = id ∷ result.not_found_violation_ids },
              db',
              rw (n, skip_loop, e) refl,
              keeps,
              same,
              omega (arith, counted),
            )
        | inr (violation, s) ↦
            elim (submit_review_outcome uuid generate (project_root violation.project_id) violation
              request db) [
                | inl (e, refused, failed) ↦ cc
                | inr (accepted, outcome, db1, success, r) ↦
                    let (result, db', e, keeps, same, counted) =
                      skip_loop-Keeps project_root request valid plain ids db1 in
                    (
                      record result {
                        outcomes = outcome ∷ result.outcomes;
                        skipped_violation_ids = id ∷ result.skipped_violation_ids;
                      },
                      db',
                      rw (s, skip_loop, success, e) refl,
                      Keeps-trans db db1 db'
                          (Reviewed-Keeps (project_root violation.project_id) violation request db
                            db1 outcome accepted r)
                          keeps,
                      same
                          ∙ none_added (project_root violation.project_id) request violation db db1
                              outcome plain r,
                      omega (arith, counted),
                    )
              ]
      ]
