-- ===== src/Review/Kept.antt =====
-- What it means that nothing of a database's history is lost, and that export marks keep it.
use misra_c_agent.Base.{
  String, false, none, List, [], ◌∷◌, ◌++◌, map, ◌==◌, ◌&&◌, not, ◌≡◌, refl, sym, ap, ◌∙◌,
  string_eq, Bool-cases, inl, inr, append-nil, append_assoc, All, All-append,
}
use misra_c_agent.Review.{
  requires_justification, is_justified, Review, AuditEntry, generated, Patch, Database,
}
use misra_c_agent.Review.Bulk.{mark_patch_exported}

-- A patch as it was written, before any export.
abbrev pub as_written : Patch → Patch
as_written patch = record patch { status = generated; exported_by = none }

-- A review whose action needs a justification has one that is long enough.
abbrev pub IsJustifiedReview : Review → Type 0
IsJustifiedReview review =
    (requires_justification review.action && not (is_justified review.justification)) ≡ false

-- Nothing of `db` is lost or changed in `db'`, but for the violations and the export marks.
pub record Keeps (db db' : Database) : Type 0 where
  pub reviews :
      (added : List Review) × (db'.reviews ≡ db.reviews ++ added) × All IsJustifiedReview added
  pub audit : (added : List AuditEntry) × (db'.audit ≡ db.audit ++ added)
  pub patches :
      (added : List Patch) × (map as_written db'.patches ≡ map as_written db.patches ++ added)

pub Keeps-refl : (db : Database) → Keeps db db
Keeps-refl db = record {
  reviews = ([], sym (append-nil db.reviews), tt);
  audit = ([], sym (append-nil db.audit));
  patches = ([], sym (append-nil (map as_written db.patches)));
}

pub append_trans {ℓ} :
    {A : Type ℓ} (xs ys zs us vs : List A) → ys ≡ xs ++ us → zs ≡ ys ++ vs → zs ≡ xs ++ (us ++ vs)
append_trans xs ys zs us vs e f = f ∙ ap (λ l. l ++ vs) e ∙ append_assoc xs us vs

pub Keeps-trans : (a b c : Database) → Keeps a b → Keeps b c → Keeps a c
Keeps-trans a b c h k =
    let (r, re, rj) = h.reviews in
    let (s, se, sj) = k.reviews in
    let (u, ue) = h.audit in
    let (v, ve) = k.audit in
    let (p, pe) = h.patches in
    let (q, qe) = k.patches in
    record {
      reviews = (
        r ++ s,
        append_trans a.reviews b.reviews c.reviews r s re se,
        All-append IsJustifiedReview r s rj sj,
      );
      audit = (u ++ v, append_trans a.audit b.audit c.audit u v ue ve);
      patches = (
        p ++ q,
        append_trans (map as_written a.patches) (map as_written b.patches)
            (map as_written c.patches) p q pe qe,
      );
    }

pub map-append {ℓ κ} :
    {A : Type ℓ} {B : Type κ} (f : A → B) (xs ys : List A) → map f (xs ++ ys) ≡ map f xs ++ map f ys
map-append f [] ys = refl
map-append f (x ∷ xs) ys = ap (λ l. f x ∷ l) (map-append f xs ys)

pub mark_patch_exported-as_written :
    (patch_id exported_by : String) (patches : List Patch)
    → map as_written (mark_patch_exported patch_id exported_by patches) ≡ map as_written patches
unfolding mark_patch_exported
mark_patch_exported-as_written patch_id exported_by [] = refl
mark_patch_exported-as_written patch_id exported_by (patch ∷ patches) =
    let ih = mark_patch_exported-as_written patch_id exported_by patches in
    elim (Bool-cases (patch.id == patch_id)) [
      | inl b ↦ rw (b, mark_patch_exported) (ap (λ l. as_written patch ∷ l) ih)
      | inr b ↦ rw (b, mark_patch_exported) (ap (λ l. as_written patch ∷ l) ih)
    ]
