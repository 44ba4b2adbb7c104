-- ===== src/Dedup/Changes/Decisions.antt =====
-- A decided review stays as it was decided.
use ai_brain.Prelude.{
  ℕ, ◌≡◌, refl, ap, ◌∙◌, true, false, some, List, arith, ◌==◌, find, find-modify,
}
use ai_brain.Dedup.Records.{Database, DuplicateReview, review_keyed}
use ai_brain.Dedup.Reviews.{is_pending, decide}
use ai_brain.Dedup.Authorizations.{add_authorization}
use ai_brain.Dedup.Executions.{add_execution, add_audit}
use ai_brain.Dedup.Reconciliations.{add_reconciliation}
use ai_brain.Dedup.Changes.{Change, Changes, unchanged, extended}
use ai_brain.Dedup.Changes.Invariants.{planned_rest}

other_review :
    (id j : ℕ) (r r' : DuplicateReview) (rows : List DuplicateReview)
    → find id rows ≡ some r
    → is_pending r.status ≡ false
    → find j rows ≡ some r'
    → is_pending r'.status ≡ true
    → (j == id) ≡ false
other_review id j r r' rows h q k p = ground (arith, ap (λ i. find i rows))

Change-review :
    (id : ℕ) (r : DuplicateReview) {db db' : Database}
    → Change db db'
    → is_pending r.status ≡ false
    → find id db.reviews ≡ some r
    → find id db'.reviews ≡ some r
Change-review id r {db} (Change.decided j now status canonical decision r' found pending s) q h =
    unfold decide in
    find-modify id j _ db.reviews (λ x. refl)
    ∙ rw (other_review id j r r' db.reviews h q found pending) h
Change-review id r {db} (Change.planned r' canonical seen i observed found ok) q h =
    ap (find id) (planned_rest r'.id i canonical seen observed db).2 ∙ h
Change-review id r (Change.authorized now plan_id by g) q h = unfold add_authorization in h
Change-review id r (Change.revoking now j reason) q h = h
Change-review id r (Change.started now j by a found ok g) q h = unfold add_execution in h
Change-review id r (Change.claimed now j e found runs g) q h = h
Change-review id r (Change.recovering now j e found runs g) q h = h
Change-review id r (Change.audited j i p x g c) q h = unfold add_audit in h
Change-review id r (Change.concluded now j e found runs g) q h = h
Change-review id r (Change.reconciled now j v by method a seen k f u n g) q h =
    unfold add_reconciliation in h

-- No writes change a review that is no longer PENDING.
pub decided_forever :
    (id : ℕ) (r : DuplicateReview) {db db' : Database}
    → Changes db db'
    → is_pending r.status ≡ false
    → find id db.reviews ≡ some r
    → find id db'.reviews ≡ some r
decided_forever id r unchanged q h = h
decided_forever id r (extended k c) q h = Change-review id r c q (decided_forever id r k q h)
