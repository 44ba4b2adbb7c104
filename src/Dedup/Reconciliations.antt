-- ===== src/Dedup/Reconciliations.antt =====
-- The reconciliation of an unknown outcome: backend/app/dedup/reconciliation_service.py.
pub mod Agreement
use ai_brain.Prelude.{
  next_id, ℕ, String, Bool, true, false, not, ◌&&◌, Option, none, some, List, [], ◌∷◌, ◌++◌,
  is_none, ◌==◌, opt_eq, find, find_by,
}
use ai_brain.Dedup.Records.{
  Database, DedupExecutionActionResult, success, failed_action, unknown, DedupExecutionActionAudit,
  DedupExecutionActionReconciliation, audit_keyed, reconciliation_keyed,
}
use ai_brain.Dedup.Exec.{
  Exec, not_reconcilable, audit_not_found, not_unknown, already_reconciled, disagrees, pure, gets,
  required, guard, commit, ◌>>=◌, ◌>>◌,
}
use ai_brain.Dedup.Os.{Os}
use ai_brain.Dedup.Plans.{FileObservation, opt_text_eq, observe_file}

abbrev pub is_reconcilable : DedupExecutionActionResult → Bool
is_reconcilable success = true
is_reconcilable failed_action = true
is_reconcilable _ = false

abbrev pub is_unknown_result : DedupExecutionActionResult → Bool
is_unknown_result unknown = true
is_unknown_result _ = false

unfoldable pub get_reconciliation :
    ℕ → List DedupExecutionActionReconciliation → Option DedupExecutionActionReconciliation
get_reconciliation audit_id rows = find_by (λ r. r.audit_id == audit_id) rows

-- What was claimed against what is there now: a success leaves no source, and a failure the file of
-- the plan.
unfoldable pub agrees :
    DedupExecutionActionResult → DedupExecutionActionAudit → FileObservation → Bool
agrees success audit seen = not seen.exists
agrees _ audit seen =
    seen.exists
    && (opt_text_eq seen.content_hash audit.expected_content_hash
        && opt_eq seen.file_size audit.expected_file_size)

unfoldable pub add_reconciliation :
    ℕ → ℕ → DedupExecutionActionResult → String → String → FileObservation → Database → Database
add_reconciliation now audit_id verified_result by method seen db = record db {
  reconciliations =
      db.reconciliations
      ++ record {
        id = next_id db.reconciliations;
        audit_id = audit_id;
        verified_result = verified_result;
        verified_by = by;
        verification_method = method;
        observed_content_hash = seen.content_hash;
        observed_file_size = seen.file_size;
        verified_at = now;
      }
        ∷ [];
}

module _ {W : Type 0} (sys : Os W) where
  -- The id of the new reconciliation is returned.
  unfoldable pub reconcile_action : ℕ → ℕ → DedupExecutionActionResult → String → String → Exec W ℕ
  reconcile_action now audit_id verified_result by method = do
    guard (is_reconcilable verified_result) not_reconcilable
    found ← gets (λ db. find audit_id db.audits)
    audit ← required audit_not_found found
    guard (is_unknown_result audit.result) not_unknown
    existing ← gets (λ db. get_reconciliation audit_id db.reconciliations)
    guard (is_none existing) already_reconciled
    seen ← observe_file sys audit.source_path
    guard (agrees verified_result audit seen) disagrees
    id ← gets (λ db. next_id db.reconciliations)
    commit (add_reconciliation now audit_id verified_result by method seen)
    pure id
