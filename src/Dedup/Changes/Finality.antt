-- ===== src/Dedup/Changes/Finality.antt =====
-- A finalized execution stays as it was finalized, with its audits.
use ai_brain.Prelude.{
  ℕ, ◌≡◌, refl, ◌∙◌, ap, true, false, some, List, arith, ◌==◌, append_nil, filter, filter-append,
  find, modify, find-modify, find-append,
}
use ai_brain.Dedup.Records.{
  Database, DedupExecutionPlanAction, DedupExecution, DedupExecutionActionAudit, review_keyed,
  execution_keyed, plan_action_keyed, audit_keyed,
}
use ai_brain.Dedup.Authorizations.{add_authorization}
use ai_brain.Dedup.Executions.{
  Report, is_running, add_audit, audits_of, add_execution, finalized, set_recovery_claim,
}
use ai_brain.Dedup.Executor.{claim}
use ai_brain.Dedup.Reconciliations.{add_reconciliation}
use ai_brain.Dedup.Changes.Invariants.{planned_rest}
use ai_brain.Dedup.Changes.{Change, Changes, unchanged, extended}

-- An execution's finalized row, and its audits.
record Final (id : ℕ) (e : DedupExecution) (audits : List DedupExecutionActionAudit) (db : Database)
    : Type 0 where
  row : find id db.executions ≡ some e
  ended : is_running e.status ≡ false
  same : audits_of id db ≡ audits

-- An update of a running row is of another execution.
other_row :
    (id j : ℕ) (e e' : DedupExecution) (rows : List DedupExecution)
    → find id rows ≡ some e
    → is_running e.status ≡ false
    → find j rows ≡ some e'
    → is_running e'.status ≡ true
    → (j == id) ≡ false
other_row id j e e' rows h q k r = ground (arith, ap (λ i. find i rows))

kept_row :
    (id j : ℕ) (f : DedupExecution → DedupExecution) (e e' : DedupExecution)
    (rows : List DedupExecution)
    → ((x : DedupExecution) → (f x).id ≡ x.id)
    → find id rows ≡ some e
    → is_running e.status ≡ false
    → find j rows ≡ some e'
    → is_running e'.status ≡ true
    → find id (modify j f rows) ≡ some e
kept_row id j f e e' rows k h q g r =
    find-modify id j f rows k ∙ rw (other_row id j e e' rows h q g r) h

audits_of_other :
    (id j : ℕ) (p : DedupExecutionPlanAction) (r : Report) (db : Database)
    → (j == id) ≡ false
    → audits_of id (add_audit j p r db) ≡ audits_of id db
unfolding audits_of add_audit
audits_of_other id j p r db h =
    filter-append (λ a. a.execution_id == id) db.audits _ ∙ rw h (append_nil _)

Change-Final :
    (id : ℕ) (e : DedupExecution) (audits : List DedupExecutionActionAudit) {db db' : Database}
    → Change db db'
    → Final id e audits db
    → Final id e audits db'
unfolding audits_of
Change-Final id e audits (Change.decided j now status canonical decision r found pending s) f =
    record { row = f.row; ended = f.ended; same = f.same }
Change-Final id e audits {db} (Change.planned r canonical seen i observed found ok) f =
    let (es, as', rs, ks) = planned_rest r.id i canonical seen observed db in
    record {
      row = ap (find id) es ∙ f.row;
      ended = f.ended;
      same = ap (filter (λ a. a.execution_id == id)) as' ∙ f.same;
    }
Change-Final id e audits (Change.authorized now plan_id by h) f =
    unfold add_authorization in record { row = f.row; ended = f.ended; same = f.same }
Change-Final id e audits (Change.revoking now j reason) f = record {
  row = f.row;
  ended = f.ended;
  same = f.same;
}
Change-Final id e audits (Change.started now j by a found ok h) f =
    unfold add_execution in
    record { row = find-append id e _ _ f.row; ended = f.ended; same = f.same }
Change-Final id e audits (Change.claimed now j e' found runs h) f = record {
  row = unfold claim in kept_row id j _ e e' _ (λ x. refl) f.row f.ended found runs;
  ended = f.ended;
  same = f.same;
}
Change-Final id e audits (Change.recovering now j e' found runs h) f = record {
  row = unfold set_recovery_claim in kept_row id j _ e e' _ (λ x. refl) f.row f.ended found runs;
  ended = f.ended;
  same = f.same;
}
Change-Final id e audits {db} (Change.audited j i p r h c) f = record {
  row = unfold add_audit in f.row;
  ended = f.ended;
  same =
      audits_of_other id j p r db (other_row id j e h.execution _ f.row f.ended h.found h.runs)
      ∙ f.same;
}
Change-Final id e audits (Change.concluded now j e' found runs h) f = record {
  row = unfold finalized in kept_row id j _ e e' _ (λ x. refl) f.row f.ended found runs;
  ended = f.ended;
  same = f.same;
}
Change-Final id e audits (Change.reconciled now j v by method a seen k g u n h) f =
    unfold add_reconciliation in record { row = f.row; ended = f.ended; same = f.same }

-- Once an execution is no longer RUNNING, no writes change its row or the list of its audits.
pub finalized_forever :
    (id : ℕ) (e : DedupExecution) {db db' : Database}
    → Changes db db'
    → find id db.executions ≡ some e
    → is_running e.status ≡ false
    → (find id db'.executions ≡ some e) × (audits_of id db' ≡ audits_of id db)
finalized_forever id e {db} c h q = let f = go c in (f.row, f.same)
  where
    go : {db' : Database} → Changes db db' → Final id e (audits_of id db) db'
    go unchanged = record { row = h; ended = q; same = refl }
    go (extended k c) = Change-Final id e _ c (go k)
