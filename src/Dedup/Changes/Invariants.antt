-- ===== src/Dedup/Changes/Invariants.antt =====
-- What no sequence of writes changes or breaks.
use mathlib.Core.Path.{subst}
use ai_brain.Prelude.{
  next_id, map, map-append, map-modify, find_key, ℕ, ◌≡◌, refl, sym, ◌∙◌, ap, true, false, none,
  List, [], ◌∷◌, ◌++◌, arith, ◌==◌, inl, inr, Bool-cases, any-append, append_assoc, append_nil,
  find_by, All, All-append,
}
use ai_brain.Dedup.Records.{
  Database, Document, DedupExecution, DedupExecutionActionAudit, DedupExecutionActionReconciliation,
  review_keyed, execution_keyed, plan_action_keyed, audit_keyed,
}
use ai_brain.Dedup.Plans.{FileObservation, add_plan, add_actions}
use ai_brain.Dedup.Authorizations.{add_authorization}
use ai_brain.Dedup.Executions
use ai_brain.Dedup.Executions.{
  contains_id, Report, is_running, is_consistent, audited, audit_row, add_audit, audits_of,
  add_execution, execution_for, finalized, set_recovery_claim,
}
use ai_brain.Dedup.Executor.{claim}
use ai_brain.Dedup.Reconciliations.{get_reconciliation, add_reconciliation}
use ai_brain.Dedup.Changes.{Change, Changes, unchanged, extended}

add_actions_rest :
    (id : ℕ) (canonical : Document) (observed : List (Document × FileObservation)) (db : Database)
    → let db' = add_actions id canonical observed db in
      (db'.executions ≡ db.executions)
      × (db'.audits ≡ db.audits)
      × (db'.reviews ≡ db.reviews)
      × (db'.reconciliations ≡ db.reconciliations)
unfolding add_actions
add_actions_rest id canonical [] db = (refl, refl, refl, refl)
add_actions_rest id canonical ((d, seen) ∷ rest) db = elim (Bool-cases seen.exists) [
  | inl e ↦ rw e (add_actions_rest id canonical rest _)
  | inr e ↦ rw e (add_actions_rest id canonical rest db)
]

pub planned_rest :
    (r : ℕ) (id : ℕ) (canonical : Document) (seen : FileObservation)
    (observed : List (Document × FileObservation)) (db : Database)
    → let db' = add_actions id canonical observed (add_plan r canonical seen db) in
      (db'.executions ≡ db.executions)
      × (db'.audits ≡ db.audits)
      × (db'.reviews ≡ db.reviews)
      × (db'.reconciliations ≡ db.reconciliations)
unfolding add_plan
planned_rest r id canonical seen observed db =
    add_actions_rest id canonical observed (add_plan r canonical seen db)

-- No two audits of the same action of the same execution.
abbrev pub AuditsUnique : List DedupExecutionActionAudit → Type 0
AuditsUnique [] = Unit
AuditsUnique (a ∷ rows) = (audited a.execution_id a.plan_action_id rows ≡ false) × AuditsUnique rows

-- No number twice.
abbrev pub NoRepeat : List ℕ → Type 0
NoRepeat [] = Unit
NoRepeat (i ∷ rest) = (contains_id rest i ≡ false) × NoRepeat rest

-- The authorizations that executions have consumed.
abbrev pub consumed : Database → List ℕ
consumed db = map (λ e. e.authorization_id) db.executions

-- The audits that were reconciled.
abbrev pub resolved : Database → List ℕ
resolved db = map (λ r. r.audit_id) db.reconciliations

abbrev pub AuditConsistent : DedupExecutionActionAudit → Type 0
AuditConsistent a = is_consistent a.result a.filesystem_mutation_occurred a.ended_at ≡ true

-- What the tables of executions, audits and reconciliations always satisfy.
pub record WellFormed (db : Database) : Type 0 where
  pub audits_unique : AuditsUnique db.audits
  pub audits_consistent : All AuditConsistent db.audits
  pub one_execution_each : NoRepeat (consumed db)
  pub reconciled_once : NoRepeat (resolved db)

AuditsUnique-append :
    (rows : List DedupExecutionActionAudit) (a : DedupExecutionActionAudit)
    → audited a.execution_id a.plan_action_id rows ≡ false
    → AuditsUnique rows
    → AuditsUnique (rows ++ a ∷ [])
unfolding audited
AuditsUnique-append [] a h u = (refl, tt)
AuditsUnique-append (b ∷ rows) a h u =
    (any-append _ rows _ ∙ ground (arith, u.0), AuditsUnique-append rows a (ground arith) u.1)

NoRepeat-append :
    (is : List ℕ) (i : ℕ) → contains_id is i ≡ false → NoRepeat is → NoRepeat (is ++ i ∷ [])
NoRepeat-append [] i h u = (refl, tt)
NoRepeat-append (j ∷ is) i h u =
    (any-append _ is _ ∙ ground (arith, u.0), NoRepeat-append is i (ground arith) u.1)

unconsumed :
    (i : ℕ) (rows : List DedupExecution)
    → execution_for i rows ≡ none
    → contains_id (map (λ e. e.authorization_id) rows) i ≡ false
unfolding execution_for
unconsumed i [] h = refl
unconsumed i (e ∷ rows) h = ground (arith, unconsumed i rows)

unreconciled :
    (i : ℕ) (rows : List DedupExecutionActionReconciliation)
    → get_reconciliation i rows ≡ none
    → contains_id (map (λ r. r.audit_id) rows) i ≡ false
unfolding get_reconciliation find_by
unreconciled i [] h = refl
unreconciled i (r ∷ rows) h = elim (Bool-cases (r.audit_id == i)) [
  | inl e ↦ let q = rw e at h in absurd cc
  | inr e ↦ rw e (unreconciled i rows (rw e at h))
]

Change-WellFormed : {db db' : Database} → Change db db' → WellFormed db → WellFormed db'
Change-WellFormed (Change.decided j now status canonical decision r found pending s) h = record {
  audits_unique = h.audits_unique;
  reconciled_once = h.reconciled_once;
  audits_consistent = h.audits_consistent;
  one_execution_each = h.one_execution_each;
}
Change-WellFormed {db} (Change.planned r canonical seen i observed found ok) h =
    let (es, as', rs, ks) = planned_rest r.id i canonical seen observed db in
    record {
      audits_unique = rw as' h.audits_unique;
      reconciled_once = rw ks h.reconciled_once;
      audits_consistent = rw as' h.audits_consistent;
      one_execution_each = rw es h.one_execution_each;
    }
Change-WellFormed (Change.authorized now plan_id by g) h =
    unfold add_authorization in
    record {
      audits_unique = h.audits_unique;
      reconciled_once = h.reconciled_once;
      audits_consistent = h.audits_consistent;
      one_execution_each = h.one_execution_each;
    }
Change-WellFormed (Change.revoking now j reason) h = record {
  audits_unique = h.audits_unique;
  reconciled_once = h.reconciled_once;
  audits_consistent = h.audits_consistent;
  one_execution_each = h.one_execution_each;
}
Change-WellFormed {db} (Change.started now j by a found ok g) h =
    unfold add_execution in
    record {
      audits_unique = h.audits_unique;
      reconciled_once = h.reconciled_once;
      audits_consistent = h.audits_consistent;
      one_execution_each =
          subst NoRepeat (sym (map-append (λ e. e.authorization_id) db.executions _)) (
            NoRepeat-append (consumed db) a.id (unconsumed a.id db.executions g)
              h.one_execution_each);
    }
Change-WellFormed {db} (Change.claimed now j e' found runs g) h = record {
  audits_unique = h.audits_unique;
  reconciled_once = h.reconciled_once;
  audits_consistent = h.audits_consistent;
  one_execution_each =
      unfold claim in
      subst NoRepeat (sym (map-modify _ j (claim now) db.executions (λ x. refl)))
        h.one_execution_each;
}
Change-WellFormed {db} (Change.recovering now j e' found runs g) h = record {
  audits_unique = h.audits_unique;
  reconciled_once = h.reconciled_once;
  audits_consistent = h.audits_consistent;
  one_execution_each =
      unfold set_recovery_claim in
      subst NoRepeat (sym (map-modify _ j (set_recovery_claim now) db.executions (λ x. refl)))
        h.one_execution_each;
}
Change-WellFormed {db} (Change.audited j i p r g c) h =
    unfold add_audit in
    record {
      audits_unique =
          AuditsUnique-append db.audits _
            (ap (λ k. Executions.audited j k db.audits) (find_key i p _ g.planned) ∙ g.fresh)
            h.audits_unique;
      reconciled_once = h.reconciled_once;
      audits_consistent = All-append AuditConsistent db.audits _ h.audits_consistent (c, tt);
      one_execution_each = h.one_execution_each;
    }
Change-WellFormed {db} (Change.concluded now j e' found runs g) h = record {
  audits_unique = h.audits_unique;
  reconciled_once = h.reconciled_once;
  audits_consistent = h.audits_consistent;
  one_execution_each =
      unfold finalized in
      subst NoRepeat (sym (map-modify _ j (finalized now _) db.executions (λ x. refl)))
        h.one_execution_each;
}
Change-WellFormed {db} (Change.reconciled now j v by method a seen k f u n g) h =
    unfold add_reconciliation in
    record {
      audits_unique = h.audits_unique;
      audits_consistent = h.audits_consistent;
      one_execution_each = h.one_execution_each;
      reconciled_once =
          subst NoRepeat (sym (map-append (λ r. r.audit_id) db.reconciliations _)) (
            NoRepeat-append (resolved db) j (unreconciled j db.reconciliations n)
              h.reconciled_once);
    }

-- Any writes keep: at most one audit for an action of an execution, each of them consistent, at most
-- one execution for an authorization, and at most one reconciliation of an audit.
pub Changes-WellFormed : {db db' : Database} → Changes db db' → WellFormed db → WellFormed db'
Changes-WellFormed unchanged h = h
Changes-WellFormed (extended k c) h = Change-WellFormed c (Changes-WellFormed k h)

-- The audit log only grows.
pub Changes-audits :
    {db db' : Database}
    → Changes db db'
    → (new : List DedupExecutionActionAudit) × (db'.audits ≡ db.audits ++ new)
Changes-audits unchanged = ([], sym (append_nil _))
Changes-audits {db} (extended k c) =
    let (new, q) = Changes-audits k in
    let (more, r) = one c in
    (new ++ more, r ∙ ap (λ rows. rows ++ more) q ∙ append_assoc db.audits new more)
  where
    one :
        {a b : Database}
        → Change a b
        → (new : List DedupExecutionActionAudit) × (b.audits ≡ a.audits ++ new)
    one (Change.decided j now status canonical decision r found pending s) =
        ([], sym (append_nil _))
    one {a} (Change.planned r canonical seen i observed found ok) =
        ([], (planned_rest r.id i canonical seen observed a).1 ∙ sym (append_nil _))
    one (Change.authorized now plan_id by g) = ([], unfold add_authorization in sym (append_nil _))
    one (Change.revoking now j reason) = ([], sym (append_nil _))
    one (Change.started now j by a found ok g) = ([], unfold add_execution in sym (append_nil _))
    one (Change.claimed now j e' found runs g) = ([], sym (append_nil _))
    one (Change.recovering now j e' found runs g) = ([], sym (append_nil _))
    one {a} (Change.audited j i p r g c) =
        (audit_row (next_id a.audits) j p r ∷ [], unfold add_audit in refl)
    one (Change.concluded now j e' found runs g) = ([], sym (append_nil _))
    one (Change.reconciled now j v by method a seen k f u n g) =
        ([], unfold add_reconciliation in sym (append_nil _))
