-- ===== src/Dedup/Pipeline.antt =====
-- Calls of the pipeline's services, one after another, and what holds after any of them: the decisions
-- of reviews, plans, authorizations, executions, the executor and reconciliations. A call that raises
-- keeps what it had committed.
use ai_brain.Prelude.{ℕ, ◌≡◌, String, Bool, false, Option, some, List, [], ◌∷◌, ◌++◌, find}
use ai_brain.Dedup.Records.{
  DuplicateReview, review_keyed, DedupExecution, DedupExecutionActionAudit,
  DedupExecutionActionResult, execution_keyed,
}
use ai_brain.Dedup.Exec.{Sys}
use ai_brain.Dedup.Os.{Os}
use ai_brain.Dedup.Reviews.{is_pending, approve_review, reject_review}
use ai_brain.Dedup.Plans.{generate_plan_for_review}
use ai_brain.Dedup.Authorizations.{authorize_plan, revoke_authorization}
use ai_brain.Dedup.Executions.{
  Report, is_running, audits_of, start_execution, record_action_result, complete_execution,
  recover_stale_execution,
}
use ai_brain.Dedup.Reconciliations.{reconcile_action}
use ai_brain.Dedup.Executor.{DedupFilesystemExecutor, execute}
use ai_brain.Dedup.Changes.{Changes, Changes-trans, unchanged}
use ai_brain.Dedup.Changes.Operations.{
  approve_review-Writes, reject_review-Writes, generate_plan_for_review-Writes,
  authorize_plan-Writes, revoke_authorization-Writes, start_execution-Writes,
  record_action_result-Writes, complete_execution-Writes, reconcile_action-Writes,
}
use ai_brain.Dedup.Changes.Running.{recover_stale_execution-Writes, execute-Writes}
use ai_brain.Dedup.Changes.Decisions.{decided_forever}
use ai_brain.Dedup.Changes.Invariants.{WellFormed, Changes-WellFormed, Changes-audits}
use ai_brain.Dedup.Changes.Finality.{finalized_forever}

-- A call with its readings of the clock.
pub data Operation : Type 0 where
  approve : ℕ → ℕ → Option String → Option String → Operation
  reject : ℕ → ℕ → Option String → Operation
  generate : ℕ → Operation
  authorize revoke start : ℕ → ℕ → Option String → Operation
  report : ℕ → ℕ → Report → Operation
  complete : ℕ → ℕ → Operation
  run : ℕ → ℕ → ℕ → Bool → Operation
  recover : ℕ → ℕ → ℕ → Operation
  reconcile : ℕ → ℕ → DedupExecutionActionResult → String → String → Operation

module _ {W : Type 0} (sys : Os W) (x : DedupFilesystemExecutor) where
  unfoldable pub perform : Operation → Sys W → Sys W
  perform (Operation.approve now id canonical decision) s =
      (approve_review now id canonical decision s).1
  perform (Operation.reject now id decision) s = (reject_review now id decision s).1
  perform (Operation.generate id) s = (generate_plan_for_review sys id s).1
  perform (Operation.authorize now id by) s = (authorize_plan sys now id by s).1
  perform (Operation.revoke now id reason) s = (revoke_authorization sys now id reason s).1
  perform (Operation.start now id by) s = (start_execution sys now id by s).1
  perform (Operation.report id action r) s = (record_action_result id action r s).1
  perform (Operation.complete now id) s = (complete_execution now id s).1
  perform (Operation.run now later id confirm) s = (execute sys x now later id confirm s).1
  perform (Operation.recover now later id) s = (recover_stale_execution sys now later id s).1
  perform (Operation.reconcile now id verified by method) s =
      (reconcile_action sys now id verified by method s).1

  unfoldable pub perform_all : List Operation → Sys W → Sys W
  unfolding perform
  perform_all [] s = s
  perform_all (o ∷ os) s = perform_all os (perform o s)

  perform-Changes : (o : Operation) (s : Sys W) → Changes s.db (perform o s).db
  unfolding perform
  perform-Changes (Operation.approve now id canonical decision) s =
      (approve_review-Writes now id canonical decision).run s
  perform-Changes (Operation.reject now id decision) s =
      (reject_review-Writes now id decision).run s
  perform-Changes (Operation.generate id) s = (generate_plan_for_review-Writes sys id).run s
  perform-Changes (Operation.authorize now id by) s = (authorize_plan-Writes sys now id by).run s
  perform-Changes (Operation.revoke now id reason) s =
      (revoke_authorization-Writes sys now id reason).run s
  perform-Changes (Operation.start now id by) s = (start_execution-Writes sys now id by).run s
  perform-Changes (Operation.report id action r) s = (record_action_result-Writes id action r).run s
  perform-Changes (Operation.complete now id) s = (complete_execution-Writes now id).run s
  perform-Changes (Operation.run now later id confirm) s =
      (execute-Writes sys x now later id confirm).run s
  perform-Changes (Operation.recover now later id) s =
      (recover_stale_execution-Writes sys now later id).run s
  perform-Changes (Operation.reconcile now id verified by method) s =
      (reconcile_action-Writes sys now id verified by method).run s

  -- Any calls in any order make only the pipeline's guarded writes, in every world and whether or not
  -- a call raises.
  pub perform_all-Changes : (os : List Operation) (s : Sys W) → Changes s.db (perform_all os s).db
  unfolding perform_all
  perform_all-Changes [] s = unchanged
  perform_all-Changes (o ∷ os) s =
      Changes-trans (perform-Changes o s) (perform_all-Changes os (perform o s))

  -- From tables with at most one audit for each action of an execution, each of them consistent, at
  -- most one execution for each authorization and at most one reconciliation of each audit, any calls
  -- of the pipeline's services in any order lead to such tables again.
  pub perform_all-WellFormed :
      (os : List Operation) (s : Sys W) → WellFormed s.db → WellFormed (perform_all os s).db
  perform_all-WellFormed os s h = Changes-WellFormed (perform_all-Changes os s) h

  -- No calls of these services change the row or the audits of an execution that is no longer RUNNING.
  pub perform_all_finalized :
      (os : List Operation) (s : Sys W) (id : ℕ) (e : DedupExecution)
      → find id s.db.executions ≡ some e
      → is_running e.status ≡ false
      → let s' = perform_all os s in
        (find id s'.db.executions ≡ some e) × (audits_of id s'.db ≡ audits_of id s.db)
  perform_all_finalized os s id e found ended =
      finalized_forever id e (perform_all-Changes os s) found ended

  -- The log of audits is append-only under any calls of these services.
  pub perform_all_audits :
      (os : List Operation) (s : Sys W)
      → (new : List DedupExecutionActionAudit) × ((perform_all os s).db.audits ≡ s.db.audits ++ new)
  perform_all_audits os s = Changes-audits (perform_all-Changes os s)

  -- No calls of these services change a review that is no longer PENDING: a decision is made once.
  pub perform_all_decided :
      (os : List Operation) (s : Sys W) (id : ℕ) (r : DuplicateReview)
      → find id s.db.reviews ≡ some r
      → is_pending r.status ≡ false
      → find id (perform_all os s).db.reviews ≡ some r
  perform_all_decided os s id r found done =
      decided_forever id r (perform_all-Changes os s) done found
