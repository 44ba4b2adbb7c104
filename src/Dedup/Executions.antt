-- ===== src/Dedup/Executions.antt =====
-- The execution audit: backend/app/dedup/execution_service.py.
pub mod Recording
pub mod Audits
pub mod Starting
pub mod Recovering
use ai_brain.Prelude.{
  next_id, ℕ, String, Bool, true, false, not, ◌&&◌, ◌||◌, Option, none, some, List, [], ◌∷◌, ◌++◌,
  map, if◌then◌else◌, ◌==◌, opt_eq, filter, any, all, is_none, is_some, is_empty, find, modify,
}
use ai_brain.Dedup.Records.{
  Database, DedupExecutionPlanAction, DedupPlanAuthorization, DedupExecution, DedupExecutionStatus,
  running, completed, failed, partially_completed, needs_review, DedupExecutionActionResult,
  success, precondition_failed, failed_action, not_attempted, unknown, DedupExecutionActionAudit,
  plan_action_keyed, authorization_keyed, execution_keyed, audit_keyed,
}
use ai_brain.Dedup.Exec.{
  Exec, Sys, Result, ok, err, Error, authorization_not_found, not_authorized, already_executed,
  plan_not_valid, execution_not_found, not_running, plan_action_not_found, foreign_plan_action,
  inconsistent_mutation, incomplete_audits, duplicate_action_result, already_finalized,
  already_recovering, nothing_to_recover, pure, raise, gets, required, guard, commit, ◌>>=◌, ◌>>◌,
  catch,
}
use ai_brain.Dedup.Os.{Os}
use ai_brain.Dedup.Plans.{
  FileObservation, opt_text_eq, observe_file, actions_of, PlanValidity, check_plan_validity,
}
use ai_brain.Dedup.Authorizations.{is_authorized}

abbrev pub is_running : DedupExecutionStatus → Bool
is_running running = true
is_running _ = false

abbrev pub is_success : DedupExecutionActionResult → Bool
is_success success = true
is_success _ = false

abbrev pub is_unknown : DedupExecutionActionResult → Bool
is_unknown unknown = true
is_unknown _ = false

unfoldable pub execution_for : ℕ → List DedupExecution → Option DedupExecution
execution_for authorization_id [] = none
execution_for authorization_id (e ∷ rest) =
    if e.authorization_id == authorization_id then some e else execution_for authorization_id rest

-- `INSERT` of a fresh RUNNING execution
unfoldable pub add_execution : ℕ → DedupPlanAuthorization → Option String → Database → Database
add_execution now a executor db = record db {
  executions =
      db.executions
      ++ record {
        id = next_id db.executions;
        authorization_id = a.id;
        plan_id = a.plan_id;
        status = running;
        executor_identity = executor;
        started_at = now;
        ended_at = none;
        failure_reason = none;
        claimed_at = none;
        recovery_claimed_at = none;
      }
        ∷ [];
}

module _ {W : Type 0} (sys : Os W) where
  -- The id of the new execution is returned.
  unfoldable pub start_execution : ℕ → ℕ → Option String → Exec W ℕ
  start_execution now authorization_id executor = do
    found ← gets (λ db. find authorization_id db.authorizations)
    a ← required authorization_not_found found
    guard (is_authorized a.status) not_authorized
    existing ← gets (λ db. execution_for authorization_id db.executions)
    guard (is_none existing) already_executed
    validity ← check_plan_validity sys a.plan_id
    guard validity.is_valid plan_not_valid
    id ← gets (λ db. next_id db.executions)
    commit (add_execution now a executor)
    pure id

-- What a caller reports of one action.
pub record Report : Type 0 where
  pub result : DedupExecutionActionResult
  pub observed_content_hash : Option String
  pub observed_file_size : Option ℕ
  pub filesystem_mutation_occurred : Option Bool
  pub ended_at : Option ℕ

-- A report with the default keyword arguments.
abbrev pub bare : DedupExecutionActionResult → Option Bool → Report
bare r m = record {
  result = r;
  observed_content_hash = none;
  observed_file_size = none;
  filesystem_mutation_occurred = m;
  ended_at = none;
}

-- The definitional consistency checks of a result with the reported mutation.
unfoldable pub is_consistent : DedupExecutionActionResult → Option Bool → Option ℕ → Bool
is_consistent unknown m ended = is_none m && is_none ended
is_consistent r none ended = false
is_consistent success (some m) ended = m
is_consistent precondition_failed (some m) ended = not m
is_consistent not_attempted (some m) ended = not m
is_consistent failed_action (some m) ended = true

unfoldable pub audited : ℕ → ℕ → List DedupExecutionActionAudit → Bool
audited execution_id plan_action_id =
    any (λ a. a.execution_id == execution_id && a.plan_action_id == plan_action_id)

-- What was planned is copied from the plan action's own row.
abbrev pub audit_row : ℕ → ℕ → DedupExecutionPlanAction → Report → DedupExecutionActionAudit
audit_row id execution_id p r = record {
  id = id;
  execution_id = execution_id;
  plan_action_id = p.id;
  document_id = p.document_id;
  source_path = p.source_path;
  target_path = p.target_path;
  expected_content_hash = p.observed_content_hash;
  expected_file_size = p.observed_file_size;
  result = r.result;
  observed_content_hash = r.observed_content_hash;
  observed_file_size = r.observed_file_size;
  filesystem_mutation_occurred = r.filesystem_mutation_occurred;
  ended_at = r.ended_at;
}

-- `INSERT`
unfoldable pub add_audit : ℕ → DedupExecutionPlanAction → Report → Database → Database
add_audit execution_id p r db = record db {
  audits = db.audits ++ audit_row (next_id db.audits) execution_id p r ∷ [];
}

unfoldable pub audits_of : ℕ → Database → List DedupExecutionActionAudit
audits_of execution_id db = filter (λ a. a.execution_id == execution_id) db.audits

abbrev pub contains_id : List ℕ → ℕ → Bool
contains_id ids id = any (λ j. j == id) ids

-- The equation of two sets of ids.
unfoldable pub same_ids : List ℕ → List ℕ → Bool
same_ids xs ys = all (contains_id ys) xs && all (contains_id xs) ys

-- The first audit that is not a success, or is unknown.
unfoldable pub first_with :
    (DedupExecutionActionResult → Bool)
    → List DedupExecutionActionAudit
    → Option DedupExecutionActionAudit
first_with p [] = none
first_with p (a ∷ rest) = if p a.result then some a else first_with p rest

-- The overall status, and the audit that a failure reason quotes.
unfoldable pub verdict : List DedupExecutionActionAudit → DedupExecutionStatus × Option ℕ
unfolding first_with
verdict audits = elim (first_with is_unknown audits) [
  | some a ↦ (needs_review, some a.id)
  | none ↦ elim (first_with (λ r. not (is_success r)) audits) [
    | none ↦ (completed, none)
    | some a ↦
        (if any (λ b. is_success b.result) audits then partially_completed else failed, some a.id)
  ]
]

unfoldable pub finalized : ℕ → DedupExecutionStatus × Option ℕ → DedupExecution → DedupExecution
finalized now (status, reason) e = record e {
  status = status;
  failure_reason = reason;
  ended_at = some now;
}

module _ {W : Type 0} where
  unfoldable pub get_execution_or_raise : ℕ → Exec W DedupExecution
  get_execution_or_raise id = do
    e ← gets (λ db. find id db.executions)
    required execution_not_found e

  unfoldable pub record_action_result : ℕ → ℕ → Report → Exec W (Unit {0})
  record_action_result execution_id plan_action_id r = do
    e ← get_execution_or_raise execution_id
    guard (is_running e.status) not_running
    found ← gets (λ db. find plan_action_id db.plan_actions)
    p ← required plan_action_not_found found
    guard (p.plan_id == e.plan_id) foreign_plan_action
    existing ← gets (λ db. audited execution_id plan_action_id db.audits)
    guard (not existing) duplicate_action_result
    guard (is_consistent r.result r.filesystem_mutation_occurred r.ended_at) inconsistent_mutation
    commit (add_audit execution_id p r)

  unfoldable pub complete_execution : ℕ → ℕ → Exec W (Unit {0})
  complete_execution now execution_id = do
    e ← get_execution_or_raise execution_id
    guard (is_running e.status) already_finalized
    planned ← gets (λ db. map (λ a. a.id) (actions_of e.plan_id db))
    audits ← gets (audits_of execution_id)
    guard (same_ids (map (λ a. a.plan_action_id) audits) planned) incomplete_audits
    commit (λ db. record db {
      executions = modify execution_id (finalized now (verdict audits)) db.executions;
    })

-- `SELECT ... FOR UPDATE`, the check of one claim column and its `UPDATE` are one transaction.
unfoldable pub set_recovery_claim : ℕ → DedupExecution → DedupExecution
set_recovery_claim now e = record e { recovery_claimed_at = some now }

-- A file whose state is what the plan expected before any mutation.
unfoldable pub confirmed_unchanged : DedupExecutionPlanAction → FileObservation → Bool
confirmed_unchanged p seen =
    seen.exists
    && p.observed_exists
    && opt_text_eq seen.content_hash p.observed_content_hash
    && opt_eq seen.file_size p.observed_file_size

-- What a recovery reports of an unresolved action.
unfoldable pub recovery_report : DedupExecutionPlanAction → FileObservation → Report
unfolding confirmed_unchanged
recovery_report p seen =
    if confirmed_unchanged p seen
    then bare not_attempted (some false)
    else record (bare unknown none) {
      observed_content_hash = seen.content_hash;
      observed_file_size = seen.file_size;
    }

module _ {W : Type 0} (sys : Os W) where
  unfoldable pub claim_for_recovery : ℕ → ℕ → Exec W DedupExecution
  claim_for_recovery now execution_id = do
    e ← get_execution_or_raise execution_id
    guard (is_running e.status) not_running
    guard (is_none e.recovery_claimed_at) already_recovering
    commit (λ db. record db {
      executions = modify execution_id (set_recovery_claim now) db.executions;
    })
    get_execution_or_raise execution_id

  -- A result that another caller recorded first is left to stand.
  unfoldable pub skip_duplicate : Error → Exec W (Unit {0})
  skip_duplicate duplicate_action_result = pure tt
  skip_duplicate e = raise e

  unfoldable pub recover_actions : ℕ → List DedupExecutionPlanAction → Exec W (Unit {0})
  recover_actions execution_id [] = pure tt
  recover_actions execution_id (p ∷ rest) = do
    seen ← observe_file sys p.source_path
    catch (record_action_result execution_id p.id (recovery_report p seen)) skip_duplicate
    recover_actions execution_id rest

  -- An execution that another caller finalized first has reached its end all the same.
  unfoldable pub accept_finalized : ℕ → Error → Exec W (Unit {0})
  accept_finalized execution_id already_finalized = do
    found ← gets (λ db. find execution_id db.executions)
    e ← required already_finalized found
    guard (not (is_running e.status)) already_finalized
  accept_finalized execution_id e = raise e

  unfoldable pub unresolved : ℕ → ℕ → Database → List DedupExecutionPlanAction
  unresolved execution_id plan_id db =
      filter (λ p. not (audited execution_id p.id db.audits)) (actions_of plan_id db)

  -- Two readings of the clock, of the claim and of the end.
  unfoldable pub recover_stale_execution : ℕ → ℕ → ℕ → Exec W (Unit {0})
  recover_stale_execution now later execution_id = do
    e ← claim_for_recovery now execution_id
    todo ← gets (unresolved execution_id e.plan_id)
    guard (not (is_empty todo)) nothing_to_recover
    recover_actions execution_id todo
    catch (complete_execution later execution_id) (accept_finalized execution_id)
