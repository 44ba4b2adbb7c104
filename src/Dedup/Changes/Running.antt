-- ===== src/Dedup/Changes/Running.antt =====
-- Executions and recoveries are made of the smaller operations' writes.
-- whether it returns or raises.
use ai_brain.Prelude.{ℕ, String, Bool, true, false, not, Option, List, [], ◌∷◌}
use ai_brain.Dedup.Records.{
  Database, DedupExecutionPlanAction, DedupExecution, review_keyed, plan_keyed, plan_action_keyed,
  authorization_keyed, execution_keyed,
}
use ai_brain.Paths.{FilePath}
use ai_brain.Dedup.Exec.{
  Error, already_finalized, duplicate_action_result, pure, raise, gets, required, guard,
}
use ai_brain.Dedup.Os.{Os, Call, os, attempt, counted, actions}
use ai_brain.Dedup.Os.Reading.{
  Reads-pure, Reads-raise, Reads-gets, Reads-guard, Reads-required, Reads-os, Reads-attempt,
}
use ai_brain.Dedup.Plans.{observe_path, observe_file}
use ai_brain.Dedup.Plans.Reading.{observe_path-Reads, observe_file-Reads}
use ai_brain.Dedup.Authorizations.{check_currency}
use ai_brain.Dedup.Executions.{
  Report, skip_duplicate, recover_actions, accept_finalized, recover_stale_execution,
}
use ai_brain.Dedup.Executor.{
  DedupFilesystemExecutor, PinnedIdentity, settle, refuse, verify_move, move_source, pin_source,
  inspect_source, locate_source, attempt_action, last_resort, run_actions, execute, pin_and_hash,
  is_within,
}
use ai_brain.Dedup.Executor.Settling.{pin_and_hash-Reads, is_within-Reads, check_currency-Reads}
use ai_brain.Dedup.Changes.{
  Writes, Writes-Reads, Writes-choose, Writes-catch, Writes-bind, Writes-maybe, unchanged,
}
use ai_brain.Dedup.Changes.Operations.{
  record_action_result-Writes, complete_execution-Writes, claim_execution-Writes,
  claim_for_recovery-Writes,
}

module _ {W A : Type 0} where
  Writes-counted : (c : Call W A) → Writes (counted c)
  unfolding actions
  Writes-counted c = record { run = λ s. unchanged }

  Writes-pure : (a : A) → Writes {W = W} (pure a)
  Writes-pure a = Writes-Reads _ (Reads-pure a)

  Writes-raise : (e : Error) → Writes {W = W} {A = A} (raise e)
  Writes-raise e = Writes-Reads _ (Reads-raise e)

  Writes-gets : (f : Database → A) → Writes {W = W} (gets f)
  Writes-gets f = Writes-Reads _ (Reads-gets f)

  Writes-required : (e : Error) (o : Option A) → Writes {W = W} (required e o)
  Writes-required e o = Writes-Reads _ (Reads-required e o)

  Writes-os : (c : Call W A) → Writes (os c)
  Writes-os c = Writes-Reads _ (Reads-os c)

  Writes-attempt : (c : Call W A) → Writes (attempt c)
  Writes-attempt c = Writes-Reads _ (Reads-attempt c)

Writes-guard : {W : Type 0} (b : Bool) (e : Error) → Writes {W = W} (guard b e)
Writes-guard b e = Writes-Reads _ (Reads-guard b e)

ruleset writes_rules = (
  Writes-bind, Writes-choose, Writes-maybe, Writes-catch, Writes-counted, Writes-pure, Writes-raise,
  Writes-gets, Writes-required, Writes-os, Writes-attempt, Writes-guard,
)

module _ {W : Type 0} (sys : Os W) where
  observe_path-Writes : (path : FilePath) → Writes (observe_path sys path)
  observe_path-Writes path = Writes-Reads _ (observe_path-Reads sys path)

  observe_file-Writes : (path : String) → Writes (observe_file sys path)
  observe_file-Writes path = Writes-Reads _ (observe_file-Reads sys path)

  pin_and_hash-Writes : (path : FilePath) → Writes (pin_and_hash sys path)
  pin_and_hash-Writes path = Writes-Reads _ (pin_and_hash-Reads sys path)

  is_within-Writes : (path root : FilePath) → Writes (is_within sys path root)
  is_within-Writes path root = Writes-Reads _ (is_within-Reads sys path root)

  check_currency-Writes : (id : ℕ) → Writes (check_currency sys id)
  check_currency-Writes id = Writes-Reads _ (check_currency-Reads sys id)

  accept_finalized-Writes : (id : ℕ) (e : Error) → Writes (accept_finalized sys id e)
  unfolding accept_finalized
  accept_finalized-Writes id already_finalized = search writes_rules
  accept_finalized-Writes id e = Writes-raise e

  skip_duplicate-Writes : (e : Error) → Writes (skip_duplicate sys e)
  unfolding skip_duplicate
  skip_duplicate-Writes duplicate_action_result = Writes-pure tt
  skip_duplicate-Writes e = Writes-raise e

  recover_actions-Writes :
      (id : ℕ) (ps : List DedupExecutionPlanAction) → Writes (recover_actions sys id ps)
  unfolding recover_actions
  recover_actions-Writes id [] = Writes-pure tt
  recover_actions-Writes id (p ∷ ps) = Writes-bind _ _ (observe_file-Writes p.source_path) λ seen.
      Writes-bind _ _
        (Writes-catch _ _ (record_action_result-Writes id p.id _) skip_duplicate-Writes)
        λ _. recover_actions-Writes id ps

  pub recover_stale_execution-Writes :
      (now later id : ℕ) → Writes (recover_stale_execution sys now later id)
  unfolding recover_stale_execution
  recover_stale_execution-Writes now later id =
      search
        (
          writes_rules,
          claim_for_recovery-Writes sys,
          recover_actions-Writes,
          complete_execution-Writes,
          accept_finalized-Writes,
        )
        depth 12

  settle-Writes :
      (e : DedupExecution) (p : DedupExecutionPlanAction) (r : Report) (b : Bool)
      → Writes (settle sys e p r b)
  unfolding settle
  settle-Writes e p r b = search (writes_rules, record_action_result-Writes)

  refuse-Writes : (e : DedupExecution) (p : DedupExecutionPlanAction) → Writes (refuse sys e p)
  unfolding refuse
  refuse-Writes e p = settle-Writes e p _ _

  verify_move-Writes :
      (e : DedupExecution) (p : DedupExecutionPlanAction) (pin : PinnedIdentity)
      (source destination : FilePath)
      → Writes (verify_move sys e p pin source destination)
  unfolding verify_move
  verify_move-Writes e p pin source destination =
      search (writes_rules, settle-Writes, observe_path-Writes) depth 16

  module _ (x : DedupFilesystemExecutor) (e : DedupExecution) (p : DedupExecutionPlanAction) where
    move_source-Writes :
        (pin : PinnedIdentity) (source : FilePath) → Writes (move_source sys x e p pin source)
    unfolding move_source
    move_source-Writes pin source =
        search (writes_rules, settle-Writes, verify_move-Writes) depth 20

    pin_source-Writes : (source : FilePath) → Writes (pin_source sys x e p source)
    unfolding pin_source
    pin_source-Writes source =
        search (writes_rules, refuse-Writes, pin_and_hash-Writes, move_source-Writes) depth 16

    inspect_source-Writes : (source : FilePath) → Writes (inspect_source sys x e p source)
    unfolding inspect_source
    inspect_source-Writes source = search (writes_rules, refuse-Writes, pin_source-Writes) depth 16

    locate_source-Writes : Writes (locate_source sys x e p)
    unfolding locate_source
    locate_source-Writes =
        search (writes_rules, refuse-Writes, is_within-Writes, inspect_source-Writes) depth 16

    attempt_action-Writes : Writes (attempt_action sys x e p)
    unfolding attempt_action
    attempt_action-Writes =
        search (writes_rules, refuse-Writes, check_currency-Writes, locate_source-Writes) depth 16

  last_resort-Writes :
      (id : ℕ) (p : DedupExecutionPlanAction) (y : Error) → Writes (last_resort sys id p y)
  unfolding last_resort
  last_resort-Writes id p y = search (writes_rules, record_action_result-Writes) depth 12

  run_actions-Writes :
      (x : DedupFilesystemExecutor) (e : DedupExecution) (stop : Bool)
      (ps : List DedupExecutionPlanAction)
      → Writes (run_actions sys x e stop ps)
  unfolding run_actions
  run_actions-Writes x e stop [] = Writes-pure tt
  run_actions-Writes x e true (p ∷ ps) =
      Writes-bind _ _ (record_action_result-Writes e.id p.id _) λ _. run_actions-Writes x e true ps
  run_actions-Writes x e false (p ∷ ps) =
      Writes-bind _ _ (Writes-catch _ _ (attempt_action-Writes x e p) (last_resort-Writes e.id p))
        λ go_on. run_actions-Writes x e (not go_on) ps

  pub execute-Writes :
      (x : DedupFilesystemExecutor) (now later id : ℕ) (confirm : Bool)
      → Writes (execute sys x now later id confirm)
  unfolding execute
  execute-Writes x now later id confirm =
      search
        (
          writes_rules,
          claim_execution-Writes sys,
          run_actions-Writes,
          complete_execution-Writes,
          accept_finalized-Writes,
        )
        depth 16
