-- ===== src/Dedup/Examples/Runs.antt =====
-- Runs of the pipeline, and its theorems at them.
use ai_brain.Prelude.{◌≡◌, ◌↔◌, refl, true, false, none, some, List, [], ◌∷◌, ◌++◌, find, any, all}
use ai_brain.Paths.{path_of, suffix, name, lower, lstrip_dot, is_relative_to, decimal}
use ai_brain.Dedup.Records.{
  DedupExecution, DedupExecutionActionAudit, success, unknown, completed, needs_review, failed,
  partially_completed, execution_keyed,
}
use ai_brain.Dedup.Exec.{Sys, ok}
use ai_brain.Dedup.Os.{actions}
use ai_brain.Dedup.Plans.{
  observe_file, observe_path, type_matches, check_file, check_action, check_actions,
  check_plan_validity, actions_of,
}
use ai_brain.Dedup.Reviews.{find_document}
use ai_brain.Dedup.Authorizations.{check_currency}
use ai_brain.Dedup.Executions.{
  bare, audit_row, verdict, is_unknown, is_success, is_running, audits_of, audited, is_consistent,
  add_audit, record_action_result, get_execution_or_raise,
}
use ai_brain.Dedup.Executor.{
  attempt_action, locate_source, inspect_source, pin_source, move_source, verify_move, settle,
  refuse, is_canonical, action_validity, is_within, pin_and_hash, matches_plan, destination_of,
  verification_passed, run_actions, execute,
}
use ai_brain.Dedup.Executions.Recording.{Ready, Recorded, record_action_result-Recorded}
use ai_brain.Dedup.Executions.Audits.{verdict-status}
use ai_brain.Dedup.Executor.Settling.{Settled, attempt_action-Settled}
use ai_brain.Dedup.Executor.Loop.{Ran, run_actions-Ran}
use ai_brain.Dedup.Executor.Completion.{Executed, IsFresh, execute-Executed}
use ai_brain.Dedup.Changes.Invariants.{WellFormed}
use ai_brain.Dedup.Pipeline.{
  Operation, perform_all, perform_all-WellFormed, perform_all_finalized, perform_all_audits,
}
use ai_brain.Dedup.Executor.Evidence.{SafeMove}
use ai_brain.Dedup.Executor.Success.{attempt_action-SafeMove}
use ai_brain.Dedup.Examples.{database, state, executor, execution, remove_b, two_files}
use ai_brain.Dedup.Examples.Disk.{disk, Entry}

-- The attempt on this disk succeeds.
attempt_test : (attempt_action disk executor execution remove_b state).0 ≡ ok true
unfolding find attempt_action locate_source inspect_source pin_source move_source verify_move settle
    refuse is_canonical action_validity is_within pin_and_hash matches_plan destination_of
    verification_passed check_currency check_plan_validity check_actions check_action check_file
    type_matches observe_file observe_path actions_of find_document path_of suffix name lower
    lstrip_dot is_relative_to decimal audited is_consistent add_audit record_action_result
    get_execution_or_raise actions
attempt_test = refl

attempt_action-SafeMove_example : SafeMove disk database executor execution remove_b
attempt_action-SafeMove_example =
    attempt_action-SafeMove disk database executor execution remove_b two_files 0 attempt_test

remove_b-Ready : Ready database 1 1 remove_b
unfolding find audited
remove_b-Ready = record {
  execution = execution;
  found = refl;
  runs = refl;
  planned = refl;
  same_plan = refl;
  fresh = refl;
}

attempt_action-Settled_example :
    Settled execution remove_b database 0 (attempt_action disk executor execution remove_b state)
attempt_action-Settled_example =
    attempt_action-Settled disk execution remove_b database remove_b-Ready 0 executor two_files

run_actions-Ran_example :
    Ran execution false
      (remove_b ∷ [])
      database
      0
      (run_actions disk executor execution false (remove_b ∷ []) state)
run_actions-Ran_example =
    run_actions-Ran disk executor execution false (remove_b ∷ []) database two_files 0 (tt, tt)
      (remove_b-Ready, tt)

is_fresh : IsFresh database execution
unfolding find audits_of
is_fresh = record { found = refl; runs = refl; unclaimed = refl; no_audits = refl; keys = (tt, tt) }

execute-Executed_example :
    Executed 5 6 execution database 0 (execute disk executor 5 6 1 true state)
execute-Executed_example =
    execute-Executed disk 5 6 execution database is_fresh executor two_files 0

abbrev calls : List Operation
calls =
    Operation.start 4 1 none
    ∷ Operation.run 5 6 1 true
    ∷ Operation.report 1 1 (bare success (some true))
    ∷ []

perform_all-WellFormed_example : WellFormed (perform_all disk executor calls state).db
perform_all-WellFormed_example = perform_all-WellFormed disk executor calls state (record {
  audits_unique = tt;
  audits_consistent = tt;
  one_execution_each = (refl, tt);
  reconciled_once = tt;
})

abbrev ended : DedupExecution
ended = record execution { status = completed; ended_at = some 6 }

abbrev ended_state : Sys (List Entry)
ended_state = record state { db = record database { executions = ended ∷ [] } }

ended_found : find 1 ended_state.db.executions ≡ some ended
unfolding find
ended_found = refl

perform_all_finalized_example :
    (find 1 (perform_all disk executor calls ended_state).db.executions ≡ some ended)
    × (audits_of 1 (perform_all disk executor calls ended_state).db ≡ audits_of 1 ended_state.db)
perform_all_finalized_example =
    perform_all_finalized disk executor calls ended_state 1 ended ended_found refl

perform_all_audits_example :
    (new : List DedupExecutionActionAudit) × ((perform_all disk executor calls state).db.audits
      ≡ [] ++ new)
perform_all_audits_example = perform_all_audits disk executor calls state

abbrev two_audits : List DedupExecutionActionAudit
two_audits =
    audit_row 1 1 remove_b (bare success (some true))
    ∷ audit_row 2 1 remove_b (bare unknown none)
    ∷ []

verdict-status_example :
    (((verdict two_audits).0 ≡ needs_review) ↔ (any is_unknown (success ∷ unknown ∷ []) ≡ true))
    × (((verdict two_audits).0 ≡ completed) ↔ (
        (any is_unknown (success ∷ unknown ∷ []) ≡ false)
        × (all is_success (success ∷ unknown ∷ []) ≡ true)))
    × (((verdict two_audits).0 ≡ partially_completed) ↔ (
        (any is_unknown (success ∷ unknown ∷ []) ≡ false)
        × (any is_success (success ∷ unknown ∷ []) ≡ true)
        × (all is_success (success ∷ unknown ∷ []) ≡ false)))
    × (((verdict two_audits).0 ≡ failed) ↔ (
        (any is_unknown (success ∷ unknown ∷ []) ≡ false)
        × (any is_success (success ∷ unknown ∷ []) ≡ false)
        × (all is_success (success ∷ unknown ∷ []) ≡ false)))
    × (is_running (verdict two_audits).0 ≡ false)
    × (((verdict two_audits).1 ≡ none) ↔ ((verdict two_audits).0 ≡ completed))
verdict-status_example = verdict-status two_audits

record_action_result-Recorded_example :
    Recorded 1 1
      (bare success (some true))
      state
      (record_action_result 1 1 (bare success (some true)) state)
record_action_result-Recorded_example =
    record_action_result-Recorded 1 1 (bare success (some true)) state
