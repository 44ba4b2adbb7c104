-- ===== src/Dedup/Executor/Completion.antt =====
-- A whole call of `execute`, from the confirmation to the final status.
use ai_brain.Prelude.{
  ℕ, ◌+◌, ◌≤◌, ◌≡◌, refl, ◌∙◌, ap, true, false, Option, none, some, List, [], map, ==_refl, length,
  sum_by, All, All-mono, find, modify, find-modify,
}
use ai_brain.Dedup.Records.{
  Database, DedupExecutionPlanAction, DedupExecution, DedupExecutionStatus, plan_action_keyed,
  execution_keyed,
}
use ai_brain.Dedup.Exec.{Result, ok, Sys}
use ai_brain.Dedup.Os.{Os, actions}
use ai_brain.Dedup.Plans.{actions_of}
use ai_brain.Dedup.Executions.{
  Report, is_running, audits_of, same_ids, verdict, finalized, complete_execution,
  get_execution_or_raise,
}
use ai_brain.Dedup.Executions.Audits.{
  add_audits, add_audits_rest, results, results-add_audits, actions-add_audits,
}
use ai_brain.Dedup.Executions.Recording.{Ready}
use ai_brain.Dedup.Executor.{
  DedupFilesystemExecutor, order_by_id, claim, claim_execution, run_actions, execute,
}
use ai_brain.Dedup.Executor.Loop.{
  Distinct, StopsAtFailure, Ran, run_actions-Ran, least_renames, most_renames, consistent,
}
use ai_brain.Dedup.Executor.Ordering.{
  Distinct-planned, planned_rows, same_ids-order, unaudited, ids_of,
}

abbrev at : {W : Type 0} → Database → W → ℕ → Sys W
at db w n = record { db = db; world = w; renames = n }

-- The database once an execution is claimed.
abbrev pub claimed : ℕ → ℕ → Database → Database
claimed now id db = record db { executions = modify id (claim now) db.executions }

abbrev pub planned_for : DedupExecution → Database → List DedupExecutionPlanAction
planned_for e db = order_by_id (actions_of e.plan_id db)

-- The database once an execution got its final status.
abbrev pub concluded : ℕ → ℕ → Database → Database
concluded later id db = record db {
  executions = modify id (finalized later (verdict (audits_of id db))) db.executions;
}

-- The execution is running and unclaimed, and has no audits.
pub record IsFresh (db : Database) (e : DedupExecution) : Type 0 where
  pub found : find e.id db.executions ≡ some e
  pub runs : is_running e.status ≡ true
  pub unclaimed : e.claimed_at ≡ none
  pub no_audits : audits_of e.id db ≡ []
  pub keys : Distinct db.plan_actions

-- The row of an execution that was claimed and has ended: the verdict's status and failure reason, the
-- two readings of the clock, and nothing else changed.
abbrev pub ended_row : ℕ → ℕ → DedupExecution → DedupExecutionStatus × Option ℕ → DedupExecution
ended_row now later e v = record e {
  claimed_at = some now;
  status = v.0;
  failure_reason = v.1;
  ended_at = some later;
}

-- What a completed call has done to a database: one consistent report for each action of the plan, in
-- the order of their ids, made into the execution's audits, and the status that they add up to.
pub record Executed {W : Type 0} (now later : ℕ) (e : DedupExecution) (db : Database) (k : ℕ)
    (out : Result (Unit {0}) × Sys W) : Type 0 where
  pub reports : List Report
  pub world : W
  pub n : ℕ
  pub are_taken : All (λ r. consistent r ≡ true) reports
  pub stops : StopsAtFailure false (results reports)
  pub lo : k + sum_by least_renames (results reports) ≤ n
  pub hi : n ≤ k + sum_by most_renames (results reports)
  pub final : out ≡ (
    ok tt,
    at
        (concluded later e.id (add_audits e.id (planned_for e db) reports (claimed now e.id db)))
        world
        n,
  )
  pub audited_actions :
      map (λ a. a.plan_action_id) (audits_of e.id out.1.db) ≡ ids_of (planned_for e db)
  pub audited_results : map (λ a. a.result) (audits_of e.id out.1.db) ≡ results reports
  pub row :
      find e.id out.1.db.executions
      ≡ some (ended_row now later e (verdict (audits_of e.id out.1.db)))

finalized-claim :
    (now later : ℕ) (e : DedupExecution) (v : DedupExecutionStatus × Option ℕ)
    → finalized later v (claim now e) ≡ ended_row now later e v
unfolding finalized claim
finalized-claim now later e v = refl

module _ {W : Type 0} (sys : Os W) (now later : ℕ) (e : DedupExecution) (db : Database)
    (fresh : IsFresh db e) where
  claimed_row : find e.id (claimed now e.id db).executions ≡ some (claim now e)
  unfolding claim
  claimed_row =
      find-modify e.id e.id (claim now) db.executions (λ x. refl)
      ∙ rw (==_refl e.id, fresh.found) refl

  claim_execution_ok :
      (w : W) (n : ℕ)
      → claim_execution sys now e.id (at db w n) ≡ (ok (claim now e), at (claimed now e.id db) w n)
  unfolding claim_execution get_execution_or_raise actions claim
  claim_execution_ok w n = rw (fresh.found, fresh.runs, fresh.unclaimed, claimed_row) refl

  claimed-Ready : All (λ p. Ready (claimed now e.id db) (claim now e).id p.id p) (planned_for e db)
  unfolding claim
  claimed-Ready =
      All-mono _ _ _
        (λ p (found, same). record {
          execution = claim now e;
          found = claimed_row;
          runs = fresh.runs;
          planned = found;
          same_plan = same;
          fresh = unaudited e.id p.id db fresh.no_audits;
        })
        (planned_rows e.plan_id db fresh.keys)

  -- The audits of the run in the claimed database, with as many reports as actions.
  module _ (reports : List Report) (h : length reports ≡ length (planned_for e db)) where
    abbrev run_db : Database
    run_db = add_audits e.id (planned_for e db) reports (claimed now e.id db)

    run_row : find e.id run_db.executions ≡ some (claim now e)
    run_row =
        ap (λ d. find e.id d.executions)
          (add_audits_rest e.id (planned_for e db) reports (claimed now e.id db))
        ∙ claimed_row

    run_actions_of : actions_of e.plan_id run_db ≡ actions_of e.plan_id db
    unfolding actions_of
    run_actions_of =
        ap (actions_of e.plan_id)
          (add_audits_rest e.id (planned_for e db) reports (claimed now e.id db))

    run_audited : map (λ a. a.plan_action_id) (audits_of e.id run_db) ≡ ids_of (planned_for e db)
    unfolding audits_of
    run_audited =
        actions-add_audits e.id (planned_for e db) reports (claimed now e.id db) h fresh.no_audits

    run_results : map (λ a. a.result) (audits_of e.id run_db) ≡ results reports
    unfolding audits_of
    run_results =
        results-add_audits e.id (planned_for e db) reports (claimed now e.id db) h fresh.no_audits

    run_same_ids :
        same_ids
          (map (λ a. a.plan_action_id) (audits_of e.id run_db))
          (ids_of (actions_of e.plan_id run_db))
        ≡ true
    run_same_ids = rw (run_audited, run_actions_of) (same_ids-order (actions_of e.plan_id db))

    concluded_row :
        find e.id (concluded later e.id run_db).executions
        ≡ some (finalized later (verdict (audits_of e.id run_db)) (claim now e))
    unfolding finalized
    concluded_row =
        find-modify e.id e.id (finalized later (verdict (audits_of e.id run_db))) run_db.executions
          (λ x. refl)
        ∙ rw (==_refl e.id, run_row) refl

    -- Finalizing once every action has its audit.
    complete_execution_ok :
        (w : W) (n : ℕ)
        → complete_execution later e.id (at run_db w n)
          ≡ (ok tt, at (concluded later e.id run_db) w n)
    unfolding complete_execution get_execution_or_raise actions claim
    complete_execution_ok w n = rw (run_row, fresh.runs, run_same_ids) refl

  module _ (x : DedupFilesystemExecutor) (w : W) (k : ℕ)
      (ran : Ran (claim now e) false (planned_for e db) (claimed now e.id db) k (
        run_actions sys x
          (claim now e)
          false
          (planned_for e db)
          (at (claimed now e.id db) w k))) where
    execute_final :
        execute sys x now later e.id true (at db w k)
        ≡ (ok tt, at (concluded later e.id (run_db ran.reports ran.count)) ran.world ran.n)
    unfolding execute actions claim audits_of actions_of
    execute_final =
        rw
          (
            claim_execution_ok w k,
            fresh.no_audits,
            ran.final,
            complete_execution_ok ran.reports ran.count ran.world ran.n,
          )
          refl

  -- A confirmed call on a fresh execution completes in every world: the execution ends with exactly one
  -- audit for each action of its plan, in the order of the ids; attempts stop at the first that is no
  -- success; renames are called once for each success, at most once for each failed or unknown result
  -- and for nothing else; and the row is finalized with the status that its audits add up to. The keys of
  -- the plan actions are distinct in the table.
  pub execute-Executed :
      (x : DedupFilesystemExecutor) (w : W) (k : ℕ)
      → Executed now later e db k (execute sys x now later e.id true (at db w k))
  unfolding audits_of order_by_id actions_of
  execute-Executed x w k =
      let ran =
        run_actions-Ran sys x (claim now e) false (planned_for e db) (claimed now e.id db) w k
          (Distinct-planned e.plan_id db fresh.keys) claimed-Ready in
      let q = execute_final x w k ran in
      record {
        reports = ran.reports;
        world = ran.world;
        n = ran.n;
        are_taken = ran.are_taken;
        stops = ran.stops;
        lo = ran.lo;
        hi = ran.hi;
        final = q;
        audited_actions = rw q (run_audited ran.reports ran.count);
        audited_results = rw q (run_results ran.reports ran.count);
        row = rw q (concluded_row ran.reports ran.count ∙ ap some (finalized-claim now later e _));
      }
