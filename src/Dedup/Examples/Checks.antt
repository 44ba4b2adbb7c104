-- ===== src/Dedup/Examples/Checks.antt =====
-- A reconciliation and the making of an executor on the small disk.
use ai_brain.Prelude.{◌≡◌, refl, String, none, some, List, [], ◌∷◌, map}
use ai_brain.Paths.{FilePath, codes, path_of, is_relative_to}
use ai_brain.Dedup.Records.{DedupExecutionActionAudit, failed_action, unknown}
use ai_brain.Dedup.Exec.{ok, Sys}
use ai_brain.Dedup.Os.{actions}
use ai_brain.Dedup.Executor.{is_within}
use ai_brain.Dedup.Executor.Constructing.{resolve_all, check_protected, make_executor}
use ai_brain.Dedup.Executor.Accepting.{Accepted, make_executor-Accepted}
use ai_brain.Dedup.Reconciliations.{reconcile_action}
use ai_brain.Dedup.Reconciliations.Agreement.{Reconciled, reconcile_action-Reconciled}
use ai_brain.Dedup.Examples.{database, state, executor}
use ai_brain.Dedup.Examples.Disk.{disk, directory, Entry}

abbrev unknown_audit : DedupExecutionActionAudit
unknown_audit = record {
  id = 5;
  execution_id = 1;
  plan_action_id = 1;
  document_id = "b";
  source_path = "/d/b.txt";
  target_path = "/q/b.txt";
  expected_content_hash = some "h";
  expected_file_size = some 3;
  result = unknown;
  observed_content_hash = none;
  observed_file_size = none;
  filesystem_mutation_occurred = none;
  ended_at = some 4;
}

abbrev after_crash : Sys (List Entry)
after_crash = record state { db = record database { audits = unknown_audit ∷ [] } }

reconcile_action-Reconciled_example :
    Reconciled disk 9 5 failed_action "a person" "looked" after_crash
      (reconcile_action disk 9 5 failed_action "a person" "looked" after_crash)
reconcile_action-Reconciled_example =
    reconcile_action-Reconciled disk 9 5 failed_action "a person" "looked" after_crash

abbrev folder : String → FilePath
folder s = path_of (codes s)

abbrev with_folders : Sys (List Entry)
with_folders = record state { world = map (λ s. directory (folder s)) ("/d" ∷ "/q" ∷ []) }

made :
    (make_executor disk (folder "/d") (folder "/q") (folder "/backup" ∷ []) with_folders).0
    ≡ ok executor
unfolding actions make_executor resolve_all check_protected is_within is_relative_to path_of
made = refl

make_executor-Accepted_example :
    Accepted disk (folder "/d") (folder "/q") (folder "/backup" ∷ []) executor
make_executor-Accepted_example =
    make_executor-Accepted disk (folder "/d") (folder "/q") (folder "/backup" ∷ []) with_folders
      executor made
