-- ===== src/Dedup/Examples.antt =====
-- The pipeline on a small disk: two equal files, an approved review, and its execution.
mod Disk
mod Runs
mod Starts
mod Checks
use ai_brain.Prelude.{ℕ, String, true, Option, none, some, List, [], ◌∷◌}
use ai_brain.Paths.{path_of, codes}
use ai_brain.Dedup.Records.{
  Database, Document, DedupExecution, DedupExecutionPlanAction, exact, approved, authorized,
  running,
}
use ai_brain.Dedup.Exec.{Sys}
use ai_brain.Dedup.Executor.{DedupFilesystemExecutor}
use ai_brain.Dedup.Examples.Disk.{Entry}

abbrev file : String → ℕ → Entry
file p inode = record {
  path = path_of (codes p);
  st = record { st_dev = 7; st_ino = inode; st_size = 5; st_nlink = 1; is_regular = true };
  digest = "h";
}

abbrev two_files : List Entry
two_files = file "/d/a.txt" 1 ∷ file "/d/b.txt" 2 ∷ []

abbrev document : String → String → Document
document id path = record { id = id; source = path; source_type = "txt" }

abbrev remove_b : DedupExecutionPlanAction
remove_b = record {
  id = 1;
  plan_id = 1;
  document_id = "b";
  source_path = "/d/b.txt";
  target_document_id = "a";
  target_path = "/d/a.txt";
  observed_exists = true;
  observed_content_hash = some "h";
  observed_file_size = some 5;
}

abbrev execution : DedupExecution
execution = record {
  id = 1;
  authorization_id = 1;
  plan_id = 1;
  status = running;
  executor_identity = none;
  started_at = 3;
  ended_at = none;
  failure_reason = none;
  claimed_at = none;
  recovery_claimed_at = none;
}

abbrev database : Database
database = record {
  documents = document "a" "/d/a.txt" ∷ document "b" "/d/b.txt" ∷ [];
  reviews =
      record {
        id = 1;
        match_type = exact;
        status = approved;
        reviewer_decision = none;
        reviewed_at = some 1;
        human_selected_canonical_document_id = some "a";
      }
      ∷ [];
  members =
      record { review_id = 1; document_id = "a" }
      ∷ record { review_id = 1; document_id = "b" }
      ∷ [];
  plans =
      record {
        id = 1;
        review_id = 1;
        canonical_document_id = "a";
        canonical_source_path = "/d/a.txt";
        canonical_observed_exists = true;
        canonical_observed_content_hash = some "h";
        canonical_observed_file_size = some 5;
      }
      ∷ [];
  plan_actions = remove_b ∷ [];
  authorizations =
      record {
        id = 1;
        plan_id = 1;
        status = authorized;
        authorized_by = none;
        authorized_at = 2;
        revoked_at = none;
        revocation_reason = none;
      }
      ∷ [];
  executions = execution ∷ [];
  audits = [];
  reconciliations = [];
}

abbrev state : Sys (List Entry)
state = record { db = database; world = two_files; renames = 0 }

abbrev executor : DedupFilesystemExecutor
executor = record {
  allowed_root = path_of (codes "/d");
  quarantine_root = path_of (codes "/q");
  quarantine_device = 7;
}
