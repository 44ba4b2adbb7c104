-- ===== src/Reporting/Examples.antt =====
-- The completion of a batch with a text that is ingested and an archive that was extracted.
use ai_brain.Prelude.{◌≡◌, refl, none, some, [], ◌∷◌, find}
use ai_brain.Batch.Model.{IngestionBatch, running, batch_keyed}
use ai_brain.Batch.Control.{Clocks}
use ai_brain.Selection.Policy.{loose_file, archive}
use ai_brain.Claims.Rows.{
  ingested, SourceInstance, IngestionAttempt, pipeline_advance, embedding_stage, extracting_stage,
  succeeded, state_eq,
}
use ai_brain.Claims.Groups.{Store}
use ai_brain.Claims.Samples.{batch, group, file}
use ai_brain.Reporting.{
  is_attempted, is_loose_in, check_and_complete, generate_report, report_of, no_decision,
  control_of, is_archive_successful, is_archive_given_up,
}
use ai_brain.Reporting.Completion.{Ready, Decided, check_and_complete-Decided}

abbrev two : IngestionBatch
two = record (batch running) {
  terms = record ((batch running).terms) { source_instances_selected = 2 };
}

abbrev text : SourceInstance
text = record (file 2 "/t/b.txt") {
  content_identity_group_id = some 7;
  source_category = some loose_file;
}

abbrev container : SourceInstance
container = record (file 1 "/t/A.ZIP") { source_category = some archive }

abbrev embedding : IngestionAttempt
embedding = record {
  id = 1;
  attempt_kind = pipeline_advance;
  content_identity_group_id = some 7;
  source_instance_id = none;
  attempted_stage = embedding_stage;
  outcome = succeeded;
  failure_code = none;
  failure_detail = none;
  retryable = none;
  worker_id = "w1";
  attempted_at = 120;
}

abbrev extraction : IngestionAttempt
extraction = record embedding {
  id = 2;
  content_identity_group_id = none;
  source_instance_id = some 1;
  attempted_stage = extracting_stage;
}

abbrev tables : Store
tables = record {
  groups = record group { pipeline_state = ingested } ∷ [];
  instances = container ∷ text ∷ [];
  attempts = embedding ∷ extraction ∷ [];
  batches = two ∷ [];
}

abbrev clocks : Clocks
clocks = record { wall = 300; monotonic = 30 }

two_found : find 4 tables.batches ≡ some two
unfolding find
two_found = refl

tables_Ready : Ready tables two
unfolding is_attempted is_loose_in find
tables_Ready = record { selected = refl; was_attempted = ((λ h. refl), ((λ h. refl), tt)) }

check_and_complete-Decided_example : Decided clocks 4 tables (λ id. none) two
check_and_complete-Decided_example =
    check_and_complete-Decided clocks 4 tables (λ id. none) two two_found refl tables_Ready

-- While the text's group is only chunked, nothing is decided.
waiting_test :
    check_and_complete clocks 4 (record tables { groups = group ∷ [] }) (λ id. none)
    ≡ (control_of tables (λ id. none), no_decision)
unfolding check_and_complete generate_report report_of is_attempted is_loose_in
    is_archive_successful is_archive_given_up state_eq find
waiting_test = refl
