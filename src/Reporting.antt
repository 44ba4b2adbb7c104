-- ===== src/Reporting.antt =====
-- The counts of a batch, and its completion once its files are done:
-- backend/app/classification/batch_report_service.py and batch_completion_reconciliation_service.py.
-- Of the report, the two distributions of risk tiers and the two fields that are never available are
-- left out.
mod Counting
pub mod Completion
mod Examples
use ai_brain.Prelude.{
  ℕ, ◌+◌, ◌-◌, Bool, true, false, not, ◌&&◌, ◌||◌, Option, none, some, List, [], ◌∷◌, is_none, any,
  filter, length, ltb, ◌==◌, opt_eq, find, if◌then◌else◌,
}
use ai_brain.Batch.Model.{
  BatchStatus, running, BatchStopReason, source_work_exhausted, Detail, IngestionBatch, batch_keyed,
}
use ai_brain.Batch.Control.{Control, Clocks, Response, status_eq, complete}
use ai_brain.Selection.Policy.{SourceCategory, archive}
use ai_brain.Claims.Rows.{
  ContentPipelineState, ingested, needs_review, unsupported, excluded, failed, state_eq,
  SourceInstance, IngestionAttempt, IngestionAttemptOutcome, succeeded, attempt_failed, group_keyed,
}
use ai_brain.Claims.Groups.{Store}

-- `_LOOSE_TERMINAL_PIPELINE_STATES`
abbrev pub loose_terminal_pipeline_states : List ContentPipelineState
loose_terminal_pipeline_states = ingested ∷ excluded ∷ unsupported ∷ failed ∷ needs_review ∷ []

pub record BatchReport : Type 0 where
  pub batch_id : ℕ
  pub status : BatchStatus
  pub stop_reason : Option BatchStopReason
  pub stop_reason_detail : Option Detail
  pub eligible_source_count : ℕ
  pub policy_filtered_count : ℕ
  pub selectable_count : ℕ
  pub source_instances_selected : ℕ
  pub source_bytes_selected : ℕ
  pub attempted_source_count : ℕ
  pub unattempted_selected_count : ℕ
  pub terminal_source_count : ℕ
  pub successful_ingestion_count : ℕ
  pub extracted_bytes_consumed : ℕ
  pub embeddings_reserved : ℕ
  pub monotonic_runtime_seconds_consumed : ℕ

-- A report, or an error.
pub data Reported : Type 0 where
  report : BatchReport → Reported
  batch_report_invariant_violation : Reported
  batch_not_found : ℕ → Reported

abbrev pub is_archive : Option SourceCategory → Bool
is_archive (some archive) = true
is_archive _ = false

-- `source_category != ARCHIVE`, which a missing category fails.
abbrev pub is_no_archive : Option SourceCategory → Bool
is_no_archive none = false
is_no_archive (some archive) = false
is_no_archive (some _) = true

abbrev pub has_succeeded : IngestionAttempt → Bool
has_succeeded a = elim a.outcome [ succeeded ↦ true | attempt_failed ↦ false ]

-- `outcome = FAILED AND retryable IS FALSE`
abbrev pub is_durable_failure : IngestionAttempt → Bool
is_durable_failure a = elim a.retryable [ none ↦ false | some r ↦ not r && not (has_succeeded a) ]

abbrev pub count {ℓ} : {A : Type ℓ} → (A → Bool) → List A → ℕ
count p xs = length (filter p xs)

-- The selected files of a run are those without a member path.
abbrev pub is_source : ℕ → SourceInstance → Bool
is_source run_id i = (i.classification_run_id == run_id) && is_none i.member_path

-- The two `EXISTS` of an instance: attempts at itself, and attempts at its group.
abbrev pub direct : (IngestionAttempt → Bool) → List IngestionAttempt → SourceInstance → Bool
direct p attempts i = any (λ a. opt_eq a.source_instance_id (some i.id) && p a) attempts

abbrev pub is_group_attempted : List IngestionAttempt → Option ℕ → Bool
is_group_attempted attempts none = false
is_group_attempted attempts (some g) =
    any (λ a. opt_eq a.content_identity_group_id (some g)) attempts

unfoldable pub is_attempted : Store → ℕ → SourceInstance → Bool
is_attempted s run_id i =
    is_source run_id i
    && (direct (λ a. true) s.attempts i
        || is_group_attempted s.attempts i.content_identity_group_id)

-- The join with the group of an instance, on the group's state.
abbrev pub is_group_in : List ContentPipelineState → Store → Option ℕ → Bool
is_group_in states s none = false
is_group_in states s (some g) = elim (find g s.groups) [
  | none ↦ false
  | some x ↦ any (state_eq x.pipeline_state) states
]

unfoldable pub is_loose_in : List ContentPipelineState → Store → ℕ → SourceInstance → Bool
is_loose_in states s run_id i =
    is_source run_id i
    && (is_no_archive i.source_category && is_group_in states s i.content_identity_group_id)

unfoldable pub is_archive_successful : Store → ℕ → SourceInstance → Bool
is_archive_successful s run_id i =
    is_source run_id i && (is_archive i.source_category && direct has_succeeded s.attempts i)

unfoldable pub is_archive_given_up : Store → ℕ → SourceInstance → Bool
is_archive_given_up s run_id i =
    is_source run_id i
    && (is_archive i.source_category
        && (not (direct has_succeeded s.attempts i) && direct is_durable_failure s.attempts i))

abbrev pub attempted_source_count : Store → ℕ → ℕ
attempted_source_count s run_id = count (is_attempted s run_id) s.instances

-- Terminal ones, and successful ones.
abbrev pub loose_file_terminal_and_successful_counts : Store → ℕ → ℕ × ℕ
loose_file_terminal_and_successful_counts s run_id = (
  count (is_loose_in loose_terminal_pipeline_states s run_id) s.instances,
  count (is_loose_in (ingested ∷ []) s run_id) s.instances,
)

abbrev pub archive_container_terminal_and_successful_counts : Store → ℕ → ℕ × ℕ
archive_container_terminal_and_successful_counts s run_id =
    let successful = count (is_archive_successful s run_id) s.instances in
    (successful + count (is_archive_given_up s run_id) s.instances, successful)

-- `_assert_invariants`, whether it passes.
abbrev pub assert_invariants : ℕ → ℕ → ℕ → ℕ → Bool
assert_invariants selected attempted terminal successful =
    not (ltb selected attempted) && (not (ltb attempted terminal) && not (ltb terminal successful))

-- The difference is not below zero where it is read, since the invariants are asserted before.
abbrev pub batch_report : Store → IngestionBatch → BatchReport
batch_report s b =
    let attempted = attempted_source_count s b.classification_run_id in
    let loose = loose_file_terminal_and_successful_counts s b.classification_run_id in
    let archives = archive_container_terminal_and_successful_counts s b.classification_run_id in
    record {
      batch_id = b.id;
      status = b.status;
      stop_reason = b.stop_reason;
      stop_reason_detail = b.stop_reason_detail;
      eligible_source_count = b.eligible_source_count;
      policy_filtered_count = b.policy_filtered_count;
      selectable_count = b.selectable_count;
      source_instances_selected = b.source_instances_selected;
      source_bytes_selected = b.source_bytes_selected;
      attempted_source_count = attempted;
      unattempted_selected_count = b.source_instances_selected - attempted;
      terminal_source_count = loose.0 + archives.0;
      successful_ingestion_count = loose.1 + archives.1;
      extracted_bytes_consumed = b.extracted_bytes_consumed;
      embeddings_reserved = b.embeddings_reserved;
      monotonic_runtime_seconds_consumed = b.monotonic_runtime_seconds_consumed;
    }

unfoldable pub report_of : Store → IngestionBatch → Reported
report_of s b =
    let r = batch_report s b in
    if assert_invariants r.source_instances_selected r.attempted_source_count
      r.terminal_source_count r.successful_ingestion_count
    then report r
    else batch_report_invariant_violation

unfoldable pub generate_report : ℕ → Store → Reported
generate_report id s = elim (find id s.batches) [
  | none ↦ batch_not_found id
  | some b ↦ report_of s b
]

-- What a check answers: nothing to decide, the answer of the control service, or an error.
pub data Decision : Type 0 where
  no_decision : Decision
  decided : Response → Decision
  raised : Reported → Decision

abbrev pub is_exhausted : BatchReport → Bool
is_exhausted r =
    (r.unattempted_selected_count == 0) && (r.terminal_source_count == r.attempted_source_count)

abbrev control_of : Store → (ℕ → Option ℕ) → Control
control_of s sessions = record { batches = s.batches; session_starts = sessions }

abbrev pub complete_exhausted : Clocks → ℕ → Store → (ℕ → Option ℕ) → Reported → Control × Decision
complete_exhausted t id s sessions (report r) =
    if is_exhausted r
    then (
      (complete t id source_work_exhausted none (control_of s sessions)).0,
      decided (complete t id source_work_exhausted none (control_of s sessions)).1,
    )
    else (control_of s sessions, no_decision)
complete_exhausted t id s sessions e = (control_of s sessions, raised e)

-- `sessions` is what the service's own control service remembers.
unfoldable pub check_and_complete : Clocks → ℕ → Store → (ℕ → Option ℕ) → Control × Decision
check_and_complete t id s sessions = elim (find id s.batches) [
  | none ↦ (control_of s sessions, raised (batch_not_found id))
  | some b ↦
      if status_eq b.status running
      then complete_exhausted t id s sessions (generate_report id s)
      else (control_of s sessions, no_decision)
]
