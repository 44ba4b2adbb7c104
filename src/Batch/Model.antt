-- ===== src/Batch/Model.antt =====
-- The rows of `ingestion_batches` (backend/app/models/ingestion_batch.py).
use ai_brain.Prelude.{ℕ, String, ◌≡◌, Bool, Option, none, some, Keyed}

pub data BatchStatus : Type 0 where
  planned running paused completed aborted : BatchStatus

pub data BatchStopReason : Type 0 where
  source_work_exhausted extracted_bytes_envelope_exhausted : BatchStopReason
  embeddings_envelope_exhausted runtime_budget_exceeded : BatchStopReason
  workspace_soft_stop postgres_soft_stop manual_pause : BatchStopReason
  workspace_hard_stop postgres_hard_stop ollama_persistently_unreachable : BatchStopReason
  safety_invariant_violation_detected manual_abort : BatchStopReason

-- A text that the code formats is kept as the values it formats, one constructor for each format;
-- `note` is a text that a caller passes.
pub data Detail : Type 0 where
  note : String → Detail
  workspace_free workspace_below_hard workspace_below_soft : ℕ → Detail
  postgres_free postgres_below_hard postgres_below_soft : ℕ → Detail
  ollama_reachable : Detail
  ollama_unreachable ollama_persistent : ℕ → Detail

-- What is written once, when the batch is created.
pub record BatchTerms : Type 0 where
  pub classification_run_id : ℕ
  pub review_required : Bool
  pub max_source_instances : ℕ
  pub max_source_bytes : ℕ
  pub max_extracted_bytes : Option ℕ
  pub max_embeddings : ℕ
  pub max_runtime_seconds : ℕ
  pub eligible_source_count : ℕ
  pub policy_filtered_count : ℕ
  pub selectable_count : ℕ
  pub source_instances_selected : ℕ
  pub source_bytes_selected : ℕ
  pub selection_fingerprint : String
  pub selection_policy_version : String
  pub ordering_version : String

-- The consumed runtime, a float of seconds in the source, is counted in clock ticks.
pub record IngestionBatch : Type 0 where
  pub id : ℕ
  pub terms : BatchTerms
  pub open terms use *
  pub status : BatchStatus
  pub stop_reason : Option BatchStopReason
  pub stop_reason_detail : Option Detail
  pub extracted_bytes_consumed : ℕ
  pub embeddings_reserved : ℕ
  pub monotonic_runtime_seconds_consumed : ℕ
  pub created_at : ℕ
  pub started_at : Option ℕ
  pub completed_at : Option ℕ

instance abbrev pub batch_keyed : Keyed IngestionBatch
batch_keyed = record { key = λ b. b.id }

-- `ck_ingestion_batches_stop_reason_matches_status`: a reason stands exactly on a stopped batch.
abbrev pub ReasonMatches : BatchStatus → Option BatchStopReason → Type 0
ReasonMatches BatchStatus.planned r = r ≡ none
ReasonMatches BatchStatus.running r = r ≡ none
ReasonMatches _ none = ⊥
ReasonMatches _ (some r) = Unit
