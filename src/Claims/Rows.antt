-- ===== src/Claims/Rows.antt =====
-- The rows that workers claim: backend/app/models/content_identity_group.py, source_instance.py and
-- ingestion_attempt.py. Times are counted in clock ticks.
use ai_brain.Prelude.{ℕ, String, Bool, true, false, Option, Keyed, ◌==◌}
use ai_brain.Paths.{Text}
use ai_brain.Selection.Policy.{SourceCategory, WorkloadCategory, RiskTierEstimated}

pub data ContentIdentityKind : Type 0 where
  source_bytes extracted_content normalized_content : ContentIdentityKind

pub data ContentIdentityAlgorithm : Type 0 where
  sha256 : ContentIdentityAlgorithm

pub data ContentPipelineState : Type 0 where
  discovered classified extracting extracted normalized chunked : ContentPipelineState
  embedded ingested needs_review unsupported excluded failed : ContentPipelineState

pub record ContentIdentityGroup : Type 0 where
  pub id : ℕ
  pub identity_kind : ContentIdentityKind
  pub identity_algorithm : ContentIdentityAlgorithm
  pub identity_hash : String
  pub pipeline_state : ContentPipelineState
  pub claimed_by : Option String
  pub claimed_at : Option ℕ
  pub claim_generation : ℕ
  pub reserved_embeddings : Option ℕ
  pub reserved_embeddings_batch_id : Option ℕ
  pub created_at : ℕ

pub data CanonicalStatus : Type 0 where
  unresolved canonical non_canonical : CanonicalStatus

-- The evidence that batch creation copies; the other writer's is a document that nothing here reads.
pub record EvidenceSnapshot : Type 0 where
  pub d0_declared_size_bytes : Option ℕ
  pub selection_policy_version : Option String
  pub d1_duplicate_group_id : Option Text

pub record SourceInstance : Type 0 where
  pub id : ℕ
  pub classification_run_id : ℕ
  pub content_identity_group_id : Option ℕ
  pub root_t7_path : Text
  pub member_path : Option Text
  pub evidence_snapshot : EvidenceSnapshot
  pub source_category : Option SourceCategory
  pub workload_category : Option WorkloadCategory
  pub risk_tier_estimated : Option RiskTierEstimated
  pub canonical_status : CanonicalStatus
  pub canonical_status_reason : Option String
  pub canonical_status_decided_by : Option String
  pub canonical_status_decided_at : Option ℕ
  pub claimed_by : Option String
  pub claimed_at : Option ℕ
  pub claim_generation : ℕ
  pub created_at : ℕ

pub data IngestionAttemptKind : Type 0 where
  pipeline_advance identity_resolution : IngestionAttemptKind

pub data IngestionAttemptStage : Type 0 where
  identity_resolution_stage extracting_stage normalizing_stage : IngestionAttemptStage
  chunking_stage embedding_stage : IngestionAttemptStage

pub data IngestionAttemptOutcome : Type 0 where
  succeeded attempt_failed : IngestionAttemptOutcome

pub data IngestionFailureCode : Type 0 where
  corrupt_input malformed_archive oversized_or_expansion_limit : IngestionFailureCode
  extraction_error_other normalization_error chunking_error : IngestionFailureCode
  embedding_unavailable t7_unavailable insufficient_disk_space : IngestionFailureCode
  permission_denied read_error_other : IngestionFailureCode

pub record IngestionAttempt : Type 0 where
  pub id : ℕ
  pub attempt_kind : IngestionAttemptKind
  pub content_identity_group_id : Option ℕ
  pub source_instance_id : Option ℕ
  pub attempted_stage : IngestionAttemptStage
  pub outcome : IngestionAttemptOutcome
  pub failure_code : Option IngestionFailureCode
  pub failure_detail : Option String
  pub retryable : Option Bool
  pub worker_id : String
  pub attempted_at : ℕ

instance abbrev pub group_keyed : Keyed ContentIdentityGroup
group_keyed = record { key = λ g. g.id }

instance abbrev pub instance_keyed : Keyed SourceInstance
instance_keyed = record { key = λ i. i.id }

instance abbrev pub attempt_keyed : Keyed IngestionAttempt
attempt_keyed = record { key = λ a. a.id }

abbrev pub is_succeeded : IngestionAttemptOutcome → Bool
is_succeeded succeeded = true
is_succeeded attempt_failed = false

state_code : ContentPipelineState → ℕ
state_code discovered = 0
state_code classified = 1
state_code extracting = 2
state_code extracted = 3
state_code normalized = 4
state_code chunked = 5
state_code embedded = 6
state_code ingested = 7
state_code needs_review = 8
state_code unsupported = 9
state_code excluded = 10
state_code failed = 11

unfoldable pub state_eq : ContentPipelineState → ContentPipelineState → Bool
unfolding state_code
state_eq a b = state_code a == state_code b
