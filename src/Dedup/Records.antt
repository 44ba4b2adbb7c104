-- ===== src/Dedup/Records.antt =====
-- The rows of the deduplication tables: backend/app/models/dedup_review.py,
-- dedup_execution_plan.py, dedup_authorization.py and dedup_execution.py, and what they use of
-- backend/app/models/document.py. Evidence, free-text reasons and `updated_at` are left out.
use ai_brain.Prelude.{ℕ, String, Bool, Option, List, Keyed}

pub record Document : Type 0 where
  pub id : String
  pub source : String
  pub source_type : String

pub data DuplicateMatchType : Type 0 where
  exact near : DuplicateMatchType

pub data DuplicateReviewStatus : Type 0 where
  pending approved rejected : DuplicateReviewStatus

pub record DuplicateReview : Type 0 where
  pub id : ℕ
  pub match_type : DuplicateMatchType
  pub status : DuplicateReviewStatus
  pub reviewer_decision : Option String
  pub reviewed_at : Option ℕ
  pub human_selected_canonical_document_id : Option String

pub record DuplicateReviewMember : Type 0 where
  pub review_id : ℕ
  pub document_id : String

pub record DedupExecutionPlan : Type 0 where
  pub id : ℕ
  pub review_id : ℕ
  pub canonical_document_id : String
  pub canonical_source_path : String
  pub canonical_observed_exists : Bool
  pub canonical_observed_content_hash : Option String
  pub canonical_observed_file_size : Option ℕ

-- Every action is a DELETE, the only action type.
pub record DedupExecutionPlanAction : Type 0 where
  pub id : ℕ
  pub plan_id : ℕ
  pub document_id : String
  pub source_path : String
  pub target_document_id : String
  pub target_path : String
  pub observed_exists : Bool
  pub observed_content_hash : Option String
  pub observed_file_size : Option ℕ

pub data DedupPlanAuthorizationStatus : Type 0 where
  authorized revoked : DedupPlanAuthorizationStatus

pub record DedupPlanAuthorization : Type 0 where
  pub id : ℕ
  pub plan_id : ℕ
  pub status : DedupPlanAuthorizationStatus
  pub authorized_by : Option String
  pub authorized_at : ℕ
  pub revoked_at : Option ℕ
  pub revocation_reason : Option String

pub data DedupExecutionStatus : Type 0 where
  running completed failed partially_completed needs_review : DedupExecutionStatus

pub data DedupExecutionActionResult : Type 0 where
  success precondition_failed failed_action not_attempted unknown : DedupExecutionActionResult

-- A failure reason is kept as the audit row that it quotes.
pub record DedupExecution : Type 0 where
  pub id : ℕ
  pub authorization_id : ℕ
  pub plan_id : ℕ
  pub status : DedupExecutionStatus
  pub executor_identity : Option String
  pub started_at : ℕ
  pub ended_at : Option ℕ
  pub failure_reason : Option ℕ
  pub claimed_at : Option ℕ
  pub recovery_claimed_at : Option ℕ

pub record DedupExecutionActionAudit : Type 0 where
  pub id : ℕ
  pub execution_id : ℕ
  pub plan_action_id : ℕ
  pub document_id : String
  pub source_path : String
  pub target_path : String
  pub expected_content_hash : Option String
  pub expected_file_size : Option ℕ
  pub result : DedupExecutionActionResult
  pub observed_content_hash : Option String
  pub observed_file_size : Option ℕ
  pub filesystem_mutation_occurred : Option Bool
  pub ended_at : Option ℕ

pub record DedupExecutionActionReconciliation : Type 0 where
  pub id : ℕ
  pub audit_id : ℕ
  pub verified_result : DedupExecutionActionResult
  pub verified_by : String
  pub verification_method : String
  pub observed_content_hash : Option String
  pub observed_file_size : Option ℕ
  pub verified_at : ℕ

pub record Database : Type 0 where
  pub documents : List Document
  pub reviews : List DuplicateReview
  pub members : List DuplicateReviewMember
  pub plans : List DedupExecutionPlan
  pub plan_actions : List DedupExecutionPlanAction
  pub authorizations : List DedupPlanAuthorization
  pub executions : List DedupExecution
  pub audits : List DedupExecutionActionAudit
  pub reconciliations : List DedupExecutionActionReconciliation

instance abbrev pub review_keyed : Keyed DuplicateReview
review_keyed = record { key = λ r. r.id }

instance abbrev pub plan_keyed : Keyed DedupExecutionPlan
plan_keyed = record { key = λ r. r.id }

instance abbrev pub plan_action_keyed : Keyed DedupExecutionPlanAction
plan_action_keyed = record { key = λ r. r.id }

instance abbrev pub authorization_keyed : Keyed DedupPlanAuthorization
authorization_keyed = record { key = λ r. r.id }

instance abbrev pub execution_keyed : Keyed DedupExecution
execution_keyed = record { key = λ r. r.id }

instance abbrev pub audit_keyed : Keyed DedupExecutionActionAudit
audit_keyed = record { key = λ r. r.id }

instance abbrev pub reconciliation_keyed : Keyed DedupExecutionActionReconciliation
reconciliation_keyed = record { key = λ r. r.id }
