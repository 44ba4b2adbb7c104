-- ===== src/Identity/Attempts.antt =====
-- The record of attempts: backend/app/classification/ingestion_attempt_service.py; and the explicit
-- decision on a file: canonical_decision_service.py. A refused call raises before it writes.
use ai_brain.Prelude.{
  ℕ, String, Bool, true, false, not, ◌&&◌, ◌||◌, Option, none, some, [], ◌∷◌, ◌++◌, is_none,
  is_some, if◌then◌else◌, next_id, find, modify, text_eq,
}
use ai_brain.Claims.Rows.{
  IngestionAttempt, IngestionAttemptKind, pipeline_advance, identity_resolution,
  IngestionAttemptStage, identity_resolution_stage, IngestionAttemptOutcome, is_succeeded,
  IngestionFailureCode, attempt_keyed, SourceInstance, CanonicalStatus, unresolved, instance_keyed,
}
use ai_brain.Claims.Groups.{Store}

-- What a call returns or raises.
pub data Answer (A : Type 0) : Type 0 where
  returned : A → Answer A
  value_error os_error : Answer A

-- The arguments of a record beside what was attempted, and the reading of the clock.
pub record Report : Type 0 where
  pub worker_id : String
  pub outcome : IngestionAttemptOutcome
  pub failure_code : Option IngestionFailureCode
  pub failure_detail : Option String
  pub retryable : Option Bool
  pub attempted_at : ℕ

-- `_validate_failure_fields` returns.
abbrev pub has_failure_fields :
    IngestionAttemptOutcome → Option IngestionFailureCode → Option String → Option Bool → Bool
has_failure_fields outcome code detail retryable =
    is_succeeded outcome || not (is_none code || (is_none detail || is_none retryable))

abbrev pub is_identity_stage : IngestionAttemptStage → Bool
is_identity_stage identity_resolution_stage = true
is_identity_stage _ = false

abbrev add_attempt :
    IngestionAttemptKind
    → Option ℕ
    → Option ℕ
    → IngestionAttemptStage
    → Report
    → Store
    → Answer IngestionAttempt × Store
add_attempt kind group instance_id stage r s =
    let attempt : IngestionAttempt = record {
      id = next_id s.attempts;
      attempt_kind = kind;
      content_identity_group_id = group;
      source_instance_id = instance_id;
      attempted_stage = stage;
      outcome = r.outcome;
      failure_code = r.failure_code;
      failure_detail = r.failure_detail;
      retryable = r.retryable;
      worker_id = r.worker_id;
      attempted_at = r.attempted_at;
    } in
    (returned attempt, record s { attempts = s.attempts ++ attempt ∷ [] })

unfoldable pub record_pipeline_attempt :
    ℕ → IngestionAttemptStage → Report → Store → Answer IngestionAttempt × Store
record_pipeline_attempt group_id stage r s =
    if is_identity_stage stage
    then (value_error, s)
    else if has_failure_fields r.outcome r.failure_code r.failure_detail r.retryable
    then add_attempt pipeline_advance (some group_id) none stage r s
    else (value_error, s)

unfoldable pub record_identity_resolution_attempt :
    ℕ → Report → Store → Answer IngestionAttempt × Store
record_identity_resolution_attempt instance_id r s =
    if has_failure_fields r.outcome r.failure_code r.failure_detail r.retryable
    then add_attempt identity_resolution none (some instance_id) identity_resolution_stage r s
    else (value_error, s)

-- `ck_ingestion_attempts_parent_matches_kind`
abbrev pub parent_matches_kind : IngestionAttempt → Bool
parent_matches_kind a = elim a.attempt_kind [
  | pipeline_advance ↦
      is_some a.content_identity_group_id
      && (is_none a.source_instance_id && not (is_identity_stage a.attempted_stage))
  | identity_resolution ↦
      is_some a.source_instance_id
      && (is_none a.content_identity_group_id && is_identity_stage a.attempted_stage)
]

-- `ck_ingestion_attempts_failure_requires_detail`
abbrev pub failure_has_detail : IngestionAttempt → Bool
failure_has_detail a = has_failure_fields a.outcome a.failure_code a.failure_detail a.retryable

abbrev pub is_unresolved : CanonicalStatus → Bool
is_unresolved unresolved = true
is_unresolved _ = false

-- The decision on an instance that the caller has read; an empty text is no reason.
unfoldable pub decide :
    ℕ → CanonicalStatus → String → String → ℕ → Store → Answer (Option SourceInstance) × Store
decide id status reason decided_by now s =
    if is_unresolved status
    then (value_error, s)
    else if text_eq reason "" || text_eq decided_by ""
    then (value_error, s)
    else let instances =
        modify id
          (λ i. record i {
            canonical_status = status;
            canonical_status_reason = some reason;
            canonical_status_decided_by = some decided_by;
            canonical_status_decided_at = some now;
          })
          s.instances in
      (returned (find id instances), record s { instances = instances })
