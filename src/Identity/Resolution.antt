-- ===== src/Identity/Resolution.antt =====
-- One file taken from the queue, read, hashed and identified:
-- backend/app/classification/identity_resolution_service.py. Reading the file, the hash and writing
-- to the workspace are arguments, as is what other sessions commit in the two gaps.
use ai_brain.Prelude.{ℕ, String, Bool, true, Option, none, some, if◌then◌else◌, find}
use ai_brain.Paths.{Text, path_of}
use ai_brain.Claims.Rows.{
  ContentIdentityGroup, SourceInstance, IngestionFailureCode, t7_unavailable, permission_denied,
  read_error_other, succeeded, attempt_failed, extracted_content, sha256, instance_keyed,
}
use ai_brain.Claims.Groups.{Store}
use ai_brain.Claims.Instances.{
  InstanceClaim, claim_source_instance_for_identity_resolution, release_source_instance_claim,
}
use ai_brain.Identity.Attempts.{
  Answer, returned, value_error, os_error, Report, record_identity_resolution_attempt,
}
use ai_brain.Identity.Contents.{
  IngestionEligibility, eligible, classify_eligibility, initial_pipeline_state_for_eligibility,
  get_or_create_group, assign_content_identity,
}

-- What reading a file gives: its content, or the error and its text.
pub data Reading : Type 0 where
  content : String → Reading
  file_not_found permission_error : String → Reading
  other_os_error : String → Reading

pub record Surroundings : Type 0 where
  pub read_bytes : Text → Reading
  pub sha256_hex : String → String
  pub write_workspace_content : ℕ → String → Bool
  pub now : ℕ
  pub before_claiming : Store → Store
  pub before_inserting : Store → Store

abbrev failed_report : Surroundings → String → IngestionFailureCode → String → Report
failed_report w worker code detail = record {
  worker_id = worker;
  outcome = attempt_failed;
  failure_code = some code;
  failure_detail = some detail;
  retryable = some true;
  attempted_at = w.now;
}

abbrev succeeded_report : Surroundings → String → Report
succeeded_report w worker = record {
  worker_id = worker;
  outcome = succeeded;
  failure_code = none;
  failure_detail = none;
  retryable = none;
  attempted_at = w.now;
}

-- The workspace is written for an eligible file only; `false` stands for the error it may raise.
abbrev pub is_kept : Surroundings → IngestionEligibility → ℕ → String → Bool
is_kept w eligible group_id bytes = w.write_workspace_content group_id bytes
is_kept w _ group_id bytes = true

-- The attempt that succeeded is recorded after the content is assigned.
unfoldable pub record_success :
    Surroundings → SourceInstance → String → Answer Unit × Store → Answer Unit × Store
record_success w i worker (returned x, s) =
    (returned tt, (record_identity_resolution_attempt i.id (succeeded_report w worker) s).1)
record_success w i worker (value_error, s) = (value_error, s)
record_success w i worker (os_error, s) = (os_error, s)

unfoldable pub keep_and_assign :
    Surroundings
    → SourceInstance
    → String
    → String
    → ContentIdentityGroup × Store
    → Answer Unit × Store
keep_and_assign w i worker bytes (g, s) =
    if is_kept w (classify_eligibility (path_of i.root_t7_path)) g.id bytes
    then record_success w i worker (assign_content_identity i.id g.id s)
    else (os_error, s)

unfoldable pub identify :
    Surroundings → SourceInstance → String → String → Store → Answer Unit × Store
identify w i worker bytes s = keep_and_assign w i worker bytes (
    get_or_create_group
      (record { kind = extracted_content; algorithm = sha256; hash = w.sha256_hex bytes })
      (initial_pipeline_state_for_eligibility (classify_eligibility (path_of i.root_t7_path))) w.now
      w.before_inserting s)

unfoldable pub resolve_claimed_instance :
    Surroundings → SourceInstance → String → Store → Answer Unit × Store
resolve_claimed_instance w i worker s = elim (w.read_bytes i.root_t7_path) [
  | file_not_found detail ↦ (
    returned tt,
    (record_identity_resolution_attempt i.id (failed_report w worker t7_unavailable detail) s).1,
  )
  | permission_error detail ↦ (
    returned tt,
    (record_identity_resolution_attempt i.id (failed_report w worker permission_denied detail) s).1,
  )
  | other_os_error detail ↦ (
    returned tt,
    (record_identity_resolution_attempt i.id (failed_report w worker read_error_other detail) s).1,
  )
  | content bytes ↦ identify w i worker bytes s
]

-- The claim is released on every way out.
unfoldable pub release_after :
    SourceInstance → Answer Unit × Store → Answer (Option SourceInstance) × Store
release_after i (r, s) =
    let s' = (release_source_instance_claim i.id i.claim_generation s).1 in
    (
      elim r [
        | returned x ↦ returned (find i.id s'.instances)
        | value_error ↦ value_error
        | os_error ↦ os_error
      ],
      s',
    )

unfoldable pub resolve_taken :
    Surroundings → String → Option SourceInstance × Store → Answer (Option SourceInstance) × Store
resolve_taken w worker (none, s) = (returned none, s)
resolve_taken w worker (some i, s) = release_after i (resolve_claimed_instance w i worker s)

unfoldable pub resolve_next :
    Surroundings → (ℕ → Bool) → InstanceClaim → Store → Answer (Option SourceInstance) × Store
resolve_next w locked c s =
    resolve_taken w c.worker_id
      (claim_source_instance_for_identity_resolution locked w.before_claiming c s)
