-- ===== src/Extraction.antt =====
-- The accounting of extracted bytes: backend/app/classification/archive_processing_service.py, from the
-- admission of an archive to the correction after its extraction, and the classification of errors.
pub mod Bytes
mod Examples
use ai_brain.Prelude.{
  ℕ, ◌+◌, ◌-◌, String, Bool, true, false, ◌&&◌, ◌||◌, not, Option, none, some, List, ltb, leb, ◌==◌,
  if◌then◌else◌, find, modify,
}
use ai_brain.Batch.Model.{IngestionBatch, batch_keyed}
use ai_brain.Batch.Guard.{
  BatchResourceGuard, GuardTier, check_before_expensive_operation, archive_extraction, normal,
}
use ai_brain.Claims.Rows.{
  SourceInstance, IngestionFailureCode, permission_denied, t7_unavailable, insufficient_disk_space,
  oversized_or_expansion_limit, malformed_archive, extraction_error_other,
}
use ai_brain.Claims.Groups.{Store, Outcome, returned, integrity_error, or_else}
use ai_brain.Claims.Reservations.{is_running}

-- An exception by its class; a `ValueError` by the two phrases that its message is searched for.
pub data ExtractionError : Type 0 where
  permission_error file_not_found_error os_error other_error : ExtractionError
  value_error : Bool → Bool → ExtractionError

-- `_classify_extraction_failure`; the first phrase is "expansion ratio", the second that of the depth.
unfoldable pub classify_extraction_failure : ExtractionError → IngestionFailureCode
classify_extraction_failure permission_error = permission_denied
classify_extraction_failure file_not_found_error = t7_unavailable
classify_extraction_failure os_error = insufficient_disk_space
classify_extraction_failure (value_error ratio depth) =
    if ratio
    then oversized_or_expansion_limit
    else if depth
    then oversized_or_expansion_limit
    else malformed_archive
classify_extraction_failure other_error = extraction_error_other

-- `_is_extraction_retryable`
unfoldable pub is_extraction_retryable : ExtractionError → Bool
is_extraction_retryable (value_error ratio depth) = not depth
is_extraction_retryable _ = true

pub record PreflightResult : Type 0 where
  pub admitted : Bool
  pub estimated_bytes : ℕ

abbrev pub refused : PreflightResult
refused = record { admitted = false; estimated_bytes = 0 }

-- The check constraint of the row, which a missing limit meets.
abbrev pub meets_envelope : ℕ → Option ℕ → Bool
meets_envelope n none = true
meets_envelope n (some most) = leb n most

-- The comparison in the condition of an update, which a missing limit fails.
abbrev pub is_below : ℕ → Option ℕ → Bool
is_below n none = false
is_below n (some most) = leb n most

abbrev pub consumed : ℕ → IngestionBatch → IngestionBatch
consumed n b = record b { extracted_bytes_consumed = n }

-- The condition of the admitting update.
abbrev pub has_bytes : ℕ → IngestionBatch → Bool
has_bytes n b =
    is_running b.status && is_below (b.extracted_bytes_consumed + n) b.max_extracted_bytes

unfoldable pub admit : ℕ → IngestionBatch → Store → PreflightResult × Store
admit n batch s = elim (find batch.id s.batches) [
  | none ↦ (refused, s)
  | some b ↦
      if has_bytes n b
      then (
        record { admitted = true; estimated_bytes = n },
        record s {
          batches = modify batch.id (λ x. consumed (x.extracted_bytes_consumed + n) x) s.batches;
        },
      )
      else (refused, s)
]

abbrev pub still_running : IngestionBatch → Store → PreflightResult × Store
still_running batch s = elim (find batch.id s.batches) [
  | none ↦ (refused, s)
  | some b ↦
      if is_running b.status
      then (record { admitted = true; estimated_bytes = 0 }, s)
      else (refused, s)
]

abbrev pub declared : SourceInstance → ℕ
declared i = or_else i.evidence_snapshot.d0_declared_size_bytes 0

abbrev preflight_admit_on : IngestionBatch → SourceInstance → Store → PreflightResult × Store
preflight_admit_on batch i s = elim batch.max_extracted_bytes [
  | none ↦ still_running batch s
  | some most ↦ admit (declared i) batch s
]

abbrev is_normal : GuardTier → Bool
is_normal normal = true
is_normal _ = false

unfoldable pub preflight_admit :
    (String → ℕ)
    → IngestionBatch
    → SourceInstance
    → Option BatchResourceGuard
    → Store
    → PreflightResult × Store
preflight_admit free_at batch i none s = preflight_admit_on batch i s
preflight_admit free_at batch i (some g) s =
    if is_normal (check_before_expensive_operation free_at true archive_extraction g).0.tier
    then preflight_admit_on batch i s
    else (refused, s)

-- `consumed + gain - loss`, within the check constraints of the row.
unfoldable pub correct : ℕ → ℕ → ℕ → Store → Outcome Unit × Store
correct id gain loss s = elim (find id s.batches) [
  | none ↦ (returned tt, s)
  | some b ↦
      let total = b.extracted_bytes_consumed + gain in
      if not (ltb total loss) && meets_envelope (total - loss) b.max_extracted_bytes
      then (
        returned tt,
        record s {
          batches =
              modify id (λ x. consumed (x.extracted_bytes_consumed + gain - loss) x) s.batches;
        },
      )
      else (integrity_error, s)
]

unfoldable pub release_extracted_bytes_reservation : ℕ → ℕ → Store → Outcome Unit × Store
release_extracted_bytes_reservation id amount s =
    if amount == 0 then (returned tt, s) else correct id 0 amount s

unfoldable pub reconcile_extracted_bytes : ℕ → ℕ → ℕ → Store → Outcome Unit × Store
reconcile_extracted_bytes id estimated actual s =
    if actual == estimated then (returned tt, s) else correct id actual estimated s
