-- ===== src/Extraction/Examples.antt =====
-- The admission of an archive to a batch that may extract a hundred bytes, and its errors.
use ai_brain.Prelude.{◌≡◌, refl, true, false, none, some, [], ◌∷◌, find, modify}
use ai_brain.Batch.Model.{IngestionBatch, running, paused, batch_keyed}
use ai_brain.Claims.Rows.{malformed_archive, oversized_or_expansion_limit}
use ai_brain.Claims.Groups.{Store, integrity_error}
use ai_brain.Claims.Samples.{batch, store, file}
use ai_brain.Extraction.{
  refused, value_error, classify_extraction_failure, is_extraction_retryable, admit, correct,
  preflight_admit, reconcile_extracted_bytes,
}
use ai_brain.Extraction.Bytes.{Corrected, counting, admit-Corrected}

abbrev limited : IngestionBatch
limited = record (batch running) {
  terms = record ((batch running).terms) { max_extracted_bytes = some 100 };
}

abbrev tables : Store
tables = record (store running) { batches = limited ∷ [] }

limited_found : find 4 tables.batches ≡ some limited
unfolding find
limited_found = refl

admitting :
    admit 40 limited tables
    ≡ (record { admitted = true; estimated_bytes = 40 }, counting 4 40 tables)
unfolding admit find
admitting = refl

admit-Corrected_example : Corrected limited 4 100 40 tables (counting 4 40 tables)
admit-Corrected_example =
    admit-Corrected limited limited 100 40 tables (counting 4 40 tables) limited_found refl
      admitting

-- An archive that declares forty bytes and holds more than a hundred cannot be corrected.
breaking_test :
    reconcile_extracted_bytes 4 40 101 (counting 4 40 tables)
    ≡ (integrity_error, counting 4 40 tables)
unfolding reconcile_extracted_bytes correct find modify
breaking_test = refl

-- A paused batch without a limit admits nothing.
paused_test :
    preflight_admit (λ path. 0) (batch paused) (file 1 "/t/A.ZIP") none (store paused)
    ≡ (refused, store paused)
unfolding preflight_admit find
paused_test = refl

errors_test :
    (classify_extraction_failure (value_error false true) ≡ oversized_or_expansion_limit)
    × (is_extraction_retryable (value_error false true) ≡ false)
    × (classify_extraction_failure (value_error false false) ≡ malformed_archive)
unfolding classify_extraction_failure is_extraction_retryable
errors_test = (refl, refl, refl)
