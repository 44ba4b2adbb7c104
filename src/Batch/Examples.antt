-- ===== src/Batch/Examples.antt =====
-- The batch service on a table with one batch, and its theorems there.
use ai_brain.Prelude.{
  ℕ, String, ◌≡◌, ◌↔◌, ◌≤◌, ◌<◌, ◌⊎◌, inl, inr, refl, true, false, Option, none, some, List, [],
  ◌∷◌, ◌==◌, find, Bool-cases,
}
use ai_brain.Batch.Model.{
  IngestionBatch, BatchStatus, planned, paused, aborted, BatchStopReason, manual_pause,
  manual_abort, workspace_hard_stop, postgres_hard_stop, batch_keyed,
}
use ai_brain.Batch.Guard.{
  normal, hard_stop, BatchResourceGuard, check_before_claim, check_before_expensive_operation,
  embedding, embedding_checks, workspace_soft_stop_free_bytes, postgres_soft_stop_free_bytes,
  workspace_hard_stop_free_bytes, postgres_hard_stop_free_bytes,
}
use ai_brain.Batch.Guard.Tiers.{check_before_claim_tier, check_before_claim_reason}
use ai_brain.Batch.Guard.Ollama.{embedding_hard_stop, failures_in_a_row}
use ai_brain.Batch.Control.{
  Control, Clocks, Call, start_call, pause_call, perform, perform_all, start, pause, resume,
}
use ai_brain.Batch.Control.Lifecycle.{RowStep, perform-RowStep}
use ai_brain.Batch.Control.Terminal.{perform_all-RowMatches, RowMatches}
use ai_brain.Batch.Control.Resuming.{Resumed, resume-Resumed, start-pause_runtime, paused_row}

abbrev batch : BatchStatus → Option BatchStopReason → IngestionBatch
batch status reason = record {
  id = 4;
  terms = record {
    classification_run_id = 1;
    review_required = false;
    max_source_instances = 10;
    max_source_bytes = 1000;
    max_extracted_bytes = none;
    max_embeddings = 50;
    max_runtime_seconds = 60;
    eligible_source_count = 2;
    policy_filtered_count = 0;
    selectable_count = 2;
    source_instances_selected = 2;
    source_bytes_selected = 20;
    selection_fingerprint = "f";
    selection_policy_version = "1";
    ordering_version = "1";
  };
  status = status;
  stop_reason = reason;
  stop_reason_detail = none;
  extracted_bytes_consumed = 0;
  embeddings_reserved = 0;
  monotonic_runtime_seconds_consumed = 0;
  created_at = 1;
  started_at = none;
  completed_at = none;
}

abbrev control : IngestionBatch → Control
control b = record { batches = b ∷ []; session_starts = λ id. none }

abbrev at_clock : ℕ → Clocks
at_clock n = record { wall = n; monotonic = n }

abbrev guard : BatchResourceGuard
guard = record { workspace_path = "/home"; postgres_path = "/"; consecutive_ollama_failures = 0 }

-- Plenty of free bytes, and none.
abbrev plenty : String → ℕ
plenty path = 100000000000

abbrev full : String → ℕ
full path = 0

check_before_claim_tier_example :
    ((check_before_claim full guard).tier ≡ normal
      ↔ ((workspace_soft_stop_free_bytes ≤ 0) × (postgres_soft_stop_free_bytes ≤ 0)))
    × ((check_before_claim full guard).tier ≡ hard_stop
        ↔ ((0 < workspace_hard_stop_free_bytes) ⊎ (0 < postgres_hard_stop_free_bytes)))
check_before_claim_tier_example = check_before_claim_tier full guard

check_before_claim_reason_example :
    ((check_before_claim full guard).tier ≡ normal
      ↔ (check_before_claim full guard).stop_reason ≡ none)
    × ((check_before_claim full guard).tier ≡ hard_stop
        → ((check_before_claim full guard).stop_reason ≡ some workspace_hard_stop)
          ⊎ ((check_before_claim full guard).stop_reason ≡ some postgres_hard_stop))
check_before_claim_reason_example = check_before_claim_reason full guard

embedding_hard_stop_example :
    (check_before_expensive_operation full false embedding
        (embedding_checks full guard (true ∷ false ∷ false ∷ [])).1).0.tier
      ≡ hard_stop
    ↔ 3 ≤ failures_in_a_row (false ∷ false ∷ false ∷ true ∷ [])
embedding_hard_stop_example = embedding_hard_stop full guard (true ∷ false ∷ false ∷ []) false refl

perform-RowStep_example :
    RowStep
      (find 4 (control (batch planned none)).batches)
      (find 4 (perform (at_clock 9) (start_call 4) (control (batch planned none))).0.batches)
perform-RowStep_example =
    perform-RowStep (at_clock 9) (start_call 4) (control (batch planned none)) 4

abbrev calls : List (Clocks × Call)
calls = (at_clock 9, start_call 4) ∷ (at_clock 12, pause_call 4 manual_pause none) ∷ []

found :
    (s : BatchStatus) (r : Option BatchStopReason)
    → find 4 (control (batch s r)).batches ≡ some (batch s r)
unfolding find
found s r = refl

all_match : (j : ℕ) → RowMatches (find j (control (batch planned none)).batches)
unfolding find
all_match j = elim (Bool-cases (4 == j)) [ inl e ↦ rw e refl | inr e ↦ rw e tt ]

perform_all-RowMatches_example :
    (RowMatches (find 4 (perform_all calls (control (batch planned none))).batches))
perform_all-RowMatches_example =
    perform_all-RowMatches calls (control (batch planned none)) all_match 4

resume-Resumed_example :
    Resumed
      (check_before_claim plenty guard).tier
      (check_before_claim plenty guard).stop_reason
      (check_before_claim plenty guard).detail
      (at_clock 20)
      4
      (control (batch paused (some manual_pause)))
      (batch paused (some manual_pause))
      (resume
        (at_clock 20)
        4
        plenty
        guard
        (λ rows. rows)
        (control (batch paused (some manual_pause))))
resume-Resumed_example =
    resume-Resumed (at_clock 20) 4 (control (batch paused (some manual_pause)))
      (batch paused (some manual_pause)) (found paused (some manual_pause)) refl plenty guard

start-pause_runtime_example :
    (find 4
        (pause
          (at_clock 12)
          4
          manual_pause
          none
          (start (at_clock 9) 4 (control (batch planned none))).0).0.batches
      ≡ some (paused_row (at_clock 9) manual_pause none 3 (batch planned none)))
    × ((pause
            (at_clock 12)
            4
            manual_pause
            none
            (start (at_clock 9) 4 (control (batch planned none))).0).0.session_starts
          4
        ≡ none)
start-pause_runtime_example =
    start-pause_runtime (at_clock 9) (at_clock 12) 4 manual_pause none
      (control (batch planned none)) (batch planned none) (found planned none) refl refl

-- Another session aborts the batch meanwhile.
abbrev aborts : List IngestionBatch → List IngestionBatch
aborts rows = batch aborted (some manual_abort) ∷ []
