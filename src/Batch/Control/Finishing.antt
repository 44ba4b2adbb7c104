-- ===== src/Batch/Control/Finishing.antt =====
-- The completion of a running batch.
use ai_brain.Prelude.{ℕ, ◌≡◌, refl, none, some, [], ◌∷◌, true, false, find, find_modified}
use ai_brain.Batch.Model.{running, completed, source_work_exhausted, IngestionBatch, batch_keyed}
use ai_brain.Batch.Control.{
  Control, Clocks, Change, complete, stop, run, apply, conditional, written, reason_values,
  peek_session_delta,
}
use ai_brain.Batch.Control.Lifecycle.{conditional_key}

module _ (t : Clocks) (id : ℕ) (s : Control) (b : IngestionBatch)
    (found : find id s.batches ≡ some b) (going : b.status ≡ running) where
  -- The change that is made.
  finishing : Change
  finishing = record {
    expected = running ∷ [];
    new_status = completed;
    reason = some source_work_exhausted;
    reason_detail = none;
    runtime_delta = peek_session_delta t.monotonic (s.session_starts id);
    set_started_at = false;
    set_completed_at = true;
  }

  -- The row of the batch afterwards.
  pub complete_running :
      (b' : IngestionBatch) × (find id (complete t id source_work_exhausted none s).0.batches
        ≡ some b')
      × (b'.status ≡ completed)
      × (b'.stop_reason ≡ some source_work_exhausted)
  unfolding finishing complete stop run apply conditional written reason_values
  complete_running = (
    conditional t.wall finishing b,
    find_modified id (conditional t.wall finishing) b s.batches (conditional_key t.wall finishing)
        found,
    rw going refl,
    rw going refl,
  )
