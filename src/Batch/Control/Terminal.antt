-- ===== src/Batch/Control/Terminal.antt =====
-- What holds of a batch after any number of calls.
use mathlib.Core.Path.{subst, sym}
use ai_brain.Prelude.{ℕ, ◌≡◌, ◌⊎◌, inl, inr, Option, none, some, List, [], ◌∷◌, find}
use ai_brain.Batch.Model.{
  BatchStatus, completed, aborted, IngestionBatch, batch_keyed, ReasonMatches,
}
use ai_brain.Batch.Control.{Control, Clocks, Call, perform, perform_all}
use ai_brain.Batch.Control.Lifecycle.{RowStep, perform-RowStep}

abbrev pub IsTerminal : BatchStatus → Type 0
IsTerminal s = (s ≡ completed) ⊎ (s ≡ aborted)

abbrev pub RowMatches : Option IngestionBatch → Type 0
RowMatches none = Unit
RowMatches (some b) = ReasonMatches b.status b.stop_reason

RowMatches-step : (o o' : Option IngestionBatch) → RowStep o o' → RowMatches o → RowMatches o'
RowMatches-step none none r h = tt
RowMatches-step none (some b') r h = absurd r
RowMatches-step (some b) none r h = absurd r
RowMatches-step (some b) (some b') (inl q) h =
    subst (λ x. ReasonMatches x.status x.stop_reason) (sym q) h
RowMatches-step (some b) (some b') (inr m) h = m.reason

-- If every batch satisfies the database's check on status and stop reason (a reason is there exactly
-- on a paused, completed or aborted batch), every batch does after any calls.
pub perform_all-RowMatches :
    (cs : List (Clocks × Call)) (s : Control)
    → ((j : ℕ) → RowMatches (find j s.batches))
    → (j : ℕ) → RowMatches (find j (perform_all cs s).batches)
unfolding perform_all
perform_all-RowMatches [] s h = h
perform_all-RowMatches ((t, c) ∷ cs) s h = perform_all-RowMatches cs (perform t c s).0 λ j.
    RowMatches-step (find j s.batches) (find j (perform t c s).0.batches) (perform-RowStep t c s j)
      (h j)
