-- ===== src/Batch/Control/Applying.antt =====
-- The conditional `UPDATE` of `_apply`, when its condition holds and when it does not.
use ai_brain.Prelude.{ℕ, ◌≡◌, ◌∙◌, ap, true, false, some, List, arith, ==_refl, find, find-modify}
use ai_brain.Batch.Model.{IngestionBatch, batch_keyed}
use ai_brain.Batch.Control.{transition_result, Change, status_in, written, conditional, apply}

pub written_id : (now : ℕ) (c : Change) (b : IngestionBatch) → (written now c b).id ≡ b.id
unfolding written
written_id now c b = ground arith

conditional_id : (now : ℕ) (c : Change) (b : IngestionBatch) → (conditional now c b).id ≡ b.id
unfolding conditional
conditional_id now c b = ground (arith, written_id now c b)

module _ (now id : ℕ) (c : Change) (rows : List IngestionBatch) (b : IngestionBatch)
    (found : find id rows ≡ some b) where
  row_after : find id (apply now id c rows).0 ≡ some (conditional now c b)
  unfolding apply
  row_after =
      rw (find-modify id id (conditional now c) rows (conditional_id now c))
        (rw (==_refl id, found))

  -- The row is written, and the call reports it.
  pub apply_applied :
      status_in b.status c.expected ≡ true
      → (find id (apply now id c rows).0 ≡ some (written now c b))
        × ((apply now id c rows).1 ≡ true)
        × ((apply now id c rows).2 ≡ transition_result true (written now c b))
  unfolding apply
  apply_applied e =
      let w : conditional now c b ≡ written now c b = unfold conditional in rw e in
      let row = row_after ∙ ap some w in (row, rw found e, rw (row, found, e))

  -- Nothing is written, and the call reports that.
  pub apply_refused :
      status_in b.status c.expected ≡ false
      → (find id (apply now id c rows).0 ≡ some b)
        × ((apply now id c rows).1 ≡ false)
        × ((apply now id c rows).2 ≡ transition_result false b)
  unfolding apply
  apply_refused e =
      let w : conditional now c b ≡ b = unfold conditional in rw e in
      let row = row_after ∙ ap some w in (row, rw found e, rw (row, found, e))
