-- ===== src/Batch/Control/Racing.antt =====
-- A resumption that loses a race: another session moves the batch off PAUSED between the read and the
-- `UPDATE`.
use ai_brain.Prelude.{ℕ, ◌≡◌, true, false, Option, none, some, find}
use ai_brain.Batch.Model.{running, BatchStopReason, Detail, IngestionBatch, batch_keyed}
use ai_brain.Batch.Guard.{GuardTier, normal, soft_stop, hard_stop}
use ai_brain.Batch.Control.{Control, Clocks, Response, transition_result, status_eq}
use ai_brain.Batch.Control.Resuming.{aborted_row, elapsed}

-- The batch of another session's row is left alone, and so are the sessions; the call reports a row.
abbrev pub Untouched : ℕ → Control → IngestionBatch → IngestionBatch → Control × Response → Type 0
Untouched id s moved reported (s', r) =
    (find id s'.batches ≡ some moved)
    × (s'.session_starts ≡ s.session_starts)
    × (r ≡ transition_result false reported)

-- What a resumption does that read the row `b` and whose `UPDATE` meets the row `moved`.
abbrev pub Raced :
    GuardTier
    → Option BatchStopReason
    → Detail
    → Clocks
    → ℕ
    → Control
    → IngestionBatch
    → IngestionBatch
    → Control × Response
    → Type 0
Raced normal q d t id s b moved out = Untouched id s moved moved out
Raced soft_stop q d t id s b moved out = Untouched id s moved b out
Raced hard_stop none d t id s b moved out = ⊥
Raced hard_stop (some reason) d t id s b moved out =
    (status_eq moved.status running ≡ false → Untouched id s moved moved out)
    × (moved.status ≡ running
        → let ended = aborted_row t reason d (elapsed t id s) moved in
          (find id out.0.batches ≡ some ended)
          × (out.0.session_starts id ≡ none)
          × (out.1 ≡ transition_result true ended))
