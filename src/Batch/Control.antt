-- ===== src/Batch/Control.antt =====
-- The control service: backend/app/classification/batch_control_service.py. The state is the
-- table of batches with the service instance's own memory of running sessions. Readings of the
-- wall clock and of the monotonic clock are arguments; `ValueError` is a response.
mod Applying
pub mod Lifecycle
pub mod Terminal
pub mod Finishing
pub mod Resuming
pub mod Racing
use ai_brain.Prelude.{
  ℕ, ◌+◌, ◌-◌, Bool, true, false, Option, none, some, List, [], ◌∷◌, ◌==◌, if◌then◌else◌, any,
  String, find, modify,
}
use ai_brain.Batch.Model.{
  BatchStatus, planned, running, paused, completed, aborted, BatchStopReason, source_work_exhausted,
  extracted_bytes_envelope_exhausted, embeddings_envelope_exhausted, runtime_budget_exceeded,
  workspace_soft_stop, postgres_soft_stop, manual_pause, workspace_hard_stop, postgres_hard_stop,
  ollama_persistently_unreachable, safety_invariant_violation_detected, manual_abort, Detail,
  IngestionBatch, batch_keyed,
}
use ai_brain.Batch.Guard.{GuardTier, GuardResult, BatchResourceGuard, check_before_claim}

pub record Control : Type 0 where
  pub batches : List IngestionBatch
  pub session_starts : ℕ → Option ℕ

-- A reading of the two clocks: `datetime.now(UTC)` and `time.monotonic()`.
pub record Clocks : Type 0 where
  pub wall : ℕ
  pub monotonic : ℕ

pub data Response : Type 0 where
  transition_result : Bool → IngestionBatch → Response
  invalid_reason : BatchStopReason → Response
  does_not_exist : ℕ → Response
  assertion_failed : Response

abbrev pub status_eq : BatchStatus → BatchStatus → Bool
status_eq planned planned = true
status_eq running running = true
status_eq paused paused = true
status_eq completed completed = true
status_eq aborted aborted = true
status_eq _ _ = false

abbrev pub status_in : BatchStatus → List BatchStatus → Bool
status_in s = any (status_eq s)

-- `_PAUSE_REASONS`
abbrev pub is_pause_reason : BatchStopReason → Bool
is_pause_reason workspace_soft_stop = true
is_pause_reason postgres_soft_stop = true
is_pause_reason manual_pause = true
is_pause_reason _ = false

-- `_ABORT_REASON_LEGAL_SOURCES.get(reason)`
abbrev pub abort_sources : BatchStopReason → Option (List BatchStatus)
abort_sources workspace_hard_stop = some (running ∷ paused ∷ [])
abort_sources postgres_hard_stop = some (running ∷ paused ∷ [])
abort_sources ollama_persistently_unreachable = some (running ∷ paused ∷ [])
abort_sources safety_invariant_violation_detected = some (running ∷ paused ∷ [])
abort_sources manual_abort = some (paused ∷ [])
abort_sources _ = none

-- `_COMPLETE_REASONS`
abbrev pub is_complete_reason : BatchStopReason → Bool
is_complete_reason source_work_exhausted = true
is_complete_reason extracted_bytes_envelope_exhausted = true
is_complete_reason embeddings_envelope_exhausted = true
is_complete_reason runtime_budget_exceeded = true
is_complete_reason _ = false

-- The keyword arguments of `_apply`.
pub record Change : Type 0 where
  pub expected : List BatchStatus
  pub new_status : BatchStatus
  pub reason : Option BatchStopReason
  pub reason_detail : Option Detail
  pub runtime_delta : ℕ
  pub set_started_at : Bool
  pub set_completed_at : Bool

-- The reason columns of `values`: cleared on entry to RUNNING, else written only with a reason.
pub reason_values :
    BatchStatus → Option BatchStopReason → Option Detail → IngestionBatch → IngestionBatch
reason_values running r d b = record b { stop_reason = none; stop_reason_detail = none }
reason_values _ none d b = b
reason_values _ (some r) d b = record b { stop_reason = some r; stop_reason_detail = d }

-- The row after the `UPDATE`. Adding a delta of zero is the same as not adding it.
pub written : ℕ → Change → IngestionBatch → IngestionBatch
unfolding reason_values
written now c b =
    let b₁ = reason_values c.new_status c.reason c.reason_detail b in
    record b₁ {
      status = c.new_status;
      monotonic_runtime_seconds_consumed = b.monotonic_runtime_seconds_consumed + c.runtime_delta;
      started_at = if c.set_started_at then some now else b.started_at;
      completed_at = if c.set_completed_at then some now else b.completed_at;
    }

-- `UPDATE ... WHERE id = :id AND status IN (:expected) RETURNING id`
pub conditional : ℕ → Change → IngestionBatch → IngestionBatch
unfolding written
conditional now c b = if status_in b.status c.expected then written now c b else b

pub matched : List BatchStatus → Option IngestionBatch → Bool
matched expected none = false
matched expected (some b) = status_in b.status expected

respond : ℕ → Bool → Option IngestionBatch → Response
respond id applied none = does_not_exist id
respond id applied (some b) = transition_result applied b

-- The new table, whether the update applied, and what the call returns.
pub apply : ℕ → ℕ → Change → List IngestionBatch → List IngestionBatch × Bool × Response
unfolding conditional matched respond
apply now id c rows =
    let applied = matched c.expected (find id rows) in
    let rows' = modify id (conditional now c) rows in
    (rows', applied, respond id applied (find id rows'))

-- `self._session_starts[batch_id] = start` and `.pop(batch_id, None)`
set_session : ℕ → Option ℕ → (ℕ → Option ℕ) → ℕ → Option ℕ
set_session id start sessions j = if j == id then start else sessions j

pub peek_session_delta : ℕ → Option ℕ → ℕ
peek_session_delta monotonic none = 0
peek_session_delta monotonic (some start) = monotonic - start

-- A transition whose success sets or drops this instance's session of the batch.
pub run : Clocks → ℕ → Change → Option ℕ → Control → Control × Response
unfolding set_session
run t id c session s =
    let (rows, applied, response) = apply t.wall id c s.batches in
    (
      record {
        batches = rows;
        session_starts =
            if applied then set_session id session s.session_starts else s.session_starts;
      },
      response,
    )

-- A transition with no timestamp and no delta.
abbrev plain : List BatchStatus → BatchStatus → Change
plain expected s = record {
  expected = expected;
  new_status = s;
  reason = none;
  reason_detail = none;
  runtime_delta = 0;
  set_started_at = false;
  set_completed_at = false;
}

-- A transition out of the session, with its reason and the session's elapsed time.
stop :
    Clocks
    → ℕ
    → List BatchStatus
    → BatchStatus
    → BatchStopReason
    → Option Detail
    → Bool
    → Control
    → Control × Response
unfolding run peek_session_delta
stop t id expected new reason detail ends s =
    run t id
      (record {
        expected = expected;
        new_status = new;
        reason = some reason;
        reason_detail = detail;
        runtime_delta = peek_session_delta t.monotonic (s.session_starts id);
        set_started_at = false;
        set_completed_at = ends;
      })
      none s

pub start : Clocks → ℕ → Control → Control × Response
unfolding run
start t id s =
    run t id (record (plain (planned ∷ []) running) { set_started_at = true }) (some t.monotonic) s

pub pause : Clocks → ℕ → BatchStopReason → Option Detail → Control → Control × Response
unfolding stop
pause t id reason detail s =
    if is_pause_reason reason
    then stop t id (running ∷ []) paused reason detail false s
    else (s, invalid_reason reason)

abort_from :
    Option (List BatchStatus)
    → Clocks
    → ℕ
    → BatchStopReason
    → Option Detail
    → Control
    → Control × Response
unfolding stop
abort_from none t id reason detail s = (s, invalid_reason reason)
abort_from (some sources) t id reason detail s = stop t id sources aborted reason detail true s

pub abort : Clocks → ℕ → BatchStopReason → Option Detail → Control → Control × Response
unfolding abort_from
abort t id reason detail s = abort_from (abort_sources reason) t id reason detail s

pub complete : Clocks → ℕ → BatchStopReason → Option Detail → Control → Control × Response
unfolding stop
complete t id reason detail s =
    if is_complete_reason reason
    then stop t id (running ∷ []) completed reason detail true s
    else (s, invalid_reason reason)

-- The end of `resume`, once the guard has answered. `batch` is the row that was read.
resume_on :
    GuardTier
    → Option BatchStopReason
    → Detail
    → Clocks
    → ℕ
    → IngestionBatch
    → Control
    → Control × Response
unfolding run abort
resume_on GuardTier.hard_stop none d t id batch s = (s, assertion_failed)
resume_on GuardTier.hard_stop (some reason) d t id batch s = abort t id reason (some d) s
resume_on GuardTier.soft_stop reason d t id batch s = (s, transition_result false batch)
resume_on GuardTier.normal reason d t id batch s =
    run t id (plain (paused ∷ []) running) (some t.monotonic) s

resume_read :
    Clocks
    → ℕ
    → Option IngestionBatch
    → GuardResult
    → (List IngestionBatch → List IngestionBatch)
    → Control
    → Control × Response
unfolding resume_on
resume_read t id none r between s = (s, does_not_exist id)
resume_read t id (some batch) r between s =
    if status_eq batch.status paused
    then resume_on r.tier r.stop_reason r.detail t id batch
        (record s { batches = between s.batches })
    else (s, transition_result false batch)

-- `between` is what other sessions commit after the row is read and before the `UPDATE`.
pub resume :
    Clocks
    → ℕ
    → (String → ℕ)
    → BatchResourceGuard
    → (List IngestionBatch → List IngestionBatch)
    → Control
    → Control × Response
unfolding resume_read
resume t id free_at guard between s =
    resume_read t id (find id s.batches) (check_before_claim free_at guard) between s

-- A call of the service. A resource guard and the disks are those at the call.
pub data Call : Type 0 where
  start_call : ℕ → Call
  pause_call abort_call complete_call : ℕ → BatchStopReason → Option Detail → Call
  resume_call : ℕ → (String → ℕ) → BatchResourceGuard → Call

-- One call with no other session in between.
pub perform : Clocks → Call → Control → Control × Response
unfolding start pause abort complete resume
perform t (start_call id) s = start t id s
perform t (pause_call id reason detail) s = pause t id reason detail s
perform t (abort_call id reason detail) s = abort t id reason detail s
perform t (complete_call id reason detail) s = complete t id reason detail s
perform t (resume_call id free_at guard) s = resume t id free_at guard (λ rows. rows) s

-- Calls one after another.
pub perform_all : List (Clocks × Call) → Control → Control
perform_all [] s = s
perform_all ((t, c) ∷ cs) s = perform_all cs (perform t c s).0
