-- ===== src/Batch/Control/Resuming.antt =====
-- Resuming a paused batch, and the runtime that a session adds.
use ai_brain.Prelude.{
  ℕ, ◌+◌, ◌-◌, String, ◌≡◌, refl, ◌∙◌, ap, ◌⊎◌, Bool, true, false, Option, none, some, List, [],
  ◌∷◌, arith, ==_refl, find,
}
use ai_brain.Batch.Model.{
  BatchStatus, planned, running, paused, aborted, BatchStopReason, workspace_hard_stop,
  postgres_hard_stop, Detail, IngestionBatch, batch_keyed,
}
use ai_brain.Batch.Guard.{
  GuardTier, normal, soft_stop, hard_stop, BatchResourceGuard, check_before_claim,
}
use ai_brain.Batch.Guard.Tiers.{check_before_claim_reason}
use ai_brain.Batch.Control.{
  Control, Clocks, Response, transition_result, Change, status_in, status_eq, is_pause_reason,
  written, run, start, pause, resume, resume_on, abort, plain, peek_session_delta,
}
use ai_brain.Batch.Control.Applying.{apply_applied, apply_refused}

-- A transition that applies writes the row and sets the session; one that does not writes nothing.
module _ (t : Clocks) (id : ℕ) (c : Change) (session : Option ℕ) (s : Control) (b : IngestionBatch)
    (found : find id s.batches ≡ some b) where
  pub run_applied :
      status_in b.status c.expected ≡ true
      → let (s', r) = run t id c session s in
        (find id s'.batches ≡ some (written t.wall c b))
        × (s'.session_starts id ≡ session)
        × (r ≡ transition_result true (written t.wall c b))
  unfolding run
  run_applied e =
      let (row, applied, response) = apply_applied t.wall id c s.batches b found e in
      (row, rw (applied, ==_refl id), response)

  pub run_refused :
      status_in b.status c.expected ≡ false
      → let (s', r) = run t id c session s in
        (find id s'.batches ≡ some b)
        × (s'.session_starts ≡ s.session_starts)
        × (r ≡ transition_result false b)
  unfolding run
  run_refused e =
      let (row, applied, response) = apply_refused t.wall id c s.batches b found e in
      (row, rw applied, response)

abbrev resumed_row : IngestionBatch → IngestionBatch
resumed_row b = record b { status = running; stop_reason = none; stop_reason_detail = none }

abbrev pub aborted_row : Clocks → BatchStopReason → Detail → ℕ → IngestionBatch → IngestionBatch
aborted_row t reason detail delta b = record b {
  status = aborted;
  stop_reason = some reason;
  stop_reason_detail = some detail;
  monotonic_runtime_seconds_consumed = b.monotonic_runtime_seconds_consumed + delta;
  completed_at = some t.wall;
}

written_resumed :
    (now : ℕ) (b : IngestionBatch) → written now (plain (paused ∷ []) running) b ≡ resumed_row b
unfolding written
written_resumed now b = ground arith

abbrev pub stopping :
    BatchStatus → List BatchStatus → BatchStopReason → Option Detail → ℕ → Bool → Change
stopping new expected reason detail delta ends = record {
  expected = expected;
  new_status = new;
  reason = some reason;
  reason_detail = detail;
  runtime_delta = delta;
  set_started_at = false;
  set_completed_at = ends;
}

pub written_aborted :
    (t : Clocks) (sources : List BatchStatus) (q : BatchStopReason) (d : Detail) (delta : ℕ)
    (b : IngestionBatch)
    → written t.wall (stopping aborted sources q (some d) delta true) b ≡ aborted_row t q d delta b
unfolding written
written_aborted t sources q d delta b = refl

abbrev pub elapsed : Clocks → ℕ → Control → ℕ
elapsed t id s = peek_session_delta t.monotonic (s.session_starts id)

-- What a resumption with a given answer of the guard does to a paused batch.
abbrev pub Resumed :
    GuardTier
    → Option BatchStopReason
    → Detail
    → Clocks
    → ℕ
    → Control
    → IngestionBatch
    → Control × Response
    → Type 0
Resumed normal q d t id s b (s', r) =
    (find id s'.batches ≡ some (resumed_row b))
    × (s'.session_starts id ≡ some t.monotonic)
    × (r ≡ transition_result true (resumed_row b))
Resumed soft_stop q d t id s b (s', r) = (s' ≡ s) × (r ≡ transition_result false b)
Resumed hard_stop none d t id s b out = ⊥
Resumed hard_stop (some reason) d t id s b (s', r) =
    let b' = aborted_row t reason d (elapsed t id s) b in
    (find id s'.batches ≡ some b') × (s'.session_starts id ≡ none) × (r ≡ transition_result true b')

module _ (t : Clocks) (id : ℕ) (s : Control) (b : IngestionBatch)
    (found : find id s.batches ≡ some b) (is_paused : b.status ≡ paused) where
  abort_either :
      (reason : BatchStopReason) (d : Detail)
      → (reason ≡ workspace_hard_stop) ⊎ (reason ≡ postgres_hard_stop)
      → Resumed hard_stop (some reason) d t id s b (abort t id reason (some d) s)
  unfolding abort
  abort_either workspace_hard_stop d h =
      let c =
        stopping aborted (running ∷ paused ∷ []) workspace_hard_stop (some d) (elapsed t id s)
          true in
      let w = written_aborted t (running ∷ paused ∷ []) workspace_hard_stop d (elapsed t id s) b in
      let (row, session, r) = run_applied t id c none s b found (rw is_paused refl) in
      (row ∙ ap some w, session, r ∙ ap (transition_result true) w)
  abort_either postgres_hard_stop d h =
      let c =
        stopping aborted (running ∷ paused ∷ []) postgres_hard_stop (some d) (elapsed t id s)
          true in
      let w = written_aborted t (running ∷ paused ∷ []) postgres_hard_stop d (elapsed t id s) b in
      let (row, session, r) = run_applied t id c none s b found (rw is_paused refl) in
      (row ∙ ap some w, session, r ∙ ap (transition_result true) w)
  abort_either _ d h = absurd (ground arith)

  resume_on-Resumed :
      (k : GuardTier) (q : Option BatchStopReason) (d : Detail)
      → (k ≡ hard_stop → (q ≡ some workspace_hard_stop) ⊎ (q ≡ some postgres_hard_stop))
      → Resumed k q d t id s b (resume_on k q d t id b s)
  unfolding resume_on
  resume_on-Resumed normal q d h =
      let w = written_resumed t.wall b in
      let (row, session, r) =
        run_applied t id (plain (paused ∷ []) running) (some t.monotonic) s b found
          (rw is_paused refl) in
      (row ∙ ap some w, session, r ∙ ap (transition_result true) w)
  resume_on-Resumed soft_stop q d h = (refl, refl)
  resume_on-Resumed hard_stop none d h = absurd (ground (arith, h refl))
  resume_on-Resumed hard_stop (some reason) d h = abort_either reason d (ground (arith, h refl))

  -- Resuming a paused batch while no other session writes: a NORMAL guard makes it RUNNING with its
  -- stop reason cleared and a session begun; a soft stop changes nothing; a hard stop aborts it with
  -- the guard's reason and the session's elapsed time, and the assertion in the code never fails.
  pub resume-Resumed :
      (free_at : String → ℕ) (g : BatchResourceGuard)
      → let r = check_before_claim free_at g in
        Resumed r.tier r.stop_reason r.detail t id s b (resume t id free_at g (λ rows. rows) s)
  unfolding resume
  resume-Resumed free_at g =
      let r = check_before_claim free_at g in
      let e : status_eq b.status paused ≡ true = rw is_paused refl in
      rw (found, e)
        (resume_on-Resumed r.tier r.stop_reason r.detail (check_before_claim_reason free_at g).1)

abbrev started : Change
started = record (plain (planned ∷ []) running) { set_started_at = true }

-- A planned batch that was started and then paused.
abbrev pub paused_row :
    Clocks → BatchStopReason → Option Detail → ℕ → IngestionBatch → IngestionBatch
paused_row t q d delta b = record b {
  status = paused;
  stop_reason = some q;
  stop_reason_detail = d;
  monotonic_runtime_seconds_consumed = b.monotonic_runtime_seconds_consumed + delta;
  started_at = some t.wall;
}

written_session :
    (t u : Clocks) (q : BatchStopReason) (d : Option Detail) (delta : ℕ) (b : IngestionBatch)
    → written u.wall (stopping paused (running ∷ []) q d delta false) (written t.wall started b)
      ≡ paused_row t q d delta b
unfolding written
written_session t u q d delta b = ground arith

-- A session is counted exactly: starting a planned batch at one reading of the monotonic clock and
-- pausing it at a later one, for a pause reason, adds the difference to its consumed runtime, leaves it
-- PAUSED with that reason, and forgets the session.
pub start-pause_runtime :
    (t u : Clocks) (id : ℕ) (q : BatchStopReason) (d : Option Detail) (s : Control)
    (b : IngestionBatch)
    → find id s.batches ≡ some b
    → b.status ≡ planned
    → is_pause_reason q ≡ true
    → let s' = (pause u id q d (start t id s).0).0 in
      (find id s'.batches ≡ some (paused_row t q d (u.monotonic - t.monotonic) b))
      × (s'.session_starts id ≡ none)
unfolding start pause
start-pause_runtime t u id q d s b found is_planned legal =
    let c = started in
    let (row, session, r) = run_applied t id c (some t.monotonic) s b found (rw is_planned refl) in
    let s₁ = (run t id c (some t.monotonic) s).0 in
    let b₁ = written t.wall c b in
    let e : b₁.status ≡ running = unfold written in refl in
    let k = stopping paused (running ∷ []) q d (elapsed u id s₁) false in
    let (row', session', r') = run_applied u id k none s₁ b₁ row (rw e refl) in
    let same =
      ap (λ n. some (paused_row t q d n b)) (ap (peek_session_delta u.monotonic) session) in
    rw legal (row' ∙ ap some (written_session t u q d (elapsed u id s₁) b) ∙ same, session')
