-- ===== src/Batch/Control/Lifecycle.antt =====
-- The state machine of a batch: which transitions the service makes, and what it leaves alone.
use mathlib.Core.Option
use ai_brain.Prelude.{
  ℕ, ◌≡◌, refl, ◌≢◌, ◌⊎◌, inl, inr, Bool, true, false, Option, none, some, List, [], ◌∷◌, arith,
  ◌==◌, Bool-cases, if◌then◌else◌, find, find-modify,
}
use ai_brain.Batch.Model.{
  BatchStatus, planned, running, paused, completed, aborted, BatchStopReason, Detail,
  IngestionBatch, batch_keyed, ReasonMatches,
}
use ai_brain.Batch.Guard.{GuardResult, GuardTier, check_before_claim}
use ai_brain.Batch.Control.{
  Control, Clocks, Change, Call, start_call, pause_call, abort_call, complete_call, resume_call,
  is_pause_reason, is_complete_reason, status_in, status_eq, conditional, reason_values, written,
  apply, start, pause, abort, complete, run, resume_read, resume_on, perform,
}

-- The six legal transitions.
infix 40 ◌⟶◌
pub data ◌⟶◌ : BatchStatus → BatchStatus → Type 0 where
  begin : planned ⟶ running
  suspend : running ⟶ paused
  continue : paused ⟶ running
  finish : running ⟶ completed
  abandon : running ⟶ aborted
  give_up : paused ⟶ aborted

-- No transition leads back to PLANNED.
⟶_target : {s t : BatchStatus} → s ⟶ t → t ≢ planned
⟶_target begin p = cc
⟶_target suspend p = cc
⟶_target continue p = cc
⟶_target finish p = cc
⟶_target abandon p = cc
⟶_target give_up p = cc

-- What one transition does to the row of its batch.
pub record Moves (b b' : IngestionBatch) : Type 0 where
  pub edge : b.status ⟶ b'.status
  pub same_id : b'.id ≡ b.id
  pub same_terms : b'.terms ≡ b.terms
  pub same_bytes : b'.extracted_bytes_consumed ≡ b.extracted_bytes_consumed
  pub same_embeddings : b'.embeddings_reserved ≡ b.embeddings_reserved
  pub reason : ReasonMatches b'.status b'.stop_reason

-- The row of an id after a call: there is one exactly where there was one, and it is the same or
-- has made one legal transition.
abbrev pub RowStep : Option IngestionBatch → Option IngestionBatch → Type 0
RowStep none none = Unit
RowStep (some b) (some b') = (b' ≡ b) ⊎ Moves b b'
RowStep _ _ = ⊥

RowStep-refl : (o : Option IngestionBatch) → RowStep o o
RowStep-refl none = tt
RowStep-refl (some b) = inl refl

-- What the service's own changes have in common.
record IsLegal (c : Change) : Type 0 where
  edges : (s : BatchStatus) → status_in s c.expected ≡ true → s ⟶ c.new_status
  reasoned : ReasonMatches c.new_status c.reason

pub conditional_key : (now : ℕ) (c : Change) (b : IngestionBatch) → (conditional now c b).id ≡ b.id
unfolding conditional
conditional_key now c b = ground arith

reason_values-ReasonMatches :
    (s : BatchStatus) (r : Option BatchStopReason) (d : Option Detail) (b : IngestionBatch)
    → s ≢ planned
    → ReasonMatches s r
    → ReasonMatches s (reason_values s r d b).stop_reason
unfolding reason_values
reason_values-ReasonMatches running r d b n h = refl
reason_values-ReasonMatches planned none d b n h = absurd (n refl)
reason_values-ReasonMatches planned (some r) d b n h = cc
reason_values-ReasonMatches paused none d b n h = absurd h
reason_values-ReasonMatches paused (some r) d b n h = tt
reason_values-ReasonMatches completed none d b n h = absurd h
reason_values-ReasonMatches completed (some r) d b n h = tt
reason_values-ReasonMatches aborted none d b n h = absurd h
reason_values-ReasonMatches aborted (some r) d b n h = tt

reason_values_id :
    (s : BatchStatus) (r : Option BatchStopReason) (d : Option Detail) (b : IngestionBatch)
    → let b' = reason_values s r d b in
      (b'.id ≡ b.id)
      × (b'.terms ≡ b.terms)
      × (b'.extracted_bytes_consumed ≡ b.extracted_bytes_consumed)
      × (b'.embeddings_reserved ≡ b.embeddings_reserved)
unfolding reason_values
reason_values_id s r d b = ground arith

written-Moves :
    (now : ℕ) (c : Change) (b : IngestionBatch)
    → b.status ⟶ c.new_status
    → ReasonMatches c.new_status c.reason
    → Moves b (written now c b)
unfolding written
written-Moves now c b e m =
    let (k, t, x, v) = reason_values_id c.new_status c.reason c.reason_detail b in
    record {
      edge = e;
      same_id = k;
      same_terms = t;
      same_bytes = x;
      same_embeddings = v;
      reason = reason_values-ReasonMatches c.new_status c.reason c.reason_detail b (⟶_target e) m;
    }

conditional-Moves :
    (now : ℕ) (c : Change) (b : IngestionBatch)
    → IsLegal c
    → (conditional now c b ≡ b) ⊎ Moves b (conditional now c b)
unfolding conditional
conditional-Moves now c b h = elim (Bool-cases (status_in b.status c.expected)) [
  | inl e ↦ rw e (inr (written-Moves now c b (h.edges b.status e) h.reasoned))
  | inr e ↦ rw e (inl refl)
]

-- The statement for one row of the table, whatever the other sessions do elsewhere.
apply-RowStep :
    (now id : ℕ) (c : Change) (rows : List IngestionBatch) (j : ℕ)
    → IsLegal c
    → RowStep (find j rows) (find j (apply now id c rows).0)
unfolding apply
apply-RowStep now id c rows j h =
    rw (find-modify j id (conditional now c) rows (conditional_key now c))
      (go (id == j) (find j rows))
  where
    go :
        (b : Bool) (o : Option IngestionBatch)
        → RowStep o (if b then Option.map (conditional now c) o else o)
    go true none = tt
    go true (some x) = conditional-Moves now c x h
    go false o = RowStep-refl o

abbrev Keeps : Control → Control → Type 0
Keeps s s' = (j : ℕ) → RowStep (find j s.batches) (find j s'.batches)

run-Keeps :
    (t : Clocks) (id : ℕ) (c : Change) (session : Option ℕ) (s : Control)
    → IsLegal c
    → Keeps s (run t id c session s).0
unfolding run
run-Keeps t id c session s h j = apply-RowStep t.wall id c s.batches j h

Keeps-refl : (s : Control) → Keeps s s
Keeps-refl s j = RowStep-refl (find j s.batches)

from_planned : (s : BatchStatus) → status_in s (planned ∷ []) ≡ true → s ⟶ running
from_planned planned e = begin
from_planned running e = cc
from_planned paused e = cc
from_planned completed e = cc
from_planned aborted e = cc

from_paused : (s : BatchStatus) → status_in s (paused ∷ []) ≡ true → (s ⟶ running) × (s ⟶ aborted)
from_paused paused e = (continue, give_up)
from_paused planned e = cc
from_paused running e = cc
from_paused completed e = cc
from_paused aborted e = cc

from_running :
    (s : BatchStatus) → status_in s (running ∷ []) ≡ true → (s ⟶ paused) × (s ⟶ completed)
from_running running e = (suspend, finish)
from_running planned e = cc
from_running paused e = cc
from_running completed e = cc
from_running aborted e = cc

from_either : (s : BatchStatus) → status_in s (running ∷ paused ∷ []) ≡ true → s ⟶ aborted
from_either running e = abandon
from_either paused e = give_up
from_either planned e = cc
from_either completed e = cc
from_either aborted e = cc

start-Keeps : (t : Clocks) (id : ℕ) (s : Control) → Keeps s (start t id s).0
unfolding start
start-Keeps t id s =
    run-Keeps t id _ (some t.monotonic) s (record { edges = from_planned; reasoned = refl })

pause-Keeps :
    (t : Clocks) (id : ℕ) (r : BatchStopReason) (d : Option Detail) (s : Control)
    → Keeps s (pause t id r d s).0
unfolding pause
pause-Keeps t id r d s = elim (Bool-cases (is_pause_reason r)) [
  | inl e ↦
      rw e (run-Keeps t id _ none s (record { edges = λ x q. (from_running x q).0; reasoned = tt }))
  | inr e ↦ rw e (Keeps-refl s)
]

complete-Keeps :
    (t : Clocks) (id : ℕ) (r : BatchStopReason) (d : Option Detail) (s : Control)
    → Keeps s (complete t id r d s).0
unfolding complete
complete-Keeps t id r d s = elim (Bool-cases (is_complete_reason r)) [
  | inl e ↦
      rw e (run-Keeps t id _ none s (record { edges = λ x q. (from_running x q).1; reasoned = tt }))
  | inr e ↦ rw e (Keeps-refl s)
]

abort-Keeps :
    (t : Clocks) (id : ℕ) (r : BatchStopReason) (d : Option Detail) (s : Control)
    → Keeps s (abort t id r d s).0
unfolding abort
abort-Keeps t id BatchStopReason.workspace_hard_stop d s =
    run-Keeps t id _ none s (record { edges = from_either; reasoned = tt })
abort-Keeps t id BatchStopReason.postgres_hard_stop d s =
    run-Keeps t id _ none s (record { edges = from_either; reasoned = tt })
abort-Keeps t id BatchStopReason.ollama_persistently_unreachable d s =
    run-Keeps t id _ none s (record { edges = from_either; reasoned = tt })
abort-Keeps t id BatchStopReason.safety_invariant_violation_detected d s =
    run-Keeps t id _ none s (record { edges = from_either; reasoned = tt })
abort-Keeps t id BatchStopReason.manual_abort d s =
    run-Keeps t id _ none s (record { edges = λ x q. (from_paused x q).1; reasoned = tt })
abort-Keeps t id _ d s = Keeps-refl s

-- The end of `resume` on the table that other sessions have left.
resume_on-Keeps :
    (k : GuardTier) (q : Option BatchStopReason) (d : Detail) (t : Clocks) (id : ℕ)
    (b : IngestionBatch) (s : Control)
    → Keeps s (resume_on k q d t id b s).0
unfolding resume_on
resume_on-Keeps GuardTier.normal q d t id b s =
    run-Keeps t id _ (some t.monotonic) s
      (record { edges = λ x e. (from_paused x e).0; reasoned = refl })
resume_on-Keeps GuardTier.soft_stop q d t id b s = Keeps-refl s
resume_on-Keeps GuardTier.hard_stop none d t id b s = Keeps-refl s
resume_on-Keeps GuardTier.hard_stop (some r) d t id b s = abort-Keeps t id r (some d) s

resume_read-Keeps :
    (t : Clocks) (id : ℕ) (o : Option IngestionBatch) (r : GuardResult) (s : Control)
    → Keeps s (resume_read t id o r (λ rows. rows) s).0
unfolding resume_read
resume_read-Keeps t id none r s = Keeps-refl s
resume_read-Keeps t id (some b) r s = elim (Bool-cases (status_eq b.status paused)) [
  | inl e ↦ rw e (resume_on-Keeps r.tier r.stop_reason r.detail t id b s)
  | inr e ↦ rw e (Keeps-refl s)
]

-- Each call of the service, accepted or refused, leaves the row of every batch as it was or takes it
-- along one of the six legal transitions, and then keeps its id, its write-once terms and the
-- counters of bytes and embeddings, and gives it a stop reason exactly if it is now stopped.
pub perform-RowStep :
    (t : Clocks) (c : Call) (s : Control) (j : ℕ)
    → RowStep (find j s.batches) (find j (perform t c s).0.batches)
unfolding perform
perform-RowStep t (start_call id) s = start-Keeps t id s
perform-RowStep t (pause_call id r d) s = pause-Keeps t id r d s
perform-RowStep t (abort_call id r d) s = abort-Keeps t id r d s
perform-RowStep t (complete_call id r d) s = complete-Keeps t id r d s
perform-RowStep t (resume_call id free_at g) s =
    resume_read-Keeps t id (find id s.batches) (check_before_claim free_at g) s
