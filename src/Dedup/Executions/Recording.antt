-- ===== src/Dedup/Executions/Recording.antt =====
-- Recording one action: when a report is taken, and what it may say.
use ai_brain.Prelude.{
  ℕ, ◌≡◌, refl, sym, ap, ◌∙◌, ◌↔◌, Bool, true, false, Option, none, some, is_some, [], ◌∷◌, ◌++◌,
  next_id, arith, ◌==◌, find, Option-cases, inl, inr,
}
use ai_brain.Dedup.Records.{
  Database, DedupExecutionPlanAction, DedupExecution, DedupExecutionActionResult, success,
  failed_action, precondition_failed, not_attempted, unknown, audit_keyed, plan_action_keyed,
  execution_keyed,
}
use ai_brain.Dedup.Exec.{Sys, Result, ok, err, Error}
use ai_brain.Dedup.Os.{actions}
use ai_brain.Dedup.Executions.{
  is_running, is_consistent, audited, audit_row, add_audit, Report, record_action_result,
  get_execution_or_raise,
}

-- The execution is running, the action is one of its plan's, and it has no audit yet.
pub record Ready (db : Database) (execution_id plan_action_id : ℕ) (p : DedupExecutionPlanAction)
    : Type 0 where
  pub execution : DedupExecution
  pub found : find execution_id db.executions ≡ some execution
  pub runs : is_running execution.status ≡ true
  pub planned : find plan_action_id db.plan_actions ≡ some p
  pub same_plan : (p.plan_id == execution.plan_id) ≡ true
  pub fresh : audited execution_id plan_action_id db.audits ≡ false

module _ {W : Type 0} where
  pub record_of_Ready :
      (execution_id plan_action_id : ℕ) (p : DedupExecutionPlanAction) (r : Report) (s : Sys W)
      → Ready s.db execution_id plan_action_id p
      → is_consistent r.result r.filesystem_mutation_occurred r.ended_at ≡ true
      → record_action_result execution_id plan_action_id r s
        ≡ (ok tt, record s { db = add_audit execution_id p r s.db })
  unfolding record_action_result get_execution_or_raise actions
  record_of_Ready execution_id plan_action_id p r s h c =
      rw (h.found, h.runs, h.planned, h.same_plan, h.fresh, c) refl

  -- A report that is refused changes nothing.
  pub record_refused :
      (execution_id plan_action_id : ℕ) (r : Report) (s : Sys W) (e : Error)
      → (record_action_result execution_id plan_action_id r s).0 ≡ err e
      → (record_action_result execution_id plan_action_id r s).1 ≡ s
  unfolding record_action_result get_execution_or_raise actions
  record_refused execution_id plan_action_id r s e h = ground arith

  pub record_action_result-Ready :
      (execution_id plan_action_id : ℕ) (r : Report) (s : Sys W)
      → (record_action_result execution_id plan_action_id r s).0 ≡ ok tt
      → (p : DedupExecutionPlanAction) × Ready s.db execution_id plan_action_id p
        × (is_consistent r.result r.filesystem_mutation_occurred r.ended_at ≡ true)
  unfolding record_action_result get_execution_or_raise actions
  record_action_result-Ready execution_id plan_action_id r s h =
      elim (Option-cases (find execution_id s.db.executions)) [
        | inl e ↦ absurd (ground arith)
        | inr (x, e) ↦ elim (Option-cases (find plan_action_id s.db.plan_actions)) [
          | inl f ↦ absurd (ground arith)
          | inr (p, f) ↦ (
            p,
            record {
              execution = x;
              found = e;
              runs = ground arith;
              planned = f;
              same_plan = ground arith;
              fresh = ground arith;
            },
            ground arith,
          )
        ]
      ]

-- What a result may be reported with, by what the result means.
abbrev pub Consistent : DedupExecutionActionResult → Option Bool → Option ℕ → Type 0
Consistent success m ended = m ≡ some true
Consistent failed_action m ended = is_some m ≡ true
Consistent precondition_failed m ended = m ≡ some false
Consistent not_attempted m ended = m ≡ some false
Consistent unknown m ended = (m ≡ none) × (ended ≡ none)

is_consistent-Consistent :
    (k : DedupExecutionActionResult) (m : Option Bool) (ended : Option ℕ)
    → (is_consistent k m ended ≡ true) ↔ Consistent k m ended
unfolding is_consistent
is_consistent-Consistent success m ended = ground arith
is_consistent-Consistent failed_action m ended = ground arith
is_consistent-Consistent precondition_failed m ended = ground arith
is_consistent-Consistent not_attempted m ended = ground arith
is_consistent-Consistent unknown m ended = ground arith

-- The report is of an action of the running execution's plan that has no audit yet, and its result and
-- mutation fit.
pub record Takes (db : Database) (execution_id plan_action_id : ℕ) (r : Report)
    (p : DedupExecutionPlanAction) : Type 0 where
  pub ready : Ready db execution_id plan_action_id p
  pub fits : Consistent r.result r.filesystem_mutation_occurred r.ended_at

-- Either the report is taken, and exactly one audit is appended, of the planned action and with what was
-- reported; or it could not be taken, and nothing is written.
pub data Recorded {W : Type 0} (execution_id plan_action_id : ℕ) (r : Report) (s : Sys W)
    (out : Result (Unit {0}) × Sys W) : Type 0 where
  accepted :
      (p : DedupExecutionPlanAction)
      → Takes s.db execution_id plan_action_id r p
      → out ≡ (
        ok tt,
        record s {
          db = record s.db {
            audits = s.db.audits ++ audit_row (next_id s.db.audits) execution_id p r ∷ [];
          };
        },
      )
      → Recorded execution_id plan_action_id r s out
  refused :
      (e : Error)
      → out ≡ (err e, s)
      → ((p : DedupExecutionPlanAction) → Takes s.db execution_id plan_action_id r p → ⊥)
      → Recorded execution_id plan_action_id r s out

-- A report is taken exactly when the execution is there and RUNNING, the plan action is there and of its
-- plan, the two have no audit yet, and the result fits the reported mutation (a success did mutate, a
-- failed precondition and an action that was not attempted did not, a failure says which, and an unknown
-- outcome says neither that nor an end). Then one audit is appended and nothing else is written; every
-- other report raises and writes nothing.
pub record_action_result-Recorded :
    {W : Type 0} (execution_id plan_action_id : ℕ) (r : Report) (s : Sys W)
    → Recorded execution_id plan_action_id r s
        (record_action_result execution_id plan_action_id r s)
unfolding add_audit
record_action_result-Recorded {W = W} execution_id plan_action_id r s =
    split (record_action_result execution_id plan_action_id r s) refl
  where
    fit :
        (is_consistent r.result r.filesystem_mutation_occurred r.ended_at ≡ true)
        ↔ Consistent r.result r.filesystem_mutation_occurred r.ended_at
    fit = is_consistent-Consistent r.result r.filesystem_mutation_occurred r.ended_at

    split :
        (out : Result (Unit {0}) × Sys W)
        → record_action_result execution_id plan_action_id r s ≡ out
        → Recorded execution_id plan_action_id r s out
    split (ok tt, t) q =
        let (p, ready, c) =
          record_action_result-Ready execution_id plan_action_id r s (ap (λ o. o.0) q) in
        accepted p (record { ready = ready; fits = fit.0 c })
          (sym q ∙ record_of_Ready execution_id plan_action_id p r s ready c)
    split (err e, t) q =
        let same = record_refused execution_id plan_action_id r s e (ap (λ o. o.0) q) in
        refused e (ap (λ x. (err e, x)) (sym (ap (λ o. o.1) q) ∙ same)) (λ p k.
          let done =
            sym q ∙ record_of_Ready execution_id plan_action_id p r s k.ready (fit.1 k.fits) in
          let clash : err e ≡ ok tt = ap (λ o. o.0) done in absurd cc)
