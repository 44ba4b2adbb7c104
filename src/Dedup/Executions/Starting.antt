-- ===== src/Dedup/Executions/Starting.antt =====
-- When an execution starts.
use ai_brain.Prelude.{
  next_id, ℕ, ◌≡◌, refl, ap, String, true, Option, none, some, inl, inr, Bool-cases, Option-cases,
  find,
}
use ai_brain.Dedup.Records.{DedupPlanAuthorization, authorization_keyed, execution_keyed}
use ai_brain.Dedup.Exec.{
  Error, authorization_not_found, not_authorized, already_executed, plan_not_valid, Result, ok, err,
  Sys,
}
use ai_brain.Dedup.Os.{Os, actions}
use ai_brain.Dedup.Plans.{PlanValidity, check_plan_validity}
use ai_brain.Dedup.Plans.Reading.{check_plan_validity-Reads}
use ai_brain.Dedup.Authorizations.{is_authorized}
use ai_brain.Dedup.Executions.{execution_for, add_execution, start_execution}

module _ {W : Type 0} (sys : Os W) (now authorization_id : ℕ) (by : Option String) (s : Sys W) where
  -- Either the new execution is the only write and every gate was passed, or nothing is written.
  pub data Started (out : Result ℕ × Sys W) : Type 0 where
    granted :
        (a : DedupPlanAuthorization) (v : PlanValidity) (t : Sys W)
        → find authorization_id s.db.authorizations ≡ some a
        → is_authorized a.status ≡ true
        → execution_for authorization_id s.db.executions ≡ none
        → check_plan_validity sys a.plan_id s ≡ (ok v, t)
        → v.is_valid ≡ true
        → out ≡ (ok (next_id s.db.executions), record t { db = add_execution now a by s.db })
        → Started out
    refused : (x : Error) (t : Sys W) → out ≡ (err x, t) → t.db ≡ s.db → Started out

  checked :
      (a : DedupPlanAuthorization)
      → find authorization_id s.db.authorizations ≡ some a
      → is_authorized a.status ≡ true
      → execution_for authorization_id s.db.executions ≡ none
      → (out : Result PlanValidity × Sys W) → check_plan_validity sys a.plan_id s ≡ out
      → out.1.db ≡ s.db
      → Started (start_execution sys now authorization_id by s)
  unfolding start_execution actions
  checked a e q u (err x, t) c d = rw (e, q, u, c) (refused x t refl d)
  checked a e q u (ok v, t) c d = elim (Bool-cases v.is_valid) [
    | inl valid ↦ rw (e, q, u, c, valid, d) (granted a v t e q u c valid refl)
    | inr invalid ↦ rw (e, q, u, c, invalid) (refused plan_not_valid t refl d)
  ]

  -- Starting an execution either finds the authorization, AUTHORIZED and not consumed, and its plan
  -- valid by a check of the files at that moment, and then inserts one new execution and returns its
  -- id; or it raises and writes nothing.
  pub start_execution-Started : Started (start_execution sys now authorization_id by s)
  unfolding start_execution actions
  start_execution-Started = elim (Option-cases (find authorization_id s.db.authorizations)) [
    | inl e ↦ rw e (refused authorization_not_found s refl refl)
    | inr (a, e) ↦ elim (Bool-cases (is_authorized a.status)) [
      | inr q ↦ rw (e, q) (refused not_authorized s refl refl)
      | inl q ↦ elim (Option-cases (execution_for authorization_id s.db.executions)) [
        | inr (x, u) ↦ rw (e, q, u) (refused already_executed s refl refl)
        | inl u ↦
            let (w, d) = (check_plan_validity-Reads sys a.plan_id).at s in
            checked a e q u (check_plan_validity sys a.plan_id s) refl (ap (λ t. t.db) d)
      ]
    ]
  ]
