-- ===== src/Dedup/Executions/Recovering.antt =====
-- What a recovery may record.
use mathlib.Core.Path.{subst}
use ai_brain.Prelude.{
  next_id, ℕ, ◌≡◌, refl, sym, ◌∙◌, ap, ◌⊎◌, inl, inr, List, [], ◌∷◌, ◌++◌, arith, All, All-append,
  append_nil, append_assoc, Bool-cases,
}
use ai_brain.Dedup.Records.{
  DedupExecutionPlanAction, DedupExecutionActionAudit, DedupExecutionActionResult, not_attempted,
  unknown, audit_keyed,
}
use ai_brain.Dedup.Exec.{
  Error, duplicate_action_result, already_finalized, Result, ok, err, Sys, Exec, continue, handled,
  catch, ◌>>=◌,
}
use ai_brain.Dedup.Os.{Os, actions}
use ai_brain.Dedup.Os.Reading.{Reads, Reads-gets, Reads-guard, Reads-pure, Reads-raise, reads_rules}
use ai_brain.Dedup.Plans.{FileObservation}
use ai_brain.Dedup.Plans.Reading.{observe_file-Reads}
use ai_brain.Dedup.Executions.{
  Report, audit_row, add_audit, recovery_report, confirmed_unchanged, record_action_result,
  complete_execution, get_execution_or_raise, claim_for_recovery, skip_duplicate, recover_actions,
  accept_finalized, recover_stale_execution,
}
use ai_brain.Dedup.Executions.Recording.{
  record_of_Ready, record_refused, record_action_result-Ready,
}

abbrev pub IsCautious : DedupExecutionActionResult → Type 0
IsCautious r = (r ≡ not_attempted) ⊎ (r ≡ unknown)

-- Only audits of actions that were not attempted or have an unknown outcome are appended.
abbrev pub Appended : List DedupExecutionActionAudit → List DedupExecutionActionAudit → Type 0
Appended before after =
    (new : List DedupExecutionActionAudit) × (after ≡ before ++ new)
    × All (λ a. IsCautious a.result) new

record Appends {W A : Type 0} (m : Exec W A) : Type 0 where
  run : (s : Sys W) → Appended s.db.audits (m s).1.db.audits

Appended-refl : (rows : List DedupExecutionActionAudit) → Appended rows rows
Appended-refl rows = ([], sym (append_nil rows), tt)

Appended-trans :
    (a b c : List DedupExecutionActionAudit) → Appended a b → Appended b c → Appended a c
Appended-trans a b c (xs, p, h) (ys, q, k) =
    (xs ++ ys, q ∙ ap (λ rows. rows ++ ys) p ∙ append_assoc a xs ys, All-append _ xs ys h k)

module _ {W A : Type 0} where
  Appends-Reads : (m : Exec W A) → Reads m → Appends m
  Appends-Reads m r = record {
    run = λ s.
        let (w, q) = r.at s in
        subst (Appended s.db.audits) (sym (ap (λ t. t.db.audits) q)) (Appended-refl _);
  }

  Appends-catch :
      (m : Exec W A) (f : Error → Exec W A)
      → Appends m
      → ((e : Error) → Appends (f e))
      → Appends (catch m f)
  unfolding actions
  Appends-catch m f h k = record { run = λ s. go s (m s) (h.run s) }
    where
      go :
          (s : Sys W) (out : Result A × Sys W)
          → Appended s.db.audits out.1.db.audits
          → Appended s.db.audits (handled out.0 f out.1).1.db.audits
      go s (ok a, t) c = c
      go s (err e, t) c = Appended-trans _ _ _ c ((k e).run t)

module _ {W A B : Type 0} where
  Appends-bind :
      (m : Exec W A) (f : A → Exec W B) → Appends m → ((a : A) → Appends (f a)) → Appends (m >>= f)
  unfolding actions
  Appends-bind m f h k = record { run = λ s. go s (m s) (h.run s) }
    where
      go :
          (s : Sys W) (out : Result A × Sys W)
          → Appended s.db.audits out.1.db.audits
          → Appended s.db.audits (continue out.0 f out.1).1.db.audits
      go s (ok a, t) c = Appended-trans _ _ _ c ((k a).run t)
      go s (err e, t) c = c

module _ {W : Type 0} where
  record-Appends :
      (id plan_action_id : ℕ) (r : Report)
      → IsCautious r.result
      → Appends {W = W} (record_action_result id plan_action_id r)
  record-Appends id i r h = record { run = λ s. go s (record_action_result id i r s) refl }
    where
      go :
          (s : Sys W) (out : Result (Unit {0}) × Sys W)
          → record_action_result id i r s ≡ out
          → Appended s.db.audits (record_action_result id i r s).1.db.audits
      go s (err e, t) q =
          subst (λ t. Appended s.db.audits t.db.audits)
            (sym (record_refused id i r s e (ap (λ o. o.0) q))) (Appended-refl _)
      go s (ok u, t) q =
          let (p, ready, c) = record_action_result-Ready id i r s (ap (λ o. o.0) q) in
          subst (λ o. Appended s.db.audits o.1.db.audits) (sym (record_of_Ready id i p r s ready c))
            (unfold add_audit in (audit_row (next_id s.db.audits) id p r ∷ [], refl, (h, tt)))

  complete-Appends : (now id : ℕ) → Appends {W = W} (complete_execution now id)
  unfolding complete_execution get_execution_or_raise actions
  complete-Appends now id = record {
    run = λ s.
        let q : (complete_execution now id s).1.db.audits ≡ s.db.audits = ground arith in
        subst (Appended s.db.audits) (sym q) (Appended-refl _);
  }

module _ {W : Type 0} (sys : Os W) where
  claim-Appends : (now id : ℕ) → Appends (claim_for_recovery sys now id)
  unfolding claim_for_recovery get_execution_or_raise actions
  claim-Appends now id = record {
    run = λ s.
        let q : (claim_for_recovery sys now id s).1.db.audits ≡ s.db.audits = ground arith in
        subst (Appended s.db.audits) (sym q) (Appended-refl _);
  }

  accept_finalized-Reads : (id : ℕ) (e : Error) → Reads (accept_finalized sys id e)
  unfolding accept_finalized
  accept_finalized-Reads id already_finalized = search reads_rules
  accept_finalized-Reads id e = Reads-raise e

  accept-Appends : (id : ℕ) (e : Error) → Appends (accept_finalized sys id e)
  accept-Appends id e = Appends-Reads _ (accept_finalized-Reads id e)

  recovery_report-IsCautious :
      (p : DedupExecutionPlanAction) (seen : FileObservation)
      → IsCautious (recovery_report p seen).result
  unfolding recovery_report
  recovery_report-IsCautious p seen = elim (Bool-cases (confirmed_unchanged p seen)) [
    | inl q ↦ rw q (inl refl)
    | inr q ↦ rw q (inr refl)
  ]

  skip-Appends : (e : Error) → Appends (skip_duplicate sys e)
  unfolding skip_duplicate
  skip-Appends duplicate_action_result = Appends-Reads _ (Reads-pure tt)
  skip-Appends e = Appends-Reads _ (Reads-raise e)

  recover_actions-Appends :
      (id : ℕ) (ps : List DedupExecutionPlanAction) → Appends (recover_actions sys id ps)
  unfolding recover_actions
  recover_actions-Appends id [] = Appends-Reads _ (Reads-pure tt)
  recover_actions-Appends id (p ∷ ps) =
      Appends-bind _ _ (Appends-Reads _ (observe_file-Reads sys p.source_path)) λ seen.
        Appends-bind _ _
          (Appends-catch _ _ (record-Appends id p.id _ (recovery_report-IsCautious p seen))
            skip-Appends)
          λ _. recover_actions-Appends id ps

  -- A recovery, whether it returns or raises, only appends audits of actions that were not attempted or
  -- whose outcome is unknown: it never claims that a file was moved.
  pub recover_stale_execution-Appended :
      (now later id : ℕ) (s : Sys W)
      → Appended s.db.audits (recover_stale_execution sys now later id s).1.db.audits
  unfolding recover_stale_execution
  recover_stale_execution-Appended now later id s =
      (Appends-bind _ _ (claim-Appends now id) λ e.
          Appends-bind _ _ (Appends-Reads _ (Reads-gets _)) λ todo.
            Appends-bind _ _ (Appends-Reads _ (Reads-guard _ _)) λ _.
              Appends-bind _ _ (recover_actions-Appends id todo)
                λ _. Appends-catch _ _ (complete-Appends later id) (accept-Appends id)).run
        s
