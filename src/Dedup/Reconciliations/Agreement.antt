-- ===== src/Dedup/Reconciliations/Agreement.antt =====
-- When an unknown outcome is reconciled.
use ai_brain.Prelude.{
  next_id, ℕ, ◌≡◌, refl, sym, ap, ◌∙◌, ◌↔◌, String, true, false, opt_eq, arith, [], ◌∷◌, ◌++◌, none,
  some, inl, inr, Bool-cases, Option-cases, find,
}
use mathlib.Core.Option.{some_inj}
use mathlib.Core.Path.{subst}
use ai_brain.Dedup.Records.{
  DedupExecutionActionResult, success, failed_action, precondition_failed, not_attempted, unknown,
  DedupExecutionActionAudit, audit_keyed, reconciliation_keyed,
}
use ai_brain.Dedup.Exec.{
  Error, not_reconcilable, audit_not_found, not_unknown, already_reconciled, disagrees, Result, ok,
  err, Sys,
}
use ai_brain.Dedup.Os.{Os, actions}
use ai_brain.Paths.{codes, path_of}
use ai_brain.Dedup.Executor.Yielding.{value_or, ObservedFile, observe_path-Yields}
use ai_brain.Dedup.Plans.{FileObservation, opt_text_eq, observe_file}
use ai_brain.Dedup.Plans.Reading.{observe_file-Reads}
use ai_brain.Dedup.Reconciliations.{
  is_reconcilable, is_unknown_result, get_reconciliation, agrees, add_reconciliation,
  reconcile_action,
}

-- What is there agrees with what a human reports: a success with a file that was not seen, and a failure
-- with a file that was seen with the hash and the size of the plan.
abbrev pub Fits : DedupExecutionActionResult → DedupExecutionActionAudit → FileObservation → Type 0
Fits success audit seen = seen.exists ≡ false
Fits failed_action audit seen =
    (seen.exists ≡ true)
    × (opt_text_eq seen.content_hash audit.expected_content_hash ≡ true)
    × (opt_eq seen.file_size audit.expected_file_size ≡ true)
Fits _ audit seen = ⊥

agrees-Fits :
    (verified : DedupExecutionActionResult) (audit : DedupExecutionActionAudit)
    (seen : FileObservation)
    → is_reconcilable verified ≡ true
    → (agrees verified audit seen ≡ true) ↔ Fits verified audit seen
unfolding agrees
agrees-Fits success audit seen r = ground arith
agrees-Fits failed_action audit seen r = ground arith
agrees-Fits precondition_failed audit seen r = absurd cc
agrees-Fits not_attempted audit seen r = absurd cc
agrees-Fits unknown audit seen r = absurd cc

module _ {W : Type 0} (sys : Os W) (now audit_id : ℕ) (verified : DedupExecutionActionResult)
    (by method : String) (s : Sys W) where
  -- Either one reconciliation is the only write and every check was passed, or nothing is written.
  pub data Reconciled (out : Result ℕ × Sys W) : Type 0 where
    agreed :
        (audit : DedupExecutionActionAudit) (seen : FileObservation) (t : Sys W)
        → is_reconcilable verified ≡ true
        → find audit_id s.db.audits ≡ some audit
        → is_unknown_result audit.result ≡ true
        → get_reconciliation audit_id s.db.reconciliations ≡ none
        → observe_file sys audit.source_path s ≡ (ok seen, t)
        → ObservedFile sys (path_of (codes audit.source_path)) seen
        → Fits verified audit seen
        → out ≡ (
          ok (next_id s.db.reconciliations),
          record t {
            db = record s.db {
              reconciliations =
                  s.db.reconciliations
                  ++ record {
                    id = next_id s.db.reconciliations;
                    audit_id = audit_id;
                    verified_result = verified;
                    verified_by = by;
                    verification_method = method;
                    observed_content_hash = seen.content_hash;
                    observed_file_size = seen.file_size;
                    verified_at = now;
                  }
                    ∷ [];
            };
          },
        )
        → Reconciled out
    refused :
        (x : Error) (t : Sys W)
        → out ≡ (err x, t)
        → t.db ≡ s.db
        → ((audit : DedupExecutionActionAudit) (seen : FileObservation) (u : Sys W)
            → is_reconcilable verified ≡ true
            → find audit_id s.db.audits ≡ some audit
            → is_unknown_result audit.result ≡ true
            → get_reconciliation audit_id s.db.reconciliations ≡ none
            → observe_file sys audit.source_path s ≡ (ok seen, u)
            → Fits verified audit seen
            → ⊥)
        → Reconciled out

  observed :
      (audit : DedupExecutionActionAudit)
      → is_reconcilable verified ≡ true
      → find audit_id s.db.audits ≡ some audit
      → is_unknown_result audit.result ≡ true
      → get_reconciliation audit_id s.db.reconciliations ≡ none
      → (out : Result FileObservation × Sys W) → observe_file sys audit.source_path s ≡ out
      → out.1.db ≡ s.db
      → Reconciled (reconcile_action sys now audit_id verified by method s)
  unfolding reconcile_action actions add_reconciliation observe_file
  observed audit v f u n (err x, t) c d =
      rw (v, f, u, n, c)
        (refused x t refl d (λ audit' seen' u' v' f' k' n' c' a'.
          let same : audit ≡ audit' = some_inj.0 (sym f ∙ f') in
          let clash : err x ≡ ok seen' =
            ap (λ r. r.0) (sym c ∙ ap (λ y. observe_file sys y.source_path s) same ∙ c') in
          absurd cc))
  observed audit v f u n (ok seen, t) c d = elim (Bool-cases (agrees verified audit seen)) [
    | inl a ↦
        rw (v, f, u, n, c, a, d)
          (agreed audit seen t v f u n c
            (observe_path-Yields sys (path_of (codes audit.source_path)) s seen (ap (λ r. r.0) c))
            ((agrees-Fits verified audit seen v).0 a) refl)
    | inr a ↦
        rw (v, f, u, n, c, a)
          (refused disagrees t refl d (λ audit' seen' u' v' f' k' n' c' a'.
            let same : audit ≡ audit' = some_inj.0 (sym f ∙ f') in
            let o : (ok seen, t) ≡ (ok seen', u') =
              sym c ∙ ap (λ y. observe_file sys y.source_path s) same ∙ c' in
            let fits = subst (λ y. Fits verified y seen') (sym same) a' in
            let fits' =
              subst (λ y. Fits verified audit y) (sym (ap (λ r. value_or seen r.0) o)) fits in
            let yes' = (agrees-Fits verified audit seen v).1 fits' in absurd cc))
  ]

  -- Either one reconciliation is appended with what was observed, as the only write, or the call raises
  -- and writes nothing. The first exactly with SUCCESS or FAILED, for an audit whose outcome is UNKNOWN and
  -- that has no reconciliation: with SUCCESS if at the source path no file was found or the file could
  -- not be read, and with FAILED if a file was read there with the expected hash and size.
  pub reconcile_action-Reconciled :
      Reconciled (reconcile_action sys now audit_id verified by method s)
  unfolding reconcile_action actions
  reconcile_action-Reconciled = elim (Bool-cases (is_reconcilable verified)) [
    | inr v ↦
        rw v (refused not_reconcilable s refl refl (λ audit' seen' u' v' f' k' n' c' a'. absurd cc))
    | inl v ↦ elim (Option-cases (find audit_id s.db.audits)) [
      | inl f ↦
          rw (v, f)
            (refused audit_not_found s refl refl (λ audit' seen' u' v' f' k' n' c' a'. absurd cc))
      | inr (audit, f) ↦ elim (Bool-cases (is_unknown_result audit.result)) [
        | inr u ↦
            rw (v, f, u)
              (refused not_unknown s refl refl (λ audit' seen' u' v' f' k' n' c' a'.
                let same : audit ≡ audit' = some_inj.0 (sym f ∙ f') in
                let k = subst (λ y. is_unknown_result y.result ≡ true) (sym same) k' in absurd cc))
        | inl u ↦ elim (Option-cases (get_reconciliation audit_id s.db.reconciliations)) [
          | inr (r, n) ↦
              rw (v, f, u, n)
                (refused already_reconciled s refl refl
                  (λ audit' seen' u' v' f' k' n' c' a'. absurd cc))
          | inl n ↦
              let (w, d) = (observe_file-Reads sys audit.source_path).at s in
              observed audit v f u n (observe_file sys audit.source_path s) refl (ap (λ t. t.db) d)
        ]
      ]
    ]
  ]
