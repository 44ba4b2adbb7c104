-- ===== src/Dedup/Changes/Operations.antt =====
-- Each operation of the pipeline makes only the writes of Dedup/Changes.antt, in every world and
-- whether it returns or raises.
use ai_brain.Prelude.{
  ℕ, ◌≡◌, refl, String, Bool, true, false, not, Option, none, some, List, [], ◌∷◌, arith, is_none,
  is_some, find, find_key, ap, ◌∙◌,
}
use ai_brain.Dedup.Records.{
  Document, DuplicateReview, DedupExecutionActionResult, audit_keyed, approved, rejected,
  review_keyed, plan_keyed, plan_action_keyed, authorization_keyed, execution_keyed,
}
use ai_brain.Dedup.Os.{Os}
use ai_brain.Dedup.Os.Reading.{Reads, Reads-pure, Reads-bind, reads_rules}
use ai_brain.Dedup.Reviews.{get_review_or_raise, validate_canonical, approve_review, reject_review}
use ai_brain.Dedup.Plans.{generate_plan_for_review, observe_all}
use ai_brain.Dedup.Plans.Reading.{observe_file-Reads, check_plan_validity-Reads}
use ai_brain.Dedup.Authorizations.{authorize_plan, revoke_authorization}
use ai_brain.Dedup.Executions.{
  Report, get_execution_or_raise, execution_for, start_execution, record_action_result,
  complete_execution, claim_for_recovery,
}
use ai_brain.Dedup.Executor.{claim_execution}
use ai_brain.Dedup.Reconciliations.{reconcile_action}
use ai_brain.Dedup.Changes.{
  decided, planned, authorized, revoking, started, claimed, recovering, audited, concluded,
  reconciled, Writes, Writes-From, Writes-Reads, From-Reads, From-gets, From-row, From-required,
  From-guard, From-commit, From-end,
}

of_not : (b : Bool) → not b ≡ true → b ≡ false
of_not b h = ground arith

absent : {A : Type 0} (o : Option A) → not (is_some o) ≡ true → o ≡ none
absent none h = refl
absent (some a) h = cc

absent_none : {A : Type 0} (o : Option A) → is_none o ≡ true → o ≡ none
absent_none none h = refl
absent_none (some a) h = cc

module _ {W : Type 0} where
  validate_canonical-Reads :
      (r : DuplicateReview) (canonical : Option String) (ids : List String)
      → Reads {W = W} (validate_canonical r canonical ids)
  unfolding validate_canonical
  validate_canonical-Reads r none ids = search reads_rules
  validate_canonical-Reads r (some id) ids = search reads_rules

  pub approve_review-Writes :
      (now id : ℕ) (canonical decision : Option String)
      → Writes {W = W} (approve_review now id canonical decision)
  unfolding approve_review get_review_or_raise
  approve_review-Writes now id canonical decision = Writes-From _ λ db. From-row db _ _ _ λ r found.
      From-guard db _ _ _ λ is_pending. From-gets db _ _ (
        From-Reads db _ _ (search reads_rules) λ _.
          From-Reads db _ _ (validate_canonical-Reads r canonical _) λ _.
            From-end db _
              (decided id now approved (λ _. canonical) decision r found is_pending refl))

  pub reject_review-Writes :
      (now id : ℕ) (decision : Option String) → Writes {W = W} (reject_review now id decision)
  unfolding reject_review get_review_or_raise
  reject_review-Writes now id decision = Writes-From _ λ db. From-row db _ _ _ λ r found.
      From-guard db _ _ _ λ is_pending. From-end db _ (
        decided id now rejected (λ r. r.human_selected_canonical_document_id) decision r found
          is_pending refl)

  pub record_action_result-Writes :
      (id plan_action_id : ℕ) (r : Report)
      → Writes {W = W} (record_action_result id plan_action_id r)
  unfolding record_action_result get_execution_or_raise
  record_action_result-Writes id plan_action_id r = Writes-From _ λ db. From-row db _ _ _ λ e found.
      From-guard db _ _ _ λ runs. From-gets db _ _ (
        From-required db _ _ _ λ p planned. From-guard db _ _ _ λ same_plan. From-gets db _ _ (
          From-guard db _ _ _ λ fresh. From-guard db _ _ _ λ ok. From-end db _ (
            audited id plan_action_id p r
              (record {
                execution = e;
                found = found;
                runs = runs;
                planned = planned;
                same_plan = same_plan;
                fresh = of_not _ fresh;
              })
              ok)))

  pub complete_execution-Writes : (now id : ℕ) → Writes {W = W} (complete_execution now id)
  unfolding complete_execution get_execution_or_raise
  complete_execution-Writes now id = Writes-From _ λ db. From-row db _ _ _ λ e found.
      From-guard db _ _ _ λ runs. From-gets db _ _ (
        From-gets db _ _
          (From-guard db _ _ _ λ same. From-end db _ (concluded now id e found runs same)))

module _ {W : Type 0} (sys : Os W) where
  pub revoke_authorization-Writes :
      (now id : ℕ) (reason : Option String) → Writes (revoke_authorization sys now id reason)
  unfolding revoke_authorization
  revoke_authorization-Writes now id reason = Writes-From _ λ db. From-gets db _ _ (
      From-required db _ _ _
        λ a found. From-guard db _ _ _ λ stands. From-end db _ (revoking now id reason))

  pub authorize_plan-Writes :
      (now plan_id : ℕ) (by : Option String) → Writes (authorize_plan sys now plan_id by)
  unfolding authorize_plan
  authorize_plan-Writes now plan_id by = Writes-From _ λ db. From-gets db _ _ (
      From-required db _ _ _ λ plan found. From-gets db _ _ (
        From-required db _ _ _ λ r found_review. From-guard db _ _ _ λ is_approved.
          From-gets db _ _ (
            From-guard db _ _ _ λ none_active.
              From-Reads db _ _ (check_plan_validity-Reads sys plan_id) λ v.
                From-guard db _ _ _ λ valid. From-gets db _ _ (
                  From-commit db _ _ (authorized now plan_id by (absent _ none_active))
                    (Writes-Reads _ (Reads-pure _))))))

  pub start_execution-Writes :
      (now authorization_id : ℕ) (by : Option String)
      → Writes (start_execution sys now authorization_id by)
  unfolding start_execution
  start_execution-Writes now authorization_id by = Writes-From _ λ db. From-gets db _ _ (
      From-required db _ _ _ λ a found. From-guard db _ _ _ λ stands. From-gets db _ _ (
        From-guard db _ _ _ λ unused.
          From-Reads db _ _ (check_plan_validity-Reads sys a.plan_id) λ v.
            From-guard db _ _ _ λ valid. From-gets db _ _ (
              From-commit db _ _
                (started now authorization_id by a found stands (
                  ap (λ i. execution_for i db.executions)
                    (find_key authorization_id a db.authorizations found)
                  ∙ absent_none _ unused))
                (Writes-Reads _ (Reads-pure _)))))

  observe_all-Reads : (ds : List Document) → Reads (observe_all sys ds)
  unfolding observe_all
  observe_all-Reads [] = search reads_rules
  observe_all-Reads (d ∷ ds) =
      Reads-bind _ _ (observe_file-Reads sys d.source)
        λ seen. Reads-bind _ _ (observe_all-Reads ds) λ rest. Reads-pure _

  pub generate_plan_for_review-Writes :
      (review_id : ℕ) → Writes (generate_plan_for_review sys review_id)
  unfolding generate_plan_for_review
  generate_plan_for_review-Writes review_id = Writes-From _ λ db. From-gets db _ _ (
      From-required db _ _ _ λ r found. From-guard db _ _ _ λ is_approved.
        From-required db _ _ _ λ chosen _. From-gets db _ _ (
          From-gets db _ _ (
            From-guard db _ _ _ λ _. From-required db _ _ _ λ canonical _.
              From-Reads db _ _ (observe_all-Reads _) λ observations. From-guard db _ _ _ λ _.
                From-Reads db _ _ (observe_file-Reads sys _) λ seen. From-gets db _ _ (
                  From-commit db _ _
                    (planned r canonical seen _ observations
                      (ap (λ i. find i db.reviews) (find_key review_id r db.reviews found) ∙ found)
                      is_approved)
                    (Writes-Reads _ (Reads-pure _))))))

  pub claim_execution-Writes : (now id : ℕ) → Writes (claim_execution sys now id)
  unfolding claim_execution get_execution_or_raise
  claim_execution-Writes now id = Writes-From _ λ db. From-row db _ _ _ λ e found.
      From-guard db _ _ _ λ runs. From-guard db _ _ _ λ unclaimed.
        From-commit db _ _ (claimed now id e found runs (absent_none _ unclaimed))
          (Writes-Reads _ (search reads_rules))

  pub claim_for_recovery-Writes : (now id : ℕ) → Writes (claim_for_recovery sys now id)
  unfolding claim_for_recovery get_execution_or_raise
  claim_for_recovery-Writes now id = Writes-From _ λ db. From-row db _ _ _ λ e found.
      From-guard db _ _ _ λ runs. From-guard db _ _ _ λ unclaimed.
        From-commit db _ _ (recovering now id e found runs (absent_none _ unclaimed))
          (Writes-Reads _ (search reads_rules))

  pub reconcile_action-Writes :
      (now audit_id : ℕ) (verified : DedupExecutionActionResult) (by method : String)
      → Writes (reconcile_action sys now audit_id verified by method)
  unfolding reconcile_action
  reconcile_action-Writes now audit_id verified by method = Writes-From _ λ db.
      From-guard db _ _ _ λ definite. From-gets db _ _ (
        From-required db _ _ _ λ audit found. From-guard db _ _ _ λ is_unknown. From-gets db _ _ (
          From-guard db _ _ _ λ fresh.
            From-Reads db _ _ (observe_file-Reads sys audit.source_path) λ seen.
              From-guard db _ _ _ λ agreed. From-gets db _ _ (
                From-commit db _ _
                  (reconciled now audit_id verified by method audit seen definite found is_unknown
                    (absent_none _ fresh) agreed)
                  (Writes-Reads _ (Reads-pure _)))))
