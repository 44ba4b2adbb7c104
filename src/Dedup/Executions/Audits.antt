-- ===== src/Dedup/Executions/Audits.antt =====
-- The audits of an execution, and the status that they add up to.
use ai_brain.Prelude.{
  ℕ, ◌≡◌, refl, ◌∙◌, sym, ap, ◌↔◌, Bool, true, false, not, none, List, [], ◌∷◌, ◌++◌, map, arith,
  ◌==◌, ==_refl, any, all, filter-append, map-append, append_assoc, append_nil, is_none, length,
}
use ai_brain.Dedup.Records.{
  Database, DedupExecutionPlanAction, completed, failed, partially_completed, needs_review,
  DedupExecutionActionResult, DedupExecutionActionAudit,
}
use ai_brain.Dedup.Executions.{
  Report, add_audit, audit_row, audits_of, is_running, verdict, first_with, is_success, is_unknown,
}

-- The audits of reports on the first actions, added in order.
abbrev pub add_audits : ℕ → List DedupExecutionPlanAction → List Report → Database → Database
add_audits id [] rs db = db
add_audits id (p ∷ ps) [] db = db
add_audits id (p ∷ ps) (r ∷ rs) db = add_audits id ps rs (add_audit id p r db)

abbrev pub results : List Report → List DedupExecutionActionResult
results = map (λ r. r.result)

-- A value read off the audits of an execution grows by that of the new row.
module _ {A : Type 0} (f : DedupExecutionActionAudit → A)
    (g : DedupExecutionPlanAction → Report → A)
    (fits : (id n : ℕ) (p : DedupExecutionPlanAction) (r : Report)
      → f (audit_row n id p r) ≡ g p r) where
  abbrev pub zipped : List DedupExecutionPlanAction → List Report → List A
  zipped [] rs = []
  zipped (p ∷ ps) [] = []
  zipped (p ∷ ps) (r ∷ rs) = g p r ∷ zipped ps rs

  audits_of-add_audit :
      (id : ℕ) (p : DedupExecutionPlanAction) (r : Report) (db : Database)
      → map f (audits_of id (add_audit id p r db)) ≡ map f (audits_of id db) ++ g p r ∷ []
  unfolding audits_of add_audit
  audits_of-add_audit id p r db =
      ap (map f) (filter-append (λ a. a.execution_id == id) db.audits _)
      ∙ map-append f (audits_of id db) _
      ∙ rw (==_refl id) (ap (λ a. map f (audits_of id db) ++ a ∷ []) (fits id _ p r))

  pub audits_of-add_audits :
      (id : ℕ) (ps : List DedupExecutionPlanAction) (rs : List Report) (db : Database)
      → map f (audits_of id (add_audits id ps rs db)) ≡ map f (audits_of id db) ++ zipped ps rs
  audits_of-add_audits id [] rs db = sym (append_nil _)
  audits_of-add_audits id (p ∷ ps) [] db = sym (append_nil _)
  audits_of-add_audits id (p ∷ ps) (r ∷ rs) db =
      audits_of-add_audits id ps rs (add_audit id p r db)
      ∙ ap (λ as'. as' ++ zipped ps rs) (audits_of-add_audit id p r db)
      ∙ append_assoc (map f (audits_of id db)) (g p r ∷ []) (zipped ps rs)

-- As many reports as actions: the audits' results are the reports', and their actions are the actions.
pub results-add_audits :
    (id : ℕ) (ps : List DedupExecutionPlanAction) (rs : List Report) (db : Database)
    → length rs ≡ length ps
    → audits_of id db ≡ []
    → map (λ a. a.result) (audits_of id (add_audits id ps rs db)) ≡ results rs
results-add_audits id ps rs db h e =
    audits_of-add_audits (λ a. a.result) (λ p r. r.result) (λ id n p r. refl) id ps rs db
    ∙ rw e (go ps rs h)
  where
    go :
        (ps : List DedupExecutionPlanAction) (rs : List Report)
        → length rs ≡ length ps
        → zipped (λ a. a.result) (λ p r. r.result) (λ id n p r. refl) ps rs ≡ results rs
    go [] [] h = refl
    go [] (r ∷ rs) h = absurd (omega (arith, h))
    go (p ∷ ps) [] h = absurd (omega (arith, h))
    go (p ∷ ps) (r ∷ rs) h = ap (λ t. r.result ∷ t) (go ps rs (omega (arith, h)))

pub actions-add_audits :
    (id : ℕ) (ps : List DedupExecutionPlanAction) (rs : List Report) (db : Database)
    → length rs ≡ length ps
    → audits_of id db ≡ []
    → map (λ a. a.plan_action_id) (audits_of id (add_audits id ps rs db)) ≡ map (λ p. p.id) ps
actions-add_audits id ps rs db h e =
    audits_of-add_audits (λ a. a.plan_action_id) (λ p r. p.id) (λ id n p r. refl) id ps rs db
    ∙ rw e (go ps rs h)
  where
    go :
        (ps : List DedupExecutionPlanAction) (rs : List Report)
        → length rs ≡ length ps
        → zipped (λ a. a.plan_action_id) (λ p r. p.id) (λ id n p r. refl) ps rs ≡ map (λ p. p.id) ps
    go [] rs h = refl
    go (p ∷ ps) [] h = absurd (omega (arith, h))
    go (p ∷ ps) (r ∷ rs) h = ap (λ t. p.id ∷ t) (go ps rs (omega (arith, h)))

-- Only the audits change.
pub add_audits_rest :
    (id : ℕ) (ps : List DedupExecutionPlanAction) (rs : List Report) (db : Database)
    → add_audits id ps rs db ≡ record db { audits = (add_audits id ps rs db).audits }
add_audits_rest id [] rs db = refl
add_audits_rest id (p ∷ ps) [] db = refl
add_audits_rest id (p ∷ ps) (r ∷ rs) db =
    add_audits_rest id ps rs (add_audit id p r db) ∙ unfold add_audit in refl

first_with_none :
    (p : DedupExecutionActionResult → Bool) (as' : List DedupExecutionActionAudit)
    → is_none (first_with p as') ≡ not (any p (map (λ a. a.result) as'))
unfolding first_with
first_with_none p [] = refl
first_with_none p (a ∷ as') = ground (arith, first_with_none p as')

all_success :
    (as' : List DedupExecutionActionAudit)
    → any (λ r. not (is_success r)) (map (λ a. a.result) as')
      ≡ not (all is_success (map (λ a. a.result) as'))
all_success [] = refl
all_success (a ∷ as') = ground (arith, all_success as')

any-map :
    (p : DedupExecutionActionResult → Bool) (as' : List DedupExecutionActionAudit)
    → any (λ a. p a.result) as' ≡ any p (map (λ a. a.result) as')
any-map p [] = refl
any-map p (a ∷ as') = ground (arith, any-map p as')

-- The status of an execution by the results of its audits: NEEDS_REVIEW exactly when one is UNKNOWN,
-- else COMPLETED exactly when all are SUCCESS, else PARTIALLY_COMPLETED or FAILED as some or none is.
-- It is never RUNNING, and it quotes an audit exactly when it is not COMPLETED.
pub verdict-status :
    (as' : List DedupExecutionActionAudit)
    → let rs = map (λ a. a.result) as' in
      (((verdict as').0 ≡ needs_review) ↔ (any is_unknown rs ≡ true))
      × (((verdict as').0 ≡ completed) ↔ ((any is_unknown rs ≡ false) × (all is_success rs ≡ true)))
      × (((verdict as').0 ≡ partially_completed) ↔ (
          (any is_unknown rs ≡ false) × (any is_success rs ≡ true) × (all is_success rs ≡ false)))
      × (((verdict as').0 ≡ failed) ↔ (
          (any is_unknown rs ≡ false) × (any is_success rs ≡ false) × (all is_success rs ≡ false)))
      × (is_running (verdict as').0 ≡ false)
      × (((verdict as').1 ≡ none) ↔ ((verdict as').0 ≡ completed))
unfolding verdict
verdict-status as' =
    let u = first_with_none is_unknown as' in
    let s = first_with_none (λ r. not (is_success r)) as' ∙ ap not (all_success as') in
    let t = any-map is_success as' in
    (ground arith, ground arith, ground arith, ground arith, ground arith, ground arith)
