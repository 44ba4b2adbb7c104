-- ===== src/Dedup/Authorizations.antt =====
-- Explicit authorization of a plan: backend/app/dedup/authorization_service.py.
use ai_brain.Prelude.{
  next_id, ℕ, String, Bool, true, false, not, ◌&&◌, Option, none, some, List, [], ◌∷◌, ◌++◌,
  if◌then◌else◌, ◌==◌, is_some, find, modify,
}
use ai_brain.Dedup.Records.{
  Database, DedupPlanAuthorization, DedupPlanAuthorizationStatus, authorized, revoked, review_keyed,
  plan_keyed, authorization_keyed,
}
use ai_brain.Dedup.Exec.{
  Exec, review_not_found, plan_not_found, review_not_approved, authorization_not_found,
  already_authorized, plan_not_valid, already_revoked, pure, gets, required, guard, commit, ◌>>=◌,
  ◌>>◌,
}
use ai_brain.Dedup.Os.{Os}
use ai_brain.Dedup.Reviews.{is_approved}
use ai_brain.Dedup.Plans.{PlanValidity, check_plan_validity}

abbrev pub is_authorized : DedupPlanAuthorizationStatus → Bool
is_authorized authorized = true
is_authorized revoked = false

-- The first AUTHORIZED authorization of a plan, consumed or not.
unfoldable pub active_authorization :
    ℕ → List DedupPlanAuthorization → Option DedupPlanAuthorization
active_authorization plan_id [] = none
active_authorization plan_id (a ∷ rest) =
    if a.plan_id == plan_id && is_authorized a.status
    then some a
    else active_authorization plan_id rest

-- `INSERT`
unfoldable pub add_authorization : ℕ → ℕ → Option String → Database → Database
add_authorization now plan_id by db = record db {
  authorizations =
      db.authorizations
      ++ record {
        id = next_id db.authorizations;
        plan_id = plan_id;
        status = authorized;
        authorized_by = by;
        authorized_at = now;
        revoked_at = none;
        revocation_reason = none;
      }
        ∷ [];
}

module _ {W : Type 0} (sys : Os W) where
  -- The id of the new authorization is returned. The snapshot of the validity is not kept.
  unfoldable pub authorize_plan : ℕ → ℕ → Option String → Exec W ℕ
  authorize_plan now plan_id by = do
    found ← gets (λ db. find plan_id db.plans)
    plan ← required plan_not_found found
    found_review ← gets (λ db. find plan.review_id db.reviews)
    review ← required review_not_found found_review
    guard (is_approved review.status) review_not_approved
    active ← gets (λ db. active_authorization plan_id db.authorizations)
    guard (not (is_some active)) already_authorized
    validity ← check_plan_validity sys plan_id
    guard validity.is_valid plan_not_valid
    id ← gets (λ db. next_id db.authorizations)
    commit (add_authorization now plan_id by)
    pure id

  unfoldable pub revoke_authorization : ℕ → ℕ → Option String → Exec W (Unit {0})
  revoke_authorization now authorization_id reason = do
    found ← gets (λ db. find authorization_id db.authorizations)
    a ← required authorization_not_found found
    guard (is_authorized a.status) already_revoked
    commit (λ db. record db {
      authorizations =
          modify authorization_id
            (λ a. record a { status = revoked; revoked_at = some now; revocation_reason = reason })
            db.authorizations;
    })

  -- The authorization and the plan as they are now, and whether both still stand.
  unfoldable pub check_currency : ℕ → Exec W (DedupPlanAuthorization × PlanValidity × Bool)
  check_currency authorization_id = do
    found ← gets (λ db. find authorization_id db.authorizations)
    a ← required authorization_not_found found
    validity ← check_plan_validity sys a.plan_id
    pure (a, validity, is_authorized a.status && validity.is_valid)
