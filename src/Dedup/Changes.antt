-- ===== src/Dedup/Changes.antt =====
-- What the deduplication pipeline may do to its tables, one committed write at a time.
pub mod Operations
pub mod Running
pub mod Invariants
pub mod Finality
pub mod Decisions
use mathlib.Core.Path.{subst}
use ai_brain.Prelude.{
  next_id, ℕ, ◌≡◌, refl, sym, String, Bool, true, false, Option, none, some, List, [], ◌∷◌, ◌==◌,
  map, is_none, is_some, find, modify,
}
use ai_brain.Dedup.Records.{
  Database, Document, DuplicateReview, DuplicateReviewStatus, pending, DedupExecutionPlan,
  DedupExecutionPlanAction, DedupPlanAuthorization, revoked, DedupExecution,
  DedupExecutionActionResult, DedupExecutionActionAudit, audit_keyed, review_keyed, plan_keyed,
  plan_action_keyed, authorization_keyed, execution_keyed,
}
use ai_brain.Dedup.Exec.{
  Error, Result, ok, err, Sys, Exec, pure, raise, gets, required, guard, commit, continue, handled,
  catch, maybe, choose, ◌>>=◌, ◌>>◌,
}
use ai_brain.Dedup.Os.{actions}
use ai_brain.Dedup.Os.Reading.{Reads}
use ai_brain.Dedup.Reviews.{is_pending, is_approved, decide}
use ai_brain.Dedup.Plans.{FileObservation, actions_of, add_plan, add_actions}
use ai_brain.Dedup.Authorizations.{is_authorized, active_authorization, add_authorization}
use ai_brain.Dedup.Executions.{
  is_running, Report, is_consistent, add_execution, execution_for, add_audit, audits_of, same_ids,
  verdict, finalized, set_recovery_claim,
}
use ai_brain.Dedup.Executions.Recording.{Ready}
use ai_brain.Dedup.Executor.{claim}
use ai_brain.Dedup.Reconciliations.{
  is_reconcilable, is_unknown_result, get_reconciliation, agrees, add_reconciliation,
}

-- One write, with what was checked before it.
pub data Change (db : Database) : Database → Type 0 where
  decided :
      (id now : ℕ) (status : DuplicateReviewStatus) (canonical : DuplicateReview → Option String)
      (decision : Option String) (r : DuplicateReview)
      → find id db.reviews ≡ some r
      → is_pending r.status ≡ true
      → is_pending status ≡ false
      → Change db (record db {
        reviews = modify id (λ r. decide now status (canonical r) decision r) db.reviews;
      })
  planned :
      (r : DuplicateReview) (canonical : Document) (seen : FileObservation) (id : ℕ)
      (observed : List (Document × FileObservation))
      → find r.id db.reviews ≡ some r
      → is_approved r.status ≡ true
      → Change db (add_actions id canonical observed (add_plan r.id canonical seen db))
  authorized :
      (now plan_id : ℕ) (by : Option String)
      → active_authorization plan_id db.authorizations ≡ none
      → Change db (add_authorization now plan_id by db)
  revoking :
      (now id : ℕ) (reason : Option String)
      → Change db (record db {
        authorizations =
            modify id
              (λ a. record a {
                status = revoked;
                revoked_at = some now;
                revocation_reason = reason;
              })
              db.authorizations;
      })
  started :
      (now id : ℕ) (by : Option String) (a : DedupPlanAuthorization)
      → find id db.authorizations ≡ some a
      → is_authorized a.status ≡ true
      → execution_for a.id db.executions ≡ none
      → Change db (add_execution now a by db)
  claimed :
      (now id : ℕ) (e : DedupExecution)
      → find id db.executions ≡ some e
      → is_running e.status ≡ true
      → e.claimed_at ≡ none
      → Change db (record db { executions = modify id (claim now) db.executions })
  recovering :
      (now id : ℕ) (e : DedupExecution)
      → find id db.executions ≡ some e
      → is_running e.status ≡ true
      → e.recovery_claimed_at ≡ none
      → Change db (record db { executions = modify id (set_recovery_claim now) db.executions })
  audited :
      (id plan_action_id : ℕ) (p : DedupExecutionPlanAction) (r : Report)
      → Ready db id plan_action_id p
      → is_consistent r.result r.filesystem_mutation_occurred r.ended_at ≡ true
      → Change db (add_audit id p r db)
  concluded :
      (now id : ℕ) (e : DedupExecution)
      → find id db.executions ≡ some e
      → is_running e.status ≡ true
      → same_ids
          (map (λ a. a.plan_action_id) (audits_of id db))
          (map (λ a. a.id) (actions_of e.plan_id db))
        ≡ true
      → Change db (record db {
        executions = modify id (finalized now (verdict (audits_of id db))) db.executions;
      })
  reconciled :
      (now audit_id : ℕ) (verified : DedupExecutionActionResult) (by method : String)
      (audit : DedupExecutionActionAudit) (seen : FileObservation)
      → is_reconcilable verified ≡ true
      → find audit_id db.audits ≡ some audit
      → is_unknown_result audit.result ≡ true
      → get_reconciliation audit_id db.reconciliations ≡ none
      → agrees verified audit seen ≡ true
      → Change db (add_reconciliation now audit_id verified by method seen db)

-- Any number of writes, one after another.
pub data Changes (db : Database) : Database → Type 0 where
  unchanged : Changes db db
  extended : {db₁ db₂ : Database} → Changes db db₁ → Change db₁ db₂ → Changes db db₂

pub Changes-trans : {a b c : Database} → Changes a b → Changes b c → Changes a c
Changes-trans h unchanged = h
Changes-trans h (extended k c) = extended (Changes-trans h k) c

abbrev at : {W : Type 0} → Database → W → ℕ → Sys W
at db w n = record { db = db; world = w; renames = n }

-- An action that only makes such writes, whatever it answers.
pub record Writes {W A : Type 0} (m : Exec W A) : Type 0 where
  pub run : (s : Sys W) → Changes s.db (m s).1.db

-- The same from one database.
abbrev pub From : {W A : Type 0} → Database → Exec W A → Type 0
From {W} db m = (w : W) (n : ℕ) → Changes db (m (at db w n)).1.db

module _ {W A : Type 0} where
  pub Writes-From : (m : Exec W A) → ((db : Database) → From db m) → Writes m
  Writes-From m h = record { run = λ s. h s.db s.world s.renames }

  pub Writes-Reads : (m : Exec W A) → Reads m → Writes m
  Writes-Reads m r = record {
    run = λ s. let (w, q) = r.at s in subst (λ t. Changes s.db t.db) (sym q) unchanged;
  }

  pub Writes-choose : (b : Bool) (m n : Exec W A) → Writes m → Writes n → Writes (choose b m n)
  unfolding actions
  Writes-choose true m n h k = h
  Writes-choose false m n h k = k

  pub Writes-catch :
      (m : Exec W A) (f : Error → Exec W A)
      → Writes m
      → ((e : Error) → Writes (f e))
      → Writes (catch m f)
  unfolding actions
  Writes-catch m f h k = record { run = λ s. go s (m s) (h.run s) }
    where
      go :
          (s : Sys W) (out : Result A × Sys W)
          → Changes s.db out.1.db
          → Changes s.db (handled out.0 f out.1).1.db
      go s (ok a, t) c = c
      go s (err e, t) c = Changes-trans c ((k e).run t)

module _ {W A B : Type 0} where
  pub Writes-bind :
      (m : Exec W A) (f : A → Exec W B) → Writes m → ((a : A) → Writes (f a)) → Writes (m >>= f)
  unfolding actions
  Writes-bind m f h k = record { run = λ s. go s (m s) (h.run s) }
    where
      go :
          (s : Sys W) (out : Result A × Sys W)
          → Changes s.db out.1.db
          → Changes s.db (continue out.0 f out.1).1.db
      go s (ok a, t) c = Changes-trans c ((k a).run t)
      go s (err e, t) c = c

  pub Writes-maybe :
      (o : Option A) (m : Exec W B) (f : A → Exec W B)
      → Writes m
      → ((a : A) → Writes (f a))
      → Writes (maybe o m f)
  unfolding actions
  Writes-maybe none m f h k = h
  Writes-maybe (some a) m f h k = k a

  -- Steps that only read, from one database.
  pub From-Reads :
      (db : Database) (m : Exec W A) (f : A → Exec W B)
      → Reads m
      → ((a : A) → From db (f a))
      → From db (m >>= f)
  unfolding actions
  From-Reads db m f r h w n = let (v, q) = r.at (at db w n) in go (m (at db w n)) v q
    where
      go :
          (out : Result A × Sys W) (v : W)
          → out.1 ≡ at db v n
          → Changes db (continue out.0 f out.1).1.db
      go (ok a, t) v q = subst (λ t. Changes db (f a t).1.db) (sym q) (h a v n)
      go (err e, t) v q = subst (λ t. Changes db t.db) (sym q) unchanged

  pub From-gets :
      (db : Database) (g : Database → A) (f : A → Exec W B)
      → From db (f (g db))
      → From db (gets g >>= f)
  unfolding actions
  From-gets db g f h = h

  pub From-required :
      (db : Database) (e : Error) (o : Option A) (f : A → Exec W B)
      → ((a : A) → o ≡ some a → From db (f a))
      → From db (required e o >>= f)
  unfolding actions
  From-required db e none f h w n = unchanged
  From-required db e (some a) f h w n = h a refl w n

  -- A row that must be there.
  pub From-row :
      (db : Database) (g : Database → Option A) (e : Error) (f : A → Exec W B)
      → ((a : A) → g db ≡ some a → From db (f a))
      → From db ((gets g >>= λ o. required e o) >>= f)
  unfolding actions
  From-row db g e f h w n = go (g db) (λ a q. h a q w n)
    where
      go :
          (o : Option A)
          → ((a : A) → o ≡ some a → Changes db (f a (at db w n)).1.db)
          → Changes db (continue (required e o (at db w n)).0 f (required e o (at db w n)).1).1.db
      go none h = unchanged
      go (some a) h = h a refl

module _ {W B : Type 0} where
  pub From-guard :
      (db : Database) (b : Bool) (e : Error) (f : Unit {0} → Exec W B)
      → (b ≡ true → From db (f tt))
      → From db (guard b e >>= f)
  unfolding actions
  From-guard db true e f h w n = h refl w n
  From-guard db false e f h w n = unchanged

  pub From-commit :
      (db : Database) (g : Database → Database) (f : Unit {0} → Exec W B)
      → Change db (g db)
      → Writes (f tt)
      → From db (commit g >>= f)
  unfolding actions
  From-commit db g f c h w n = Changes-trans (extended unchanged c) (h.run _)

module _ {W : Type 0} where
  pub From-end :
      (db : Database) (g : Database → Database) → Change db (g db) → From {W = W} db (commit g)
  unfolding actions
  From-end db g c w n = extended unchanged c
