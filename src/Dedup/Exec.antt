-- ===== src/Dedup/Exec.antt =====
-- Methods that read and write the database and call the operating system, and may raise. What was
-- committed before a raise stays, so the state comes back beside the error too.
use ai_brain.Prelude.{ℕ, Bool, true, false, Option, none, some}
use ai_brain.Dedup.Records.{Database}

-- The `ValueError`s by the check that raises them; the two subclasses are `duplicate_action_result`
-- and `already_finalized`. An `OSError` that nothing catches is `os_error`.
pub data Error : Type 0 where
  not_confirmed : Error
  review_not_found plan_not_found authorization_not_found execution_not_found : Error
  plan_action_not_found : Error
  not_pending no_members not_a_member canonical_required : Error
  review_not_approved no_canonical canonical_not_member nothing_to_plan : Error
  already_authorized plan_not_valid already_revoked : Error
  not_authorized already_executed : Error
  not_running already_claimed already_recovering already_audited nothing_to_recover : Error
  foreign_plan_action inconsistent_mutation incomplete_audits : Error
  invalid_roots : Error
  not_reconcilable audit_not_found not_unknown already_reconciled disagrees : Error
  duplicate_action_result already_finalized os_error : Error

pub data Result {ℓ} (A : Type ℓ) : Type ℓ where
  ok : A → Result A
  err : Error → Result A

-- The database, the world outside it, and how often a rename was called.
pub record Sys (W : Type 0) : Type 0 where
  pub db : Database
  pub world : W
  pub renames : ℕ

abbrev pub Exec : Type 0 → Type 0 → Type 0
Exec W A = Sys W → Result A × Sys W

module _ {W A : Type 0} where
  unfoldable pub pure : A → Exec W A
  pure a s = (ok a, s)

  unfoldable pub raise : Error → Exec W A
  raise e s = (err e, s)

  unfoldable pub gets : (Database → A) → Exec W A
  gets f s = (ok (f s.db), s)

  -- `if x is None: raise ...`
  unfoldable pub required : Error → Option A → Exec W A
  required e none s = (err e, s)
  required e (some a) s = (ok a, s)

module _ {W : Type 0} where
  -- A commit that writes.
  unfoldable pub commit : (Database → Database) → Exec W (Unit {0})
  commit f s = (ok tt, record s { db = f s.db })

  -- `if not b: raise ...`
  unfoldable pub guard : Bool → Error → Exec W (Unit {0})
  guard true e s = (ok tt, s)
  guard false e s = (err e, s)

module _ {W A B : Type 0} where
  abbrev pub continue : Result A → (A → Exec W B) → Exec W B
  continue (ok a) f s = f a s
  continue (err e) f s = (err e, s)

  infixl 10 ◌>>=◌ ◌>>◌
  -- Opening this opens the actions above too.
  unfoldable pub ◌>>=◌ : Exec W A → (A → Exec W B) → Exec W B
  unfolding pure raise gets required commit guard
  ◌>>=◌ m f s = let (r, s') = m s in continue r f s'

  abbrev pub ◌>>◌ : Exec W A → Exec W B → Exec W B
  m >> n = m >>= λ _. n

module _ {W A B : Type 0} where
  -- `if x is None: ... ; ...`
  unfoldable pub maybe : Option A → Exec W B → (A → Exec W B) → Exec W B
  maybe none m f = m
  maybe (some a) m f = f a

module _ {W A : Type 0} where
  -- `if b: ... else: ...`
  unfoldable pub choose : Bool → Exec W A → Exec W A → Exec W A
  choose true m n = m
  choose false m n = n

module _ {W A : Type 0} where
  abbrev pub handled : Result A → (Error → Exec W A) → Exec W A
  handled (ok a) h s = (ok a, s)
  handled (err e) h s = h e s

  -- `try: ... except ...`, the handler given every error
  unfoldable pub catch : Exec W A → (Error → Exec W A) → Exec W A
  catch m h s = let (r, s') = m s in handled r h s'
