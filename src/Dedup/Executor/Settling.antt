-- ===== src/Dedup/Executor/Settling.antt =====
-- What one attempt at an action comes to: one audit at most, and one rename at most.
use mathlib.Core.Path.{subst}
use ai_brain.Prelude.{
  ℕ, suc, ◌+◌, ◌≤◌, ◌≡◌, refl, sym, Bool, true, false, Option, none, some, arith,
}
use ai_brain.Paths.{FilePath}
use ai_brain.Dedup.Records.{
  Database, DedupExecutionPlanAction, DedupExecution, DedupExecutionActionResult, success,
  precondition_failed, failed_action, not_attempted, unknown, plan_keyed,
}
use ai_brain.Dedup.Exec.{Error, Result, ok, err, Sys, Exec, gets, continue, maybe, choose, ◌>>=◌}
use ai_brain.Dedup.Os.{Os, Call, os, attempt, counted, actions}
use ai_brain.Dedup.Os.Reading.{Reads, Reads-os, Reads-attempt, Reads-gets, reads_rules}
use ai_brain.Dedup.Plans.{observe_path}
use ai_brain.Dedup.Plans.Reading.{observe_path-Reads, check_plan_validity-Reads}
use ai_brain.Dedup.Authorizations.{check_currency}
use ai_brain.Dedup.Executions.{Report, is_success, is_consistent, add_audit}
use ai_brain.Dedup.Executions.Recording.{Ready, record_of_Ready}
use ai_brain.Dedup.Executor.{
  DedupFilesystemExecutor, PinnedIdentity, settle, refuse, precondition_report, failure_report,
  unknown_report, success_report, verify_move, move_source, pin_source, pin_and_hash, is_within,
  inspect_source, locate_source, attempt_action,
}

-- How many renames an attempt has called, by the result that it records, from a count `k` on.
abbrev pub Counts : DedupExecutionActionResult → ℕ → ℕ → Type 0
Counts success k n = n ≡ suc k
Counts precondition_failed k n = n ≡ k
Counts failed_action k n = (k ≤ n) × (n ≤ suc k)
Counts not_attempted k n = ⊥
Counts unknown k n = (k ≤ n) × (n ≤ suc k)

module _ {W : Type 0} (e : DedupExecution) (p : DedupExecutionPlanAction) (db : Database)
    (k : ℕ) where
  -- An attempt that recorded one consistent report and goes on exactly after a success, or one that
  -- raised before it recorded anything.
  pub data Settled (out : Result Bool × Sys W) : Type 0 where
    recorded :
        (r : Report) (w : W) (n : ℕ)
        → is_consistent r.result r.filesystem_mutation_occurred r.ended_at ≡ true
        → Counts r.result k n
        → out ≡ (
          ok (is_success r.result),
          record { db = add_audit e.id p r db; world = w; renames = n },
        )
        → Settled out
    raised :
        (x : Error) (w : W) (n : ℕ)
        → k ≤ n
        → n ≤ suc k
        → out ≡ (err x, record { db = db; world = w; renames = n })
        → Settled out

module _ {W : Type 0} (sys : Os W) where
  pub pin_and_hash-Reads : (path : FilePath) → Reads (pin_and_hash sys path)
  unfolding pin_and_hash
  pin_and_hash-Reads path = search reads_rules

  pub is_within-Reads : (path root : FilePath) → Reads (is_within sys path root)
  unfolding is_within
  is_within-Reads path root = search reads_rules depth 12

  pub check_currency-Reads : (id : ℕ) → Reads (check_currency sys id)
  unfolding check_currency
  check_currency-Reads id = search (reads_rules, check_plan_validity-Reads) depth 12

-- The state with a given database.
abbrev at : {W : Type 0} → Database → W → ℕ → Sys W
at db w n = record { db = db; world = w; renames = n }

module _ {W : Type 0} (sys : Os W) (e : DedupExecution) (p : DedupExecutionPlanAction)
    (db : Database) (ready : Ready db e.id p.id p) (k : ℕ) where
  settle-Settled :
      (r : Report) (w : W) (n : ℕ)
      → is_consistent r.result r.filesystem_mutation_occurred r.ended_at ≡ true
      → Counts r.result k n
      → Settled e p db k (settle sys e p r (is_success r.result) (at db w n))
  unfolding settle actions
  settle-Settled r w n c h =
      recorded r w n c h (rw (record_of_Ready e.id p.id p r (at db w n) ready c) refl)

  refuse-Settled : (w : W) → Settled e p db k (refuse sys e p (at db w k))
  unfolding refuse is_consistent
  refuse-Settled w = settle-Settled precondition_report w k refl refl

  fail-Settled :
      (w : W) (n : ℕ)
      → k ≤ n
      → n ≤ suc k
      → Settled e p db k (settle sys e p failure_report false (at db w n))
  unfolding is_consistent
  fail-Settled w n lo hi = settle-Settled failure_report w n refl (lo, hi)

  -- After an action that only reads, with any result.
  reading-Settled :
      {A : Type 0} (m : Exec W A) (f : A → Exec W Bool) (w : W) (n : ℕ)
      → k ≤ n
      → n ≤ suc k
      → Reads m
      → ((a : A) (v : W) → Settled e p db k (f a (at db v n)))
      → Settled e p db k ((m >>= f) (at db w n))
  unfolding actions
  reading-Settled {A} m f w n lo hi r h =
      let (v, q) = r.at (at db w n) in
      subst (λ t. Settled e p db k (continue (m (at db w n)).0 f t)) (sym q)
        (go (m (at db w n)).0 v)
    where
      go : (a : Result A) (v : W) → Settled e p db k (continue a f (at db v n))
      go (err x) v = raised x v n lo hi refl
      go (ok a) v = h a v

  choose-Settled :
      (b : Bool) (m n : Exec W Bool) (s : Sys W)
      → (b ≡ true → Settled e p db k (m s))
      → (b ≡ false → Settled e p db k (n s))
      → Settled e p db k (choose b m n s)
  unfolding actions
  choose-Settled true m n s h g = h refl
  choose-Settled false m n s h g = g refl

  maybe-Settled :
      {A : Type 0} (o : Option A) (m : Exec W Bool) (f : A → Exec W Bool) (s : Sys W)
      → Settled e p db k (m s)
      → ((a : A) → o ≡ some a → Settled e p db k (f a s))
      → Settled e p db k (maybe o m f s)
  unfolding actions
  maybe-Settled none m f s h g = h
  maybe-Settled (some a) m f s h g = g a refl

  verify_move-Settled :
      (pin : PinnedIdentity) (source destination : FilePath) (w : W)
      → Settled e p db k (verify_move sys e p pin source destination (at db w (suc k)))
  unfolding verify_move is_consistent
  verify_move-Settled pin source destination w =
      step (os (sys.is_symlink destination)) _ w (Reads-os _) λ link w.
        step (os (sys.is_file destination)) _ w (Reads-os _) λ file w.
          step (os (sys.exists source)) _ w (Reads-os _) λ present w.
            step (observe_path sys destination) _ w (observe_path-Reads sys destination) λ seen w.
              step (attempt (sys.lstat destination)) _ w (Reads-attempt _) λ st w.
                choose-Settled _ _ _ _
                  (λ q. settle-Settled (success_report seen) w (suc k) refl refl)
                  (λ _.
                    settle-Settled (unknown_report seen) w (suc k) refl (omega arith, omega arith))
    where
      step :
          {A : Type 0} (m : Exec W A) (f : A → Exec W Bool) (w : W)
          → Reads m
          → ((a : A) (v : W) → Settled e p db k (f a (at db v (suc k))))
          → Settled e p db k ((m >>= f) (at db w (suc k)))
      step m f w r h = reading-Settled m f w (suc k) (omega arith) (omega arith) r h

  -- Step `m` before any rename.
  early :
      {A : Type 0} (m : Exec W A) (f : A → Exec W Bool) (w : W)
      → Reads m
      → ((a : A) (v : W) → Settled e p db k (f a (at db v k)))
      → Settled e p db k ((m >>= f) (at db w k))
  early m f w r h = reading-Settled m f w k (omega arith) (omega arith) r h

  -- The call of `rename`, which is counted.
  rename-Settled :
      {A : Type 0} (c : Call W A) (f : Option A → Exec W Bool) (w : W)
      → ((a : Option A) (v : W) → Settled e p db k (f a (at db v (suc k))))
      → Settled e p db k ((counted c >>= f) (at db w k))
  unfolding actions
  rename-Settled c f w h = let q : k + 1 ≡ suc k = omega arith in rw q (h (c w).0 (c w).1)

  move_source-Settled :
      (x : DedupFilesystemExecutor) (pin : PinnedIdentity) (source : FilePath) (w : W)
      → Settled e p db k (move_source sys x e p pin source (at db w k))
  unfolding move_source
  move_source-Settled x pin source w = early (os _) _ w (Reads-os _) λ taken w.
      choose-Settled _ _ _ _ (λ _. fail-Settled w k (omega arith) (omega arith))
        λ _. early (os _) _ w (Reads-os _) λ _ w. early (os _) _ w (Reads-os _) λ st w.
          choose-Settled _ _ _ _ (λ _. fail-Settled w k (omega arith) (omega arith))
            λ _. rename-Settled _ _ w λ moved w.
              maybe-Settled moved _ _ _ (fail-Settled w (suc k) (omega arith) (omega arith))
                λ _ _. verify_move-Settled pin source _ w

  pin_source-Settled :
      (x : DedupFilesystemExecutor) (source : FilePath) (w : W)
      → Settled e p db k (pin_source sys x e p source (at db w k))
  unfolding pin_source
  pin_source-Settled x source w =
      early (pin_and_hash sys source) _ w (pin_and_hash-Reads sys source) λ pinned w.
        maybe-Settled pinned _ _ _ (refuse-Settled w) λ pin _.
          choose-Settled _ _ _ _ (λ _. refuse-Settled w)
            λ _.
              choose-Settled _ _ _ _ (λ _. refuse-Settled w) λ _. move_source-Settled x pin source w

  inspect_source-Settled :
      (x : DedupFilesystemExecutor) (source : FilePath) (w : W)
      → Settled e p db k (inspect_source sys x e p source (at db w k))
  unfolding inspect_source
  inspect_source-Settled x source w = early (attempt _) _ w (Reads-attempt _) λ st w.
      maybe-Settled st _ _ _ (refuse-Settled w) λ st _. early (os _) _ w (Reads-os _) λ file w.
        choose-Settled _ _ _ _ (λ _. refuse-Settled w)
          λ _. choose-Settled _ _ _ _ (λ _. refuse-Settled w) λ _. pin_source-Settled x source w

  locate_source-Settled :
      (x : DedupFilesystemExecutor) (w : W) → Settled e p db k (locate_source sys x e p (at db w k))
  unfolding locate_source
  locate_source-Settled x w = early (os _) _ w (Reads-os _) λ link w.
      choose-Settled _ _ _ _ (λ _. refuse-Settled w)
        λ _. early (attempt _) _ w (Reads-attempt _) λ resolved w.
          maybe-Settled resolved _ _ _ (refuse-Settled w) λ source _.
            early (is_within sys source _) _ w (is_within-Reads sys source _) λ inside w.
              choose-Settled _ _ _ _ (λ _. refuse-Settled w) λ _. inspect_source-Settled x source w

  -- An attempt at an action that has no audit yet records exactly one consistent report for it and goes
  -- on only after a success, or raises and records nothing. It renames once for a success, never for a
  -- refusal, and at most once in any case.
  pub attempt_action-Settled :
      (x : DedupFilesystemExecutor) (w : W)
      → Settled e p db k (attempt_action sys x e p (at db w k))
  unfolding attempt_action
  attempt_action-Settled x w = early (gets _) _ w (Reads-gets _) λ plan w.
      choose-Settled _ _ _ _ (λ _. refuse-Settled w)
        λ _. early (check_currency sys e.authorization_id) _ w (check_currency-Reads sys _) λ r w.
          choose-Settled _ _ _ _ (λ _. refuse-Settled w)
            λ _. choose-Settled _ _ _ _ (λ _. refuse-Settled w) λ _. locate_source-Settled x w
