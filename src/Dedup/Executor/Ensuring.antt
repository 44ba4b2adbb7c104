-- ===== src/Dedup/Executor/Ensuring.antt =====
-- Actions that answer `true` only with some evidence: one rule for each way to build an action.
use mathlib.Core.Path.{subst}
use ai_brain.Prelude.{ℕ, ◌≡◌, refl, Bool, true, false, Option, none, some, arith}
use ai_brain.Dedup.Records.{
  Database, DedupExecutionPlanAction, DedupExecution, plan_keyed, authorization_keyed,
}
use ai_brain.Dedup.Exec.{Result, ok, err, Sys, Exec, continue, maybe, choose, ◌>>=◌}
use ai_brain.Dedup.Os.{Os, actions}
use ai_brain.Dedup.Os.Reading.{Reads}
use ai_brain.Dedup.Executions.{Report}
use ai_brain.Dedup.Executor.{settle}

abbrev pub at : {W : Type 0} → Database → W → ℕ → Sys W
at db w n = record { db = db; world = w; renames = n }

module _ {W : Type 0} (db : Database) (Q : Type 0) where
  -- From a database an action that answers `true` gives Q.
  abbrev pub Ensures : Exec W Bool → Type 0
  Ensures m = (w : W) (n : ℕ) → (m (at db w n)).0 ≡ ok true → Q

  pub reading-Ensures :
      {A : Type 0} (m : Exec W A) (f : A → Exec W Bool)
      → Reads m
      → ((s t : Sys W) (a : A) → s.db ≡ db → m s ≡ (ok a, t) → Ensures (f a))
      → Ensures (m >>= f)
  unfolding actions
  reading-Ensures {A} m f r h w n q = go (m (at db w n)) refl (r.at (at db w n)) q
    where
      go :
          (out : Result A × Sys W)
          → m (at db w n) ≡ out
          → ((v : W) × (out.1 ≡ at db v n))
          → (continue out.0 f out.1).0 ≡ ok true
          → Q
      go (err x, t) e (v, g) q = absurd (ground arith)
      go (ok a, t) e (v, g) q = h (at db w n) t a refl e v n (subst (λ t. (f a t).0 ≡ ok true) g q)

  pub choose-Ensures :
      (b : Bool) (m n : Exec W Bool)
      → (b ≡ true → Ensures m)
      → (b ≡ false → Ensures n)
      → Ensures (choose b m n)
  unfolding actions
  choose-Ensures true m n h g = h refl
  choose-Ensures false m n h g = g refl

  pub maybe-Ensures :
      {A : Type 0} (o : Option A) (m : Exec W Bool) (f : A → Exec W Bool)
      → Ensures m
      → ((a : A) → o ≡ some a → Ensures (f a))
      → Ensures (maybe o m f)
  unfolding actions
  maybe-Ensures none m f h g = h
  maybe-Ensures (some a) m f h g = g a refl

  -- A report that does not go on never answers `true`.
  pub settle-Ensures :
      (sys : Os W) (e : DedupExecution) (p : DedupExecutionPlanAction) (r : Report)
      → Ensures (settle sys e p r false)
  unfolding settle actions
  settle-Ensures sys e p r w n q = absurd (ground arith)
