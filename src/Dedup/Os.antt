-- ===== src/Dedup/Os.antt =====
-- The calls of the operating system that the pipeline makes, as a parameter: nothing is assumed of
-- them. A call takes the world to another and answers, or raises `OSError` (`none`). What other
-- processes do to the files happens in these calls, so two calls never have to agree.
pub mod Reading
use ai_brain.Prelude.{ℕ, ◌+◌, String, Bool, Option, none, some}
use ai_brain.Paths.{FilePath}
use ai_brain.Dedup.Exec.{Error, os_error, Result, ok, err, Sys, Exec, catch, maybe, choose, ◌>>=◌}

abbrev pub Call : Type 0 → Type 0 → Type 0
Call W A = W → Option A × W

-- What `os.fstat` and `os.stat` tell of a file.
pub record Stat : Type 0 where
  pub st_dev : ℕ
  pub st_ino : ℕ
  pub st_size : ℕ
  pub st_nlink : ℕ
  pub is_regular : Bool

-- `hexdigest` of SHA-256 is part of an answer.
pub record Os (W : Type 0) : Type 0 where
  pub now : W → ℕ
  pub is_file : FilePath → Call W Bool
  pub is_dir : FilePath → Call W Bool
  pub is_symlink : FilePath → Call W Bool
  pub exists : FilePath → Call W Bool
  pub stat : FilePath → Call W Stat
  pub lstat : FilePath → Call W Stat
  pub resolve_strict : FilePath → Call W FilePath
  pub resolve : FilePath → Call W FilePath
  pub hash_file : FilePath → Call W String
  pub open_and_hash : FilePath → Call W (Stat × String)
  pub mkdir : FilePath → Call W (Unit {0})
  pub rename : FilePath → FilePath → Call W (Unit {0})

abbrev pub answered : {A : Type 0} → Option A → Result A
answered none = err os_error
answered (some a) = ok a

module _ {W A : Type 0} where
  -- A call whose `OSError` is not caught.
  unfoldable pub os : Call W A → Exec W A
  os c s = let (a, w) = c s.world in (answered a, record s { world = w })

  -- A call in `try: ... except OSError`: `none` is the except branch.
  unfoldable pub attempt : Call W A → Exec W (Option A)
  attempt c s = let (a, w) = c s.world in (ok a, record s { world = w })

  -- `os.rename` is counted.
  unfoldable pub counted : Call W A → Exec W (Option A)
  counted c s = let (a, w) = c s.world in (ok a, record s { world = w; renames = s.renames + 1 })

-- Opens every way to build an action.
unfoldable pub actions : Unit {0}
unfolding ◌>>=◌ catch maybe choose os attempt counted
actions = tt
