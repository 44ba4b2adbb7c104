-- ===== src/Dedup/Executor/Constructing.antt =====
-- The constructor of the executor: backend/app/dedup/executor.py. What it accepts was checked.
use ai_brain.Prelude.{ℕ, not, List, [], ◌∷◌, ◌==◌}
use ai_brain.Paths.{FilePath, path_beq}
use ai_brain.Dedup.Exec.{invalid_roots, Exec, pure, guard, ◌>>=◌, ◌>>◌}
use ai_brain.Dedup.Os.{Os, os}
use ai_brain.Dedup.Executor.{DedupFilesystemExecutor, is_within}

module _ {W : Type 0} (sys : Os W) where
  -- `_device_of`
  abbrev pub device_of : FilePath → Exec W ℕ
  device_of path = do st ← os (sys.stat path); pure st.st_dev

  unfoldable pub resolve_all : List FilePath → Exec W (List FilePath)
  resolve_all [] = pure []
  resolve_all (p ∷ ps) = do r ← os (sys.resolve p); rs ← resolve_all ps; pure (r ∷ rs)

  -- The loop over the protected roots.
  unfoldable pub check_protected : FilePath → FilePath → List FilePath → Exec W (Unit {0})
  check_protected allowed quarantine [] = pure tt
  check_protected allowed quarantine (root ∷ roots) = do
    inside ← is_within sys allowed root
    guard (not inside) invalid_roots
    above ← is_within sys root allowed
    guard (not above) invalid_roots
    kept_in ← is_within sys quarantine root
    guard (not kept_in) invalid_roots
    check_protected allowed quarantine roots

  -- `DedupFilesystemExecutor.__init__`; the configured master backup paths come first in `protected`.
  unfoldable pub make_executor :
      FilePath → FilePath → List FilePath → Exec W DedupFilesystemExecutor
  make_executor allowed_argument quarantine_argument protected = do
    allowed_link ← os (sys.is_symlink allowed_argument)
    guard (not allowed_link) invalid_roots
    quarantine_link ← os (sys.is_symlink quarantine_argument)
    guard (not quarantine_link) invalid_roots
    allowed ← os (sys.resolve allowed_argument)
    quarantine ← os (sys.resolve quarantine_argument)
    allowed_dir ← os (sys.is_dir allowed)
    guard allowed_dir invalid_roots
    quarantine_dir ← os (sys.is_dir quarantine)
    guard quarantine_dir invalid_roots
    guard (not (path_beq allowed quarantine)) invalid_roots
    nested ← is_within sys quarantine allowed
    guard (not nested) invalid_roots
    above ← is_within sys allowed quarantine
    guard (not above) invalid_roots
    allowed_device ← device_of allowed
    quarantine_device ← device_of quarantine
    guard (allowed_device == quarantine_device) invalid_roots
    roots ← resolve_all protected
    check_protected allowed quarantine roots
    pure (record {
      allowed_root = allowed;
      quarantine_root = quarantine;
      quarantine_device = quarantine_device;
    })
