-- ===== src/Dedup/Executor/Accepting.antt =====
-- What the constructor has seen of the roots that it accepts.
use ai_brain.Prelude.{◌≡◌, refl, sym, ap, ◌∙◌, Bool, true, false, not, List, [], ◌∷◌, All, ==_iff}
use ai_brain.Paths.{FilePath, path_beq}
use ai_brain.Dedup.Exec.{ok, Sys}
use ai_brain.Dedup.Os.{Os, Stat}
use ai_brain.Dedup.Executor.{DedupFilesystemExecutor, is_within}
use ai_brain.Dedup.Executor.Evidence.{Saw}
use ai_brain.Dedup.Executor.Yielding.{
  Yields, pure-Yields, bind-Yields, os-Yields, guard-Yields, is_false, Outside, is_within-Yields,
  AllResolved, resolve_all-Yields,
}
use ai_brain.Dedup.Executor.Constructing.{device_of, resolve_all, check_protected, make_executor}

module _ {W : Type 0} (sys : Os W) where
  abbrev pub Apart : FilePath → FilePath → FilePath → Type 0
  Apart allowed quarantine root =
      Outside sys allowed root × (Outside sys root allowed × Outside sys quarantine root)

  pub record Accepted (allowed_argument quarantine_argument : FilePath) (protected : List FilePath)
      (x : DedupFilesystemExecutor) : Type 0 where
    pub stats : Stat × Stat
    pub roots : List FilePath
    pub no_links :
        Saw (sys.is_symlink allowed_argument) false × Saw (sys.is_symlink quarantine_argument) false
    pub resolved :
        Saw (sys.resolve allowed_argument) x.allowed_root
        × Saw (sys.resolve quarantine_argument) x.quarantine_root
    pub directories : Saw (sys.is_dir x.allowed_root) true × Saw (sys.is_dir x.quarantine_root) true
    pub different : path_beq x.allowed_root x.quarantine_root ≡ false
    pub not_nested :
        Outside sys x.quarantine_root x.allowed_root × Outside sys x.allowed_root x.quarantine_root
    pub devices : Saw (sys.stat x.allowed_root) stats.0 × Saw (sys.stat x.quarantine_root) stats.1
    pub same_device : stats.0.st_dev ≡ stats.1.st_dev
    pub device : x.quarantine_device ≡ stats.1.st_dev
    pub all_resolved : AllResolved sys protected roots
    pub apart : All (Apart x.allowed_root x.quarantine_root) roots

  denied :
      (path root : FilePath) (s t : Sys W) (b : Bool)
      → is_within sys path root s ≡ (ok b, t)
      → not b ≡ true
      → Outside sys path root
  denied path root s t b e h = is_within-Yields sys path root s b (ap (λ r. r.0) e) (is_false b h)

  check_protected-Yields :
      (allowed quarantine : FilePath) (roots : List FilePath)
      → Yields
          (λ u. All (Apart allowed quarantine) roots)
          (check_protected sys allowed quarantine roots)
  unfolding check_protected
  check_protected-Yields allowed quarantine [] s a q = tt
  check_protected-Yields allowed quarantine (root ∷ roots) s a q =
      (bind-Yields (λ u. All (Apart allowed quarantine) (root ∷ roots)) (is_within sys allowed root)
          _
          λ s t inside e. guard-Yields _ _ _ _ λ i.
            bind-Yields _ (is_within sys root allowed) _ λ s' t' above e'.
              guard-Yields _ _ _ _ λ i'.
                bind-Yields _ (is_within sys quarantine root) _ λ s'' t'' kept e''.
                  guard-Yields _ _ _ _ λ i''. λ r a q. (
                    (
                      denied allowed root s t inside e i,
                      (
                        denied root allowed s' t' above e' i',
                        denied quarantine root s'' t'' kept e'' i'',
                      ),
                    ),
                    check_protected-Yields allowed quarantine roots r a q,
                  ))
        s a q

  device_of-Yields :
      (path : FilePath)
      → Yields (λ d. (st : Stat) × Saw (sys.stat path) st × (d ≡ st.st_dev)) (device_of sys path)
  device_of-Yields path = os-Yields _ _ _ λ st e. pure-Yields _ _ (st, e, refl)

  -- An executor is only made of two roots that were no links, that are resolved, directories, different
  -- and on one device, by what the operating system answered at the checks. Neither root was below the
  -- other, neither was below a protected path, and no protected path was below the allowed root, except
  -- that such a check also passes when one of its two paths cannot be resolved at that moment.
  pub make_executor-Accepted :
      (allowed_argument quarantine_argument : FilePath) (protected : List FilePath) (s : Sys W)
      (x : DedupFilesystemExecutor)
      → (make_executor sys allowed_argument quarantine_argument protected s).0 ≡ ok x
      → Accepted allowed_argument quarantine_argument protected x
  unfolding make_executor
  make_executor-Accepted allowed_argument quarantine_argument protected =
      (os-Yields _ _ _ λ l e1. guard-Yields _ _ _ _ λ g1. os-Yields _ _ _ λ l' e2.
        guard-Yields _ _ _ _ λ g2. os-Yields _ _ _ λ allowed e3. os-Yields _ _ _ λ quarantine e4.
          os-Yields _ _ _ λ d e5. guard-Yields _ _ _ _ λ g5. os-Yields _ _ _ λ d' e6.
            guard-Yields _ _ _ _ λ g6. guard-Yields _ _ _ _ λ g7. bind-Yields _ _ _ λ s8 t8 n e8.
              guard-Yields _ _ _ _ λ g8. bind-Yields _ _ _ λ s9 t9 a e9. guard-Yields _ _ _ _ λ g9.
                bind-Yields _ (device_of sys allowed) _ λ s10 t10 v e10.
                  bind-Yields _ (device_of sys quarantine) _ λ s11 t11 v' e11.
                    guard-Yields _ _ _ _ λ g11.
                      bind-Yields _ (resolve_all sys protected) _ λ s12 t12 roots e12.
                        bind-Yields _ (check_protected sys allowed quarantine roots) _
                          λ s13 t13 u e13.
                            let (st, seen, dev) =
                              device_of-Yields allowed s10 v (ap (λ r. r.0) e10) in
                            let (st', seen', dev') =
                              device_of-Yields quarantine s11 v' (ap (λ r. r.0) e11) in
                            pure-Yields _ _ (record {
                              stats = (st, st');
                              roots = roots;
                              no_links =
                                  (rw (sym (is_false l g1)) e1, rw (sym (is_false l' g2)) e2);
                              resolved = (e3, e4);
                              directories = (rw (sym g5) e5, rw (sym g6) e6);
                              different = is_false _ g7;
                              not_nested = (
                                denied quarantine allowed s8 t8 n e8 g8,
                                denied allowed quarantine s9 t9 a e9 g9,
                              );
                              devices = (seen, seen');
                              same_device = sym dev ∙ (==_iff v v').0 g11 ∙ dev';
                              device = dev';
                              all_resolved =
                                  resolve_all-Yields sys protected s12 roots (ap (λ r. r.0) e12);
                              apart =
                                  check_protected-Yields allowed quarantine roots s13 u
                                    (ap (λ r. r.0) e13);
                            }))
