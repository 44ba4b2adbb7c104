-- ===== src/Dedup/Plans/Reading.antt =====
-- Checking a plan reads files and rows and changes nothing.
use ai_brain.Prelude.{ℕ, String, List, [], ◌∷◌}
use ai_brain.Paths.{FilePath}
use ai_brain.Dedup.Records.{DedupExecutionPlanAction}
use ai_brain.Dedup.Os.{Os}
use ai_brain.Dedup.Os.Reading.{Reads, Reads-bind, Reads-pure, reads_rules}
use ai_brain.Dedup.Plans.{
  observe_path, observe_file, check_action, check_actions, check_plan_validity,
}

module _ {W : Type 0} (sys : Os W) where
  pub observe_path-Reads : (path : FilePath) → Reads (observe_path sys path)
  unfolding observe_path
  observe_path-Reads path = search reads_rules depth 12

  pub observe_file-Reads : (path : String) → Reads (observe_file sys path)
  unfolding observe_file
  observe_file-Reads path = observe_path-Reads _

  check_action-Reads : (a : DedupExecutionPlanAction) → Reads (check_action sys a)
  unfolding check_action
  check_action-Reads a = search (reads_rules, observe_file-Reads)

  check_actions-Reads : (as' : List DedupExecutionPlanAction) → Reads (check_actions sys as')
  unfolding check_actions
  check_actions-Reads [] = search reads_rules
  check_actions-Reads (a ∷ rest) =
      Reads-bind _ _ (check_action-Reads a)
        λ v. Reads-bind _ _ (check_actions-Reads rest) λ vs. Reads-pure _

  pub check_plan_validity-Reads : (plan_id : ℕ) → Reads (check_plan_validity sys plan_id)
  unfolding check_plan_validity
  check_plan_validity-Reads plan_id =
      search (reads_rules, observe_file-Reads, check_actions-Reads) depth 12
