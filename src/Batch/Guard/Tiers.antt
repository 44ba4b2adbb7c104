-- ===== src/Batch/Guard/Tiers.antt =====
-- What the guard decides.
use ai_brain.Prelude.{ℕ, ◌≤◌, ◌<◌, String, ◌≡◌, ◌↔◌, ◌⊎◌, none, some, arith}
use ai_brain.Batch.Model.{workspace_hard_stop, postgres_hard_stop}
use ai_brain.Batch.Guard.{
  normal, hard_stop, BatchResourceGuard, check_workspace_disk, check_postgres_disk, check_disk,
  check_before_claim, workspace_hard_stop_free_bytes, postgres_hard_stop_free_bytes,
  workspace_soft_stop_free_bytes, postgres_soft_stop_free_bytes,
}

module _ (free_at : String → ℕ) (g : BatchResourceGuard) where
  -- The check before a claim is NORMAL exactly when both disks have at least their soft reserve,
  -- and a hard stop exactly when one of them is below its hard reserve.
  pub check_before_claim_tier :
      ((check_before_claim free_at g).tier ≡ normal ↔ (
        (workspace_soft_stop_free_bytes ≤ free_at g.workspace_path)
        × (postgres_soft_stop_free_bytes ≤ free_at g.postgres_path)))
      × ((check_before_claim free_at g).tier ≡ hard_stop ↔ (
          (free_at g.workspace_path < workspace_hard_stop_free_bytes)
          ⊎ (free_at g.postgres_path < postgres_hard_stop_free_bytes)))
  unfolding check_before_claim check_disk check_workspace_disk check_postgres_disk
  check_before_claim_tier = ((ground arith, ground arith), (ground arith, ground arith))

  -- The check before a claim names a reason exactly when it is not NORMAL, and a hard stop always
  -- names one of the two hard-stop reasons.
  pub check_before_claim_reason :
      ((check_before_claim free_at g).tier ≡ normal
        ↔ (check_before_claim free_at g).stop_reason ≡ none)
      × ((check_before_claim free_at g).tier ≡ hard_stop
          → ((check_before_claim free_at g).stop_reason ≡ some workspace_hard_stop)
            ⊎ ((check_before_claim free_at g).stop_reason ≡ some postgres_hard_stop))
  unfolding check_before_claim check_disk check_workspace_disk check_postgres_disk
  check_before_claim_reason = ((ground arith, ground arith), ground arith)
