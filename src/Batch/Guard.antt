-- ===== src/Batch/Guard.antt =====
-- The resource guard: backend/app/classification/resource_guard.py. The disk probe and the Ollama
-- client are arguments: the free bytes by path, and whether the call of `list` returned.
pub mod Ollama
pub mod Tiers
use Prim.Native.Nat.{◌^◌}
use ai_brain.Prelude.{
  ℕ, ◌+◌, ◌*◌, String, Bool, true, false, Option, none, some, List, [], ◌∷◌, ltb, leb,
  if◌then◌else◌,
}
use ai_brain.Batch.Model.{
  BatchStopReason, workspace_soft_stop, postgres_soft_stop, workspace_hard_stop, postgres_hard_stop,
  ollama_persistently_unreachable, Detail, workspace_free, workspace_below_hard,
  workspace_below_soft, postgres_free, postgres_below_hard, postgres_below_soft, ollama_reachable,
  ollama_unreachable, ollama_persistent,
}

abbrev pub workspace_hard_stop_free_bytes : ℕ
workspace_hard_stop_free_bytes = 10 * 1024 ^ 3

abbrev pub workspace_soft_stop_free_bytes : ℕ
workspace_soft_stop_free_bytes = 15 * 1024 ^ 3

abbrev pub postgres_hard_stop_free_bytes : ℕ
postgres_hard_stop_free_bytes = 5 * 1024 ^ 3

abbrev pub postgres_soft_stop_free_bytes : ℕ
postgres_soft_stop_free_bytes = 8 * 1024 ^ 3

abbrev pub ollama_hard_stop_consecutive_failures : ℕ
ollama_hard_stop_consecutive_failures = 3

pub data GuardTier : Type 0 where
  normal soft_stop hard_stop : GuardTier

-- `_TIER_SEVERITY`
abbrev pub severity : GuardTier → ℕ
severity normal = 0
severity soft_stop = 1
severity hard_stop = 2

pub data ExpensiveOperationKind : Type 0 where
  archive_extraction embedding : ExpensiveOperationKind

pub record GuardResult : Type 0 where
  pub tier : GuardTier
  pub stop_reason : Option BatchStopReason
  pub detail : Detail
  pub review_required : Bool

-- The object's fields; the counter lives as long as the object.
pub record BatchResourceGuard : Type 0 where
  pub workspace_path : String
  pub postgres_path : String
  pub consecutive_ollama_failures : ℕ

abbrev result : GuardTier → Option BatchStopReason → Detail → GuardResult
result t r d = record { tier = t; stop_reason = r; detail = d; review_required = false }

module _ (free_at : String → ℕ) where
  pub check_workspace_disk : BatchResourceGuard → GuardResult
  check_workspace_disk g =
      let free = free_at g.workspace_path in
      if ltb free workspace_hard_stop_free_bytes
      then result hard_stop (some workspace_hard_stop) (workspace_below_hard free)
      else if ltb free workspace_soft_stop_free_bytes
      then result soft_stop (some workspace_soft_stop) (workspace_below_soft free)
      else result normal none (workspace_free free)

  pub check_postgres_disk : BatchResourceGuard → GuardResult
  check_postgres_disk g =
      let free = free_at g.postgres_path in
      if ltb free postgres_hard_stop_free_bytes
      then result hard_stop (some postgres_hard_stop) (postgres_below_hard free)
      else if ltb free postgres_soft_stop_free_bytes
      then result soft_stop (some postgres_soft_stop) (postgres_below_soft free)
      else result normal none (postgres_free free)

  pub check_disk : BatchResourceGuard → GuardResult
  check_disk g =
      let w = check_workspace_disk g in
      let p = check_postgres_disk g in if ltb (severity w.tier) (severity p.tier) then p else w

  -- The batch argument is not read.
  pub check_before_claim : BatchResourceGuard → GuardResult
  check_before_claim = check_disk

  -- A reachable Ollama clears the counter; the third failure in a row is a hard stop.
  pub check_ollama_for_embedding : Bool → BatchResourceGuard → GuardResult × BatchResourceGuard
  check_ollama_for_embedding true g =
      (result normal none ollama_reachable, record g { consecutive_ollama_failures = 0 })
  check_ollama_for_embedding false g =
      let n = g.consecutive_ollama_failures + 1 in
      let g' = record g { consecutive_ollama_failures = n } in
      if leb ollama_hard_stop_consecutive_failures n
      then (result hard_stop (some ollama_persistently_unreachable) (ollama_persistent n), g')
      else (result normal none (ollama_unreachable n), g')

  pub check_before_expensive_operation :
      Bool → ExpensiveOperationKind → BatchResourceGuard → GuardResult × BatchResourceGuard
  check_before_expensive_operation reachable archive_extraction g = (check_workspace_disk g, g)
  check_before_expensive_operation reachable embedding g = check_ollama_for_embedding reachable g

  -- The results of the checks before embeddings, one for each answer of Ollama.
  pub embedding_checks : BatchResourceGuard → List Bool → List GuardResult × BatchResourceGuard
  embedding_checks g [] = ([], g)
  embedding_checks g (b ∷ bs) =
      let (r, g') = check_before_expensive_operation b embedding g in
      let (rs, g'') = embedding_checks g' bs in (r ∷ rs, g'')
