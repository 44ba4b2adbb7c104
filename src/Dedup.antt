-- ===== src/Dedup.antt =====
-- The deduplication pipeline (backend/app/dedup/): an approved review gives a dry-run plan, a plan
-- an authorization, an authorization one execution, and an execution moves duplicates to quarantine.
pub mod Records
pub mod Exec
pub mod Os
pub mod Reviews
pub mod Plans
pub mod Authorizations
pub mod Executions
pub mod Executor
pub mod Reconciliations
pub mod Changes
pub mod Pipeline
mod Examples
