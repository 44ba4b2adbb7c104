-- ===== src/Claims.antt =====
-- Claims of work: backend/app/classification/worker_claim_service.py. Rows has the tables' rows;
-- Groups, Reservations and Instances have the service's operations; the others have its theorems.
pub mod Rows
pub mod Groups
pub mod Reservations
pub mod Instances
pub mod Changes
pub mod Costs
pub mod Refunding
pub mod Meter
pub mod Bounds
pub mod Runs
pub mod Fencing
pub mod Granting
pub mod Admission
pub mod Returning
pub mod Samples
mod Examples
