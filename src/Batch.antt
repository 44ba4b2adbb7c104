-- ===== src/Batch.antt =====
-- Ingestion batches: backend/app/models/ingestion_batch.py, the resource guard
-- backend/app/classification/resource_guard.py, and the control service
-- backend/app/classification/batch_control_service.py.
pub mod Model
pub mod Guard
pub mod Control
mod Examples
