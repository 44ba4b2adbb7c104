-- ===== src/Identity.antt =====
-- The identity of contents and the attempts to establish it, over the tables of Claims:
-- backend/app/classification/ingestion_attempt_service.py, content_identity_service.py,
-- canonical_decision_service.py, eligibility_service.py, workspace.py and
-- identity_resolution_service.py.
pub mod Attempts
pub mod Contents
pub mod Resolution
pub mod Keeping
pub mod Settling
mod Examples
