-- ===== src/Push.antt =====
-- Pushes for new offers: backend/app/services/push_service.py, and dispatch_offer_push of
-- backend/app/tasks/worker.py.
pub mod Batch
pub mod Dispatch
pub mod Counted
