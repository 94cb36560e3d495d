-- ===== src/Payments.antt =====
-- backend/app/api/v1/payments.py, and the escrow routes of backend/app/api/v1/service.py.
pub mod Gateway
pub mod Capture
pub mod Cash
pub mod Verifying
pub mod Payouts
pub mod Once
pub mod Taken
