-- ===== src/Admin.antt =====
-- What administrators do: backend/app/api/v1/admin.py. Every route asks for the role `admin` first. The
-- audit trail of its decorator is not modelled, nor are the listings but for the ledger of payouts.
pub mod Accounts
pub mod Disputes
pub mod Barred
pub mod Penalized
pub mod Refunds
pub mod Ledger
pub mod Entered
pub mod Owed
