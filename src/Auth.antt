-- ===== src/Auth.antt =====
-- Authentication: backend/app/core/security.py, backend/app/api/deps.py, backend/app/api/v1/token.py,
-- backend/app/services/auth_service.py and backend/app/api/v1/auth.py.
pub mod Tokens
pub mod Access
pub mod Calls
pub mod Revoked
pub mod Issued
pub mod Login
pub mod Guesses
pub mod Locked
pub mod Reset
pub mod Register
