-- ===== src/Profile.antt =====
-- What users change of their own: backend/app/api/v1/providers.py, settings.py, device_tokens.py and
-- notifications.py.
pub mod Presence
pub mod Account
pub mod Inbox
