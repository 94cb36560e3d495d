-- ===== src/Chat.antt =====
-- Chat and live locations: the socket loop and the history of backend/app/main.py.
pub mod Messages
pub mod Socket
pub mod Kept
