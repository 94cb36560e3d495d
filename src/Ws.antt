-- ===== src/Ws.antt =====
-- backend/app/ws/manager.py: which sockets are connected for which user, and for which job.
pub mod Manager
pub mod Clean
pub mod Rooms
