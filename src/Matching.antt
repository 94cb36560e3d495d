-- ===== src/Matching.antt =====
-- backend/app/services/matching.py: which providers a job is offered to, and in what order.
pub mod Expertise
pub mod Rank
pub mod Nearest
pub mod Eligible
pub mod Found
