-- ===== src/Reviews.antt =====
-- Reviews of backend/app/api/v1/reviews.py.
pub mod Create
pub mod Branches
pub mod Written
pub mod Reviewed
