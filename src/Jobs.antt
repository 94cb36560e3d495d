-- ===== src/Jobs.antt =====
-- backend/app/services/job_service.py, and the routes of backend/app/api/v1/service.py and
-- backend/app/api/v1/jobs.py that run it.
pub mod Transitions
pub mod Access
pub mod Response
pub mod Status
pub mod Pricing
pub mod Routes
pub mod Edges
pub mod Lifecycle
pub mod Visibility
pub mod Effects
pub mod Deletion
pub mod Assigning
pub mod Progress
pub mod Listing
pub mod Listed
pub mod Auto
pub mod Autoassigned
