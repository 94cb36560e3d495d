-- ===== src/Offers.antt =====
-- backend/app/services/offer_service.py: offers of a job to providers, and their answers.
pub mod Create
pub mod Answer
pub mod Inserts
pub mod Fanout
pub mod Accepting
pub mod Declining
pub mod Race
pub mod Request
pub mod Opening
