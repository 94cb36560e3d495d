-- ===== src/Rewards.antt =====
-- Referral codes, membership cards and favourites: backend/app/api/v1/referral.py, card.py and
-- favorites.py.
pub mod Codes
pub mod Referral
pub mod Card
pub mod Favorites
pub mod Issuing
