-- ===== src/Marketplace.antt =====
-- backend/app/api/v1/marketplace.py: carts, fitments, the products of sellers, coupons
-- and orders.
pub mod Cart
pub mod Filled
pub mod Fitment
pub mod Coupons
pub mod Orders
pub mod Products
pub mod Edits
pub mod Listed
pub mod Replayed
pub mod Changed
pub mod Owned
pub mod Shown
