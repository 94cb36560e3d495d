-- ===== src/Schema/Shop.antt =====
-- The rows of the marketplace in backend/app/models/marketplace.py, and of models/seller.py. A price is
-- a Numeric(10, 2) column, counted here in hundredths.
use clutch_d_backend.Base.{ℕ, String, Bool, Option, ℤ}

-- models/seller.py
pub record Seller : Type 0 where
  pub id : ℕ
  pub user_id : ℕ
  pub store_name : String
  pub verified : Bool

-- MarketplaceCategory
pub record Category : Type 0 where
  pub id : ℕ
  pub slug : String
  pub name : String

-- MarketplaceVendor
pub record Vendor : Type 0 where
  pub id : ℕ
  pub name : String

-- MarketplaceProduct, without its rating, which nothing writes
pub record Product : Type 0 where
  pub id : ℕ
  pub name : String
  pub description : Option String
  pub brand : Option String
  pub vendor_id : Option ℕ
  pub vendor : Option String
  pub seller_user_id : Option ℕ
  pub price : ℕ
  pub image : Option String
  pub category_id : Option ℕ
  pub category : Option String
  pub availability : Bool
  pub delivery_time : Option String
  pub client_request_id : Option String

-- MarketplaceOffer
pub record Coupon : Type 0 where
  pub code : String
  pub discount_percent : ℕ
  pub discount_amount : ℕ
  pub min_purchase : ℕ
  pub active : Bool

-- MarketplaceOrder; its address and its payment are JSON, kept as texts
pub record Order : Type 0 where
  pub id : ℕ
  pub user_id : ℕ
  pub total : ℤ
  pub status : String
  pub address : Option String
  pub payment : Option String
  pub created_at : ℕ

-- MarketplaceOrderItem
pub record OrderItem : Type 0 where
  pub id : ℕ
  pub order_id : ℕ
  pub product_id : Option ℕ
  pub name : Option String
  pub quantity : ℤ
  pub price : ℤ
