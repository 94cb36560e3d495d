-- ===== src/Schema.antt =====
-- The rows of backend/app/models, one record for each table that the modelled code reads or writes.
-- Primary keys are numbers in place of UUIDs, times are seconds since the epoch in UTC, and a
-- nullable column is an Option.
mod Words
mod Doubles
mod Shop
mod Desk
pub use Words.*
pub use Doubles.*
pub use Shop.*
pub use Desk.*
use clutch_d_backend.Base.{ℕ, String, Bool, List, Option}

-- models/user.py
pub record User : Type 0 where
  pub id : ℕ
  pub email : String
  pub password_hash : String
  pub role : Role
  pub is_active : Bool
  pub is_superuser : Bool
  pub created_at : ℕ

-- models/mechanic.py
pub record Mechanic : Type 0 where
  pub id : ℕ
  pub user_id : ℕ
  pub full_name : String
  pub expertise : List String
  pub lat : Float
  pub lon : Float
  pub rating : Float
  pub verified : Bool
  pub available : Bool
  pub upi_id : Option String
  pub penalized : Bool
  pub penalty_amount : Option ℕ
  pub kyc_status : KycStatus

-- models/garage.py
pub record Garage : Type 0 where
  pub id : ℕ
  pub user_id : ℕ
  pub garage_name : String
  pub services : List String
  pub lat : Float
  pub lon : Float
  pub rating : Float
  pub verified : Bool
  pub upi_id : Option String
  pub penalized : Bool
  pub penalty_amount : Option ℕ
  pub kyc_status : KycStatus

-- models/job.py
pub record Job : Type 0 where
  pub id : ℕ
  pub user_id : ℕ
  pub issue_tag : String
  pub description : String
  pub request_type : RequestType
  pub status : JobStatus
  pub customer_lat : Float
  pub customer_lon : Float
  pub service_amount : Option Float
  pub convenience_fee : Option Float
  pub cancellation_fee : Option Float
  pub distance_km : Option Float
  pub distance_fee : Option Float
  pub gst_amount : Option Float
  pub total_amount : Option Float
  pub provider_upi_id : Option String
  pub assigned_type : Option ProviderType
  pub assigned_mechanic_id : Option ℕ
  pub assigned_garage_id : Option ℕ
  pub vehicle_id : Option ℕ
  pub scheduled_at : Option ℕ
  pub created_at : ℕ

-- models/provider_offer.py
pub record ProviderOffer : Type 0 where
  pub id : ℕ
  pub job_id : ℕ
  pub provider_type : ProviderType
  pub provider_id : ℕ
  pub status : OfferStatus
  pub expires_at : Option ℕ

-- models/payment.py; `amount` is in paise
pub record Payment : Type 0 where
  pub id : ℕ
  pub job_id : ℕ
  pub user_id : ℕ
  pub amount : ℕ
  pub provider : String
  pub provider_order_id : Option String
  pub provider_payment_id : Option String
  pub status : PaymentStatus
  pub method : Option String

-- models/notification.py
pub record Notification : Type 0 where
  pub id : ℕ
  pub user_id : ℕ
  pub title : String
  pub body : NoticeBody
  pub read : Bool
  pub job_id : Option ℕ

-- models/review.py; a rating is a whole number from 1 to 5 in a float column
pub record Review : Type 0 where
  pub id : ℕ
  pub job_id : ℕ
  pub reviewer_user_id : ℕ
  pub rating : ℕ
  pub target_type : ProviderType
  pub target_mechanic_id : Option ℕ
  pub target_garage_id : Option ℕ

-- models/chat.py
pub record ChatMessage : Type 0 where
  pub id : ℕ
  pub job_id : ℕ
  pub sender_id : ℕ
  pub sender_role : Role
  pub text : Option String
  pub image_url : Option String

-- models/dispute.py, without its notes
pub record Dispute : Type 0 where
  pub id : ℕ
  pub job_id : ℕ
  pub status : DisputeStatus
  pub resolved_at : Option ℕ

-- models/device_token.py
pub record DeviceToken : Type 0 where
  pub id : ℕ
  pub user_id : ℕ
  pub token : String
  pub is_active : Bool

-- UserSettings of models/new_models.py
pub record UserSettings : Type 0 where
  pub user_id : ℕ
  pub push_notifications : Bool

-- MarketplaceCartItem of models/marketplace.py
pub record CartItem : Type 0 where
  pub id : ℕ
  pub user_id : ℕ
  pub product_id : ℕ
  pub vendor_id : Option ℕ
  pub quantity : ℕ

-- UserFavorite of models/new_models.py
pub record UserFavorite : Type 0 where
  pub id : ℕ
  pub user_id : ℕ
  pub product_id : ℕ

-- ReferralCode of models/new_models.py
pub record ReferralCode : Type 0 where
  pub id : ℕ
  pub user_id : ℕ
  pub code : String
  pub reward_balance : ℕ
  pub total_referrals : ℕ

-- ReferralReward of models/new_models.py
pub record ReferralReward : Type 0 where
  pub id : ℕ
  pub referrer_user_id : ℕ
  pub referred_user_id : ℕ
  pub referred_email : String
  pub amount : ℕ
  pub status : RewardStatus

-- ClutchDCard of models/new_models.py
pub record ClutchdCard : Type 0 where
  pub id : ℕ
  pub user_id : ℕ
  pub card_number : String
  pub membership_tier : Tier
  pub lifetime_points : ℕ

-- ClutchDOffer of models/new_models.py
pub record ClutchdOffer : Type 0 where
  pub id : ℕ
  pub min_tier : Tier
  pub is_active : Bool

-- MarketplaceProductFitment of models/marketplace.py
pub record ProductFitment : Type 0 where
  pub product_id : ℕ
  pub vehicle_make : Option String
  pub vehicle_model : Option String
  pub year_start : Option ℕ
  pub year_end : Option ℕ
  pub fitment_type : String

pub record Db : Type 0 where
  pub users : List User
  pub mechanics : List Mechanic
  pub garages : List Garage
  pub jobs : List Job
  pub offers : List ProviderOffer
  pub payments : List Payment
  pub notifications : List Notification
  pub reviews : List Review
  pub chat_messages : List ChatMessage
  pub disputes : List Dispute
  pub device_tokens : List DeviceToken
  pub settings : List UserSettings
  pub cart_items : List CartItem
  pub sellers : List Seller
  pub categories : List Category
  pub vendors : List Vendor
  pub products : List Product
  pub coupons : List Coupon
  pub orders : List Order
  pub order_items : List OrderItem
  pub favorites : List UserFavorite
  pub referral_codes : List ReferralCode
  pub referral_rewards : List ReferralReward
  pub cards : List ClutchdCard
  pub card_offers : List ClutchdOffer
  pub fitments : List ProductFitment
  pub vehicles : List Vehicle
  pub tickets : List SupportTicket
  pub fleets : List Fleet
  pub fleet_bookings : List FleetBooking
