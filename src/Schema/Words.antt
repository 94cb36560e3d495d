-- ===== src/Schema/Words.antt =====
-- The words that backend/app/models/enums.py and the string columns of backend/app/models hold.
use clutch_d_backend.Base.{ℕ, String, Bool, true, false, ◌==◌}
use clutch_d_backend.Schema.Doubles.{Float}

-- users.role; `other` is any text that is no UserRole.
pub data Role : Type 0 where
  customer mechanic garage seller admin other : Role

-- jobs.status, and `providers_notified`, which is only ever shown; `other` is any further text.
pub data JobStatus : Type 0 where
  searching assigned en_route in_progress payment_pending completed cancelled : JobStatus
  providers_notified other : JobStatus

-- jobs.request_type
pub data RequestType : Type 0 where
  auto mechanic garage : RequestType

-- provider_offers.provider_type, jobs.assigned_type and reviews.target_type
pub data ProviderType : Type 0 where
  mechanic garage : ProviderType

-- provider_offers.status
pub data OfferStatus : Type 0 where
  pending accepted declined : OfferStatus

-- payments.status
pub data PaymentStatus : Type 0 where
  pending captured failed refunded held released : PaymentStatus

-- disputes.status
pub data DisputeStatus : Type 0 where
  open_dispute investigating resolved dismissed : DisputeStatus

-- mechanics.kyc_status and garages.kyc_status
pub data KycStatus : Type 0 where
  pending submitted verified rejected : KycStatus

-- referral_rewards.status
pub data RewardStatus : Type 0 where
  pending paid cancelled : RewardStatus

-- Membership tiers. An offer's min_tier that is none of these counts as bronze.
pub data Tier : Type 0 where
  bronze silver gold platinum : Tier

-- The body of a notification: a fixed text, the bill of a price, or a new request's issue tag.
pub data NoticeBody : Type 0 where
  text : String → NoticeBody
  bill : Float → NoticeBody
  request : String → NoticeBody
  -- an amount in paise, and the payment or dispute that it is for
  amount : (paise about : ℕ) → NoticeBody
  assignment : (job : ℕ) → NoticeBody

abbrev status_code : JobStatus → ℕ
status_code JobStatus.searching = 0
status_code JobStatus.assigned = 1
status_code JobStatus.en_route = 2
status_code JobStatus.in_progress = 3
status_code JobStatus.payment_pending = 4
status_code JobStatus.completed = 5
status_code JobStatus.cancelled = 6
status_code JobStatus.providers_notified = 7
status_code JobStatus.other = 8

-- `==` on two status words; no two texts of `other` are ever compared.
abbrev pub status_eq : JobStatus → JobStatus → Bool
status_eq a b = status_code a == status_code b

abbrev pub provider_eq : ProviderType → ProviderType → Bool
provider_eq ProviderType.mechanic ProviderType.mechanic = true
provider_eq ProviderType.garage ProviderType.garage = true
provider_eq _ _ = false

abbrev pub is_pending : OfferStatus → Bool
is_pending OfferStatus.pending = true
is_pending _ = false

abbrev pub is_captured : PaymentStatus → Bool
is_captured PaymentStatus.captured = true
is_captured _ = false

abbrev pub is_unpaid : PaymentStatus → Bool
is_unpaid PaymentStatus.pending = true
is_unpaid _ = false

abbrev pub is_held : PaymentStatus → Bool
is_held PaymentStatus.held = true
is_held _ = false

-- `status in ("captured", "pending")`
abbrev pub is_live : PaymentStatus → Bool
is_live PaymentStatus.captured = true
is_live PaymentStatus.pending = true
is_live _ = false
