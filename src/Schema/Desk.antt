-- ===== src/Schema/Desk.antt =====
-- The rows of backend/app/models/vehicle.py and fleet.py, and of the tickets in new_models.py.
use clutch_d_backend.Base.{ℕ, String, Option}

-- models/vehicle.py
pub record Vehicle : Type 0 where
  pub id : ℕ
  pub user_id : ℕ
  pub make : String
  pub model : String
  pub year : Option ℕ
  pub license_plate : Option String
  pub color : Option String

-- SupportTicket of models/new_models.py
pub record SupportTicket : Type 0 where
  pub id : ℕ
  pub user_id : ℕ
  pub subject : String
  pub message : String
  pub category : String
  pub status : String
  pub priority : String
  pub ticket_number : String
  pub created_at : ℕ

-- models/fleet.py, without the columns that keep their defaults
pub record Fleet : Type 0 where
  pub id : ℕ
  pub user_id : Option ℕ
  pub company_name : String
  pub fleet_type : String
  pub fleet_size : String
  pub contact_name : String
  pub contact_email : String
  pub contact_phone : String
  pub business_address : String
  pub gstin : Option String

-- FleetBooking of models/fleet.py; its vehicles are JSON, kept as texts, and its amounts are floats
-- that nothing reads, kept as the client sends them
pub record FleetBooking : Type 0 where
  pub id : ℕ
  pub fleet_id : ℕ
  pub user_id : Option ℕ
  pub scheduled_at : ℕ
  pub vehicle_count : ℕ
  pub discount_percent : ℕ
  pub status : String
  pub created_at : ℕ
