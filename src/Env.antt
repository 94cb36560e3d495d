-- ===== src/Env.antt =====
-- What a request reads from outside the repository: the clock, float arithmetic, and the settings
-- of backend/app/core/config.py, which come from environment variables.
use clutch_d_backend.Base.{ℕ, ◌+◌, ◌/◌, ◌%◌, String, Bool, ◌||◌, leb, ltb}
use clutch_d_backend.Schema.{Float, FloatOps}

pub record Settings : Type 0 where
  pub default_map_lat : Float
  pub default_map_lon : Float
  pub require_verified_providers : Bool
  pub search_radius_m : Float
  pub platform_upi_id : String

pub record Env : Type 0 where
  pub ops : FloatOps
  pub settings : Settings
  -- datetime.now(timezone.utc), in seconds
  pub now : ℕ

-- The hour of the day at UTC+5:30.
abbrev pub ist_hour : ℕ → ℕ
ist_hour now = (now + 19800) / 3600 % 24

-- `now_ist.hour >= 20 or now_ist.hour < 6` of finalize_job_price.
abbrev pub is_night : ℕ → Bool
is_night now = leb 20 (ist_hour now) || ltb (ist_hour now) 6
