-- ===== src/Examples/Samples.antt =====
-- A small database and its surroundings: float operations on whole numbers, a server with PostGIS, a
-- gateway that takes every signature, one customer, two mechanics, a garage and five jobs.
use clutch_d_backend.Base.{
  pos, ℕ, ◌+◌, ◌*◌, ◌-◌, ◌==◌, true, false, Option, none, some, [], ◌∷◌, ltb,
}
use clutch_d_backend.Schema.{
  Dispute, DisputeStatus, Float, FloatOps, User, Role, KycStatus, Mechanic, Garage, Job, JobStatus,
  RequestType, ProviderType, ProviderOffer, OfferStatus, Payment, PaymentStatus, Db, Product, Order,
}
use clutch_d_backend.Redis.{Redis}
use clutch_d_backend.Session.{World}
use clutch_d_backend.Env.{Env}
use clutch_d_backend.Matching.Nearest.{Server}
use clutch_d_backend.Payments.Gateway.{Gateway}
use clutch_d_backend.Marketplace.Cart.{CartItemCreate}
use clutch_d_backend.Payments.Capture.{VerifyBody, Delivery, Event}

abbrev num : Float → ℕ
num (Float.bits n) = n

abbrev pub whole : FloatOps
whole = record {
  lit = λ n d. Float.bits n;
  add = λ a b. Float.bits (num a + num b);
  neg = λ a. a;
  sub = λ a b. Float.bits (num a - num b);
  mul = λ a b. Float.bits (num a * num b);
  div = λ a b. a;
  lt = λ a b. ltb (num a) (num b);
  is_zero = λ a. num a == 0;
  round2 = λ a. a;
  to_int = num;
  square = λ a. Float.bits (num a * num a);
  radians = λ a. a;
  sin = λ a. a;
  cos = λ a. a;
  asin = λ a. a;
  sqrt = λ a. a;
}

abbrev pub env : Env
env = record {
  ops = whole;
  settings = record {
    default_map_lat = Float.bits 11;
    default_map_lon = Float.bits 76;
    require_verified_providers = true;
    search_radius_m = Float.bits 25000;
    platform_upi_id = "platform@upi";
  };
  now = 1000000;
}

abbrev pub server : Server
server = record {
  postgis = true;
  arrays = true;
  st_distance = λ a b c d. Float.bits 500;
  st_dwithin = λ a b c d r. true;
}

abbrev pub gateway : Gateway
gateway = record {
  has_client = true;
  create_order = λ amount job. some "order_1";
  create_qrcode = λ amount job. some "qr_1";
  key_secret = some "secret";
  webhook_secret = some "secret";
  signature_matches = λ secret order payment signature. true;
}

abbrev pub user_of : ℕ → Role → User
user_of k role = record {
  id = k;
  email = "";
  password_hash = "hash";
  role = role;
  is_active = true;
  is_superuser = false;
  created_at = k;
}

abbrev pub customer : User
customer = user_of 1 Role.customer

abbrev pub driver : User
driver = user_of 2 Role.mechanic

abbrev pub admin : User
admin = user_of 9 Role.admin

abbrev mechanic_of : ℕ → ℕ → Mechanic
mechanic_of k user = record {
  id = k;
  user_id = user;
  full_name = "M";
  expertise = "tires" ∷ [];
  lat = Float.bits 11;
  lon = Float.bits 76;
  rating = Float.bits 4;
  verified = true;
  available = true;
  upi_id = some "m@upi";
  penalized = false;
  penalty_amount = none;
  kyc_status = KycStatus.verified;
}

abbrev pub towing : Mechanic
towing = mechanic_of 10 2

abbrev garage : Garage
garage = record {
  id = 20;
  user_id = 4;
  garage_name = "G";
  services = "tires" ∷ [];
  lat = Float.bits 11;
  lon = Float.bits 76;
  rating = Float.bits 4;
  verified = true;
  upi_id = none;
  penalized = false;
  penalty_amount = none;
  kyc_status = KycStatus.verified;
}

abbrev pub job_of : ℕ → JobStatus → Option ℕ → Job
job_of k status mechanic = record {
  id = k;
  user_id = 1;
  issue_tag = "flat_tire";
  description = "";
  request_type = RequestType.auto;
  status = status;
  customer_lat = Float.bits 11;
  customer_lon = Float.bits 76;
  service_amount = some (Float.bits 500);
  convenience_fee = none;
  cancellation_fee = none;
  distance_km = none;
  distance_fee = none;
  gst_amount = none;
  total_amount = some (Float.bits 700);
  provider_upi_id = none;
  assigned_type = none;
  assigned_mechanic_id = mechanic;
  assigned_garage_id = none;
  vehicle_id = none;
  scheduled_at = none;
  created_at = k;
}

abbrev pub searching : Job
searching = job_of 100 JobStatus.searching none

abbrev pub assigned : Job
assigned = job_of 101 JobStatus.assigned (some 10)

abbrev pub unpaid : Job
unpaid = job_of 102 JobStatus.payment_pending (some 10)

abbrev pub finished : Job
finished = job_of 103 JobStatus.completed (some 10)

abbrev pub ordered : Job
ordered = job_of 104 JobStatus.payment_pending (some 10)

abbrev pub offer : ProviderOffer
offer = record {
  id = 200;
  job_id = 100;
  provider_type = ProviderType.mechanic;
  provider_id = 10;
  status = OfferStatus.pending;
  expires_at = some 1000900;
}

abbrev pub order : Payment
order = record {
  id = 300;
  job_id = 104;
  user_id = 1;
  amount = 70000;
  provider = "razorpay";
  provider_order_id = some "order_1";
  provider_payment_id = none;
  status = PaymentStatus.pending;
  method = none;
}

abbrev pub paid : Payment
paid = record order { id = 301; job_id = 103; status = PaymentStatus.captured }

abbrev pub dispute : Dispute
dispute = record { id = 500; job_id = 101; status = DisputeStatus.open_dispute; resolved_at = none }

abbrev pub product : Product
product = record {
  id = 7;
  name = "Brake pad";
  description = none;
  brand = none;
  vendor_id = some 800;
  vendor = some "V";
  seller_user_id = some 5;
  price = 129900;
  image = some "/static/uploads/pad.jpg";
  category_id = none;
  category = none;
  availability = true;
  delivery_time = none;
  client_request_id = some "form-1";
}

abbrev pub purchase : Order
purchase = record {
  id = 900;
  user_id = 1;
  total = pos 129900;
  status = "confirmed";
  address = some "Main Street 1";
  payment = none;
  created_at = 500;
}

abbrev pub db : Db
db = record {
  users = customer ∷ driver ∷ user_of 3 Role.mechanic ∷ user_of 4 Role.garage ∷ admin ∷ [];
  mechanics = mechanic_of 10 2 ∷ mechanic_of 11 3 ∷ [];
  garages = garage ∷ [];
  jobs = searching ∷ assigned ∷ unpaid ∷ finished ∷ ordered ∷ [];
  offers = offer ∷ [];
  payments = order ∷ paid ∷ [];
  notifications = [];
  reviews = [];
  chat_messages = [];
  disputes = dispute ∷ [];
  device_tokens = record { id = 700; user_id = 2; token = "phone"; is_active = true } ∷ [];
  settings = [];
  cart_items =
      record { id = 400; user_id = 1; product_id = 7; vendor_id = none; quantity = 2 } ∷ [];
  sellers = [];
  categories = [];
  vendors = record { id = 800; name = "V" } ∷ [];
  products = product ∷ [];
  coupons =
      record {
        code = "SAVE10";
        discount_percent = 10;
        discount_amount = 0;
        min_purchase = 5000;
        active = true;
      }
      ∷ [];
  orders = purchase ∷ [];
  order_items = [];
  favorites = [];
  referral_codes =
      record { id = 600; user_id = 2; code = "AB12CD34"; reward_balance = 0; total_referrals = 0 }
      ∷ [];
  referral_rewards = [];
  cards = [];
  card_offers = [];
  fitments = [];
  vehicles = [];
  tickets =
      record {
        id = 950;
        user_id = 1;
        subject = "Late";
        message = "Nobody came";
        category = "general";
        status = "open";
        priority = "normal";
        ticket_number = "TKT-00000001";
        created_at = 10;
      }
      ∷ [];
  fleets = [];
  fleet_bookings = [];
}

abbrev empty : Redis
empty = record { revoked = []; revoked_ends = 0; counters = []; codes = [] }

abbrev pub world : World
world = record { db = db; sent = []; next_id = 1000; redis = empty }

abbrev pub callback : VerifyBody
callback = record {
  order_id = "order_1";
  razorpay_payment_id = "pay_1";
  signature = "sig";
  payment_id = 300;
}

abbrev pub delivery : Delivery
delivery = record {
  signed = true;
  parsed = some (record {
    event = Event.payment_captured;
    order_id = some "order_1";
    entity_id = some "pay_1";
    method = none;
  });
}

abbrev pub three_more : CartItemCreate
three_more = record { product_id = 7; vendor_id = none; quantity = 3 }
