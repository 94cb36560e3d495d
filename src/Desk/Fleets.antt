-- ===== src/Desk/Fleets.antt =====
-- backend/app/api/v1/fleet.py.
use clutch_d_backend.Base.{
  ℕ, String, Bool, true, false, not, ◌&&◌, ◌||◌, Option, none, some, List, ◌∷◌, [], ◌++◌, ◌==◌,
  str_eq, if◌then◌else◌, ltb, leb, is_some, is_some_eq, find?, select, sort, length,
}
use Prim.Native.Char.{code}
use clutch_d_backend.Schema.{Db, User, Fleet, FleetBooking}
use clutch_d_backend.Session.{
  Action, http, query, or_raise, one_or_none, raise_if, write, new_id, pure, ◌>>=◌, ◌>>◌,
}
use clutch_d_backend.Env.{Env}
use clutch_d_backend.Jobs.Access.{is_admin}
use clutch_d_backend.Auth.Login.{user_by_email}

-- The methods of str on the texts of the form.
pub record FleetTexts : Type 0 where
  pub strip : String → String
  pub lower : String → String
  pub upper : String → String

-- FleetRegisterBody
pub record FleetRegisterBody : Type 0 where
  pub company_name : String
  pub fleet_type : String
  pub fleet_size : String
  pub contact_name : String
  pub contact_email : String
  pub contact_phone : String
  pub business_address : String
  pub gstin : Option String

abbrev codes : String → List ℕ
codes String.[] = []
codes (String.◌∷◌ c s) = code c ∷ codes s

abbrev is_digit : ℕ → Bool
is_digit c = leb b'0' c && leb c b'9'

abbrev is_upper : ℕ → Bool
is_upper c = leb b'A' c && leb c b'Z'

-- The classes of the pattern, one for each character.
abbrev gstin_classes : List (ℕ → Bool)
gstin_classes =
    is_digit
    ∷ is_digit
    ∷ is_upper
    ∷ is_upper
    ∷ is_upper
    ∷ is_upper
    ∷ is_upper
    ∷ is_digit
    ∷ is_digit
    ∷ is_digit
    ∷ is_digit
    ∷ is_upper
    ∷ (λ c. (leb b'1' c && leb c b'9') || is_upper c)
    ∷ (λ c. c == b'Z')
    ∷ (λ c. is_digit c || is_upper c)
    ∷ []

abbrev match_all : List (ℕ → Bool) → List ℕ → Bool
match_all [] [] = true
match_all (p ∷ ps) (c ∷ cs) = p c && match_all ps cs
match_all _ _ = false

-- `GSTIN_RE.match`, of a text without white space at its end
unfoldable pub is_gstin : String → Bool
is_gstin s = match_all gstin_classes (codes s)

module _ (texts : FleetTexts) where
  open texts use {strip, lower, upper}

  -- `(body.gstin or "").strip().upper() or None`
  abbrev pub gstin_of : Option String → Option String
  gstin_of none = none
  gstin_of (some s) = if str_eq (upper (strip s)) "" then none else some (upper (strip s))

  abbrev pub is_bad_gstin : Option String → Bool
  is_bad_gstin none = false
  is_bad_gstin (some s) = not (is_gstin s)

  abbrev pub is_registered : FleetRegisterBody → Fleet → Bool
  is_registered body f =
      str_eq f.contact_email (lower body.contact_email)
      && str_eq f.company_name (strip body.company_name)

  unfoldable pub new_fleet : ℕ → FleetRegisterBody → Option User → Fleet
  new_fleet k body owner = record {
    id = k;
    user_id = elim owner [ none ↦ none | some u ↦ some u.id ];
    company_name = strip body.company_name;
    fleet_type = body.fleet_type;
    fleet_size = body.fleet_size;
    contact_name = strip body.contact_name;
    contact_email = lower body.contact_email;
    contact_phone = strip body.contact_phone;
    business_address = strip body.business_address;
    gstin = gstin_of body.gstin;
  }

  unfoldable pub register_fleet : FleetRegisterBody → Action Fleet
  unfolding is_gstin new_fleet
  register_fleet body = do
    raise_if (is_bad_gstin (gstin_of body.gstin)) (http 422)
    rows ← query (λ db. select (is_registered body) db.fleets)
    existing ← one_or_none rows
    raise_if (is_some existing) (http 409)
    owner ← query (user_by_email (lower body.contact_email))
    k ← new_id
    write (λ db. record db { fleets = db.fleets ++ new_fleet k body owner ∷ [] })
    pure (new_fleet k body owner)

abbrev pub is_own : User → Fleet → Bool
is_own user f = is_some_eq f.user_id user.id || str_eq f.contact_email user.email

unfoldable pub my_fleet : User → Db → List Fleet × ℕ
my_fleet user db = let own = select (is_own user) db.fleets in (own, length own)

-- FleetBookingCreate
pub record FleetBookingCreate : Type 0 where
  pub scheduled_at : ℕ
  pub vehicles : List String
  pub discount_percent : ℕ

-- _get_own_fleet: the first of the rows
abbrev pub own_fleet : User → Action Fleet
own_fleet user = do fleet ← query (λ db. find? (is_own user) db.fleets); or_raise fleet (http 404)

-- A body with no vehicle, or with more than 100 percent, gets a 422.
unfoldable pub create_fleet_booking : Env → FleetBookingCreate → User → Action FleetBooking
create_fleet_booking env body user = do
  raise_if (length body.vehicles == 0 || ltb 100 (length body.vehicles)) (http 422)
  raise_if (ltb 100 body.discount_percent) (http 422)
  fleet ← own_fleet user
  k ← new_id
  let b : FleetBooking = record {
    id = k;
    fleet_id = fleet.id;
    user_id = some user.id;
    scheduled_at = body.scheduled_at;
    vehicle_count = length body.vehicles;
    discount_percent = body.discount_percent;
    status = "confirmed";
    created_at = env.now;
  }
  write (λ db. record db { fleet_bookings = db.fleet_bookings ++ b ∷ [] })
  pure b

abbrev later : FleetBooking → FleetBooking → Bool
later a b = ltb b.created_at a.created_at

unfoldable pub list_fleet_bookings : User → Action (List FleetBooking)
list_fleet_bookings user = do
  fleet ← own_fleet user
  query (λ db. sort later (select (λ b. b.fleet_id == fleet.id) db.fleet_bookings))

unfoldable pub get_fleet : ℕ → User → Action Fleet
get_fleet fleet_id user = do
  found ← query (λ db. find? (λ f. f.id == fleet_id) db.fleets)
  fleet ← or_raise found (http 404)
  raise_if (not (is_own user fleet || is_admin user.role)) (http 403)
  pure fleet
