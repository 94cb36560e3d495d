-- ===== src/Session.antt =====
-- A request handler: it reads and writes the database, sends messages, and raises.
-- backend/app/db/session.py wraps every request in one transaction (`get_db`): it commits after a
-- normal return, and rolls back after an exception. Messages that are already sent stay sent.
pub mod Keeps
use clutch_d_backend.Base.{
  ℕ, suc, String, ◌≡◌, Bool, Option, none, some, List, [], ◌∷◌, if◌then◌else◌, arith,
}
use clutch_d_backend.Redis.{Redis}
use clutch_d_backend.Schema.{ChatMessage, Db, Float, JobStatus}

-- The provider summary that a job response and a status push carry. The distance is in metres;
-- `none` is "Unknown distance".
pub record Summary : Type 0 where
  pub id : ℕ
  pub name : String
  pub rating : Float
  pub distance : Option Float

pub record Pricing : Type 0 where
  pub service_amount : Option Float
  pub convenience_fee : Option Float
  pub cancellation_fee : Option Float
  pub distance_km : Option Float
  pub distance_fee : Option Float
  pub gst_amount : Option Float
  pub total_amount : Option Float
  pub platform_upi_id : String

-- What leaves the process: WebSocket messages of app/ws/manager.py and Celery tasks of
-- app/tasks/worker.py.
pub data Message : Type 0 where
  status_update : (user job : ℕ) → JobStatus → Option Summary → Option Pricing → Message
  location_update : (user job : ℕ) → Float → Float → Message
  notification_update : (user unread : ℕ) → Message
  retry_assignment : (job countdown : ℕ) → Message
  offer_push : (job count countdown : ℕ) → Message
  chat_message : (user : ℕ) → ChatMessage → Message
  push : (token : String) (offer job : ℕ) → Message
  payout : (payment job : ℕ) → (provider_amount platform_amount : Float) → Message

pub record World : Type 0 where
  pub db : Db
  -- the latest first
  pub sent : List Message
  -- the next primary key; uuid4 is taken never to repeat
  pub next_id : ℕ
  pub redis : Redis

pub data Error : Type 0 where
  -- an HTTPException, by its status code
  http : ℕ → Error
  invalid_transition : (current target : JobStatus) → Error
  -- SQLAlchemy's MultipleResultsFound
  multiple_results : Error

pub data Result {ℓ} (A : Type ℓ) : Type ℓ where
  ok : A → Result A
  err : Error → Result A

abbrev pub Action {ℓ} : Type ℓ → Type ℓ
Action A = World → Result A × World

module _ {ℓ} {A : Type ℓ} where
  abbrev pub pure : A → Action A
  pure a w = (ok a, w)

  abbrev pub raise : Error → Action A
  raise e w = (err e, w)

  abbrev pub query : (Db → A) → Action A
  query f w = (ok (f w.db), w)

  -- `if x is None: raise …`
  abbrev pub or_raise : Option A → Error → Action A
  or_raise none e = raise e
  or_raise (some a) e = pure a

infixl 5 ◌>>=◌ ◌>>◌
abbrev pub ◌>>=◌ {ℓ κ} : {A : Type ℓ} {B : Type κ} → Action A → (A → Action B) → Action B
◌>>=◌ m f w = let (r, w') = m w in elim r [ ok a ↦ f a w' | err e ↦ (err e, w') ]

abbrev pub ◌>>◌ {ℓ} : {B : Type ℓ} → Action (Unit {0}) → Action B → Action B
m >> k = m >>= λ _. k

abbrev pub raise_if : Bool → Error → Action (Unit {0})
raise_if b e w = (if b then err e else ok tt, w)

abbrev pub write : (Db → Db) → Action (Unit {0})
write f w = (ok tt, record w { db = f w.db })

abbrev pub send : Message → Action (Unit {0})
send m w = (ok tt, record w { sent = m ∷ w.sent })

abbrev pub new_id : Action ℕ
new_id w = (ok w.next_id, record w { next_id = suc w.next_id })

-- `scalar_one_or_none()` over the rows that a query found.
abbrev pub one_or_none {ℓ} : {A : Type ℓ} → List A → Action (Option A)
one_or_none [] = pure none
one_or_none (x ∷ []) = pure (some x)
one_or_none (x ∷ y ∷ rest) = raise multiple_results

-- The end of `get_db`: commit, or roll back to what the session found.
abbrev pub end_session {ℓ} : {A : Type ℓ} → Db → Result A × World → Result A × World
end_session found (ok a, w) = (ok a, w)
end_session found (err e, w) = (err e, record w { db = found })

-- `get_db` round a handler.
unfoldable pub in_session {ℓ} : {A : Type ℓ} → Action A → Action A
in_session m w = end_session w.db (m w)
