-- ===== src/Chat/Socket.antt =====
-- The loop of websocket_user: the guards on what arrives, chat messages, and a mechanic's location.
use clutch_d_backend.Base.{
  ℕ, ◌+◌, String, Bool, true, false, ◌&&◌, Option, none, some, List, [], ◌∷◌, ◌++◌, is_some_eq,
  if◌then◌else◌, leb, ltb, length, select,
}
use clutch_d_backend.Schema.{Db, Float, User, Role, Mechanic, Job, JobStatus}
use clutch_d_backend.Session.{Action, Message, query, send, pure, ◌>>=◌, ◌>>◌}
use clutch_d_backend.Tables.{mechanic_by_user}
use clutch_d_backend.Chat.Messages.{ChatPayload, receive_chat}
use clutch_d_backend.Admin.Accounts.{save_mechanic}

-- A text that is JSON, by its `type`. The place is none where a coordinate is not there or no number.
pub data Frame : Type 0 where
  chat : ChatPayload → Frame
  location : Option (Float × Float) → Frame
  other : Frame

-- A text: how long it is, when it comes by the monotonic clock in milliseconds and by the wall clock in
-- seconds, and what it is, if it is JSON.
pub record Arrival : Type 0 where
  pub size : ℕ
  pub ticks : ℕ
  pub now : ℕ
  pub frame : Option Frame

-- msg_timestamps of the connection, and the user's entry of _last_db_persist.
pub record SocketState : Type 0 where
  pub stamps : List ℕ
  pub last_persist : ℕ

abbrev pub max_ws_message_size : ℕ
max_ws_message_size = 4096

abbrev pub ws_msg_rate_limit : ℕ
ws_msg_rate_limit = 10

abbrev pub location_db_interval_sec : ℕ
location_db_interval_sec = 30

-- `now - t < 1.0`
abbrev pub recent : ℕ → List ℕ → List ℕ
recent ticks = select (λ t. ltb ticks (t + 1000))

-- `status in ("assigned", "en_route", "in_progress")`
abbrev pub is_moving : JobStatus → Bool
is_moving JobStatus.assigned = true
is_moving JobStatus.en_route = true
is_moving JobStatus.in_progress = true
is_moving _ = false

abbrev pub send_locations : List Job → Float → Float → Action (Unit {0})
send_locations [] lat lon = pure tt
send_locations (job ∷ jobs) lat lon =
    send (Message.location_update job.user_id job.id lat lon) >> send_locations jobs lat lon

abbrev pub jobs_under_way : Mechanic → Db → List Job
jobs_under_way m db =
    select (λ j. is_some_eq j.assigned_mechanic_id m.id && is_moving j.status) db.jobs

-- The new entry of _last_db_persist.
abbrev persist : Float → Float → (now last : ℕ) → Mechanic → Action ℕ
persist lat lon now last m =
    if leb (last + location_db_interval_sec) now
    then (save_mechanic (record m { lat = lat; lon = lon }) >> pure now)
    else pure last

abbrev move : Float → Float → (now last : ℕ) → Option Mechanic → Action ℕ
move lat lon now last none = pure last
move lat lon now last (some m) = do
  jobs ← query (jobs_under_way m)
  send_locations jobs lat lon
  persist lat lon now last m

abbrev pub is_mechanic : Role → Bool
is_mechanic Role.mechanic = true
is_mechanic _ = false

abbrev on_location : User → Option (Float × Float) → (now last : ℕ) → Action ℕ
on_location user none now last = pure last
on_location user (some (lat, lon)) now last =
    if is_mechanic user.role
    then (query (mechanic_by_user user.id) >>= move lat lon now last)
    else pure last

abbrev on_frame : (clip : String → String) → User → (now last : ℕ) → Option Frame → Action ℕ
on_frame clip user now last none = pure last
on_frame clip user now last (some (Frame.chat payload)) =
    receive_chat clip user payload >> pure last
on_frame clip user now last (some (Frame.location place)) = on_location user place now last
on_frame clip user now last (some Frame.other) = pure last

-- One turn of the loop.
unfoldable pub on_arrival :
    (clip : String → String) → User → SocketState → Arrival → Action SocketState
unfolding receive_chat
on_arrival clip user state a = if ltb max_ws_message_size a.size then pure state else (do
  let stamps = recent a.ticks state.stamps
  if leb ws_msg_rate_limit (length stamps) then pure (record state { stamps = stamps }) else (do
    last ← on_frame clip user a.now state.last_persist a.frame
    pure (record { stamps = stamps ++ a.ticks ∷ []; last_persist = last })))
