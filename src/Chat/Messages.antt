-- ===== src/Chat/Messages.antt =====
-- Who may write and read the chat of a job, a chat message that arrives on a socket, and the history.
use clutch_d_backend.Base.{
  ℕ, String, Bool, false, not, ◌&&◌, ◌||◌, Option, none, some, List, [], ◌∷◌, ◌++◌, ◌==◌,
  if◌then◌else◌, exists, select, is_some,
}
use clutch_d_backend.Schema.{Db, User, Job, ChatMessage, ProviderType}
use clutch_d_backend.Session.{
  Action, Message, http, raise_if, or_raise, query, write, send, new_id, pure, ◌>>=◌, ◌>>◌,
}
use clutch_d_backend.Tables.{job_by_id, mechanic_by_id, garage_by_id}
use clutch_d_backend.Auth.Access.{non_empty}

abbrev owns_mechanic : ℕ → Option ℕ → Db → Bool
owns_mechanic user none db = false
owns_mechanic user (some k) db = exists (λ m. m.id == k && m.user_id == user) db.mechanics

abbrev owns_garage : ℕ → Option ℕ → Db → Bool
owns_garage user none db = false
owns_garage user (some k) db = exists (λ g. g.id == k && g.user_id == user) db.garages

abbrev is_provider : ℕ → Job → Db → Bool
is_provider user job db = elim job.assigned_type [
  | none ↦ false
  | some type ↦ elim type [
    | ProviderType.mechanic ↦ owns_mechanic user job.assigned_mechanic_id db
    | ProviderType.garage ↦ owns_garage user job.assigned_garage_id db
  ]
]

abbrev pub is_participant : User → Job → Db → Bool
is_participant user job db =
    job.user_id == user.id || is_provider user.id job db || user.is_superuser

-- `payload` of a CHAT_MESSAGE; `job_id` is none where it is not there or no UUID.
pub record ChatPayload : Type 0 where
  pub job_id : Option ℕ
  pub text : Option String
  pub image_url : Option String

abbrev pub new_message : (clip : String → String) → ℕ → User → Job → ChatPayload → ChatMessage
new_message clip k user job payload = record {
  id = k;
  job_id = job.id;
  sender_id = user.id;
  sender_role = user.role;
  text = elim payload.text [ none ↦ none | some t ↦ non_empty (some (clip t)) ];
  image_url = payload.image_url;
}

-- The user of the assigned provider.
abbrev provider_uid : Job → Db → Option ℕ
provider_uid job db = elim job.assigned_type [
  | none ↦ none
  | some type ↦ elim type [
    | ProviderType.mechanic ↦ elim job.assigned_mechanic_id [
      | none ↦ none
      | some k ↦ elim (mechanic_by_id k db) [ none ↦ none | some m ↦ some m.user_id ]
    ]
    | ProviderType.garage ↦ elim job.assigned_garage_id [
      | none ↦ none
      | some k ↦ elim (garage_by_id k db) [ none ↦ none | some g ↦ some g.user_id ]
    ]
  ]
]

abbrev relay_to : Option ℕ → ChatMessage → Action (Unit {0})
relay_to none m = pure tt
relay_to (some user) m = send (Message.chat_message user m)

-- The row is committed before it is relayed.
abbrev post : (clip : String → String) → User → Job → ChatPayload → Action (Unit {0})
post clip user job payload = do
  k ← new_id
  let m = new_message clip k user job payload
  write (λ db. record db { chat_messages = db.chat_messages ++ m ∷ [] })
  send (Message.chat_message job.user_id m)
  provider ← query (provider_uid job)
  relay_to provider m

abbrev post_if : (clip : String → String) → User → ChatPayload → Option Job → Action (Unit {0})
post_if clip user payload none = pure tt
post_if clip user payload (some job) = do
  allowed ← query (is_participant user job)
  if allowed then post clip user job payload else pure tt

-- `not raw_job_id or (not text and not image_url)`, and the UUID
abbrev pub has_content : ChatPayload → Bool
has_content payload = is_some (non_empty payload.text) || is_some (non_empty payload.image_url)

abbrev post_to : (clip : String → String) → User → ChatPayload → Option ℕ → Action (Unit {0})
post_to clip user payload none = pure tt
post_to clip user payload (some job_id) =
    if has_content payload
    then (query (job_by_id job_id) >>= post_if clip user payload)
    else pure tt

-- A CHAT_MESSAGE on the socket of a user. `clip` is the slice of the first 4000 characters.
unfoldable pub receive_chat : (clip : String → String) → User → ChatPayload → Action (Unit {0})
receive_chat clip user payload = post_to clip user payload payload.job_id

-- _chat_history_impl; the rows come in the order in which they were added.
unfoldable pub chat_history : (job : ℕ) → Option User → Action (List ChatMessage)
chat_history job_id caller = do
  user ← or_raise caller (http 401)
  found ← query (job_by_id job_id)
  job ← or_raise found (http 404)
  allowed ← query (is_participant user job)
  raise_if (not allowed) (http 403)
  query (λ db. select (λ m. m.job_id == job_id) db.chat_messages)
