-- ===== src/Chat/Kept.antt =====
-- A chat message from the socket to the history.
use clutch_d_backend.Base.{
  ℕ, ◌≡◌, ap, ◌∙◌, String, Bool, true, false, Option, none, some, str_eq, if◌then◌else◌, List, [],
  ◌∷◌, ◌++◌, ◌==◌, arith, select, ==_refl,
}
use clutch_d_backend.Schema.{Db, User, Job, ChatMessage}
use clutch_d_backend.Session.{World, Result, ok, err, http}
use clutch_d_backend.Tables.{job_by_id, job_by_id-id}
use clutch_d_backend.Chat.Messages.{
  ChatPayload, is_participant, has_content, receive_chat, chat_history,
}

select-append :
    {A : Type 0} (p : A → Bool) (xs : List A) (x : A)
    → p x ≡ true
    → select p (xs ++ x ∷ []) ≡ select p xs ++ x ∷ []
select-append p [] x hit = ground arith
select-append p (y ∷ ys) x hit = ground (arith, select-append p ys x)

module _ (clip : String → String) (user : User) (payload : ChatPayload) (k : ℕ) (job : Job)
    (w : World) where
  abbrev pub received : Result (Unit {0}) × World
  received = receive_chat clip user payload w

  -- The text of the message, cut to its length; an empty one is none.
  abbrev shortened : Option String → Option String
  shortened none = none
  shortened (some t) = if str_eq (clip t) "" then none else some (clip t)

  abbrev pub message : ChatMessage
  message = record {
    id = w.next_id;
    job_id = job.id;
    sender_id = user.id;
    sender_role = user.role;
    text = shortened payload.text;
    image_url = payload.image_url;
  }

  -- The messages of the job.
  abbrev pub chat_of : Db → List ChatMessage
  chat_of db = select (λ m. m.job_id == k) db.chat_messages

  abbrev with_message : Db
  with_message = record w.db { chat_messages = w.db.chat_messages ++ message ∷ [] }

  -- The chat does not tell who takes part.
  same_participant :
      (reader : User) → is_participant reader job with_message ≡ is_participant reader job w.db
  same_participant reader = ground arith

  posts :
      payload.job_id ≡ some k
      → has_content payload ≡ true
      → job_by_id k w.db ≡ some job
      → is_participant user job w.db ≡ true
      → (received.0 ≡ ok tt) × (received.1.db ≡ with_message)
  unfolding receive_chat
  posts names says stored may = (ground arith, ground arith)

  reads :
      (reader : User) (v : World)
      → job_by_id k v.db ≡ some job
      → is_participant reader job v.db ≡ true
      → chat_history k (some reader) v ≡ (ok (chat_of v.db), v)
  unfolding chat_history
  reads reader v stored may = ground arith

  refused :
      payload.job_id ≡ some k
      → has_content payload ≡ true
      → job_by_id k w.db ≡ some job
      → is_participant user job w.db ≡ false
      → (received ≡ (ok tt, w)) × (chat_history k (some user) w ≡ (err (http 403), w))
  unfolding receive_chat chat_history
  refused names says stored stranger = (ground arith, ground arith)

  -- A chat message with a text or an image, for a stored job. Of a participant it is stored with
  -- the sender, the image and the text, cut to its length, last in the chat of the job, as every
  -- participant then reads in the history, and no job changes. Of anybody else
  -- it changes and sends nothing, and they cannot read the history: a 403.
  pub receive_chat_lem :
      payload.job_id ≡ some k
      → has_content payload ≡ true
      → job_by_id k w.db ≡ some job
      → (is_participant user job w.db ≡ true
          → (received.0 ≡ ok tt)
            × (received.1.db.jobs ≡ w.db.jobs)
            × ((reader : User)
                → is_participant reader job w.db ≡ true
                → chat_history k (some reader) received.1
                  ≡ (ok (chat_of w.db ++ message ∷ []), received.1)))
        × (is_participant user job w.db ≡ false
            → (received ≡ (ok tt, w)) × (chat_history k (some user) w ≡ (err (http 403), w)))
  receive_chat_lem names says stored = (
    (λ may.
        let (r, db) = posts names says stored may in
        let hit = ap (λ i. i == k) (job_by_id-id k w.db.jobs stored) ∙ ==_refl k in
        let jobs = ap Db.jobs db in
        (
          r,
          jobs,
          λ reader allowed.
              let stored' = ap (job_by_id k) db ∙ stored in
              let allowed' =
                ap (is_participant reader job) db ∙ same_participant reader ∙ allowed in
              let chat =
                ap chat_of db
                ∙ select-append (λ (m : ChatMessage). m.job_id == k) w.db.chat_messages message
                    hit in
              reads reader received.1 stored' allowed' ∙ ap (λ ms. (ok ms, received.1)) chat,
        )),
    λ stranger. refused names says stored stranger,
  )
