-- ===== src/Desk/Tickets.antt =====
-- backend/app/api/v1/tickets.py, and dispute_payment of api/v1/service.py.
use clutch_d_backend.Base.{
  ℕ, String, Bool, true, ◌&&◌, Option, none, some, List, ◌∷◌, [], ◌++◌, ◌==◌, str_eq, ltb, find?,
  if◌then◌else◌, select, map, sort, take, drop, length,
}
use clutch_d_backend.Schema.{Db, User, SupportTicket}
use clutch_d_backend.Session.{
  Action, http, query, or_raise, raise_if, write, new_id, pure, ◌>>=◌, ◌>>◌,
}
use clutch_d_backend.Env.{Env}
use clutch_d_backend.Jobs.Routes.{visible_job}
use clutch_d_backend.Rewards.Codes.{free_code, has_code}

-- TicketCreate
pub record TicketCreate : Type 0 where
  pub subject : String
  pub message : String
  pub category : String
  pub priority : String

abbrev pub numbers_of : Db → List String
numbers_of db = map (λ (t : SupportTicket). t.ticket_number) db.tickets

module _ (env : Env) where
  unfoldable pub new_ticket : ℕ → User → TicketCreate → String → SupportTicket
  new_ticket k user body number = record {
    id = k;
    user_id = user.id;
    subject = body.subject;
    message = body.message;
    category = body.category;
    status = "open";
    priority = body.priority;
    ticket_number = number;
    created_at = env.now;
  }

  abbrev pub add_ticket : User → TicketCreate → String → Action SupportTicket
  add_ticket user body number = do
    k ← new_id
    write (λ db. record db { tickets = db.tickets ++ new_ticket k user body number ∷ [] })
    pure (new_ticket k user body number)

  -- `none` where the fuel runs out.
  abbrev pub add_numbered : User → TicketCreate → Option String → Action (Option SupportTicket)
  add_numbered user body none = pure none
  add_numbered user body (some number) = do t ← add_ticket user body number; pure (some t)

  -- `draws` are the texts that _generate_ticket_number gives, one after the other.
  unfoldable pub ticket_create :
      (fuel : ℕ) → (draws : ℕ → String) → TicketCreate → User → Action (Option SupportTicket)
  unfolding new_ticket free_code
  ticket_create fuel draws body user = do
    taken ← query numbers_of
    add_numbered user body (free_code draws taken fuel 0)

  -- dispute_payment does not look whether its number is free: if it is not, then the constraint is
  -- violated, which nothing handles, a 500. `subject` is the text with the job's id.
  unfoldable pub dispute_payment :
      (number : String)
      → (subject : ℕ → String) → (job : ℕ) → (reason : String) → User
      → Action SupportTicket
  unfolding new_ticket
  dispute_payment number subject job_id reason user = do
    job ← visible_job job_id user
    taken ← query numbers_of
    raise_if (has_code number taken) (http 500)
    add_ticket user
        (record {
          subject = subject job.id;
          message = reason;
          category = "payment";
          priority = "high";
        })
        number

abbrev newer : SupportTicket → SupportTicket → Bool
newer a b = ltb b.created_at a.created_at

-- `if status: …`
abbrev has_status : Option String → SupportTicket → Bool
has_status none t = true
has_status (some status) t = if str_eq status "" then true else str_eq t.status status

-- The page of tickets, and how many there are in all.
unfoldable pub ticket_list : Option String → (skip limit : ℕ) → User → Db → List SupportTicket × ℕ
ticket_list status skip limit user db =
    let rows = select (λ t. t.user_id == user.id && has_status status t) db.tickets in
    (take limit (drop skip (sort newer rows)), length rows)

-- `none` is an id that is no UUID.
unfoldable pub ticket_get : Option ℕ → User → Action SupportTicket
ticket_get ticket_id user = do
  k ← or_raise ticket_id (http 400)
  found ← query (λ db. find? (λ t. t.id == k && t.user_id == user.id) db.tickets)
  or_raise found (http 404)
