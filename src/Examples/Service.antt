-- ===== src/Examples/Service.antt =====
-- The theorems on assigned jobs, on listings and on tickets at concrete inputs.
use clutch_d_backend.Base.{
  ℕ, ◌≤◌, length, select, ◌≡◌, ◌≢◌, refl, sym, String, true, false, some, [], ◌∷◌, ◌++◌, ◌==◌,
  if◌then◌else◌, arith, subst, str_eq, All,
}
use clutch_d_backend.Schema.{Float, Job, SupportTicket}
use clutch_d_backend.Session.{ok, err, http}
use clutch_d_backend.Rewards.Codes.{has_code, IsFresh}
use clutch_d_backend.Desk.Tickets.{TicketCreate, numbers_of, ticket_get}
use clutch_d_backend.Desk.Answered.{creating, ticket_create_lem}
use clutch_d_backend.Jobs.Transitions.{is_closed}
use mathlib.Core.List.{Perm}
use clutch_d_backend.Jobs.Listing.{incoming_as, history_as}
use clutch_d_backend.Jobs.Listed.{Seen, is_unpriced, listings_lem}
use clutch_d_backend.Examples.Samples.{env, admin, customer, driver, db, world}

abbrev charge : Float
charge = Float.bits 500

listings_lem_example :
    (true ≡ true
      → All (Seen driver db) (incoming_as driver.role driver db)
        × All (Seen driver db) (history_as driver.role driver 0 10 db))
    × (true ≡ false
        → (incoming_as driver.role driver db ≡ incoming_as admin.role admin db)
          × (history_as driver.role driver 0 10 db ≡ history_as admin.role admin 0 10 db)
          × (length db.jobs ≤ 50
              → Perm (incoming_as driver.role driver db) (select is_unpriced db.jobs))
          × (length db.jobs ≤ 10
              → Perm
                  (history_as driver.role driver 0 10 db)
                  (select (λ (j : Job). is_closed j.status) db.jobs)))
listings_lem_example = listings_lem driver db 0 10 admin refl

-- The first draw is taken.
abbrev numbers : ℕ → String
numbers n = if n == 0 then "TKT-00000001" else "TKT-00000002"

numbers-IsFresh : IsFresh numbers 2
numbers-IsFresh i j less bound =
    let first : i ≡ 0 = omega (arith, less, bound) in
    let second : j ≡ 1 = omega (arith, less, bound) in
    subst (λ k. str_eq (numbers k) (numbers j) ≡ false) (sym first)
      (subst (λ k. str_eq (numbers 0) (numbers k) ≡ false) (sym second) refl)

abbrev complaint : TicketCreate
complaint = record {
  subject = "Refund";
  message = "Paid twice";
  category = "payment";
  priority = "high";
}

another : driver.id ≢ customer.id
another h = absurd (omega (arith, h))

ticket_create_lem_example :
    let (r, after) = creating env numbers complaint customer world in
    (t : SupportTicket) × (r ≡ ok (some t))
    × (after.db.tickets ≡ db.tickets ++ t ∷ [])
    × (has_code t.ticket_number (numbers_of db) ≡ false)
    × (ticket_get (some t.id) customer after ≡ (ok t, after))
    × (ticket_get (some t.id) driver after ≡ (err (http 404), after))
ticket_create_lem_example =
    ticket_create_lem env numbers complaint customer driver world numbers-IsFresh refl another
