-- ===== src/Desk/Answered.antt =====
-- ticket_create of backend/app/api/v1/tickets.py, and who reads the ticket.
use clutch_d_backend.Base.{
  ℕ, suc, ◌≡◌, ◌≢◌, refl, sym, ap, ◌∙◌, String, Bool, false, ◌&&◌, Option, none, some, List, [],
  ◌∷◌, ◌++◌, ◌==◌, ==_refl, arith, find?, find?-added, length, is_some-some,
}
use clutch_d_backend.Schema.{User, SupportTicket}
use clutch_d_backend.Session.{World, Result, ok, err, http}
use clutch_d_backend.Env.{Env}
use clutch_d_backend.Rewards.Codes.{free_code, has_code, IsFresh, free_code-some, free_code-free}
use clutch_d_backend.Desk.Tickets.{TicketCreate, numbers_of, new_ticket, ticket_create, ticket_get}

abbrev is_ticket_of : ℕ → ℕ → SupportTicket → Bool
is_ticket_of k user t = t.id == k && t.user_id == user

-- No row has the key: nobody finds a new row under it but its user.
added_other :
    (k user : ℕ) (t : SupportTicket) (ts : List SupportTicket)
    → find? (λ x. x.id == k) ts ≡ none
    → (t.user_id == user) ≡ false
    → find? (is_ticket_of k user) (ts ++ t ∷ []) ≡ none
added_other k user t [] free ne = ground arith
added_other k user t (x ∷ ts) free ne = ground (arith, added_other k user t ts)

absent_of :
    (k user : ℕ) (ts : List SupportTicket)
    → find? (λ x. x.id == k) ts ≡ none
    → find? (is_ticket_of k user) ts ≡ none
absent_of k user [] free = refl
absent_of k user (x ∷ ts) free = ground (arith, absent_of k user ts)

module _ (env : Env) (draws : ℕ → String) (body : TicketCreate) (user : User) (w : World) where
  abbrev rounds : ℕ
  rounds = suc (length (numbers_of w.db))

  abbrev pub creating : Result (Option SupportTicket) × World
  creating = ticket_create env rounds draws body user w

  created :
      {number : String}
      → free_code draws (numbers_of w.db) rounds 0 ≡ some number
      → let t = new_ticket env w.next_id user body number in
        (creating.0 ≡ ok (some t)) × (creating.1.db.tickets ≡ w.db.tickets ++ t ∷ [])
  unfolding ticket_create
  created found = (ground arith, ground arith)

  new_ticket-id :
      (number : String)
      → ((new_ticket env w.next_id user body number).id ≡ w.next_id)
        × ((new_ticket env w.next_id user body number).user_id ≡ user.id)
        × ((new_ticket env w.next_id user body number).ticket_number ≡ number)
  unfolding new_ticket
  new_ticket-id number = (refl, refl, refl)

reads :
    (k : ℕ) (user : User) (t : SupportTicket) (w : World)
    → find? (is_ticket_of k user.id) w.db.tickets ≡ some t
    → ticket_get (some k) user w ≡ (ok t, w)
unfolding ticket_get
reads k user t w found = ground arith

misses :
    (k : ℕ) (user : User) (w : World)
    → find? (is_ticket_of k user.id) w.db.tickets ≡ none
    → ticket_get (some k) user w ≡ (err (http 404), w)
unfolding ticket_get
misses k user w gone = ground arith

ne-test : (a b : ℕ) → a ≢ b → (a == b) ≡ false
ne-test a b ne = ground arith

module _ (env : Env) (draws : ℕ → String) (body : TicketCreate) (user other : User)
    (w : World) where
  -- If as many draws as there are tickets and one more are pairwise different, and no ticket has the key
  -- of the new row: the loop ends, and the ticket is stored behind the others, under a number that no
  -- other has. Its user then reads it under its key as it was answered, and every other user, an
  -- administrator too, gets a 404.
  pub ticket_create_lem :
      IsFresh draws (suc (length (numbers_of w.db)))
      → find? (λ t. t.id == w.next_id) w.db.tickets ≡ none
      → other.id ≢ user.id
      → let (r, after) = creating env draws body user w in
        (t : SupportTicket) × (r ≡ ok (some t))
        × (after.db.tickets ≡ w.db.tickets ++ t ∷ [])
        × (has_code t.ticket_number (numbers_of w.db) ≡ false)
        × (ticket_get (some t.id) user after ≡ (ok t, after))
        × (ticket_get (some t.id) other after ≡ (err (http 404), after))
  ticket_create_lem fresh free ne =
      let n : ℕ = suc (length (numbers_of w.db)) in
      let (number, found) =
        is_some-some (free_code draws (numbers_of w.db) n 0)
          (free_code-some draws n n 0 (numbers_of w.db) fresh (omega arith) (omega arith)) in
      let t = new_ticket env w.next_id user body number in
      let (id, of_user, numbered) = new_ticket-id env draws body user w number in
      let (done, added) = created env draws body user w found in
      let after = (creating env draws body user w).1 in
      let mine : find? (is_ticket_of t.id user.id) after.db.tickets ≡ some t =
        ap (find? (is_ticket_of t.id user.id)) added
        ∙ find?-added (is_ticket_of t.id user.id) w.db.tickets t
            (absent_of t.id user.id w.db.tickets
              (ap (λ k. find? (λ x. x.id == k) w.db.tickets) id ∙ free))
            (ground (arith, of_user, ==_refl t.id)) in
      let hidden : find? (is_ticket_of t.id other.id) after.db.tickets ≡ none =
        ap (find? (is_ticket_of t.id other.id)) added
        ∙ added_other t.id other.id t w.db.tickets
            (ap (λ k. find? (λ x. x.id == k) w.db.tickets) id ∙ free)
            (ne-test t.user_id other.id (λ e. ne (sym e ∙ of_user))) in
      (
        t,
        done,
        added,
        ap (λ c. has_code c (numbers_of w.db)) numbered
            ∙ free_code-free draws (numbers_of w.db) n 0 found,
        reads t.id user t after mine,
        misses t.id other after hidden,
      )
