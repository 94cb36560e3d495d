-- ===== src/Examples/Dealings.antt =====
-- The theorems on offers, payments, the cart and reviews at concrete inputs.
use clutch_d_backend.Jobs.Visibility.{MaySee}
use clutch_d_backend.Base.{
  ℕ, All, ◌≢◌, ◌≤◌, ◌≡◌, refl, true, false, none, some, List, [], ◌∷◌, arith,
}
use clutch_d_backend.Schema.{
  Float, Job, JobStatus, OfferStatus, Payment, PaymentStatus, ProviderType,
}
use clutch_d_backend.Examples.Samples.{
  env, server, gateway, customer, driver, offer, order, world, callback, delivery, three_more,
}
use clutch_d_backend.Session.{Message, ok, err, http, in_session}
use clutch_d_backend.Tables.{job_by_id}
use clutch_d_backend.Jobs.Transitions.{is_closed}
use clutch_d_backend.Offers.Answer.{resolve_provider, Provider, Claim, accept_offer}
use clutch_d_backend.Offers.Create.{create_provider_offers, searching_job, is_early}
use clutch_d_backend.Offers.Fanout.{Dispatched, create_provider_offers_lem}
use clutch_d_backend.Offers.Accepting.{Accepted, accept_offer_lem}
use clutch_d_backend.Offers.Accepting.{set_offers}
use clutch_d_backend.Offers.Answer.{OfferReply, decline_offer, offer_to}
use clutch_d_backend.Offers.Declining.{decline_offer_lem}
use clutch_d_backend.Offers.Request.{ServiceRequestCreate, new_job, create_request}
use clutch_d_backend.Offers.Opening.{opened, OpenedWith, create_request_lem}
use clutch_d_backend.Schema.{RequestType}
use clutch_d_backend.Reviews.Create.{ReviewCreate}
use clutch_d_backend.Reviews.Written.{Reviewed}
use clutch_d_backend.Payments.Capture.{Verified, captured_row, payment_verify}
use clutch_d_backend.Payments.Verifying.{payment_verify_lem}
use clutch_d_backend.Offers.Race.{Turn, wins, wins-le_one}
use clutch_d_backend.Payments.Payouts.{set_payments, payouts, Settled}
use clutch_d_backend.Payments.Once.{Report, receive_all, receive_all-payouts, receive_all-Settled}
use clutch_d_backend.Payments.Taken.{Taken, paying, cash_payment_lem, cash_payment_twice}
use clutch_d_backend.Payments.Cash.{cash_payment}
use clutch_d_backend.Marketplace.Filled.{adding, AddedTo, add_cart_item_lem}

abbrev mechanic : Provider
mechanic = record { type = ProviderType.mechanic; id = 10 }

abbrev claim : Claim
claim = record { offer = offer; provider = mechanic }

abbrev reports : List Report
reports =
    Report.verify callback customer ∷ Report.webhook delivery ∷ Report.verify callback customer ∷ []

create_provider_offers_lem_example :
    let (r, after) = create_provider_offers env server 100 world in
    (searching_job 100 world.db ≡ none → (r ≡ ok 0) × (after ≡ world))
    × ((job : Job)
        → searching_job 100 world.db ≡ some job
        → is_early env.now job.scheduled_at ≡ true
        → (r ≡ ok 0) × (after ≡ world))
    × ((job : Job)
        → searching_job 100 world.db ≡ some job
        → is_early env.now job.scheduled_at ≡ false
        → Dispatched env server job world (r, after))
create_provider_offers_lem_example = create_provider_offers_lem env server 100 world

knows_driver : resolve_provider driver world ≡ (ok mechanic, world)
unfolding resolve_provider
knows_driver = refl

accept_offer_lem_example :
    let (r, after) = accept_offer env driver 200 world in
    (true ≡ true
      → false ≡ false
      → true ≡ true
      → Accepted env driver 200 world knows_driver refl refl (r, after))
    × (true ≡ false → (r ≡ err (http 409)) × (after ≡ world))
    × (true ≡ true → false ≡ true → (r ≡ err (http 410)) × (after ≡ world))
    × (true ≡ true
        → false ≡ false
        → searching_job 100 world.db ≡ none
        → (r ≡ err (http 409)) × (after ≡ world))
accept_offer_lem_example = accept_offer_lem env driver 200 world knows_driver refl refl

wins-le_one_example : wins env 100 (Turn.claim claim ∷ Turn.claim claim ∷ []) world ≤ 1
wins-le_one_example = wins-le_one env 100 (Turn.claim claim ∷ Turn.claim claim ∷ []) world

receive_all-payouts_example : payouts 300 (receive_all env gateway reports world).sent ≤ 1
receive_all-payouts_example = receive_all-payouts env gateway reports 300 world

receive_all-Settled_example :
    Settled 301 (receive_all env gateway reports world).db.payments
    × (payouts 301 (receive_all env gateway reports world).sent ≡ 0)
receive_all-Settled_example =
    receive_all-Settled env gateway reports 301 world ((λ h. cc), ((λ h. refl), tt))

cash_taken : (paying 102 5000 driver world).0 ≡ ok 1000
unfolding cash_payment in_session
cash_taken = refl

cash_payment_lem_example :
    (job : Job) × (job_by_id 102 world.db ≡ some job)
    × (is_closed job.status ≡ false)
    × All
        (λ (p : Payment).
          p.job_id ≡ 102 → (p.status ≢ PaymentStatus.captured) × (p.status ≢ PaymentStatus.pending))
        world.db.payments
    × MaySee driver job world.db
    × Taken 102 5000 job world (paying 102 5000 driver world)
cash_payment_lem_example = cash_payment_lem 102 5000 driver world cash_taken

cash_payment_twice_example :
    paying 102 6000 customer (paying 102 5000 driver world).1
    ≡ (err (http 409), (paying 102 5000 driver world).1)
cash_payment_twice_example = cash_payment_twice 102 5000 6000 driver customer world cash_taken refl

add_cart_item_lem_example :
    AddedTo three_more customer world
      (adding three_more customer world).1.db
      (adding three_more customer world).0
add_cart_item_lem_example = add_cart_item_lem three_more customer world refl (omega arith)

decline_offer_lem_example :
    let (r, after) = decline_offer driver 200 world in
    (true ≡ true
      → ((reply : OfferReply) × (r ≡ ok reply)
          × (reply.status ≡ OfferStatus.declined)
          × (reply.job_id ≡ 100))
        × (offer_to 200 mechanic after.db ≡ some (record offer { status = OfferStatus.declined }))
        × (after ≡ record world {
          db = record (world.db) {
            offers = set_offers (record offer { status = OfferStatus.declined }) world.db.offers;
          };
        })
        × (accept_offer env driver 200 after ≡ (err (http 409), after))
        × (decline_offer driver 200 after ≡ (err (http 409), after)))
    × (true ≡ false → (r ≡ err (http 409)) × (after ≡ world))
decline_offer_lem_example = decline_offer_lem env driver 200 world knows_driver refl

abbrev form : ServiceRequestCreate
form = record {
  issue_tag = "flat_tire";
  description = "a flat tire";
  request_type = RequestType.auto;
  customer_lat = none;
  customer_lon = none;
  vehicle_id = none;
  scheduled_at = none;
}

create_request_lem_example :
    let (r, after) = create_request env server customer form world in
    (true ≡ true
      → (job_by_id 1000 after.db ≡ some (new_job env server 1000 customer form))
        × ((n : ℕ) × ((create_provider_offers env server 1000
                (opened env server customer form world)).0
              ≡ ok n)
            × OpenedWith env server customer form world n (r, after)))
    × (true ≡ false → (r ≡ err (http 403)) × (after ≡ world))
create_request_lem_example = create_request_lem env server customer form world refl

abbrev highest : ℕ → List ℕ → Float
highest x xs = Float.bits x

abbrev praise : ReviewCreate
praise = record { job_id = 103; rating = 5 }

payment_verify_lem_example :
    let (r, after) = in_session (payment_verify env gateway callback customer) world in
    (false ≡ true → (r ≡ ok Verified.already_captured) × (after ≡ world))
    × ((job : Job)
        → false ≡ false
        → job_by_id 104 world.db ≡ some job
        → (r ≡ ok Verified.captured)
          × (after.db.payments
              ≡ set_payments (captured_row order (some "pay_1") "online") world.db.payments)
          × ((job' : Job) × (job_by_id 104 after.db ≡ some job')
              × (job'.status ≡ JobStatus.completed))
          × ((service total : Float)
              → job.service_amount ≡ some service
              → job.total_amount ≡ some total
              → env.ops.is_zero service ≡ false
              → env.ops.is_zero total ≡ false
              → after.sent ≡ Message.payout 300 job.id service (env.ops.sub total service) ∷ [])
          × (job.service_amount ≡ none → after.sent ≡ []))
    × (false ≡ false
        → job_by_id 104 world.db ≡ none
        → (r ≡ ok Verified.captured)
          × (after.db.payments
              ≡ set_payments (captured_row order (some "pay_1") "online") world.db.payments)
          × (after.sent ≡ []))
payment_verify_lem_example = payment_verify_lem env gateway callback customer world refl refl refl
