-- ===== src/Lib.antt =====
-- ClutchD backend: roadside assistance. A customer opens a job, mechanics and garages near it get
-- offers, one of them accepts, prices the work and is paid.
--
-- The program is backend/app, a FastAPI service over PostgreSQL. Each request runs in one
-- transaction; between its queries it sends WebSocket messages and queues Celery tasks. Here a
-- request handler is an Action: a function from a World (the tables, what has been sent, the next
-- key) to a result and a World. An HTTPException is an error value, and get_db of db/session.py is
-- in_session, which rolls the tables back at an error but takes no message back.
--
-- The files:
--   Base: Boolean tests, lists, rows of a table, a stable sort, and integers over the native ℕ.
--   Schema, Tables: the tables of backend/app/models, one record for each (those of the shop in
--     Schema/Shop, of tickets, vehicles and fleets in Schema/Desk), and how rows are found
--     and written. A query for one row is a lookup of the first match, a flush is an update by key.
--   Session: actions, in_session, and rules for what a session keeps.
--   Env, Geo: settings of core/config.py, the clock, and haversine_m of services/matching.py.
--   Jobs: services/job_service.py, the routes of api/v1/service.py and api/v1/jobs.py that change a
--     job, and services/payout_service.py. Transitions has the table of statuses, Access and
--     Visibility who sees a job, Status and Pricing the operations, Routes the handlers, Edges and
--     Lifecycle the graph that histories of requests follow, Progress the way of a job to its end,
--     Effects, Assigning and Deletion what single operations do. Listing has the incoming jobs, the
--     history and the other routes of api/v1/jobs.py, with Listed on who is shown what; Auto is
--     assign_job_auto, and Autoassigned says whom it assigns.
--   Matching: services/matching.py. Expertise maps issue tags, Nearest is the search with its
--     fallback, Rank the scores; Eligible and Found say what is returned.
--   Offers: services/offer_service.py and the retry task of tasks/worker.py. Create is the fanout,
--     Answer accepting and declining; accept_offer is split at its row lock into check_offer and
--     assign_job, so that what other transactions do in between can be stated. Request is the
--     creation of a job, which calls the fanout. Inserts, Fanout, Accepting, Declining, Race and
--     Opening say what they do.
--   Payments: api/v1/payments.py and the escrow routes of api/v1/service.py. Gateway opens payments,
--     Capture verifies them, Cash takes cash, holds and releases; Verifying, Payouts, Once and Taken
--     say how often money moves.
--   Marketplace: api/v1/marketplace.py: the cart (Cart, Filled), whether a product fits a vehicle
--     (Fitment), the products of sellers (Products creates, Edits changes and deletes; Listed,
--     Replayed, Changed and Owned on what that does), coupons (Coupons) and orders (Orders, Shown).
--   Desk: support tickets (Tickets, Answered), vehicles (Vehicles) and fleets with their bookings
--     (Fleets, Registered): api/v1/tickets.py, vehicles.py, fleet.py, and the routes of
--     api/v1/service.py that write a ticket or a vehicle.
--   Reviews: create_review of api/v1/reviews.py. Create is the handler; Branches, Written and
--     Reviewed say what it does.
--   Redis: what api/v1/auth.py and core/security.py keep in Redis: counters and codes with the time
--     they expire, and the set of revoked tokens, which expires as a whole.
--   Auth: core/security.py is Tokens; api/deps.py, api/v1/token.py, `logout` of api/v1/auth.py and
--     _authenticate_ws of main.py are Access; `login` of services/auth_service.py and the routes for
--     logging in and for a forgotten password are Login; Register adds accounts. Calls, Revoked and
--     Issued follow tokens over sequences of calls, Guesses, Locked and Reset passwords and codes.
--   Ws: ConnectionManager of ws/manager.py. Manager has the dictionary of sets of sockets, Clean its
--     well-formedness, Rooms histories of it against a relation.
--   Chat: the socket loop of main.py. Messages is the chat and its history, Socket the loop with its
--     guards and a mechanic's location, Kept what becomes of a message.
--   Push: services/push_service.py (Batch) and dispatch_offer_push of tasks/worker.py (Dispatch);
--     Counted says what a batch does.
--   Admin: api/v1/admin.py. Accounts suspends, verifies, refunds and assigns, Disputes settles;
--     Barred, Penalized and Refunds follow that into authentication, matching and payments. Ledger is
--     mechanic_payout_ledger, which Entered and Owed compare with a tally of each provider's jobs.
--   Rewards: api/v1/referral.py, card.py and favorites.py. Codes is the loop that draws a code,
--     Issuing what a user gets of it.
--   Profile: api/v1/providers.py (Presence), settings.py (Account), device_tokens.py and
--     notifications.py (Inbox).
--   Examples: the theorems at concrete inputs.
--
-- What is a parameter: float arithmetic and Python's math functions (FloatOps), the database's
-- PostGIS functions and whether they are there (Server), Razorpay and the HMAC digests (Gateway),
-- jose's tokens and hashlib's digests (Jwt), passlib's hashes and the methods of str on an email
-- (Passwords), Firebase's answers (Firebase), what secrets draws, settings and the clock (Env,
-- AuthEnv), the methods of str, uuid and SQL on the texts of a product or a fleet (Texts,
-- FleetTexts), and the database's average of a column (the argument `avg` of create_review). Of jose
-- it is relied on that a token has the same claims whenever it is decoded, that it is not decoded
-- after its expiry, and, where a theorem says so, that encoding is undone by decoding; of floats,
-- where a theorem says so, that `<` is asymmetric. Keys are numbers drawn from a counter in place of
-- UUIDs that never repeat. Times are seconds. Prices of the marketplace, which are decimals with two
-- places, are counted in hundredths; the amount that a coupon is asked for is an exact decimal of any
-- length. The payouts that services/payout_service.py simulates in its log are messages. Two loops
-- need fuel, those that draw referral codes and ticket numbers until one is free: a round for each
-- stored code and one more are enough if the draws are pairwise different. All others run over lists.
--
-- What is not modelled: texts for people in messages, logs, the rate limits by address, the parsing
-- of JSON, the accounts of sellers and the sign-in with Google, the forms of profiles, the search for
-- products with its categories and reviews, the PDF of an invoice, and of the administration deleting
-- a user, which relies on the cascades of the database, the audit trail, the listings but for the
-- ledger, and the analytics. A transaction is atomic, but for the two steps of accepting an offer,
-- and so is a send to the sockets of a user. A spatial query that fails leaves the transaction
-- usable.
pub mod Base
pub mod Schema
pub mod Redis
pub mod Session
pub mod Ws
pub mod Env
pub mod Geo
pub mod Tables
pub mod Auth
pub mod Jobs
pub mod Matching
pub mod Offers
pub mod Payments
pub mod Marketplace
pub mod Reviews
pub mod Rewards
pub mod Admin
pub mod Push
pub mod Chat
pub mod Profile
pub mod Desk
pub mod Examples
