-- ===== src/Examples/Office.antt =====
-- The theorems on administrators at concrete inputs.
use clutch_d_backend.Base.{ℕ, String, ◌≡◌, ◌≢◌, refl, true, false, some, Option, ◌∷◌, All}
use clutch_d_backend.Schema.{Float, PaymentStatus, Role}
use clutch_d_backend.Session.{Message, err, http, ok}
use clutch_d_backend.Env.{Env}
use clutch_d_backend.Matching.Rank.{Ranked}
use clutch_d_backend.Matching.Nearest.{Server, nearest_mechanics}
use clutch_d_backend.Payments.Capture.{Verified, payment_of}
use clutch_d_backend.Admin.Barred.{IsBarred, suspending, toggle_user_status_lem}
use clutch_d_backend.Admin.Penalized.{penalizing, penalize_provider_lem}
use clutch_d_backend.Admin.Refunds.{refunding, verifying_again, refund_payment_undone}
use clutch_d_backend.Examples.Samples.{
  env, gateway, customer, driver, admin, assigned, finished, paid, dispute, towing, world, callback,
}

toggle_user_status_lem_example :
    (Role.admin ≡ Role.admin
      → false ≡ false
      → ((suspending 2 admin driver world).0 ≡ ok false)
        × IsBarred 2 (suspending 2 admin driver world).1)
    × (true ≡ false → false ≡ false → suspending 2 admin driver world ≡ (err (http 403), world))
toggle_user_status_lem_example = toggle_user_status_lem 2 admin driver world refl

penalize_provider_lem_example :
    let after = penalizing env 500 2000 admin dispute assigned towing world in
    (after.0 ≡ ok tt)
    × ((settings : Env) (server : Server) (lat lon : Float) (limit : ℕ) (tag : Option String)
        → All
            (λ (r : Ranked). r.id ≢ 10)
            (nearest_mechanics settings server after.1.db lat lon limit tag))
penalize_provider_lem_example =
    penalize_provider_lem env 500 2000 admin dispute assigned towing world refl refl refl refl

refund_payment_undone_example :
    let body = record callback { payment_id = 301 } in
    let first = refunding env gateway body customer admin 70000 paid finished world in
    let again = verifying_again env gateway body customer admin 70000 paid finished world in
    (first.0 ≡ ok tt)
    × (first.1.sent ≡ world.sent)
    × (payment_of 301 1 first.1.db ≡ some (record paid { status = PaymentStatus.refunded }))
    × (again.0 ≡ ok Verified.captured)
    × (again.1.sent ≡ Message.payout 301 103 (Float.bits 500) (Float.bits 200) ∷ world.sent)
refund_payment_undone_example =
    refund_payment_undone env gateway (record callback { payment_id = 301 }) customer admin 70000
      paid finished world refl refl refl refl refl refl refl refl
