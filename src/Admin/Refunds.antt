-- ===== src/Admin/Refunds.antt =====
-- A refund by an administrator, and the callback of the same payment after it.
use clutch_d_backend.Base.{
  ℕ, String, ◌≡◌, refl, ap, ◌∙◌, true, ◌&&◌, some, ◌∷◌, ◌==◌, arith, find?, find?-holds,
  find?-overwritten, ==_refl,
}
use clutch_d_backend.Schema.{Float, Role, User, Job, Payment, PaymentStatus, is_captured}
use clutch_d_backend.Session.{World, Message, Result, ok, in_session}
use clutch_d_backend.Env.{Env}
use clutch_d_backend.Tables.{job_by_id}
use clutch_d_backend.Jobs.Pricing.{payout_amounts}
use clutch_d_backend.Payments.Gateway.{Gateway}
use clutch_d_backend.Payments.Capture.{VerifyBody, Verified, payment_of, payment_verify}
use clutch_d_backend.Payments.Payouts.{set_payments}
use clutch_d_backend.Payments.Verifying.{payment_verify_lem, pays}
use clutch_d_backend.Admin.Accounts.{refund_payment}

module _ (env : Env) (gateway : Gateway) (body : VerifyBody) (user admin : User) (amount : ℕ)
    (p : Payment) (job : Job) (w : World) where
  abbrev pub refunding : Result (Unit {0}) × World
  refunding = in_session (refund_payment body.payment_id amount admin) w

  abbrev pub verifying_again : Result Verified × World
  verifying_again = in_session (payment_verify env gateway body user) refunding.1

  abbrev refunded : Payment
  refunded = record p { status = PaymentStatus.refunded }

  refunds :
      admin.role ≡ Role.admin
      → find? (λ r. r.id == body.payment_id) w.db.payments ≡ some p
      → job_by_id p.job_id w.db ≡ some job
      → is_captured p.status ≡ true
      → (refunding.0 ≡ ok tt)
        × (refunding.1.db.payments ≡ set_payments refunded w.db.payments)
        × (refunding.1.db.jobs ≡ w.db.jobs)
        × (refunding.1.sent ≡ w.sent)
  unfolding refund_payment in_session
  refunds is stored linked done = (ground arith, ground arith, ground arith, ground arith)

  -- A refund is undone by a repeated callback: for a captured payment of a priced job, the refund by an
  -- administrator succeeds, sends no message, and leaves the payment refunded; the next verification by
  -- the payment's user that carries an accepted signature answers that it captured the payment, and pays
  -- the two shares out.
  pub refund_payment_undone :
      {secret : String} {provider platform : Float}
      → admin.role ≡ Role.admin
      → find? (λ r. r.id == body.payment_id) w.db.payments ≡ some p
      → payment_of body.payment_id user.id w.db ≡ some p
      → job_by_id p.job_id w.db ≡ some job
      → is_captured p.status ≡ true
      → gateway.key_secret ≡ some secret
      → gateway.signature_matches secret body.order_id body.razorpay_payment_id body.signature
        ≡ true
      → payout_amounts env job.service_amount job.total_amount ≡ some (provider, platform)
      → (refunding.0 ≡ ok tt)
        × (refunding.1.sent ≡ w.sent)
        × (payment_of body.payment_id user.id refunding.1.db ≡ some refunded)
        × (verifying_again.0 ≡ ok Verified.captured)
        × (verifying_again.1.sent ≡ Message.payout p.id job.id provider platform ∷ w.sent)
  refund_payment_undone {provider = provider} {platform = platform} is stored owned linked done
        known signed due =
      let (r, rows, jobs, sent) = refunds is stored linked done in
      let mine = λ (v : Payment). v.id == body.payment_id && v.user_id == user.id in
      let found : payment_of body.payment_id user.id refunding.1.db ≡ some refunded =
        ap (find? mine) rows
        ∙ find?-overwritten mine (λ v. v.id == p.id) refunded w.db.payments owned (==_refl p.id)
            (find?-holds mine w.db.payments owned) in
      let linked' = ap (find? (λ j. j.id == p.job_id)) jobs ∙ linked in
      let (answer, payments, finished, paid, unpaid) =
        (payment_verify_lem env gateway body user refunding.1 known signed found).1 job refl
          linked' in
      (
        r,
        sent,
        found,
        answer,
        pays env gateway body user refunding.1 known signed found refl linked' due
            ∙ ap (λ s. Message.payout p.id job.id provider platform ∷ s) sent,
      )
