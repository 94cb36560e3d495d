-- ===== src/Payments/Once.antt =====
-- Sequences of reports of a capture or a failure: payment_verify by the client's callback, and
-- payment_webhook.
use clutch_d_backend.Base.{
  ℕ, suc, ◌≤◌, ◌≡◌, refl, ◌∙◌, subst, inl, inr, String, true, false, not, Option, none, some, List,
  [], ◌∷◌, ◌==◌, arith, select, All, find?-All, All-select_of, str_eq,
}
use clutch_d_backend.Schema.{User, Job, Payment, PaymentStatus, is_captured, is_unpaid}
use clutch_d_backend.Session.{
  Action, World, ok, http, in_session, pure, raise_if, query, or_raise, one_or_none, ◌>>=◌, ◌>>◌,
}
use clutch_d_backend.Env.{Env}
use clutch_d_backend.Tables.{job_by_id, save_payment}
use clutch_d_backend.Jobs.Pricing.{process_payouts}
use clutch_d_backend.Payments.Gateway.{Gateway}
use clutch_d_backend.Payments.Capture.{
  VerifyBody, Verified, Delivery, Payload, Event, capture, captured_row, settle, payment_verify,
  payment_webhook, payment_of, on_event, on_order, on_payment, has_order, verify_row,
  method_or_online,
}
use clutch_d_backend.Payments.Payouts.{
  payouts, IsSettled, Settled, set_payments, Wrote, Step, Outcome, payouts-settle, in_session-Step,
  raise_if-Outcome, if-Outcome, or_raise-Outcome, then-Outcome, Outcome-ok, Step-Settled,
  Step-payouts, one_or_none-Outcome,
}

pub data Report : Type 0 where
  verify : VerifyBody → User → Report
  webhook : Delivery → Report

unfoldable pub receive : Env → Gateway → Report → World → World
receive env gateway (Report.verify body user) w =
    (in_session (payment_verify env gateway body user) w).1
receive env gateway (Report.webhook delivery) w =
    (in_session (payment_webhook env gateway delivery) w).1

unfoldable pub receive_all : Env → Gateway → List Report → World → World
receive_all env gateway [] w = w
receive_all env gateway (r ∷ rs) w = receive_all env gateway rs (receive env gateway r w)

capture-Wrote :
    (env : Env) (k : ℕ) (p : Payment) (paid_as : Option String) (method : String) (w : World)
    → (Settled k w.db.payments → (p.id == k) ≡ true → is_captured p.status ≡ true)
    → is_captured p.status ≡ false
    → Wrote k w (capture env p paid_as method w).1
unfolding capture
capture-Wrote env k p paid_as method w known open_row =
    let p' = captured_row p paid_as method in
    let saved : World = record w {
      db = record (w.db) { payments = set_payments p' w.db.payments };
    } in
    let (rows, paid) = payouts-settle env k p' (job_by_id p.job_id w.db) saved in
    (
      p,
      p',
      known,
      open_row,
      refl,
      rows,
      elim paid [ inl same ↦ inl same | inr (hit, one) ↦ inr (hit, refl, one) ],
    )

settle-ok : (env : Env) (p : Payment) (o : Option Job) (w : World) → (settle env p o w).0 ≡ ok tt
unfolding process_payouts
settle-ok env p none w = refl
settle-ok env p (some job) w = ground arith

capture-ok :
    (env : Env) (p : Payment) (paid_as : Option String) (method : String) (w : World)
    → (capture env p paid_as method w).0 ≡ ok tt
unfolding capture
capture-ok env p paid_as method w =
    settle-ok env (captured_row p paid_as method) (job_by_id p.job_id w.db) _

unpaid_open : (s : PaymentStatus) → is_unpaid s ≡ true → is_captured s ≡ false
unpaid_open s h = ground arith

module _ (env : Env) (gateway : Gateway) (k : ℕ) where
  abbrev Known : World → Payment → Type 0
  Known w p = Settled k w.db.payments → (p.id == k) ≡ true → is_captured p.status ≡ true

  capture-Outcome :
      (p : Payment) (paid_as : Option String) (method : String) (w : World)
      → Known w p
      → is_captured p.status ≡ false
      → Outcome k w (capture env p paid_as method w)
  capture-Outcome p paid_as method w known open_row =
      Outcome-ok k w (capture env p paid_as method w) (capture-ok env p paid_as method w)
        (inr (capture-Wrote env k p paid_as method w known open_row))

  verify-Step :
      (body : VerifyBody) (user : User) (w : World)
      → Step k w (in_session (payment_verify env gateway body user) w).1
  unfolding payment_verify
  verify-Step body user w =
      let row : (p : Payment)
          → payment_of body.payment_id user.id w.db ≡ some p
          → Outcome k w (verify_row env body p w) =
        λ p found.
          if-Outcome k w (is_captured p.status) (pure Verified.already_captured)
            (capture env p (some body.razorpay_payment_id) "online" >> pure Verified.captured)
            (λ _. inl (refl, refl))
            λ open_row.
              then-Outcome k w (capture env p (some body.razorpay_payment_id) "online")
                Verified.captured
                (capture-Outcome p (some body.razorpay_payment_id) "online" w
                  (λ settled. find?-All (IsSettled k) _ w.db.payments found settled) open_row) in
      let after_signature : Action Verified =
        query (payment_of body.payment_id user.id)
        >>= (λ found. or_raise found (http 404) >>= verify_row env body) in
      let after_secret : String → Action Verified = λ secret.
        raise_if
          (not (
            gateway.signature_matches secret body.order_id body.razorpay_payment_id body.signature))
          (http 400)
        >> after_signature in
      in_session-Step k w (payment_verify env gateway body user) (
        or_raise-Outcome k w gateway.key_secret (http 503) after_secret λ secret _.
          raise_if-Outcome k w
            (not (
              gateway.signature_matches secret body.order_id body.razorpay_payment_id
                body.signature))
            (http 400) after_signature
            (or_raise-Outcome k w (payment_of body.payment_id user.id w.db) (http 404)
              (verify_row env body) row))

  event-Step :
      (e : Event) (body : Payload) (p : Payment) (w : World)
      → Known w p
      → Outcome k w (on_event env e body p w)
  event-Step Event.payment_captured body p w known =
      if-Outcome k w (is_captured p.status) (pure tt)
        (capture env p body.entity_id (method_or_online body.method)) (λ _. inl (refl, refl))
        (capture-Outcome p body.entity_id (method_or_online body.method) w known)
  event-Step Event.payment_failed body p w known =
      let p' = record p { status = PaymentStatus.failed } in
      if-Outcome k w (is_unpaid p.status) (save_payment p') (pure tt)
        (λ unpaid. inr (p, p', known, unpaid_open p.status unpaid, refl, refl, inl refl))
        (λ _. inl (refl, refl))
  event-Step Event.other body p w known = inl (refl, refl)

  order-Step :
      (o : Option String) (body : Payload) (w : World) → Outcome k w (on_order env body o w)
  order-Step none body w = inl (refl, refl)
  order-Step (some order_id) body w =
      if-Outcome k w (str_eq order_id "") (pure tt)
        (query (λ db. select (has_order order_id) db.payments)
          >>= one_or_none
          >>= on_payment env body)
        (λ _. inl (refl, refl))
        λ _.
          one_or_none-Outcome k w (select (has_order order_id) w.db.payments) (on_payment env body)
            (inl (refl, refl))
            λ p only. event-Step body.event body p w λ settled.
              (subst (All (IsSettled k)) only
                (All-select_of (IsSettled k) (has_order order_id) w.db.payments settled)).0

  webhook-Step :
      (delivery : Delivery) (w : World)
      → Step k w (in_session (payment_webhook env gateway delivery) w).1
  unfolding payment_webhook
  webhook-Step delivery w =
      let route : Payload → Action (Unit {0}) = λ body. on_order env body body.order_id in
      let after_secret : String → Action (Unit {0}) = λ _.
        raise_if (not delivery.signed) (http 400)
        >> (or_raise delivery.parsed (http 400) >>= route) in
      in_session-Step k w (payment_webhook env gateway delivery) (
        or_raise-Outcome k w gateway.webhook_secret (http 503) after_secret λ _ _.
          raise_if-Outcome k w (not delivery.signed) (http 400)
            (or_raise delivery.parsed (http 400) >>= route)
            (or_raise-Outcome k w delivery.parsed (http 400) route
              λ body _. order-Step body.order_id body w))

  receive-Step : (r : Report) (w : World) → Step k w (receive env gateway r w)
  unfolding receive
  receive-Step (Report.verify body user) w = verify-Step body user w
  receive-Step (Report.webhook delivery) w = webhook-Step delivery w

-- Once a payment is captured, no report of its capture, or of its failure, changes that or pays it out.
pub receive_all-Settled :
    (env : Env) (gateway : Gateway) (reports : List Report) (k : ℕ) (w : World)
    → Settled k w.db.payments
    → Settled k (receive_all env gateway reports w).db.payments
      × (payouts k (receive_all env gateway reports w).sent ≡ payouts k w.sent)
unfolding receive_all
receive_all-Settled env gateway [] k w h = (h, refl)
receive_all-Settled env gateway (r ∷ rs) k w h =
    let after = receive env gateway r w in
    let (settled, sent) = Step-Settled k w after (receive-Step env gateway k r w) h in
    let (last, kept) = receive_all-Settled env gateway rs k after settled in (last, kept ∙ sent)

-- However many reports of captures and failures arrive, verified by clients or delivered to the
-- webhook, valid or not, repeated and in any order: a payment is paid out at most once more than it
-- has been.
pub receive_all-payouts :
    (env : Env) (gateway : Gateway) (reports : List Report) (k : ℕ) (w : World)
    → payouts k (receive_all env gateway reports w).sent ≤ suc (payouts k w.sent)
unfolding receive_all
receive_all-payouts env gateway [] k w = omega arith
receive_all-payouts env gateway (r ∷ rs) k w =
    let after = receive env gateway r w in
    elim (Step-payouts k w after (receive-Step env gateway k r w)) [
      | inl sent ↦ omega (arith, receive_all-payouts env gateway rs k after, sent)
      | inr (settled, sent) ↦
          let (_, kept) = receive_all-Settled env gateway rs k after settled in
          omega (arith, kept, sent)
    ]
