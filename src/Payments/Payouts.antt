-- ===== src/Payments/Payouts.antt =====
-- How often a payment is paid out: what a step of a handler does to the payments and the payouts.
use clutch_d_backend.Base.{
  ℕ, suc, ◌+◌, ◌≡◌, refl, sym, ap, ◌∙◌, subst, ◌⊎◌, inl, inr, Bool, true, false, Option, none, some,
  List, [], ◌∷◌, ◌==◌, if◌then◌else◌, arith, Bool-cases, update, All, All-update, if_elim,
}
use clutch_d_backend.Schema.{Job, Payment, is_captured}
use clutch_d_backend.Session.{
  Action, World, Error, Message, Result, ok, err, in_session, end_session, pure, raise_if, or_raise,
  one_or_none, ◌>>=◌, ◌>>◌,
}
use clutch_d_backend.Env.{Env}
use clutch_d_backend.Jobs.Pricing.{process_payouts}
use clutch_d_backend.Payments.Capture.{settle}

abbrev pub is_payout : ℕ → Message → ℕ
is_payout k (Message.payout payment job provider platform) = if payment == k then 1 else 0
is_payout k _ = 0

-- How many payouts of payment `k` are among the messages.
abbrev pub payouts : ℕ → List Message → ℕ
payouts k [] = 0
payouts k (m ∷ ms) = is_payout k m + payouts k ms

-- A row of payment `k` is captured.
abbrev pub IsSettled : ℕ → Payment → Type 0
IsSettled k p = (p.id == k) ≡ true → is_captured p.status ≡ true

-- Every row of payment `k` is captured.
abbrev pub Settled : ℕ → List Payment → Type 0
Settled k = All (IsSettled k)

abbrev pub set_payments : Payment → List Payment → List Payment
set_payments p = update (λ r. r.id == p.id) (λ _. p)

-- What a step does: it leaves the payments and the payouts of `k` alone, or it writes one row that was
-- stored and not captured, and pays out at most that payment, once, if it is captured then.
abbrev pub Quiet : ℕ → World → World → Type 0
Quiet k w after = (after.db.payments ≡ w.db.payments) × (payouts k after.sent ≡ payouts k w.sent)

abbrev pub Wrote : ℕ → World → World → Type 0
Wrote k w after =
    (p : Payment) × (p' : Payment) × (Settled k w.db.payments
      → (p.id == k) ≡ true
      → is_captured p.status ≡ true)
    × (is_captured p.status ≡ false)
    × (p'.id ≡ p.id)
    × (after.db.payments ≡ set_payments p' w.db.payments)
    × ((payouts k after.sent ≡ payouts k w.sent)
        ⊎ (((p.id == k) ≡ true)
            × (is_captured p'.status ≡ true)
            × (payouts k after.sent ≡ suc (payouts k w.sent))))

abbrev pub Step : ℕ → World → World → Type 0
Step k w after = Quiet k w after ⊎ Wrote k w after

payouts-process :
    (env : Env) (k : ℕ) (p : Payment) (job : Job) (w : World)
    → let after = (process_payouts env p job w).1 in
      (after.db ≡ w.db)
      × ((payouts k after.sent ≡ payouts k w.sent)
          ⊎ (((p.id == k) ≡ true) × (payouts k after.sent ≡ suc (payouts k w.sent))))
unfolding process_payouts
payouts-process env k p job w = ground arith

-- The same of `settle`, which leaves the payments alone.
pub payouts-settle :
    (env : Env) (k : ℕ) (p : Payment) (o : Option Job) (w : World)
    → let after = (settle env p o w).1 in
      (after.db.payments ≡ w.db.payments)
      × ((payouts k after.sent ≡ payouts k w.sent)
          ⊎ (((p.id == k) ≡ true) × (payouts k after.sent ≡ suc (payouts k w.sent))))
unfolding process_payouts
payouts-settle env k p none w = (refl, inl refl)
payouts-settle env k p (some job) w = ground arith

-- The same of a result: what raises has left the payouts alone.
abbrev pub Outcome {ℓ} : ℕ → World → {A : Type ℓ} → Result A × World → Type 0
Outcome k w (ok a, after) = Step k w after
Outcome k w (err e, after) = payouts k after.sent ≡ payouts k w.sent

module _ {ℓ} {A : Type ℓ} (k : ℕ) (w : World) where
  end_session-Step : (r : Result A × World) → Outcome k w r → Step k w (end_session w.db r).1
  end_session-Step (ok a, after) h = h
  end_session-Step (err e, after) h = inl (refl, h)

  pub Outcome-ok : (r : Result A × World) {a : A} → r.0 ≡ ok a → Step k w r.1 → Outcome k w r
  Outcome-ok (ok b, after) h s = s
  Outcome-ok (err e, after) h s = cc

  pub in_session-Step : (m : Action A) → Outcome k w (m w) → Step k w (in_session m w).1
  unfolding in_session
  in_session-Step m h = end_session-Step (m w) h

  -- The result of `m >>= λ _. pure b`, by the result of `m`.
  abbrev after_which {κ} : {B : Type κ} → B → Result A × World → Result B × World
  after_which b r = elim r.0 [ ok a ↦ (ok b, r.1) | err e ↦ (err e, r.1) ]

  then_result {κ} :
      {B : Type κ} (b : B) (r : Result A × World) → Outcome k w r → Outcome k w (after_which b r)
  then_result b (ok a, after) h = h
  then_result b (err e, after) h = h

  pub then-Outcome {κ} :
      {B : Type κ} (m : Action A) (b : B) → Outcome k w (m w) → Outcome k w ((m >>= λ _. pure b) w)
  then-Outcome m b h = then_result b (m w) h

  pub raise_if-Outcome :
      (b : Bool) (e : Error) (m : Action A)
      → Outcome k w (m w)
      → Outcome k w ((raise_if b e >> m) w)
  raise_if-Outcome true e m h = refl
  raise_if-Outcome false e m h = h

  pub if-Outcome :
      (b : Bool) (m n : Action A)
      → (b ≡ true → Outcome k w (m w))
      → (b ≡ false → Outcome k w (n w))
      → Outcome k w ((if b then m else n) w)
  if-Outcome true m n t f = t refl
  if-Outcome false m n t f = f refl

module _ {ℓ κ} {A : Type ℓ} {B : Type κ} (k : ℕ) (w : World) where
  pub or_raise-Outcome :
      (o : Option A) (e : Error) (f : A → Action B)
      → ((a : A) → o ≡ some a → Outcome k w (f a w))
      → Outcome k w ((or_raise o e >>= f) w)
  or_raise-Outcome none e f h = refl
  or_raise-Outcome (some a) e f h = h a refl

  pub one_or_none-Outcome :
      (xs : List A) (f : Option A → Action B)
      → Outcome k w (f none w)
      → ((a : A) → xs ≡ a ∷ [] → Outcome k w (f (some a) w))
      → Outcome k w ((one_or_none xs >>= f) w)
  one_or_none-Outcome [] f n s = n
  one_or_none-Outcome (x ∷ []) f n s = s x refl
  one_or_none-Outcome (x ∷ y ∷ rest) f n s = refl

-- What a step does to a settled payment, and to the count of any payment's payouts.
pub Step-Settled :
    (k : ℕ) (w after : World)
    → Step k w after
    → Settled k w.db.payments
    → Settled k after.db.payments × (payouts k after.sent ≡ payouts k w.sent)
Step-Settled k w after (inl (rows, sent)) h = (subst (Settled k) (sym rows) h, sent)
Step-Settled k w after (inr (p, p', known, open_row, same, rows, paid)) h =
    let other : (p.id == k) ≡ false = elim (Bool-cases (p.id == k)) [
      | inl mine ↦ cc (known h mine)
      | inr other ↦ other
    ] in
    let kept =
      All-update (IsSettled k) (λ r. r.id == p'.id) p' w.db.payments (λ mine. grind arith) h in
    (
      subst (Settled k) (sym rows) kept,
      elim paid [ inl sent ↦ sent | inr (mine, captured, sent) ↦ cc (mine, other) ],
    )

update-Settled :
    (k : ℕ) (p' : Payment) (xs : List Payment)
    → (p'.id == k) ≡ true
    → is_captured p'.status ≡ true
    → Settled k (set_payments p' xs)
update-Settled k p' [] mine done = tt
update-Settled k p' (x ∷ xs) mine done = (
  if_elim (IsSettled k) (x.id == p'.id) (λ _ _. done) (λ miss hit. grind arith),
  update-Settled k p' xs mine done,
)

pub Step-payouts :
    (k : ℕ) (w after : World)
    → Step k w after
    → (payouts k after.sent ≡ payouts k w.sent)
      ⊎ (Settled k after.db.payments × (payouts k after.sent ≡ suc (payouts k w.sent)))
Step-payouts k w after (inl (rows, sent)) = inl sent
Step-payouts k w after (inr (p, p', known, open_row, same, rows, paid)) = elim paid [
  | inl sent ↦ inl sent
  | inr (mine, captured, sent) ↦
      let hit : (p'.id == k) ≡ true = ap (λ n. n == k) same ∙ mine in
      inr (subst (Settled k) (sym rows) (update-Settled k p' w.db.payments hit captured), sent)
]
