-- ===== src/Payments/Taken.antt =====
-- cash_payment of backend/app/api/v1/payments.py, branch by branch.
use clutch_d_backend.Base.{
  ℕ, ◌≡◌, refl, ap, ◌∙◌, inl, inr, true, false, none, some, List, [], ◌∷◌, ◌++◌, ◌==◌, arith,
  Bool-cases, Option-cases, List-cases, find?, select, All, All-map, Bool, ◌&&◌, ◌≢◌,
}
use clutch_d_backend.Schema.{Db, User, Role, Job, JobStatus, Payment, PaymentStatus, is_live}
use clutch_d_backend.Session.{World, Result, ok, err, http, multiple_results, in_session}
use clutch_d_backend.Tables.{job_by_id, set_jobs, job_by_id-set_jobs, job_by_id-id}
use clutch_d_backend.Jobs.Transitions.{is_closed}
use clutch_d_backend.Jobs.Access.{visible, by_role}
use clutch_d_backend.Jobs.Visibility.{MaySee, visible-MaySee}
use clutch_d_backend.Payments.Gateway.{is_bad_amount}
use clutch_d_backend.Payments.Cash.{cash_payment, is_assigned_as, live_payments, may_take_cash}

abbrev pub completed_job : Job → Job
completed_job job = record job { status = JobStatus.completed }

-- A captured payment in cash, of the job and its customer, that no gateway knows.
abbrev pub cash_for : ℕ → ℕ → Job → Payment
cash_for k amount job = record {
  id = k;
  job_id = job.id;
  user_id = job.user_id;
  amount = amount;
  provider = "manual";
  provider_order_id = none;
  provider_payment_id = none;
  status = PaymentStatus.captured;
  method = some "cash";
}

-- What a payment in cash for `job` writes.
abbrev pub Taken : ℕ → ℕ → Job → World → Result ℕ × World → Type 0
Taken job_id amount job w (r, after) =
    (r ≡ ok w.next_id)
    × (after.db.payments ≡ w.db.payments ++ cash_for w.next_id amount job ∷ [])
    × (after.db.jobs ≡ set_jobs (completed_job job) w.db.jobs)

module _ (job_id : ℕ) (amount : ℕ) (user : User) (w : World) where
  abbrev pub paying : Result ℕ × World
  paying = in_session (cash_payment job_id amount user) w

  bad_amount : is_bad_amount amount ≡ true → paying ≡ (err (http 422), w)
  unfolding cash_payment in_session
  bad_amount h = ground arith

  no_job :
      is_bad_amount amount ≡ false → job_by_id job_id w.db ≡ none → paying ≡ (err (http 404), w)
  unfolding cash_payment in_session
  no_job h n = ground arith

  module _ {job : Job} (good : is_bad_amount amount ≡ false)
      (stored : job_by_id job_id w.db ≡ some job) where
    closed : is_closed job.status ≡ true → paying ≡ (err (http 409), w)
    unfolding cash_payment in_session
    closed c = ground arith

    module _ (open_job : is_closed job.status ≡ false) where
      paid : {p : Payment} → live_payments job_id w.db ≡ p ∷ [] → paying ≡ (err (http 409), w)
      unfolding cash_payment in_session
      paid l = ground arith

      paid_twice :
          {p q : Payment} {ps : List Payment}
          → live_payments job_id w.db ≡ p ∷ q ∷ ps
          → paying ≡ (err multiple_results, w)
      unfolding cash_payment in_session
      paid_twice l = ground arith

      module _ (unpaid : live_payments job_id w.db ≡ []) where
        forbidden : may_take_cash user job w.db ≡ false → paying ≡ (err (http 403), w)
        unfolding cash_payment in_session
        forbidden f = ground arith

        taken : may_take_cash user job w.db ≡ true → Taken job_id amount job w paying
        unfolding cash_payment in_session
        taken f = ground arith

select-empty :
    {A : Type 0} (p : A → Bool) (xs : List A) → select p xs ≡ [] → All (λ x. p x ≡ false) xs
select-empty p [] h = tt
select-empty p (x ∷ xs) h = elim (Bool-cases (p x)) [
  | inl hit ↦ ground arith
  | inr miss ↦ (miss, select-empty p xs (ground arith))
]

not_live :
    (job_id : ℕ) (p : Payment)
    → (p.job_id == job_id && is_live p.status) ≡ false
    → p.job_id ≡ job_id
    → is_live p.status ≡ false
not_live job_id p h same = ground arith

not_one :
    (s : PaymentStatus)
    → is_live s ≡ false
    → (s ≢ PaymentStatus.captured) × (s ≢ PaymentStatus.pending)
not_one s h = (λ e. cc (ap is_live e), λ e. cc (ap is_live e))

none-live :
    (job_id : ℕ) (db : Db)
    → live_payments job_id db ≡ []
    → All
        (λ p.
          p.job_id ≡ job_id
          → (p.status ≢ PaymentStatus.captured) × (p.status ≢ PaymentStatus.pending))
        db.payments
none-live job_id db h =
    All-map (λ p dead same. not_one p.status (not_live job_id p dead same)) db.payments
      (select-empty (λ (p : Payment). p.job_id == job_id && is_live p.status) db.payments h)

assigned-by_role :
    (role : Role) (user : User) (job : Job) (db : Db)
    → is_assigned_as role user job db ≡ by_role role user job db
unfolding by_role
assigned-by_role Role.mechanic user job db = refl
assigned-by_role Role.garage user job db = refl
assigned-by_role _ user job db = refl

may_take_cash-MaySee :
    (user : User) (job : Job) (db : Db) → may_take_cash user job db ≡ true → MaySee user job db
may_take_cash-MaySee user job db may =
    visible-MaySee user job db (is_visible (assigned-by_role user.role user job db))
  where
    is_visible :
        is_assigned_as user.role user job db ≡ by_role user.role user job db
        → visible user job db ≡ true
    is_visible same = ground arith

-- A payment in cash that succeeds was for a stored job that was still open and had no captured or
-- pending payment, by its customer, its provider or an administrator. It adds one payment, captured, in
-- cash, of this amount, for the job and its customer, and completes the job; it changes no other payment
-- and no other job.
pub cash_payment_lem :
    (job_id amount : ℕ) (user : User) (w : World) {k : ℕ}
    → (paying job_id amount user w).0 ≡ ok k
    → (job : Job) × (job_by_id job_id w.db ≡ some job)
      × (is_closed job.status ≡ false)
      × All
          (λ p.
            p.job_id ≡ job_id
            → (p.status ≢ PaymentStatus.captured) × (p.status ≢ PaymentStatus.pending))
          w.db.payments
      × MaySee user job w.db
      × Taken job_id amount job w (paying job_id amount user w)
cash_payment_lem job_id amount user w h = elim (Bool-cases (is_bad_amount amount)) [
  | inl bad ↦ cc (bad_amount job_id amount user w bad)
  | inr good ↦ elim (Option-cases (job_by_id job_id w.db)) [
    | inl gone ↦ cc (no_job job_id amount user w good gone)
    | inr (job, stored) ↦ elim (Bool-cases (is_closed job.status)) [
      | inl shut ↦ cc (closed job_id amount user w good stored shut)
      | inr open_job ↦ elim (List-cases (live_payments job_id w.db)) [
        | inl none_live ↦ elim (Bool-cases (may_take_cash user job w.db)) [
          | inl may ↦ (
            job,
            stored,
            open_job,
            none-live job_id w.db none_live,
            may_take_cash-MaySee user job w.db may,
            taken job_id amount user w good stored open_job none_live may,
          )
          | inr may_not ↦ cc (forbidden job_id amount user w good stored open_job none_live may_not)
        ]
        | inr (inl (p, one)) ↦ cc (paid job_id amount user w good stored open_job one)
        | inr (inr (p, q, ps, more)) ↦
            cc (paid_twice job_id amount user w good stored open_job more)
      ]
    ]
  ]
]

-- After a payment in cash has succeeded, whoever tries to pay for that job in cash again, with a valid
-- amount, gets a 409, and nothing changes.
pub cash_payment_twice :
    (job_id amount amount' : ℕ) (user user' : User) (w : World) {k : ℕ}
    → (paying job_id amount user w).0 ≡ ok k
    → is_bad_amount amount' ≡ false
    → let after = (paying job_id amount user w).1 in
      paying job_id amount' user' after ≡ (err (http 409), after)
cash_payment_twice job_id amount amount' user user' w h good =
    let (job, stored, open_job, none_live, may, done) = cash_payment_lem job_id amount user w h in
    let after = (paying job_id amount user w).1 in
    let now_stored : job_by_id job_id after.db ≡ some (completed_job job) =
      ap (find? (λ j. j.id == job_id)) done.2
      ∙ job_by_id-set_jobs job_id (completed_job job) w.db.jobs stored
          (job_by_id-id job_id w.db.jobs stored) in
    closed job_id amount' user' after good now_stored refl
