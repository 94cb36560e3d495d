-- ===== src/Admin/Owed.antt =====
-- The ledger against the jobs of one provider.
use clutch_d_backend.Base.{
  ℕ, ◌+◌, ◌≡◌, refl, ap, Option, none, Bool, ◌&&◌, ◌||◌, ◌==◌, exists, is_some, is_some_eq,
  if◌then◌else◌, sym, ◌∙◌, inl, inr, true, false, not, some, List, [], ◌∷◌, arith, Bool-cases,
  find?, select, length, subst, some_inj, find?-sort, IsSorted, sort-IsSorted,
}
use clutch_d_backend.Schema.{
  Float, FloatOps, User, Role, Job, JobStatus, Payment, ProviderType, status_eq, is_captured,
}
use clutch_d_backend.Session.{World, ok, in_session}
use clutch_d_backend.Env.{Env}
use clutch_d_backend.Admin.Ledger.{
  Entry, is_entry, has_money, new_entry, add_job, collect, owes_more, payouts_of,
  mechanic_payout_ledger,
}
use clutch_d_backend.Admin.Entered.{counts_for, add_jobs, account, Once-collect, find?-collect}

-- The job is the provider's: a mechanic's by its column, and a garage's if it has no mechanic.
abbrev is_of : ProviderType → ℕ → Job → Bool
is_of ProviderType.mechanic k job = is_some_eq job.assigned_mechanic_id k
is_of ProviderType.garage k job =
    not (is_some job.assigned_mechanic_id) && is_some_eq job.assigned_garage_id k

-- The job is completed, or a captured payment of it is stored.
abbrev pub is_earned : List Payment → Job → Bool
is_earned payments job =
    status_eq job.status JobStatus.completed
    || exists (λ (p : Payment). p.job_id == job.id && is_captured p.status) payments

module _ (ops : FloatOps) where
  -- The price of the work, where a 0 is the constant 0.
  abbrev price_of : Option Float → Float
  price_of none = ops.lit 0 1
  price_of (some x) = if ops.is_zero x then ops.lit 0 1 else x

  -- The prices of the jobs, added to an amount one after the other.
  abbrev pub total_of : Float → List Job → Float
  total_of x [] = x
  total_of x (job ∷ jobs) = total_of (ops.add x (price_of job.service_amount)) jobs

-- How often each kind of job has been counted, and what the earned ones come to.
abbrev pub IsTally : FloatOps → List Payment → List Job → Entry → Type 0
IsTally ops payments jobs e =
    (e.total_jobs ≡ length jobs)
    × (e.completed_jobs ≡ length (select (is_earned payments) jobs))
    × (e.pending_jobs ≡ length (select (λ j. not (is_earned payments j)) jobs))
    × (e.pending_amount ≡ total_of ops (ops.lit 0 1) (select (is_earned payments) jobs))
    × (e.total_earned ≡ total_of ops (ops.lit 0 1) (select (is_earned payments) jobs))

add_jobs-counts :
    (ops : FloatOps) (payments : List Payment) (jobs : List Job) (e : Entry)
    → let e' = add_jobs ops payments jobs e in
      (e'.total_jobs ≡ e.total_jobs + length jobs)
      × (e'.completed_jobs ≡ e.completed_jobs + length (select (is_earned payments) jobs))
      × (e'.pending_jobs ≡ e.pending_jobs + length (select (λ j. not (is_earned payments j)) jobs))
      × (e'.pending_amount ≡ total_of ops e.pending_amount (select (is_earned payments) jobs))
      × (e'.total_earned ≡ total_of ops e.total_earned (select (is_earned payments) jobs))
unfolding add_job
add_jobs-counts ops payments [] e = (omega arith, omega arith, omega arith, refl, refl)
add_jobs-counts ops payments (job ∷ jobs) e = elim (Bool-cases (is_earned payments job)) [
  | inl settled ↦ ground (arith, add_jobs-counts ops payments jobs (add_job ops payments job e))
  | inr open_job ↦ ground (arith, add_jobs-counts ops payments jobs (add_job ops payments job e))
]

select_twice {ℓ} :
    {A : Type ℓ} (p q r : A → Bool)
    → ((x : A) → (q x && p x) ≡ r x)
    → (xs : List A) → select p (select q xs) ≡ select r xs
select_twice p q r same [] = refl
select_twice p q r same (x ∷ xs) = ground (arith, same x, select_twice p q r same xs)

counts_for-is_of :
    (type : ProviderType) (k : ℕ) (job : Job)
    → (has_money job && counts_for type k job) ≡ (is_of type k job && is_some job.service_amount)
counts_for-is_of ProviderType.mechanic k job = ground arith
counts_for-is_of ProviderType.garage k job = ground arith

module _ (env : Env) (type : ProviderType) (k : ℕ) (admin : User) (w : World) where
  abbrev pub jobs_of : List Job
  jobs_of = select (λ job. is_of type k job && is_some job.service_amount) w.db.jobs

  jobs_of-selected : select (counts_for type k) (select has_money w.db.jobs) ≡ jobs_of
  jobs_of-selected =
      select_twice (counts_for type k) has_money
        (λ job. is_of type k job && is_some job.service_amount) (counts_for-is_of type k) w.db.jobs

  find?-payouts :
      find? (is_entry type k) (payouts_of env.ops w.db)
      ≡ account env.ops w.db.payments type k jobs_of
  unfolding payouts_of
  find?-payouts =
      let jobs = select has_money w.db.jobs in
      find?-sort (owes_more env.ops) (is_entry type k) (collect env.ops w.db.payments jobs [])
        (Once-collect env.ops w.db.payments type k jobs [] tt)
      ∙ find?-collect env.ops w.db.payments type k jobs []
      ∙ ap (account env.ops w.db.payments type k) jobs_of-selected

  account-IsTally :
      (jobs : List Job) {e : Entry}
      → account env.ops w.db.payments type k jobs ≡ some e
      → IsTally env.ops w.db.payments jobs e
  unfolding new_entry
  account-IsTally [] h = cc
  account-IsTally (job ∷ jobs) {e} h =
      subst (IsTally env.ops w.db.payments (job ∷ jobs)) (some_inj h) (
        counted (
          add_jobs-counts env.ops w.db.payments (job ∷ jobs)
            (new_entry env.ops w.db.payments type k job)))
    where
      counted :
          let e =
            add_jobs env.ops w.db.payments
              (job ∷ jobs)
              (new_entry env.ops w.db.payments type k job) in
          (e.total_jobs ≡ 0 + length (job ∷ jobs))
            × (e.completed_jobs ≡ 0 + length (select (is_earned w.db.payments) (job ∷ jobs)))
            × (e.pending_jobs
                ≡ 0 + length (select (λ j. not (is_earned w.db.payments j)) (job ∷ jobs)))
            × (e.pending_amount
                ≡ total_of env.ops
                    (env.ops.lit 0 1)
                    (select (is_earned w.db.payments) (job ∷ jobs)))
            × (e.total_earned
                ≡ total_of env.ops
                    (env.ops.lit 0 1)
                    (select (is_earned w.db.payments) (job ∷ jobs)))
          → IsTally env.ops w.db.payments (job ∷ jobs) e
      counted (total, completed, waiting, due, earned) =
          (omega (arith, total), omega (arith, completed), omega (arith, waiting), due, earned)

  payouts-IsSorted :
      ((x y : Float) → env.ops.lt x y ≡ true → env.ops.lt y x ≡ false)
      → IsSorted (owes_more env.ops) (payouts_of env.ops w.db)
  unfolding payouts_of
  payouts-IsSorted asymm =
      sort-IsSorted (owes_more env.ops) (λ a b. asymm b.pending_amount a.pending_amount)
        (collect env.ops w.db.payments (select has_money w.db.jobs) [])

  -- An administrator who asks for the ledger gets it, and nothing changes. It has an entry for a provider
  -- exactly if a job that is priced has that provider, and that entry is its jobs added up in the order of
  -- the table, beside whatever jobs others have: it counts all of them, as completed those that are
  -- completed or paid, and as pending the others; the prices of those that are completed or paid, added
  -- up, are what the provider has earned and is owed. Where `<` on floats is asymmetric, nobody is owed more
  -- than the one before.
  pub mechanic_payout_ledger_lem :
      admin.role ≡ Role.admin
      → let (r, after) = in_session (mechanic_payout_ledger env admin) w in
        let payouts = payouts_of env.ops w.db in
        (r ≡ ok payouts)
        × (after ≡ w)
        × (find? (is_entry type k) payouts ≡ account env.ops w.db.payments type k jobs_of)
        × ((e : Entry)
            → find? (is_entry type k) payouts ≡ some e
            → IsTally env.ops w.db.payments jobs_of e)
        × (((x y : Float) → env.ops.lt x y ≡ true → env.ops.lt y x ≡ false)
            → IsSorted (owes_more env.ops) payouts)
  unfolding in_session mechanic_payout_ledger
  mechanic_payout_ledger_lem is = (
    ground arith,
    ground arith,
    find?-payouts,
    λ e found. account-IsTally jobs_of (sym find?-payouts ∙ found),
    payouts-IsSorted,
  )
