-- ===== src/Admin/Ledger.antt =====
-- mechanic_payout_ledger of backend/app/api/v1/admin.py: what each provider has earned. The names for
-- people and the columns that never vary are left out; the jobs come in the order of the table.
use clutch_d_backend.Base.{
  ℕ, suc, String, Bool, ◌&&◌, ◌||◌, Option, none, some, List, [], ◌∷◌, ◌==◌, if◌then◌else◌, is_some,
  exists, select, sort,
}
use clutch_d_backend.Schema.{
  Db, Float, FloatOps, User, Job, JobStatus, Payment, ProviderType, provider_eq, status_eq,
  is_captured,
}
use clutch_d_backend.Session.{Action, query}
use clutch_d_backend.Env.{Env}
use clutch_d_backend.Auth.Access.{require_roles}
use clutch_d_backend.Admin.Accounts.{as_admin}

-- An entry of `ledger`, whose key is the type and the id of the provider.
pub record Entry : Type 0 where
  pub provider_type : ProviderType
  pub provider_id : ℕ
  pub total_jobs : ℕ
  pub completed_jobs : ℕ
  pub pending_jobs : ℕ
  pub pending_amount : Float
  pub total_earned : Float
  pub upi_id : Option String

abbrev pub is_entry : ProviderType → ℕ → Entry → Bool
is_entry type k e = provider_eq e.provider_type type && e.provider_id == k

-- The jobs with a provider and a `service_amount`.
abbrev pub has_money : Job → Bool
has_money job =
    (is_some job.assigned_mechanic_id || is_some job.assigned_garage_id)
    && is_some job.service_amount

-- `paid_by_job.get(j.id)`; no row has the status "succeeded", which is asked for too.
abbrev pub is_paid : List Payment → Job → Bool
is_paid payments job = exists (λ p. p.job_id == job.id && is_captured p.status) payments

abbrev pub is_settled_job : List Payment → Job → Bool
is_settled_job payments job = status_eq job.status JobStatus.completed || is_paid payments job

-- The key of a job's entry: its mechanic, or else its garage.
abbrev pub key_of : Job → Option (ProviderType × ℕ)
key_of job = elim job.assigned_mechanic_id [
  | some k ↦ some (ProviderType.mechanic, k)
  | none ↦ elim job.assigned_garage_id [ some k ↦ some (ProviderType.garage, k) | none ↦ none ]
]

module _ (ops : FloatOps) (payments : List Payment) where
  -- `float(j.service_amount or 0)`
  abbrev amount_of : Option Float → Float
  amount_of none = ops.lit 0 1
  amount_of (some x) = if ops.is_zero x then ops.lit 0 1 else x

  -- The entry that `setdefault` puts in.
  unfoldable pub new_entry : ProviderType → ℕ → Job → Entry
  new_entry type k job = record {
    provider_type = type;
    provider_id = k;
    total_jobs = 0;
    completed_jobs = 0;
    pending_jobs = 0;
    pending_amount = ops.lit 0 1;
    total_earned = ops.lit 0 1;
    upi_id = job.provider_upi_id;
  }

  -- What one job adds to its entry.
  unfoldable pub add_job : Job → Entry → Entry
  add_job job e =
      if is_settled_job payments job
      then record e {
        total_jobs = suc e.total_jobs;
        completed_jobs = suc e.completed_jobs;
        total_earned = ops.add e.total_earned (amount_of job.service_amount);
        pending_amount = ops.add e.pending_amount (amount_of job.service_amount);
      }
      else record e { total_jobs = suc e.total_jobs; pending_jobs = suc e.pending_jobs }

  -- `ledger.setdefault(key, …)`, and the changes of the entry.
  unfoldable pub enter : ProviderType → ℕ → Job → List Entry → List Entry
  unfolding new_entry add_job
  enter type k job [] = add_job job (new_entry type k job) ∷ []
  enter type k job (e ∷ es) =
      if is_entry type k e then add_job job e ∷ es else e ∷ enter type k job es

  abbrev pub enter_job : Option (ProviderType × ℕ) → Job → List Entry → List Entry
  enter_job none job es = es
  enter_job (some (type, k)) job es = enter type k job es

  unfoldable pub collect : List Job → List Entry → List Entry
  unfolding enter
  collect [] es = es
  collect (job ∷ jobs) es = collect jobs (enter_job (key_of job) job es)

-- `sorted(…, key=lambda e: e["pendingAmount"], reverse=True)`
abbrev pub owes_more : FloatOps → Entry → Entry → Bool
owes_more ops a b = ops.lt b.pending_amount a.pending_amount

unfoldable pub payouts_of : FloatOps → Db → List Entry
unfolding collect
payouts_of ops db = sort (owes_more ops) (collect ops db.payments (select has_money db.jobs) [])

unfoldable pub mechanic_payout_ledger : Env → (admin : User) → Action (List Entry)
unfolding require_roles payouts_of
mechanic_payout_ledger env admin = as_admin admin (query (payouts_of env.ops))
