-- ===== src/Jobs/Edges.antt =====
-- How the operations of job_service.py move the status of the stored job.
use clutch_d_backend.Base.{
  ℕ, ◌≡◌, sym, subst, ◌⊎◌, inl, inr, refl, true, false, Option, List, arith, Bool-cases,
}
use clutch_d_backend.Schema.{Float, Job, JobStatus}
use clutch_d_backend.Session.{World}
use clutch_d_backend.Env.{Env}
use clutch_d_backend.Tables.{set_jobs}
use clutch_d_backend.Jobs.Transitions.{validate_transition, is_closed, is_priceable}
use clutch_d_backend.Jobs.Status.{
  patch_job_status, complete_job_with_payment, cancel_job, set_mechanic,
}
use clutch_d_backend.Jobs.Pricing.{finalize_job_price, price, provider_site}

-- The steps between open statuses, in the order of the work, and those from an open status to a closed
-- one.
pub data Edge : JobStatus → JobStatus → Type 0 where
  assign : Edge JobStatus.searching JobStatus.assigned
  set_out : Edge JobStatus.assigned JobStatus.en_route
  arrive : Edge JobStatus.en_route JobStatus.in_progress
  bill_assigned : Edge JobStatus.assigned JobStatus.payment_pending
  bill_en_route : Edge JobStatus.en_route JobStatus.payment_pending
  bill_done : Edge JobStatus.in_progress JobStatus.payment_pending
  complete : {s : JobStatus} → is_closed s ≡ false → Edge s JobStatus.completed
  cancel : {s : JobStatus} → is_closed s ≡ false → Edge s JobStatus.cancelled

-- The table of jobs after an operation on `job`: untouched, or with the job moved along an edge.
abbrev pub Moves : Job → List Job → List Job → Type 0
Moves job before after =
    (after ≡ before)
    ⊎ ((job' : Job) × (job'.id ≡ job.id)
        × Edge job.status job'.status
        × (after ≡ set_jobs job' before))

valid-Edge : (s t : JobStatus) → validate_transition s t ≡ true → Edge s t
unfolding validate_transition
valid-Edge JobStatus.searching JobStatus.assigned h = Edge.assign
valid-Edge JobStatus.assigned JobStatus.en_route h = Edge.set_out
valid-Edge JobStatus.assigned JobStatus.payment_pending h = Edge.bill_assigned
valid-Edge JobStatus.en_route JobStatus.in_progress h = Edge.arrive
valid-Edge JobStatus.in_progress JobStatus.payment_pending h = Edge.bill_done
valid-Edge s JobStatus.completed h = Edge.complete (ground arith)
valid-Edge s JobStatus.cancelled h = Edge.cancel (ground arith)
valid-Edge JobStatus.searching _ h = cc
valid-Edge JobStatus.assigned _ h = cc
valid-Edge JobStatus.en_route _ h = cc
valid-Edge JobStatus.in_progress _ h = cc
valid-Edge JobStatus.payment_pending _ h = cc
valid-Edge JobStatus.completed _ h = cc
valid-Edge JobStatus.providers_notified _ h = cc
valid-Edge JobStatus.other _ h = cc
valid-Edge JobStatus.cancelled _ h = cc

priceable-Edge : (s : JobStatus) → is_priceable s ≡ true → Edge s JobStatus.payment_pending
priceable-Edge JobStatus.assigned h = Edge.bill_assigned
priceable-Edge JobStatus.in_progress h = Edge.bill_done
priceable-Edge JobStatus.en_route h = Edge.bill_en_route
priceable-Edge JobStatus.searching h = cc
priceable-Edge _ h = cc

set_mechanic-status : (k : Option ℕ) (job : Job) → (set_mechanic k job).status ≡ job.status
set_mechanic-status k job = ground arith

abbrev pub patched : Job → JobStatus → Option ℕ → Job
patched job status k = set_mechanic k (record job { status = status })

pub patched-id :
    (job : Job) (status : JobStatus) (k : Option ℕ) → (patched job status k).id ≡ job.id
patched-id job status k = ground arith

module _ (env : Env) (job : Job) (w : World) where
  pub patch_job_status-Moves :
      (status : JobStatus) (mechanic_id : Option ℕ)
      → Moves job w.db.jobs (patch_job_status env job status mechanic_id w).1.db.jobs
  unfolding patch_job_status
  patch_job_status-Moves status mechanic_id =
      elim (Bool-cases (validate_transition job.status status)) [
        | inl valid ↦ inr (
          patched job status mechanic_id,
          patched-id job status mechanic_id,
          subst (Edge job.status)
              (sym (set_mechanic-status mechanic_id (record job { status = status })))
              (valid-Edge job.status status valid),
          ground arith,
        )
        | inr invalid ↦ inl (ground arith)
      ]

  pub finalize_job_price-Moves :
      (amount : Float) → Moves job w.db.jobs (finalize_job_price env job amount w).1.db.jobs
  unfolding finalize_job_price
  finalize_job_price-Moves amount = elim (Bool-cases (is_priceable job.status)) [
    | inl valid ↦ inr (
      price env job (provider_site job w.db) amount,
      ground arith,
      priceable-Edge job.status valid,
      ground arith,
    )
    | inr invalid ↦ inl (ground arith)
  ]

  pub complete_job_with_payment-Moves :
      Moves job w.db.jobs (complete_job_with_payment env job w).1.db.jobs
  unfolding complete_job_with_payment
  complete_job_with_payment-Moves = elim (Bool-cases (is_closed job.status)) [
    | inl closed ↦ inl (ground arith)
    | inr open_job ↦
        inr
          (record job { status = JobStatus.completed }, refl, Edge.complete open_job, ground arith)
  ]

  pub cancel_job-Moves : Moves job w.db.jobs (cancel_job job w).1.db.jobs
  unfolding cancel_job
  cancel_job-Moves = elim (Bool-cases (is_closed job.status)) [
    | inl closed ↦ inl (ground arith)
    | inr open_job ↦
        inr (record job { status = JobStatus.cancelled }, refl, Edge.cancel open_job, ground arith)
  ]
