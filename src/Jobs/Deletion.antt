-- ===== src/Jobs/Deletion.antt =====
-- The delete route of backend/app/api/v1/jobs.py with delete_job of job_service.py.
use clutch_d_backend.Base.{
  ℕ, ◌≡◌, ◌≢◌, inl, inr, refl, ap, subst, true, false, not, none, some, List, [], ◌∷◌, ◌==◌, arith,
  Bool-cases, All, find?, select, is_some_eq,
}
use clutch_d_backend.Schema.{
  Db, User, Job, Payment, ProviderOffer, ChatMessage, Dispute, Review, Notification,
}
use clutch_d_backend.Session.{World, Result, err, http}
use clutch_d_backend.Tables.{job_by_id, job_by_id-id}
use clutch_d_backend.Jobs.Status.{delete_job, delete_of}
use clutch_d_backend.Jobs.Routes.{delete_job_endpoint, may_delete}

module _ {ℓ} {A : Type ℓ} (key : A → ℕ) (k : ℕ) where
  delete_of-gone : (rows : List A) → All (λ r. key r ≢ k) (delete_of key k rows)
  delete_of-gone [] = tt
  delete_of-gone (x ∷ rows) = elim (Bool-cases (key x == k)) [
    | inl hit ↦ rw hit (delete_of-gone rows)
    | inr miss ↦ rw miss ((λ e. ground arith), delete_of-gone rows)
  ]

  select-delete_of :
      (j : ℕ) (rows : List A)
      → j ≢ k
      → select (λ r. key r == j) (delete_of key k rows) ≡ select (λ r. key r == j) rows
  select-delete_of j [] h = refl
  select-delete_of j (x ∷ rows) h = ground (arith, select-delete_of j rows h)

  find?-delete_of :
      (j : ℕ) (rows : List A)
      → j ≢ k
      → find? (λ r. key r == j) (delete_of key k rows) ≡ find? (λ r. key r == j) rows
  find?-delete_of j [] h = refl
  find?-delete_of j (x ∷ rows) h = ground (arith, find?-delete_of j rows h)

find?-deleted :
    (k : ℕ) (rows : List Job) → find? (λ j. j.id == k) (delete_of (λ j. j.id) k rows) ≡ none
find?-deleted k [] = refl
find?-deleted k (x ∷ rows) = ground (arith, find?-deleted k rows)

notices-gone :
    (k : ℕ) (rows : List Notification)
    → All (λ n. n.job_id ≢ some k) (select (λ r. not (is_some_eq r.job_id k)) rows)
notices-gone k [] = tt
notices-gone k (x ∷ rows) = elim (Bool-cases (is_some_eq x.job_id k)) [
  | inl hit ↦ rw hit (notices-gone k rows)
  | inr miss ↦ rw miss ((λ e. ground arith), notices-gone k rows)
]

-- No row of any table names the job.
pub record NoTrace (k : ℕ) (db : Db) : Type 0 where
  pub job : job_by_id k db ≡ none
  pub chat_messages : All (λ (r : ChatMessage). r.job_id ≢ k) db.chat_messages
  pub disputes : All (λ (r : Dispute). r.job_id ≢ k) db.disputes
  pub notifications : All (λ (n : Notification). n.job_id ≢ some k) db.notifications
  pub payments : All (λ (p : Payment). p.job_id ≢ k) db.payments
  pub reviews : All (λ (r : Review). r.job_id ≢ k) db.reviews
  pub offers : All (λ (o : ProviderOffer). o.job_id ≢ k) db.offers

-- The row of another job, with its payments and its offers, is as before.
pub record Untouched (j : ℕ) (before after : Db) : Type 0 where
  pub job : job_by_id j after ≡ job_by_id j before
  pub payments :
      select (λ (p : Payment). p.job_id == j) after.payments
      ≡ select (λ (p : Payment). p.job_id == j) before.payments
  pub offers :
      select (λ (o : ProviderOffer). o.job_id == j) after.offers
      ≡ select (λ (o : ProviderOffer). o.job_id == j) before.offers

delete_job-NoTrace : (job : Job) (w : World) → NoTrace job.id (delete_job job w).1.db
unfolding delete_job
delete_job-NoTrace job w = record {
  job = find?-deleted job.id w.db.jobs;
  chat_messages = delete_of-gone (λ r. r.job_id) job.id w.db.chat_messages;
  disputes = delete_of-gone (λ r. r.job_id) job.id w.db.disputes;
  notifications = notices-gone job.id w.db.notifications;
  payments = delete_of-gone (λ r. r.job_id) job.id w.db.payments;
  reviews = delete_of-gone (λ r. r.job_id) job.id w.db.reviews;
  offers = delete_of-gone (λ r. r.job_id) job.id w.db.offers;
}

delete_job-Untouched :
    (job : Job) (w : World) (j : ℕ) → j ≢ job.id → Untouched j w.db (delete_job job w).1.db
unfolding delete_job
delete_job-Untouched job w j other_job = record {
  job = find?-delete_of (λ r. r.id) job.id j w.db.jobs other_job;
  payments = select-delete_of (λ r. r.job_id) job.id j w.db.payments other_job;
  offers = select-delete_of (λ r. r.job_id) job.id j w.db.offers other_job;
}

delete_allowed :
    (k : ℕ) (user : User) (w : World) {job : Job}
    → job_by_id k w.db ≡ some job
    → may_delete user job w.db ≡ true
    → delete_job job w ≡ delete_job_endpoint k user w
unfolding delete_job_endpoint
delete_allowed k user w found may = ground arith

delete_refused :
    (k : ℕ) (user : User) (w : World) {job : Job}
    → job_by_id k w.db ≡ some job
    → may_delete user job w.db ≡ false
    → delete_job_endpoint k user w ≡ (err (http 403), w)
unfolding delete_job_endpoint
delete_refused k user w found may_not = ground arith

delete_job-clean :
    (job : Job) (w : World) (k : ℕ)
    → job.id ≡ k
    → let after = (delete_job job w).1 in
      NoTrace k after.db × ((j : ℕ) → j ≢ k → Untouched j w.db after.db)
delete_job-clean job w k same =
    subst
      (λ k.
        NoTrace k (delete_job job w).1.db
        × ((j : ℕ) → j ≢ k → Untouched j w.db (delete_job job w).1.db))
      same (delete_job-NoTrace job w, delete_job-Untouched job w)

-- For a stored job: a user that may delete it leaves no row of it and no message, dispute,
-- notification, payment, review or offer that names it, and every other job as it was with its payments
-- and offers; a user that may not gets a 403, and nothing changes.
pub delete_job_endpoint_lem :
    (k : ℕ) (user : User) (w : World) {job : Job}
    → job_by_id k w.db ≡ some job
    → let (r, after) = delete_job_endpoint k user w in
      (may_delete user job w.db ≡ true
        → NoTrace k after.db × ((j : ℕ) → j ≢ k → Untouched j w.db after.db))
      × (may_delete user job w.db ≡ false → (r ≡ err (http 403)) × (after ≡ w))
delete_job_endpoint_lem k user w {job} found = (
  λ may.
      subst
        (λ (r : Result (Unit {0}) × World).
          NoTrace k r.1.db × ((j : ℕ) → j ≢ k → Untouched j w.db r.1.db))
        (delete_allowed k user w found may)
        (delete_job-clean job w k (job_by_id-id k w.db.jobs found)),
  λ may_not. let e = delete_refused k user w found may_not in (ap (λ r. r.0) e, ap (λ r. r.1) e),
)
