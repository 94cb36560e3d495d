-- ===== src/Tables.antt =====
-- The lookups that the handlers share, and the write-back of a changed row.
use clutch_d_backend.Base.{
  ℕ, ◌≡◌, refl, false, not, ◌&&◌, Option, none, some, List, [], ◌∷◌, ◌++◌, ◌==◌, arith, select,
  find?, update, length, find?-holds, ==_eq,
}
use clutch_d_backend.Schema.{
  Db, Mechanic, Garage, Job, ProviderOffer, Payment, Notification, NoticeBody,
}
use clutch_d_backend.Session.{Action, write, ◌>>=◌, query, send, new_id, Message}
use Prim.Native.String.{String}

-- By primary key, or by a column that is declared unique: at most one row.
abbrev pub job_by_id : ℕ → Db → Option Job
job_by_id k db = find? (λ j. j.id == k) db.jobs

abbrev pub mechanic_by_id : ℕ → Db → Option Mechanic
mechanic_by_id k db = find? (λ m. m.id == k) db.mechanics

abbrev pub garage_by_id : ℕ → Db → Option Garage
garage_by_id k db = find? (λ g. g.id == k) db.garages

abbrev pub mechanic_by_user : ℕ → Db → Option Mechanic
mechanic_by_user k db = find? (λ m. m.user_id == k) db.mechanics

abbrev pub garage_by_user : ℕ → Db → Option Garage
garage_by_user k db = find? (λ g. g.user_id == k) db.garages

abbrev pub of_column : {A : Type 0} → Option ℕ → (ℕ → Option A) → Option A
of_column none f = none
of_column (some k) f = f k

abbrev pub set_jobs : Job → List Job → List Job
set_jobs j = update (λ r. r.id == j.id) (λ _. j)

-- The flush of a changed job.
abbrev pub save_job : Job → Action (Unit {0})
save_job j = write (λ db. record db { jobs = set_jobs j db.jobs })

abbrev pub save_offer : ProviderOffer → Action (Unit {0})
save_offer o = write (λ db. record db { offers = update (λ r. r.id == o.id) (λ _. o) db.offers })

abbrev pub save_payment : Payment → Action (Unit {0})
save_payment p =
    write (λ db. record db { payments = update (λ r. r.id == p.id) (λ _. p) db.payments })

-- `db.add(Notification(…))` and flush.
abbrev pub add_notification : ℕ → String → NoticeBody → Option ℕ → Action (Unit {0})
add_notification user title body job = do
  k ← new_id
  write (λ db. record db {
    notifications =
        db.notifications
        ++ (record {
          id = k;
          user_id = user;
          title = title;
          body = body;
          read = false;
          job_id = job;
        })
          ∷ [];
  })

abbrev pub unread_count : ℕ → Db → ℕ
unread_count user db =
    length (select (λ (n : Notification). n.user_id == user && not n.read) db.notifications)

-- The unread count that is pushed after a new notification.
abbrev pub push_unread : ℕ → Action (Unit {0})
push_unread user = query (unread_count user) >>= λ n. send (Message.notification_update user n)

-- A saved job is found again under its key, if a row had that key.
pub job_by_id-set_jobs :
    (k : ℕ) (j : Job) (js : List Job) {old : Job}
    → find? (λ r. r.id == k) js ≡ some old
    → j.id ≡ k
    → find? (λ r. r.id == k) (set_jobs j js) ≡ some j
job_by_id-set_jobs k j [] h e = cc
job_by_id-set_jobs k j (x ∷ js) {old} h e = ground (arith, job_by_id-set_jobs k j js {old = old})

-- A save leaves every other job as it was.
pub job_by_id-set_jobs_ne :
    (k : ℕ) (j : Job) (js : List Job)
    → ((j.id == k) ≡ false)
    → find? (λ r. r.id == k) (set_jobs j js) ≡ find? (λ r. r.id == k) js
job_by_id-set_jobs_ne k j [] h = refl
job_by_id-set_jobs_ne k j (x ∷ js) h = ground (arith, job_by_id-set_jobs_ne k j js h)

pub job_by_id-id : (k : ℕ) (js : List Job) {j : Job} → find? (λ r. r.id == k) js ≡ some j → j.id ≡ k
job_by_id-id k js {j} h = ==_eq j.id k (find?-holds (λ r. r.id == k) js h)
