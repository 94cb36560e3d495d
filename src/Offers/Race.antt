-- ===== src/Offers/Race.antt =====
-- Concurrent accepts. The checks of accept_offer run before it locks the job's row, so a claim may be
-- stale when its turn comes. A history is any sequence of such turns, for claims that were checked at
-- any earlier time, and of requests to the status routes.
use clutch_d_backend.Base.{
  ℕ, ◌+◌, ◌≤◌, ◌≡◌, refl, sym, ap, ◌∙◌, subst, ◌⊎◌, inl, inr, Bool, false, ◌&&◌, none, some, List,
  [], ◌∷◌, ◌==◌, if◌then◌else◌, arith, Bool-cases, Option-cases, find?, ==_eq, find?-none-update,
  find?-none_overwritten, &&_left, find?-holds, if_elim,
}
use clutch_d_backend.Schema.{Db, Job, JobStatus}
use clutch_d_backend.Session.{World, Result, ok, err, http, in_session}
use clutch_d_backend.Env.{Env}
use clutch_d_backend.Tables.{set_jobs}
use clutch_d_backend.Jobs.Edges.{Edge}
use clutch_d_backend.Jobs.Lifecycle.{Request, serve, Served, serve-Served}
use clutch_d_backend.Offers.Create.{is_searching, searching_job}
use clutch_d_backend.Offers.Answer.{Provider, Claim, OfferReply, assign_provider, assign_job}

pub data Turn : Type 0 where
  claim : Claim → Turn
  request : Request → Turn

abbrev succeeded {ℓ} : {A : Type ℓ} → Result A → ℕ
succeeded (ok a) = 1
succeeded (err e) = 0

pub take_turn : Env → Turn → World → World
take_turn env (Turn.claim c) w = (in_session (assign_job env c) w).1
take_turn env (Turn.request r) w = serve env r w

-- How often the turn assigns the job `k`: once if it is a claim on `k` that succeeds.
pub wins_turn : Env → ℕ → Turn → World → ℕ
wins_turn env k (Turn.claim c) w =
    if c.offer.job_id == k then succeeded (in_session (assign_job env c) w).0 else 0
wins_turn env k (Turn.request r) w = 0

pub wins : Env → ℕ → List Turn → World → ℕ
wins env k [] w = 0
wins env k (t ∷ ts) w = wins_turn env k t w + wins env k ts (take_turn env t w)

-- No row of job `k` is searching.
abbrev Taken : ℕ → List Job → Type 0
Taken k js = find? (λ j. j.id == k && is_searching j.status) js ≡ none

&&_false : (a b : Bool) → b ≡ false → (a && b) ≡ false
&&_false a b h = ground arith

Taken-set_jobs :
    (k : ℕ) (j : Job) (js : List Job)
    → is_searching j.status ≡ false
    → Taken k js
    → Taken k (set_jobs j js)
Taken-set_jobs k j js s =
    find?-none-update (λ r. r.id == k && is_searching r.status) (λ r. r.id == j.id) j js
      (&&_false (j.id == k) (is_searching j.status) s)

Taken-assigned :
    (j : Job) (js : List Job) → is_searching j.status ≡ false → Taken j.id (set_jobs j js)
Taken-assigned j js s =
    find?-none_overwritten (λ r. r.id == j.id && is_searching r.status) (λ r. r.id == j.id) j js
      (&&_false (j.id == j.id) (is_searching j.status) s)
      λ x h. &&_left (x.id == j.id) (is_searching x.status) h

-- The status routes never put a job back to searching.
Edge-leaves_searching : {s t : JobStatus} → Edge s t → is_searching t ≡ false
Edge-leaves_searching Edge.assign = refl
Edge-leaves_searching Edge.set_out = refl
Edge-leaves_searching Edge.arrive = refl
Edge-leaves_searching Edge.bill_assigned = refl
Edge-leaves_searching Edge.bill_done = refl
Edge-leaves_searching Edge.bill_en_route = refl
Edge-leaves_searching (Edge.complete h) = refl
Edge-leaves_searching (Edge.cancel h) = refl

Served-Taken :
    (k : ℕ) (before after : Db) → Served before after → Taken k before.jobs → Taken k after.jobs
Served-Taken k before after (inl same) h = rw same h
Served-Taken k before after (inr (job, stored, inl same)) h = rw same h
Served-Taken k before after (inr (job, stored, inr (job', same_id, edge, e))) h =
    rw e (Taken-set_jobs k job' before.jobs (Edge-leaves_searching edge) h)

assign-eq :
    (env : Env) (c : Claim) (w : World) {job : Job}
    → searching_job c.offer.job_id w.db ≡ some job
    → (in_session (assign_job env c) w).1.db.jobs
      ≡ set_jobs (assign_provider c.provider job) w.db.jobs
unfolding in_session assign_job
assign-eq env c w found = ground arith

assign-lost :
    (env : Env) (c : Claim) (w : World)
    → searching_job c.offer.job_id w.db ≡ none
    → ((in_session (assign_job env c) w).0 ≡ err (http 409))
      × ((in_session (assign_job env c) w).1.db ≡ w.db)
unfolding in_session assign_job
assign-lost env c w gone = (ground arith, ground arith)

assigned-status : (p : Provider) (job : Job) → is_searching (assign_provider p job).status ≡ false
assigned-status p job = ground arith

assigned-id : (p : Provider) (job : Job) → (assign_provider p job).id ≡ job.id
assigned-id p job = ground arith

searching_job-id : (k : ℕ) (db : Db) {job : Job} → searching_job k db ≡ some job → job.id ≡ k
searching_job-id k db {job} found = ==_eq job.id k (
    &&_left (job.id == k) (is_searching job.status)
      (find?-holds (λ j. j.id == k && is_searching j.status) db.jobs found))

module _ (env : Env) (k : ℕ) where
  -- A turn keeps a taken job taken.
  keeps-Taken : (t : Turn) (w : World) → Taken k w.db.jobs → Taken k (take_turn env t w).db.jobs
  unfolding take_turn
  keeps-Taken (Turn.request r) w h = Served-Taken k w.db (serve env r w).db (serve-Served env r w) h
  keeps-Taken (Turn.claim c) w h = elim (Option-cases (searching_job c.offer.job_id w.db)) [
    | inl gone ↦ subst (λ (db : Db). Taken k db.jobs) (sym (assign-lost env c w gone).1) h
    | inr (job, found) ↦ subst (Taken k) (sym (assign-eq env c w found)) (
        Taken-set_jobs k (assign_provider c.provider job) w.db.jobs (assigned-status c.provider job)
          h)
  ]

  -- A claim on a taken job fails.
  loses-Taken : (t : Turn) (w : World) → Taken k w.db.jobs → wins_turn env k t w ≡ 0
  unfolding wins_turn
  loses-Taken (Turn.request r) w h = refl
  loses-Taken (Turn.claim c) w h =
      if_elim (λ n. n ≡ 0) (c.offer.job_id == k)
        (λ e.
          let same : k ≡ c.offer.job_id = sym (==_eq c.offer.job_id k e) in
          ap succeeded (assign-lost env c w (subst (λ n. searching_job n w.db ≡ none) same h)).0)
        (λ _. refl)

  succeeded_le : (r : Result OfferReply) → succeeded r ≤ 1
  succeeded_le (ok a) = omega arith
  succeeded_le (err e) = omega arith

  wins_turn_le : (t : Turn) (w : World) → wins_turn env k t w ≤ 1
  unfolding wins_turn
  wins_turn_le (Turn.request r) w = omega arith
  wins_turn_le (Turn.claim c) w =
      if_elim (λ n. n ≤ 1) (c.offer.job_id == k)
        (λ _. succeeded_le (in_session (assign_job env c) w).0) (λ _. omega arith)

  claim_takes :
      (c : Claim) (w : World) {job : Job}
      → searching_job c.offer.job_id w.db ≡ some job
      → c.offer.job_id ≡ k
      → Taken k (in_session (assign_job env c) w).1.db.jobs
  claim_takes c w {job} found e =
      let taken =
        Taken-assigned (assign_provider c.provider job) w.db.jobs
          (assigned-status c.provider job) in
      let same = assigned-id c.provider job ∙ searching_job-id c.offer.job_id w.db found ∙ e in
      subst (Taken k) (sym (assign-eq env c w found))
        (subst (λ n. Taken n (set_jobs (assign_provider c.provider job) w.db.jobs)) same taken)

  -- A turn that assigns the job leaves it taken.
  win_takes :
      (t : Turn) (w : World) → (wins_turn env k t w ≡ 0) ⊎ Taken k (take_turn env t w).db.jobs
  unfolding wins_turn take_turn
  win_takes (Turn.request r) w = inl refl
  win_takes (Turn.claim c) w = elim (Bool-cases (c.offer.job_id == k)) [
    | inr miss ↦ inl (rw miss)
    | inl hit ↦ elim (Option-cases (searching_job c.offer.job_id w.db)) [
      | inl gone ↦ inl (
          if_elim (λ n. n ≡ 0) (c.offer.job_id == k)
            (λ _. ap succeeded (assign-lost env c w gone).0) (λ _. refl))
      | inr (job, found) ↦ inr (claim_takes c w found (==_eq c.offer.job_id k hit))
    ]
  ]

  wins-Taken : (ts : List Turn) (w : World) → Taken k w.db.jobs → wins env k ts w ≡ 0
  unfolding wins
  wins-Taken [] w h = refl
  wins-Taken (t ∷ ts) w h =
      omega (arith, loses-Taken t w h, wins-Taken ts (take_turn env t w) (keeps-Taken t w h))

  -- Whatever accepts past their checks and whatever requests to the status routes take their turns, in
  -- whatever order and however old the checks are: at most one accept of an offer for job `k` succeeds.
  pub wins-le_one : (ts : List Turn) (w : World) → wins env k ts w ≤ 1
  unfolding wins
  wins-le_one [] w = omega arith
  wins-le_one (t ∷ ts) w = elim (win_takes t w) [
    | inl lost ↦ omega (arith, lost, wins-le_one ts (take_turn env t w))
    | inr taken ↦ omega (arith, wins_turn_le t w, wins-Taken ts (take_turn env t w) taken)
  ]
