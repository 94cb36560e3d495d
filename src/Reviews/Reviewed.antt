-- ===== src/Reviews/Reviewed.antt =====
-- What create_review of backend/app/api/v1/reviews.py does when it succeeds.
use clutch_d_backend.Base.{
  ℕ, ◌≡◌, ap, ◌∙◌, inl, inr, true, false, ◌&&◌, some, List, [], ◌∷◌, ◌++◌, ◌==◌, arith, map,
  Bool-cases, Option-cases, List-cases, find?, select, select-added, ◌≤◌,
}
use clutch_d_backend.Schema.{Db, Float, User, Job, JobStatus, Review, status_eq}
use clutch_d_backend.Session.{World, ok, err, http}
use clutch_d_backend.Tables.{job_by_id, job_by_id-id}
use clutch_d_backend.Jobs.Access.{is_customer}
use clutch_d_backend.Reviews.Create.{
  ReviewCreate, Target, is_bad_rating, target_of, reviews_by, new_review, is_about, add_review,
}
use clutch_d_backend.Reviews.Branches.{
  reviewing, bad_rating, no_customer, no_job, not_own, not_done, again, twice_already, no_target,
  reviewed,
}
use clutch_d_backend.Reviews.Written.{
  ratings-some, about_new, rated, rate-rated, IsAssignee, target_of-IsAssignee, good_rating,
  Reviewed, rate-reviews, rated-jobs, unlike, add_review-reviews, add_review-db,
}

module _ (avg : ℕ → List ℕ → Float) (body : ReviewCreate) (user : User) (w : World) where
  mine_new :
      (job : Job) (target : Target)
      → job.id ≡ body.job_id
      → let new = new_review w.next_id job user body.rating target in
        (new.job_id == body.job_id && new.reviewer_user_id == user.id) ≡ true
  mine_new job target same = ground arith

  writes-Reviewed :
      {job : Job} {target : Target}
      → is_bad_rating body.rating ≡ false
      → is_customer user.role ≡ true
      → job_by_id body.job_id w.db ≡ some job
      → (job.user_id == user.id) ≡ true
      → status_eq job.status JobStatus.completed ≡ true
      → reviews_by body.job_id user w.db ≡ []
      → target_of job ≡ some target
      → Reviewed avg body user w job target (reviewing avg body user w)
  writes-Reviewed {job} {target} good may stored own finished first aim =
      let new = new_review w.next_id job user body.rating target in
      let rows = w.db.reviews ++ new ∷ [] in
      let (x, xs, counted) =
        ratings-some (is_about target) w.db.reviews new
          (about_new w.next_id job user body.rating target) in
      let counted_in =
        ap (λ rs. map (λ (q : Review). q.rating) (select (is_about target) rs))
          (add_review-reviews new w.db)
        ∙ counted in
      let (r, db) = reviewed avg body user w good may stored own finished first aim counted_in in
      let same : (reviewing avg body user w).1.db.reviews ≡ rows =
        ap (λ (d : Db). d.reviews) db
        ∙ rate-reviews avg target (avg x xs) (add_review new w.db)
        ∙ add_review-reviews new w.db in
      (
        r,
        same,
        (
          x,
          xs,
          ap (λ rs. map (λ (q : Review). q.rating) (select (is_about target) rs)) same ∙ counted,
          db
              ∙ rate-rated avg target (avg x xs) (add_review new w.db)
              ∙ ap (rated target.type target.id (avg x xs)) (add_review-db new w.db),
        ),
      )

  for_job :
      is_bad_rating body.rating ≡ false
      → is_customer user.role ≡ true
      → (job : Job) → job_by_id body.job_id w.db ≡ some job
      → {k : ℕ} → (reviewing avg body user w).0 ≡ ok k
      → ((job.user_id == user.id) ≡ true)
        × (status_eq job.status JobStatus.completed ≡ true)
        × (reviews_by body.job_id user w.db ≡ [])
        × ((target : Target) × (target_of job ≡ some target)
            × Reviewed avg body user w job target (reviewing avg body user w))
  for_job good may job stored h = elim (Bool-cases (job.user_id == user.id)) [
    | inr other ↦ cc (not_own avg body user w good may stored other)
    | inl own ↦ elim (Bool-cases (status_eq job.status JobStatus.completed)) [
      | inr running ↦ cc (not_done avg body user w good may stored own running)
      | inl finished ↦ elim (List-cases (reviews_by body.job_id user w.db)) [
        | inr (inl (r, one)) ↦ cc (again avg body user w good may stored own finished one)
        | inr (inr (q, r, rs, more)) ↦
            cc (twice_already avg body user w good may stored own finished more)
        | inl first ↦ elim (Option-cases (target_of job)) [
          | inl nobody ↦ cc (no_target avg body user w good may stored own finished first nobody)
          | inr (target, aim) ↦ (
            own,
            finished,
            first,
            (target, aim, writes-Reviewed good may stored own finished first aim),
          )
        ]
      ]
    ]
  ]

  for_customer :
      is_bad_rating body.rating ≡ false
      → is_customer user.role ≡ true
      → {k : ℕ} → (reviewing avg body user w).0 ≡ ok k
      → (job : Job) × (job_by_id body.job_id w.db ≡ some job)
        × ((job.user_id == user.id) ≡ true)
        × (status_eq job.status JobStatus.completed ≡ true)
        × (reviews_by body.job_id user w.db ≡ [])
        × ((target : Target) × (target_of job ≡ some target)
            × Reviewed avg body user w job target (reviewing avg body user w))
  for_customer good may h = elim (Option-cases (job_by_id body.job_id w.db)) [
    | inl gone ↦ absurd (unlike (no_job avg body user w good may gone) h)
    | inr (job, stored) ↦
        let (own, finished, first, aimed) = for_job good may job stored h in
        (job, stored, own, finished, first, aimed)
  ]

  pub create_review_lem :
      {k : ℕ}
      → (reviewing avg body user w).0 ≡ ok k
      → ((1 ≤ body.rating) × (body.rating ≤ 5))
        × (is_customer user.role ≡ true)
        × ((job : Job) × (job_by_id body.job_id w.db ≡ some job)
            × ((job.user_id == user.id) ≡ true)
            × (status_eq job.status JobStatus.completed ≡ true)
            × (reviews_by body.job_id user w.db ≡ [])
            × ((target : Target) × IsAssignee target job
                × Reviewed avg body user w job target (reviewing avg body user w)))
  create_review_lem h = elim (Bool-cases (is_bad_rating body.rating)) [
    | inl bad ↦ absurd (unlike (bad_rating avg body user w bad) h)
    | inr good ↦ elim (Bool-cases (is_customer user.role)) [
      | inr may_not ↦ absurd (unlike (no_customer avg body user w good may_not) h)
      | inl may ↦
          let (job, stored, own, finished, first, (target, aim, written)) =
            for_customer good may h in
          (
            good_rating body.rating good,
            may,
            (
              job,
              stored,
              own,
              finished,
              first,
              (target, target_of-IsAssignee job target aim, written),
            ),
          )
    ]
  ]

  -- After a review has succeeded, the same user's next review of the job, with a rating from 1 to 5,
  -- gets a 409, and nothing changes.
  pub create_review_twice :
      (rating : ℕ) {k : ℕ}
      → (reviewing avg body user w).0 ≡ ok k
      → is_bad_rating rating ≡ false
      → let after = (reviewing avg body user w).1 in
        reviewing avg (record { job_id = body.job_id; rating = rating }) user after
        ≡ (err (http 409), after)
  create_review_twice rating h good =
      let (
        good_before,
        may,
        (job, stored, own, finished, first, (target, aim, (r, rows, (x, xs, counted, db)))),
      ) =
        create_review_lem h in
      let next : World = (reviewing avg body user w).1 in
      let new = new_review w.next_id job user body.rating target in
      let still : job_by_id body.job_id next.db ≡ some job =
        ap (λ (d : Db). find? (λ j. j.id == body.job_id) d.jobs) db
        ∙ ap (find? (λ j. j.id == body.job_id)) (
            rated-jobs target.type target.id (avg x xs)
              (record w.db { reviews = w.db.reviews ++ new ∷ [] }))
        ∙ stored in
      let mine : reviews_by body.job_id user next.db ≡ new ∷ [] =
        ap (select (λ q. q.job_id == body.job_id && q.reviewer_user_id == user.id)) rows
        ∙ select-added (λ q. q.job_id == body.job_id && q.reviewer_user_id == user.id) w.db.reviews
            new first (mine_new job target (job_by_id-id body.job_id w.db.jobs stored)) in
      again avg (record { job_id = body.job_id; rating = rating }) user next good may still own
        finished mine
