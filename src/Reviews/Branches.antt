-- ===== src/Reviews/Branches.antt =====
-- create_review of backend/app/api/v1/reviews.py, branch by branch.
use clutch_d_backend.Base.{ℕ, ◌≡◌, true, false, none, some, List, [], ◌∷◌, ◌==◌, arith}
use clutch_d_backend.Schema.{Float, User, Job, JobStatus, Review, status_eq}
use clutch_d_backend.Session.{World, Result, ok, err, http, in_session, multiple_results}
use clutch_d_backend.Tables.{job_by_id}
use clutch_d_backend.Jobs.Access.{is_customer}
use clutch_d_backend.Reviews.Create.{
  ReviewCreate, Target, is_bad_rating, target_of, reviews_by, new_review, ratings, rate, add_review,
  create_review,
}

module _ (avg : ℕ → List ℕ → Float) (body : ReviewCreate) (user : User) (w : World) where
  abbrev pub reviewing : Result ℕ × World
  reviewing = in_session (create_review avg body user) w

  pub bad_rating : is_bad_rating body.rating ≡ true → reviewing.0 ≡ err (http 422)
  unfolding create_review in_session
  bad_rating h = ground arith

  module _ (good : is_bad_rating body.rating ≡ false) where
    pub no_customer : is_customer user.role ≡ false → reviewing.0 ≡ err (http 403)
    unfolding create_review in_session
    no_customer h = ground arith

    module _ (may : is_customer user.role ≡ true) where
      pub no_job : job_by_id body.job_id w.db ≡ none → reviewing.0 ≡ err (http 404)
      unfolding create_review in_session
      no_job h = ground arith

      module _ {job : Job} (stored : job_by_id body.job_id w.db ≡ some job) where
        pub not_own : (job.user_id == user.id) ≡ false → reviewing.0 ≡ err (http 404)
        unfolding create_review in_session
        not_own h = ground arith

        module _ (own : (job.user_id == user.id) ≡ true) where
          pub not_done :
              status_eq job.status JobStatus.completed ≡ false → reviewing.0 ≡ err (http 400)
          unfolding create_review in_session
          not_done h = ground arith

          module _ (finished : status_eq job.status JobStatus.completed ≡ true) where
            pub again :
                {r : Review}
                → reviews_by body.job_id user w.db ≡ r ∷ []
                → reviewing ≡ (err (http 409), w)
            unfolding create_review in_session
            again h = ground arith

            pub twice_already :
                {q r : Review} {rs : List Review}
                → reviews_by body.job_id user w.db ≡ q ∷ r ∷ rs
                → reviewing.0 ≡ err multiple_results
            unfolding create_review in_session
            twice_already h = ground arith

            module _ (first : reviews_by body.job_id user w.db ≡ []) where
              pub no_target : target_of job ≡ none → reviewing.0 ≡ err (http 400)
              unfolding create_review in_session
              no_target h = ground arith

              pub reviewed :
                  {target : Target} {x : ℕ} {xs : List ℕ}
                  → target_of job ≡ some target
                  → (let new = new_review w.next_id job user body.rating target in
                      ratings target (add_review new w.db) ≡ x ∷ xs)
                  → let new = new_review w.next_id job user body.rating target in
                    (reviewing.0 ≡ ok w.next_id)
                    × (reviewing.1.db ≡ rate avg target (avg x xs) (add_review new w.db))
              unfolding create_review in_session
              reviewed h r = (ground arith, ground arith)
