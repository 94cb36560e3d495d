-- ===== src/Reviews/Written.antt =====
-- What create_review of backend/app/api/v1/reviews.py writes, as a row and a rating.
use clutch_d_backend.Base.{
  ℕ, ◌≡◌, refl, inl, inr, Bool, true, false, none, some, List, [], ◌∷◌, ◌++◌, ◌==◌, arith, map,
  Bool-cases, select, update, if◌then◌else◌, ◌≤◌,
}
use clutch_d_backend.Schema.{Db, Float, User, Job, ProviderType, Review, provider_eq}
use clutch_d_backend.Session.{World, Error, Result, ok, err}
use clutch_d_backend.Reviews.Create.{
  ReviewCreate, Target, is_bad_rating, target_of, new_review, is_about, ratings, rate, add_review,
}

-- With a row that counts, there is something to average.
pub ratings-some :
    (p : Review → Bool) (rs : List Review) (r : Review)
    → p r ≡ true
    → (x : ℕ) × (xs : List ℕ) × (map (λ (q : Review). q.rating) (select p (rs ++ r ∷ [])) ≡ x ∷ xs)
ratings-some p [] r hit = (r.rating, [], ground arith)
ratings-some p (q ∷ rs) r hit = elim (Bool-cases (p q)) [
  | inl counts ↦ (q.rating, map (λ (q : Review). q.rating) (select p (rs ++ r ∷ [])), ground arith)
  | inr skipped ↦ let (x, xs, e) = ratings-some p rs r hit in (x, xs, ground arith)
]

pub about_new :
    (k : ℕ) (job : Job) (user : User) (rating : ℕ) (target : Target)
    → is_about target (new_review k job user rating target) ≡ true
about_new k job user rating target = ground arith

-- The review of a job by its customer, of the provider alone.
abbrev pub review_of : ℕ → Job → User → ℕ → Target → Review
review_of k job user rating target = record {
  id = k;
  job_id = job.id;
  reviewer_user_id = user.id;
  rating = rating;
  target_type = target.type;
  target_mechanic_id =
      if provider_eq ProviderType.mechanic target.type then some target.id else none;
  target_garage_id = if provider_eq ProviderType.garage target.type then some target.id else none;
}

-- The database with a new rating of a provider.
abbrev pub rated : ProviderType → ℕ → Float → Db → Db
rated ProviderType.mechanic k x db = record db {
  mechanics = update (λ m. m.id == k) (λ m. record m { rating = x }) db.mechanics;
}
rated ProviderType.garage k x db = record db {
  garages = update (λ g. g.id == k) (λ g. record g { rating = x }) db.garages;
}

rate-at :
    (avg : ℕ → List ℕ → Float) (type : ProviderType) (k : ℕ) (x : Float) (db : Db)
    → rate avg (record { type = type; id = k }) x db ≡ rated type k x db
rate-at avg ProviderType.mechanic k x db = refl
rate-at avg ProviderType.garage k x db = refl

pub rate-rated :
    (avg : ℕ → List ℕ → Float) (target : Target) (x : Float) (db : Db)
    → rate avg target x db ≡ rated target.type target.id x db
rate-rated avg target x db = rate-at avg target.type target.id x db

-- The provider that the job is assigned to.
abbrev pub IsAssignee : Target → Job → Type 0
IsAssignee target job =
    (target.type ≡ ProviderType.mechanic → job.assigned_mechanic_id ≡ some target.id)
    × (target.type ≡ ProviderType.garage → job.assigned_garage_id ≡ some target.id)

pub target_of-IsAssignee :
    (job : Job) (target : Target) → target_of job ≡ some target → IsAssignee target job
target_of-IsAssignee job target h = (λ e. ground arith, λ e. ground arith)

pub good_rating : (rating : ℕ) → is_bad_rating rating ≡ false → (1 ≤ rating) × (rating ≤ 5)
good_rating rating h = (ground arith, ground arith)

-- What a review of `job` writes.
abbrev pub Reviewed :
    (ℕ → List ℕ → Float) → ReviewCreate → User → World → Job → Target → Result ℕ × World → Type 0
Reviewed avg body user w job target (r, after) =
    let new = review_of w.next_id job user body.rating target in
    let reviews = w.db.reviews ++ new ∷ [] in
    (r ≡ ok w.next_id)
    × (after.db.reviews ≡ reviews)
    × ((x : ℕ) × (xs : List ℕ) × (ratings target after.db ≡ x ∷ xs)
        × (after.db ≡ rated target.type target.id (avg x xs) (record w.db { reviews = reviews })))

pub rate-reviews :
    (avg : ℕ → List ℕ → Float) (target : Target) (x : Float) (db : Db)
    → (rate avg target x db).reviews ≡ db.reviews
rate-reviews avg target x db = ground arith

pub rated-jobs :
    (type : ProviderType) (k : ℕ) (x : Float) (db : Db) → (rated type k x db).jobs ≡ db.jobs
rated-jobs ProviderType.mechanic k x db = refl
rated-jobs ProviderType.garage k x db = refl

pub unlike : {r : Result ℕ} {e : Error} {k : ℕ} → r ≡ err e → r ≡ ok k → ⊥
unlike refused done = cc

pub add_review-reviews : (r : Review) (db : Db) → (add_review r db).reviews ≡ db.reviews ++ r ∷ []
unfolding add_review
add_review-reviews r db = refl

pub add_review-db :
    (r : Review) (db : Db) → add_review r db ≡ record db { reviews = db.reviews ++ r ∷ [] }
unfolding add_review
add_review-db r db = refl
