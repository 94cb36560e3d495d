-- ===== src/Reviews/Create.antt =====
-- create_review of backend/app/api/v1/reviews.py.
use clutch_d_backend.Base.{
  ℕ, Bool, not, ◌&&◌, ◌||◌, Option, none, some, List, [], ◌∷◌, ◌++◌, ◌==◌, if◌then◌else◌, map, ltb,
  select, update, is_some, is_some_eq,
}
use clutch_d_backend.Schema.{
  Db, Float, User, Job, JobStatus, ProviderType, Review, status_eq, provider_eq,
}
use clutch_d_backend.Session.{
  Action, http, pure, raise_if, query, or_raise, one_or_none, write, new_id, ◌>>=◌, ◌>>◌,
}
use clutch_d_backend.Tables.{job_by_id}
use clutch_d_backend.Jobs.Access.{is_customer}

-- ReviewCreate, without the comment, which is stored unread.
pub record ReviewCreate : Type 0 where
  pub job_id : ℕ
  pub rating : ℕ

-- Field(ge=1, le=5)
abbrev pub is_bad_rating : ℕ → Bool
is_bad_rating rating = ltb rating 1 || ltb 5 rating

-- Who is reviewed: `tm` or `tg`.
pub record Target : Type 0 where
  pub type : ProviderType
  pub id : ℕ

abbrev target_as : ProviderType → Option ℕ → Option Target
target_as type none = none
target_as type (some k) = some (record { type = type; id = k })

-- `job.assigned_type or "mechanic"`
abbrev type_or_mechanic : Option ProviderType → ProviderType
type_or_mechanic none = ProviderType.mechanic
type_or_mechanic (some type) = type

abbrev assignee : ProviderType → Job → Option ℕ
assignee ProviderType.mechanic job = job.assigned_mechanic_id
assignee ProviderType.garage job = job.assigned_garage_id

abbrev pub target_of : Job → Option Target
target_of job =
    target_as (type_or_mechanic job.assigned_type)
      (assignee (type_or_mechanic job.assigned_type) job)

abbrev only_for : ProviderType → Target → Option ℕ
only_for type target = if provider_eq type target.type then some target.id else none

abbrev pub reviews_by : ℕ → User → Db → List Review
reviews_by job_id user db =
    select (λ r. r.job_id == job_id && r.reviewer_user_id == user.id) db.reviews

abbrev pub new_review : ℕ → Job → User → ℕ → Target → Review
new_review k job user rating target = record {
  id = k;
  job_id = job.id;
  reviewer_user_id = user.id;
  rating = rating;
  target_type = target.type;
  target_mechanic_id = only_for ProviderType.mechanic target;
  target_garage_id = only_for ProviderType.garage target;
}

abbrev pub is_about : Target → Review → Bool
is_about target r = elim target.type [
  | ProviderType.mechanic ↦ is_some_eq r.target_mechanic_id target.id
  | ProviderType.garage ↦ is_some_eq r.target_garage_id target.id
]

-- `db.add(review)` and flush
unfoldable pub add_review : Review → Db → Db
add_review r db = record db { reviews = db.reviews ++ r ∷ [] }

abbrev pub ratings : Target → Db → List ℕ
ratings target db = map (λ (r : Review). r.rating) (select (is_about target) db.reviews)

-- The database's AVG of a column, as a float, over at least one row.
module _ (avg : ℕ → List ℕ → Float) where
  abbrev pub rate : Target → Float → Db → Db
  rate target rating db = elim target.type [
    | ProviderType.mechanic ↦ record db {
      mechanics = update (λ m. m.id == target.id) (λ m. record m { rating = rating }) db.mechanics;
    }
    | ProviderType.garage ↦ record db {
      garages = update (λ g. g.id == target.id) (λ g. record g { rating = rating }) db.garages;
    }
  ]

  -- _recompute_mechanic_rating and _recompute_garage_rating: without rows AVG is NULL.
  abbrev recompute : Target → List ℕ → Db → Db
  recompute target [] db = db
  recompute target (x ∷ xs) db = rate target (avg x xs) db

  unfoldable pub create_review : ReviewCreate → User → Action ℕ
  unfolding add_review
  create_review body user = do
    raise_if (is_bad_rating body.rating) (http 422)
    raise_if (not (is_customer user.role)) (http 403)
    found ← query (job_by_id body.job_id)
    job ← or_raise found (http 404)
    raise_if (not (job.user_id == user.id)) (http 404)
    raise_if (not (status_eq job.status JobStatus.completed)) (http 400)
    mine ← query (reviews_by body.job_id user)
    existing_review ← one_or_none mine
    raise_if (is_some existing_review) (http 409)
    target ← or_raise (target_of job) (http 400)
    k ← new_id
    write (add_review (new_review k job user body.rating target))
    write λ db. recompute target (ratings target db) db
    pure k
