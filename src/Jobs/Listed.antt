-- ===== src/Jobs/Listed.antt =====
-- The listings of jobs against who may see a job.
use clutch_d_backend.Base.{
  ℕ, ◌≡◌, refl, sym, ap, ◌∙◌, inl, inr, Bool, true, false, ◌&&◌, Option, none, some, List, ◌∷◌,
  ◌==◌, arith, select, drop, All, All-map, All-select, All-sort, All-take, All-drop, length, ◌≤◌,
  subst, length-sort, length-select, take-all, sort-perm, sort, take, ==_eq, &&_left, is_some_eq,
}
use mathlib.Core.List.{Perm}
use clutch_d_backend.Schema.{Db, User, Role, Mechanic, Garage, Job, JobStatus}
use clutch_d_backend.Tables.{mechanic_by_user, garage_by_user}
use clutch_d_backend.Jobs.Visibility.{MaySee}
use clutch_d_backend.Jobs.Transitions.{member, is_closed}
use clutch_d_backend.Jobs.Listing.{
  not_due, newest_in, newer, rows_of_mechanic, rows_of_garage, jobs_of_mechanic, jobs_of_garage,
  jobs_of_customer, incoming_as, history_as, page, under_way, not_due, over,
}

is_some_eq-eq : (o : Option ℕ) (k : ℕ) → is_some_eq o k ≡ true → o ≡ some k
is_some_eq-eq none k h = cc
is_some_eq-eq (some j) k h = ground arith

module _ (P : Job → Type 0) (statuses : List JobStatus) (test : Job → Bool) (db : Db) where
  All-newest_in : ((j : Job) → test j ≡ true → P j) → All P (newest_in statuses test db)
  All-newest_in f =
      let listed = λ (j : Job). test j && member j.status statuses in
      All-sort newer P (select listed db.jobs) (
        All-map (λ j h. f j (&&_left (test j) (member j.status statuses) h)) (select listed db.jobs)
          (All-select listed db.jobs))

-- The roles that the listings distinguish.
abbrev pub is_listed : Role → Bool
is_listed Role.seller = false
is_listed Role.other = false
is_listed _ = true

abbrev pub Seen : User → Db → Job → Type 0
Seen user db j = MaySee user j db

module _ (user : User) (statuses : List JobStatus) (db : Db) where
  of_mechanic :
      (o : Option Mechanic)
      → mechanic_by_user user.id db ≡ o
      → user.role ≡ Role.mechanic
      → All (Seen user db) (rows_of_mechanic statuses db o)
  of_mechanic none known is = tt
  of_mechanic (some m) known is =
      All-newest_in (Seen user db) statuses (λ j. is_some_eq j.assigned_mechanic_id m.id) db
        (λ j h. inr (inr (inr (inl (is, (m, known, is_some_eq-eq j.assigned_mechanic_id m.id h))))))

  of_garage :
      (o : Option Garage)
      → garage_by_user user.id db ≡ o
      → user.role ≡ Role.garage
      → All (Seen user db) (rows_of_garage statuses db o)
  of_garage none known is = tt
  of_garage (some g) known is =
      All-newest_in (Seen user db) statuses (λ j. is_some_eq j.assigned_garage_id g.id) db
        (λ j h. inr (inr (inr (inr (is, (g, known, is_some_eq-eq j.assigned_garage_id g.id h))))))

  of_customer : All (Seen user db) (jobs_of_customer statuses user db)
  of_customer =
      All-newest_in (Seen user db) statuses (λ j. j.user_id == user.id) db
        (λ j h. inr (inr (inl (==_eq j.user_id user.id h))))

  of_admin : user.role ≡ Role.admin → All (Seen user db) (newest_in statuses (λ j. true) db)
  of_admin is = All-newest_in (Seen user db) statuses (λ j. true) db (λ j h. inl is)

-- The statuses before the price.
abbrev pub is_early_status : JobStatus → Bool
is_early_status JobStatus.searching = true
is_early_status JobStatus.assigned = true
is_early_status JobStatus.en_route = true
is_early_status JobStatus.in_progress = true
is_early_status _ = false

abbrev pub is_unpriced : Job → Bool
is_unpriced j = is_early_status j.status

member-not_due : (j : Job) → member j.status not_due ≡ is_unpriced j
member-not_due j = statuses j.status
  where
    statuses : (s : JobStatus) → member s not_due ≡ is_early_status s
    statuses s = ground arith

member-over : (j : Job) → member j.status over ≡ is_closed j.status
member-over j = ground arith

-- A page that is long enough for the table shows all that is asked for.
everybody :
    (n : ℕ) (statuses : List JobStatus) (test : Job → Bool) (db : Db)
    → ((j : Job) → member j.status statuses ≡ test j)
    → length db.jobs ≤ n
    → Perm (take n (newest_in statuses (λ j. true) db)) (select test db.jobs)
everybody n statuses test db same enough =
    let rows = select (λ (j : Job). member j.status statuses) db.jobs in
    let asked : rows ≡ select test db.jobs = ap (λ p. select p db.jobs) (λ i j. same j i) in
    let fits : take n (sort newer rows) ≡ sort newer rows = take-all n (sort newer rows) (
      omega (
        arith,
        length-sort newer rows,
        enough,
        length-select (λ (j : Job). member j.status statuses) db.jobs,
      )) in
    subst (λ xs. Perm xs (select test db.jobs)) (sym fits)
      (subst (Perm (sort newer rows)) asked (sort-perm newer rows))

module _ (user : User) (db : Db) (offset limit : ℕ) where
  All-page :
      (rows : List Job) → All (Seen user db) rows → All (Seen user db) (page offset limit rows)
  All-page rows h =
      All-take (Seen user db) limit (drop offset rows) (All-drop (Seen user db) offset rows h)

  incoming_as-Seen :
      (role : Role)
      → user.role ≡ role
      → is_listed role ≡ true
      → All (Seen user db) (incoming_as role user db)
  unfolding incoming_as
  incoming_as-Seen Role.mechanic is known =
      of_mechanic user under_way db (mechanic_by_user user.id db) refl is
  incoming_as-Seen Role.garage is known =
      of_garage user under_way db (garage_by_user user.id db) refl is
  incoming_as-Seen Role.customer is known = of_customer user (JobStatus.searching ∷ under_way) db
  incoming_as-Seen Role.admin is known =
      All-take (Seen user db) 50 (newest_in not_due (λ j. true) db) (of_admin user not_due db is)
  incoming_as-Seen Role.seller is known = cc
  incoming_as-Seen Role.other is known = cc

  history_as-Seen :
      (role : Role)
      → user.role ≡ role
      → is_listed role ≡ true
      → All (Seen user db) (history_as role user offset limit db)
  unfolding history_as
  history_as-Seen Role.mechanic is known =
      All-page (jobs_of_mechanic over user db)
        (of_mechanic user over db (mechanic_by_user user.id db) refl is)
  history_as-Seen Role.garage is known =
      All-page (jobs_of_garage over user db)
        (of_garage user over db (garage_by_user user.id db) refl is)
  history_as-Seen Role.customer is known =
      All-page (jobs_of_customer over user db) (of_customer user over db)
  history_as-Seen Role.admin is known =
      All-page (newest_in over (λ j. true) db) (of_admin user over db is)
  history_as-Seen Role.seller is known = cc
  history_as-Seen Role.other is known = cc

  as_an_admin :
      (role : Role) (admin : User)
      → is_listed role ≡ false
      → (incoming_as role user db ≡ incoming_as Role.admin admin db)
        × (history_as role user offset limit db ≡ history_as Role.admin admin offset limit db)
  unfolding incoming_as history_as
  as_an_admin Role.seller admin h = (refl, refl)
  as_an_admin Role.other admin h = (refl, refl)
  as_an_admin Role.mechanic admin h = cc
  as_an_admin Role.garage admin h = cc
  as_an_admin Role.customer admin h = cc
  as_an_admin Role.admin admin h = cc

  everybody_incoming :
      (role : Role)
      → is_listed role ≡ false
      → length db.jobs ≤ 50
      → Perm (incoming_as role user db) (select is_unpriced db.jobs)
  unfolding incoming_as
  everybody_incoming Role.seller h few = everybody 50 not_due is_unpriced db member-not_due few
  everybody_incoming Role.other h few = everybody 50 not_due is_unpriced db member-not_due few
  everybody_incoming Role.mechanic h few = cc
  everybody_incoming Role.garage h few = cc
  everybody_incoming Role.customer h few = cc
  everybody_incoming Role.admin h few = cc

  everybody_history :
      (role : Role)
      → is_listed role ≡ false
      → length db.jobs ≤ limit
      → Perm (history_as role user 0 limit db) (select (λ j. is_closed j.status) db.jobs)
  unfolding history_as
  everybody_history Role.seller h enough =
      everybody limit over (λ j. is_closed j.status) db member-over enough
  everybody_history Role.other h enough =
      everybody limit over (λ j. is_closed j.status) db member-over enough
  everybody_history Role.mechanic h enough = cc
  everybody_history Role.garage h enough = cc
  everybody_history Role.customer h enough = cc
  everybody_history Role.admin h enough = cc

  -- The incoming jobs and the history of a mechanic, a garage, a customer and an administrator hold only
  -- jobs that they may see. A user of any other role, such as a seller, is shown just what an
  -- administrator is shown: the jobs of everybody. Where at most 50 jobs are stored, their incoming jobs
  -- are all jobs of all customers from searching to in_progress; and where the page is as long as
  -- the table, their history is all jobs of all customers that are completed or cancelled.
  pub listings_lem :
      (admin : User)
      → admin.role ≡ Role.admin
      → (is_listed user.role ≡ true
          → All (Seen user db) (incoming_as user.role user db)
            × All (Seen user db) (history_as user.role user offset limit db))
        × (is_listed user.role ≡ false
            → (incoming_as user.role user db ≡ incoming_as admin.role admin db)
              × (history_as user.role user offset limit db
                  ≡ history_as admin.role admin offset limit db)
              × (length db.jobs ≤ 50
                  → Perm (incoming_as user.role user db) (select is_unpriced db.jobs))
              × (length db.jobs ≤ limit
                  → Perm
                      (history_as user.role user 0 limit db)
                      (select (λ j. is_closed j.status) db.jobs)))
  listings_lem admin is = (
    λ known. (incoming_as-Seen user.role refl known, history_as-Seen user.role refl known),
    λ unknown.
        let (incoming, history) = as_an_admin user.role admin unknown in
        (
          incoming ∙ ap (λ r. incoming_as r admin db) (sym is),
          history ∙ ap (λ r. history_as r admin offset limit db) (sym is),
          everybody_incoming user.role unknown,
          everybody_history user.role unknown,
        ),
  )
