-- ===== src/Admin/Entered.antt =====
-- How a job changes the ledger, as seen from one provider.
use clutch_d_backend.Base.{
  ℕ, ◌≡◌, refl, sym, ap, ◌∙◌, inl, inr, Bool, true, false, ◌&&◌, Option, none, some, List, [], ◌∷◌,
  ◌==◌, if◌then◌else◌, arith, Bool-cases, Option-cases, find?, select, IsOnce,
}
use clutch_d_backend.Schema.{FloatOps, Job, Payment, ProviderType, provider_eq}
use clutch_d_backend.Admin.Ledger.{
  Entry, is_entry, key_of, new_entry, add_job, enter, enter_job, collect,
}

abbrev at_key : ProviderType → ℕ → Option (ProviderType × ℕ) → Bool
at_key type k none = false
at_key type k (some (t, i)) = provider_eq t type && i == k

-- The job counts for this provider.
abbrev pub counts_for : ProviderType → ℕ → Job → Bool
counts_for type k job = at_key type k (key_of job)

module _ (ops : FloatOps) (payments : List Payment) where
  abbrev pub add_jobs : List Job → Entry → Entry
  add_jobs [] e = e
  add_jobs (job ∷ jobs) e = add_jobs jobs (add_job ops payments job e)

  -- The account of one provider: nothing without a job, else its jobs added up from the first on.
  abbrev pub account : ProviderType → ℕ → List Job → Option Entry
  account type k [] = none
  account type k (job ∷ jobs) = some (add_jobs (job ∷ jobs) (new_entry ops payments type k job))

  abbrev continued : ProviderType → ℕ → Option Entry → List Job → Option Entry
  continued type k none jobs = account type k jobs
  continued type k (some e) jobs = some (add_jobs jobs e)

  is_entry-add_job :
      (type : ProviderType) (k : ℕ) (job : Job) (e : Entry)
      → is_entry type k (add_job ops payments job e) ≡ is_entry type k e
  unfolding add_job
  is_entry-add_job type k job e = ground arith

  is_entry-new :
      (type t : ProviderType) (k i : ℕ) (job : Job)
      → is_entry type k (new_entry ops payments t i job) ≡ at_key type k (some (t, i))
  unfolding new_entry
  is_entry-new type t k i job = refl

provider_eq_trans :
    (a b c : ProviderType) → provider_eq a b ≡ true → provider_eq a c ≡ provider_eq b c
provider_eq_trans ProviderType.mechanic ProviderType.mechanic c h = refl
provider_eq_trans ProviderType.garage ProviderType.garage c h = refl
provider_eq_trans ProviderType.mechanic ProviderType.garage c h = cc
provider_eq_trans ProviderType.garage ProviderType.mechanic c h = cc

provider_eq_refl : (t : ProviderType) → provider_eq t t ≡ true
provider_eq_refl ProviderType.mechanic = refl
provider_eq_refl ProviderType.garage = refl

provider_eq_comm : (a b : ProviderType) → provider_eq a b ≡ provider_eq b a
provider_eq_comm ProviderType.mechanic ProviderType.mechanic = refl
provider_eq_comm ProviderType.garage ProviderType.garage = refl
provider_eq_comm ProviderType.mechanic ProviderType.garage = refl
provider_eq_comm ProviderType.garage ProviderType.mechanic = refl

provider_eq_eq : (a b : ProviderType) → provider_eq a b ≡ true → a ≡ b
provider_eq_eq ProviderType.mechanic ProviderType.mechanic h = refl
provider_eq_eq ProviderType.garage ProviderType.garage h = refl
provider_eq_eq ProviderType.mechanic ProviderType.garage h = cc
provider_eq_eq ProviderType.garage ProviderType.mechanic h = cc

-- An entry under one key is under another exactly if the keys are equal.
is_entry-at :
    (type t : ProviderType) (k i : ℕ) (e : Entry)
    → is_entry t i e ≡ true
    → is_entry type k e ≡ at_key type k (some (t, i))
is_entry-at type t k i e h = ground (arith, provider_eq_trans e.provider_type t type)

module _ (ops : FloatOps) (payments : List Payment) (type : ProviderType) (k : ℕ) where
  abbrev entered : Bool → Job → Option Entry → Option Entry
  entered false job o = o
  entered true job none = some (add_job ops payments job (new_entry ops payments type k job))
  entered true job (some e) = some (add_job ops payments job e)

  find?-enter_same :
      (job : Job) (es : List Entry)
      → find? (is_entry type k) (enter ops payments type k job es)
        ≡ entered true job (find? (is_entry type k) es)
  unfolding enter
  find?-enter_same job [] = ground (
    arith,
    is_entry-add_job ops payments type k job (new_entry ops payments type k job),
    is_entry-new ops payments type type k k job,
    provider_eq_refl type,
  )
  find?-enter_same job (e ∷ es) =
      ground (arith, is_entry-add_job ops payments type k job e, find?-enter_same job es)

  find?-enter_other :
      (t : ProviderType) (i : ℕ) (job : Job) (es : List Entry)
      → at_key type k (some (t, i)) ≡ false
      → find? (is_entry type k) (enter ops payments t i job es) ≡ find? (is_entry type k) es
  unfolding enter
  find?-enter_other t i job [] other = ground (
    arith,
    is_entry-add_job ops payments type k job (new_entry ops payments t i job),
    is_entry-new ops payments type t k i job,
  )
  find?-enter_other t i job (e ∷ es) other = ground (
    arith,
    is_entry-add_job ops payments type k job e,
    is_entry-at type t k i e,
    find?-enter_other t i job es other,
  )

  abbrev Once : List Entry → Type 0
  Once = IsOnce (is_entry type k)

  Once-enter :
      (t : ProviderType) (i : ℕ) (job : Job) (es : List Entry)
      → Once es
      → Once (enter ops payments t i job es)
  unfolding enter
  Once-enter t i job [] h = (λ hit. refl, tt)
  Once-enter t i job (e ∷ es) h = elim (Bool-cases (is_entry t i e)) [
    | inl here ↦ rw here (λ hit. h.0 (sym (is_entry-add_job ops payments type k job e) ∙ hit), h.1)
    | inr later ↦ rw later (
      λ hit.
          find?-enter_other t i job es
            (ground (arith, is_entry-at t type i k e, provider_eq_comm t type))
          ∙ h.0 hit,
      Once-enter t i job es h.1,
    )
  ]

  Once-enter_job :
      (key : Option (ProviderType × ℕ)) (job : Job) (es : List Entry)
      → Once es
      → Once (enter_job ops payments key job es)
  Once-enter_job none job es h = h
  Once-enter_job (some (t, i)) job es h = Once-enter t i job es h

  pub Once-collect :
      (jobs : List Job) (es : List Entry) → Once es → Once (collect ops payments jobs es)
  unfolding collect
  Once-collect [] es h = h
  Once-collect (job ∷ jobs) es h =
      Once-collect jobs (enter_job ops payments (key_of job) job es)
        (Once-enter_job (key_of job) job es h)

  key-eq :
      (t : ProviderType) (i : ℕ)
      → at_key type k (some (t, i)) ≡ true
      → ◌≡◌ {A = ProviderType × ℕ} (t, i) (type, k)
  key-eq t i h = ground (arith, provider_eq_eq t type)

  find?-enter_job :
      (key : Option (ProviderType × ℕ)) (job : Job) (es : List Entry)
      → find? (is_entry type k) (enter_job ops payments key job es)
        ≡ entered (at_key type k key) job (find? (is_entry type k) es)
  find?-enter_job none job es = refl
  find?-enter_job (some (t, i)) job es = elim (Bool-cases (at_key type k (some (t, i)))) [
    | inl here ↦ rw here (
        ap
          (λ (key : ProviderType × ℕ).
            find? (is_entry type k) (enter ops payments key.0 key.1 job es))
          (key-eq t i here)
        ∙ find?-enter_same job es)
    | inr other ↦ rw other (find?-enter_other t i job es other)
  ]

  continued-entered :
      (b : Bool) (job : Job) (o : Option Entry) (jobs : List Job)
      → continued ops payments type k (entered b job o) jobs
        ≡ continued ops payments type k o (if b then job ∷ jobs else jobs)
  continued-entered true job none jobs = refl
  continued-entered true job (some e) jobs = refl
  continued-entered false job o jobs = refl

  pub find?-collect :
      (jobs : List Job) (es : List Entry)
      → find? (is_entry type k) (collect ops payments jobs es)
        ≡ continued ops payments type k
            (find? (is_entry type k) es)
            (select (counts_for type k) jobs)
  unfolding collect
  find?-collect [] es = elim (Option-cases (find? (is_entry type k) es)) [
    | inl nothing ↦ rw nothing refl
    | inr (e, found) ↦ rw found refl
  ]
  find?-collect (job ∷ jobs) es =
      find?-collect jobs (enter_job ops payments (key_of job) job es)
      ∙ ap (λ o. continued ops payments type k o (select (counts_for type k) jobs))
          (find?-enter_job (key_of job) job es)
      ∙ continued-entered (counts_for type k job) job (find? (is_entry type k) es)
          (select (counts_for type k) jobs)
