-- ===== src/Jobs/Transitions.antt =====
-- The status table of job_service.py and its guard.
use clutch_d_backend.Base.{Bool, true, false, ◌||◌, List, [], ◌∷◌}
use clutch_d_backend.Schema.{JobStatus, status_eq}

-- VALID_TRANSITIONS.get(current, set())
abbrev pub valid_transitions : JobStatus → List JobStatus
valid_transitions JobStatus.searching = JobStatus.assigned ∷ JobStatus.cancelled ∷ []
valid_transitions JobStatus.assigned =
    JobStatus.en_route ∷ JobStatus.payment_pending ∷ JobStatus.cancelled ∷ []
valid_transitions JobStatus.en_route =
    JobStatus.in_progress ∷ JobStatus.completed ∷ JobStatus.cancelled ∷ []
valid_transitions JobStatus.in_progress =
    JobStatus.payment_pending ∷ JobStatus.completed ∷ JobStatus.cancelled ∷ []
valid_transitions JobStatus.payment_pending = JobStatus.completed ∷ JobStatus.cancelled ∷ []
valid_transitions _ = []

abbrev pub member : JobStatus → List JobStatus → Bool
member s [] = false
member s (t ∷ ts) = status_eq s t || member s ts

-- _validate_transition
unfoldable pub validate_transition : JobStatus → JobStatus → Bool
validate_transition current target = member target (valid_transitions current)

-- `job.status in ("completed", "cancelled")`
abbrev pub is_closed : JobStatus → Bool
is_closed JobStatus.completed = true
is_closed JobStatus.cancelled = true
is_closed _ = false

-- `job.status in ("assigned", "in_progress", "en_route")` of finalize_job_price.
abbrev pub is_priceable : JobStatus → Bool
is_priceable JobStatus.assigned = true
is_priceable JobStatus.in_progress = true
is_priceable JobStatus.en_route = true
is_priceable _ = false
