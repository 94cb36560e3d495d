-- ===== src/Marketplace/Fitment.antt =====
-- check_product_fitment of backend/app/api/v1/marketplace.py. The texts of the answer are left out.
use clutch_d_backend.Base.{
  ℕ, String, Bool, true, false, not, ◌&&◌, ◌||◌, Option, none, some, List, [], ◌∷◌, ◌==◌, str_eq,
  if◌then◌else◌, ltb, select,
}
use clutch_d_backend.Schema.{Db, ProductFitment}
use clutch_d_backend.Auth.Access.{non_empty}

-- `compatible`, and `fitment_type`
pub record FitmentCheckResult : Type 0 where
  pub compatible : Bool
  pub fitment_type : String

abbrev is_text : String → Option String → Bool
is_text s none = false
is_text s (some t) = str_eq t s

-- The condition on the model, which is there if the model is given.
abbrev has_model : (lower : String → String) → Option String → ProductFitment → Bool
has_model lower none f = true
has_model lower (some model) f = elim f.vehicle_model [
  | none ↦ true
  | some m ↦ str_eq m (lower model)
]

abbrev pub fitments_for :
    (lower : String → String) → ℕ → (make : String) → Option String → Db → List ProductFitment
fitments_for lower product make model db =
    select
      (λ f.
        f.product_id == product && is_text (lower make) f.vehicle_make && has_model lower model f)
      db.fitments

-- `f.vehicle_model and f.vehicle_model == (model or "").lower()`
abbrev is_specific : (lower : String → String) → Option String → ProductFitment → Bool
is_specific lower none f = elim (non_empty f.vehicle_model) [
  | none ↦ false
  | some m ↦ str_eq m (lower "")
]
is_specific lower (some model) f = elim (non_empty f.vehicle_model) [
  | none ↦ false
  | some m ↦ str_eq m (lower model)
]

abbrev is_generic : ProductFitment → Bool
is_generic f = elim (non_empty f.vehicle_model) [ none ↦ true | some m ↦ false ]

-- The first specific one, else the first generic one, else the first.
abbrev first_of : List ProductFitment → List ProductFitment → ProductFitment → ProductFitment
first_of (f ∷ specific) generic other = f
first_of [] (f ∷ generic) other = f
first_of [] [] other = other

abbrev is_before : Option ℕ → ℕ → Bool
is_before none year = false
is_before (some start) year = ltb year start

abbrev is_after : Option ℕ → ℕ → Bool
is_after none year = false
is_after (some last) year = ltb last year

abbrev is_outside : Option ℕ → ProductFitment → Bool
is_outside none f = false
is_outside (some year) f = is_before f.year_start year || is_after f.year_end year

abbrev check_best : Option ℕ → ProductFitment → FitmentCheckResult
check_best year f =
    if is_outside year f
    then record { compatible = false; fitment_type = "incompatible" }
    else record {
      compatible = not (str_eq f.fitment_type "incompatible");
      fitment_type = f.fitment_type;
    }

abbrev unknown : FitmentCheckResult
unknown = record { compatible = false; fitment_type = "unknown" }

abbrev check_rows :
    (lower : String → String) → Option String → Option ℕ → List ProductFitment → FitmentCheckResult
check_rows lower model year [] = unknown
check_rows lower model year (f ∷ rows) =
    check_best year
      (first_of (select (is_specific lower model) (f ∷ rows)) (select is_generic (f ∷ rows)) f)

abbrev check_make :
    (lower : String → String)
    → ℕ
    → (make model : Option String) → Option ℕ
    → Db
    → FitmentCheckResult
check_make lower product none model year db = unknown
check_make lower product (some make) model year db =
    check_rows lower model year (fitments_for lower product make model db)

-- `lower` is Python's method of str.
unfoldable pub check_product_fitment :
    (lower : String → String)
    → (product : ℕ) (make model : Option String) (year : Option ℕ) → Db
    → FitmentCheckResult
check_product_fitment lower product make model year db =
    check_make lower product (non_empty make) (non_empty model) year db
