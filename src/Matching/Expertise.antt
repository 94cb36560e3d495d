-- ===== src/Matching/Expertise.antt =====
-- The map from issue tags to expertise of backend/app/services/matching.py.
use clutch_d_backend.Base.{
  String, ◌≡◌, refl, Bool, true, false, ◌||◌, Option, none, some, List, [], ◌∷◌, str_eq,
  if◌then◌else◌, arith, All, Bool-cases, Option-cases, inl, inr, subst, some_inj,
}

-- ISSUE_TO_EXPERTISE
abbrev pub issue_to_expertise : List (String × Option String)
issue_to_expertise =
    ("flat_tire", some "tires")
    ∷ ("engine_failure", some "engine")
    ∷ ("battery_dead", some "battery")
    ∷ ("overheating", some "engine")
    ∷ ("brake_issue", some "brakes")
    ∷ ("oil_leak", some "oil")
    ∷ ("electrical", some "electrical")
    ∷ ("ac_not_working", some "ac")
    ∷ ("transmission", some "transmission")
    ∷ ("starting_issue", some "engine")
    ∷ ("noise", some "diagnostics")
    ∷ ("other", none)
    ∷ []

unfoldable pub look_up : String → List (String × Option String) → Option (Option String)
look_up tag [] = none
look_up tag ((k, v) ∷ rest) = if str_eq tag k then some v else look_up tag rest

-- _EXPERTISE_VALUES
unfoldable pub is_value : String → List (String × Option String) → Bool
is_value tag [] = false
is_value tag ((k, none) ∷ rest) = is_value tag rest
is_value tag ((k, some v) ∷ rest) = str_eq tag v || is_value tag rest

-- A tag that is a text and not empty, under `f`; `not tag` gives none.
abbrev if_tag : (String → Option String) → Option String → Option String
if_tag f none = none
if_tag f (some tag) = if str_eq tag "" then none else f tag

abbrev mapped_or : Option String → Option (Option String) → Option String
mapped_or default none = default
mapped_or default (some v) = v

unfoldable pub issue_tag_to_expertise : Option String → Option String
issue_tag_to_expertise = if_tag λ tag. mapped_or none (look_up tag issue_to_expertise)

-- _resolve_expertise
unfoldable pub resolve_expertise : Option String → Option String
resolve_expertise = if_tag λ tag.
    mapped_or (if is_value tag issue_to_expertise then some tag else none)
      (look_up tag issue_to_expertise)

-- Every value of the map resolves to itself.
abbrev IsFixed : Option String → Type 0
IsFixed v = resolve_expertise v ≡ v

values-IsFixed : All (λ (e : String × Option String). IsFixed e.1) issue_to_expertise
unfolding resolve_expertise look_up is_value
values-IsFixed = (
  refl,
  (refl, (refl, (refl, (refl, (refl, (refl, (refl, (refl, (refl, (refl, (refl, tt))))))))))),
)

look_up-IsFixed :
    (tag : String) (table : List (String × Option String)) (v : Option String)
    → All (λ (e : String × Option String). IsFixed e.1) table
    → look_up tag table ≡ some v
    → IsFixed v
unfolding look_up
look_up-IsFixed tag [] v h e = cc
look_up-IsFixed tag ((k, u) ∷ rest) v h e = elim (Bool-cases (str_eq tag k)) [
  | inl hit ↦ subst IsFixed (some_inj (rw hit at e)) h.0
  | inr miss ↦ look_up-IsFixed tag rest v h.1 (rw miss at e)
]

module _ (tag : String) where
  -- A tag that the map does not have.
  tag_unmapped :
      look_up tag issue_to_expertise ≡ none
      → (issue_tag_to_expertise (some tag) ≡ none)
        × (resolve_expertise (resolve_expertise (some tag)) ≡ resolve_expertise (some tag))
  unfolding issue_tag_to_expertise resolve_expertise
  tag_unmapped e = (ground arith, ground arith)

  tag_mapped :
      (v : Option String)
      → look_up tag issue_to_expertise ≡ some v
      → str_eq tag "" ≡ false
      → (issue_tag_to_expertise (some tag) ≡ v) × (resolve_expertise (some tag) ≡ v)
  unfolding issue_tag_to_expertise resolve_expertise
  tag_mapped v e h = (ground arith, ground arith)

  tag_empty :
      str_eq tag "" ≡ true
      → (issue_tag_to_expertise (some tag) ≡ none) × (resolve_expertise (some tag) ≡ none)
  unfolding issue_tag_to_expertise resolve_expertise
  tag_empty h = (ground arith, ground arith)

resolve_none : resolve_expertise none ≡ none
unfolding resolve_expertise
resolve_none = refl

-- What the map gives is not lost when it is resolved again, as offer_service does by passing a
-- mapped tag on to the search; and resolving twice is resolving once.
pub resolve_expertise_twice :
    (tag : Option String)
    → (resolve_expertise (issue_tag_to_expertise tag) ≡ issue_tag_to_expertise tag)
      × (resolve_expertise (resolve_expertise tag) ≡ resolve_expertise tag)
resolve_expertise_twice none =
    (unfold issue_tag_to_expertise in resolve_none, rw resolve_none resolve_none)
resolve_expertise_twice (some tag) = elim (Bool-cases (str_eq tag "")) [
  | inl empty ↦ let (a, b) = tag_empty tag empty in (rw a resolve_none, rw b resolve_none)
  | inr full ↦ elim (Option-cases (look_up tag issue_to_expertise)) [
    | inl e ↦ let (a, b) = tag_unmapped tag e in (rw a resolve_none, b)
    | inr (v, e) ↦
        let (a, b) = tag_mapped tag v e full in
        let fixed = look_up-IsFixed tag issue_to_expertise v values-IsFixed e in
        (rw a fixed, rw b fixed)
  ]
]
