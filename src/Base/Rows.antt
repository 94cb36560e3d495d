-- ===== src/Base/Rows.antt =====
-- A table as the list of its rows in insertion order: what a `select … where` reads, and what the
-- flush of a changed object writes.
use mathlib.Core.Path.{◌≡◌, refl, sym, subst, ◌∙◌}
use mathlib.Core.Bool.{Bool, true, false, ◌||◌}
use mathlib.Core.Option
use mathlib.Core.Option.{Option, none, some}
use mathlib.Core.Logic.{inl, inr}
use mathlib.Core.List.{List, [], ◌∷◌, ◌++◌}
use native.Mathlib.Omega.{arith}
use clutch_d_backend.Base.Tests.{if◌then◌else◌, Bool-cases, some_inj}
use clutch_d_backend.Base.Lists.{length, All}

module _ {ℓ} {A : Type ℓ} where
  -- All rows that pass the test, in order.
  abbrev pub select : (A → Bool) → List A → List A
  select p [] = []
  select p (x ∷ xs) = if p x then x ∷ select p xs else select p xs

  -- The row that passes the test, where a key makes it the only one.
  abbrev pub find? : (A → Bool) → List A → Option A
  find? p [] = none
  find? p (x ∷ xs) = if p x then some x else find? p xs

  abbrev pub exists : (A → Bool) → List A → Bool
  exists p [] = false
  exists p (x ∷ xs) = p x || exists p xs

  abbrev pub update : (A → Bool) → (A → A) → List A → List A
  update p f [] = []
  update p f (x ∷ xs) = (if p x then f x else x) ∷ update p f xs

  -- The test finds at most one element.
  abbrev pub IsOnce : (A → Bool) → List A → Type ℓ
  IsOnce p [] = Unit
  IsOnce p (x ∷ xs) = (p x ≡ true → find? p xs ≡ none) × IsOnce p xs

  pub find?-holds : (p : A → Bool) (xs : List A) {a : A} → find? p xs ≡ some a → p a ≡ true
  find?-holds p [] h = cc
  find?-holds p (x ∷ xs) {a} h = ground (arith, find?-holds p xs {a = a})

  pub All-select : (p : A → Bool) (xs : List A) → All (λ x. p x ≡ true) (select p xs)
  All-select p [] = tt
  All-select p (x ∷ xs) = ground (arith, All-select p xs)

  pub length-update : (p : A → Bool) (f : A → A) (xs : List A) → length (update p f xs) ≡ length xs
  length-update p f [] = refl
  length-update p f (x ∷ xs) = omega (arith, length-update p f xs)

  -- A lookup by a test that an update keeps.
  pub find?-update :
      (q p : A → Bool) (f : A → A) (xs : List A)
      → ((a : A) → q (if p a then f a else a) ≡ q a)
      → find? q (update p f xs) ≡ Option.map (λ a. if p a then f a else a) (find? q xs)
  find?-update q p f [] h = refl
  find?-update q p f (x ∷ xs) h = ground (arith, h x, find?-update q p f xs h)

  pub All-select_both {κ} :
      (P : A → Type κ) (p : A → Bool) (xs : List A)
      → All P xs
      → All (λ x. P x × (p x ≡ true)) (select p xs)
  All-select_both P p [] h = tt
  All-select_both P p (x ∷ xs) h = elim (Bool-cases (p x)) [
    | inl hit ↦ rw hit ((h.0, hit), All-select_both P p xs h.1)
    | inr miss ↦ rw miss (All-select_both P p xs h.1)
  ]

  -- Overwritten rows that fail a test make no row pass it.
  pub find?-none-update :
      (q p : A → Bool) (y : A) (xs : List A)
      → q y ≡ false
      → find? q xs ≡ none
      → find? q (update p (λ _. y) xs) ≡ none
  find?-none-update q p y [] f h = refl
  find?-none-update q p y (x ∷ xs) f h = ground (arith, find?-none-update q p y xs f)

  -- Nor does any, if every row that passes is overwritten.
  pub find?-none_overwritten :
      (q p : A → Bool) (y : A) (xs : List A)
      → q y ≡ false
      → ((x : A) → q x ≡ true → p x ≡ true)
      → find? q (update p (λ _. y) xs) ≡ none
  find?-none_overwritten q p y [] f h = refl
  find?-none_overwritten q p y (x ∷ xs) f h =
      ground (arith, h x, find?-none_overwritten q p y xs f h)

  -- An overwritten row is found by the test that found it before, if it still passes.
  pub find?-overwritten :
      (q p : A → Bool) (y : A) (xs : List A) {x : A}
      → find? q xs ≡ some x
      → p x ≡ true
      → q y ≡ true
      → find? q (update p (λ _. y) xs) ≡ some y
  find?-overwritten q p y [] h px qy = cc
  find?-overwritten q p y (z ∷ xs) {x = x} h px qy =
      ground (arith, find?-overwritten q p y xs {x = x})

  -- A row that is added is found, if none was.
  pub find?-added :
      (p : A → Bool) (xs : List A) (y : A)
      → find? p xs ≡ none
      → p y ≡ true
      → find? p (xs ++ y ∷ []) ≡ some y
  find?-added p [] y gone hit = ground arith
  find?-added p (x ∷ xs) y gone hit = ground (arith, find?-added p xs y)

  -- A row that is added is the only one to pass, if none did.
  pub select-added :
      (p : A → Bool) (xs : List A) (x : A)
      → select p xs ≡ []
      → p x ≡ true
      → select p (xs ++ x ∷ []) ≡ x ∷ []
  select-added p [] x none_yet hit = ground arith
  select-added p (y ∷ ys) x none_yet hit = ground (arith, select-added p ys x)

  -- A row that is found is found before those that are added.
  pub find?-before :
      (p : A → Bool) (xs ys : List A) {x : A} → find? p xs ≡ some x → find? p (xs ++ ys) ≡ some x
  find?-before p [] ys h = cc
  find?-before p (z ∷ xs) ys {x} h = ground (arith, find?-before p xs ys {x = x})

  pub find?-All {κ} :
      (P : A → Type κ) (p : A → Bool) (xs : List A) {a : A} → find? p xs ≡ some a → All P xs → P a
  find?-All P p [] h all = cc
  find?-All P p (x ∷ xs) {a = a} h all = elim (Bool-cases (p x)) [
    | inl hit ↦ subst P (some_inj (sym (rw hit refl) ∙ h)) all.0
    | inr miss ↦ find?-All P p xs (sym (rw miss refl) ∙ h) all.1
  ]

  pub All-select_of {κ} :
      (P : A → Type κ) (p : A → Bool) (xs : List A) → All P xs → All P (select p xs)
  All-select_of P p [] h = tt
  All-select_of P p (x ∷ xs) h = elim (Bool-cases (p x)) [
    | inl hit ↦ rw hit (h.0, All-select_of P p xs h.1)
    | inr miss ↦ rw miss (All-select_of P p xs h.1)
  ]

  pub All-update {κ} :
      (P : A → Type κ) (p : A → Bool) (y : A) (xs : List A)
      → P y
      → All P xs
      → All P (update p (λ _. y) xs)
  All-update P p y [] py h = tt
  All-update P p y (x ∷ xs) py h = elim (Bool-cases (p x)) [
    | inl hit ↦ rw hit (py, All-update P p y xs py h.1)
    | inr miss ↦ rw miss (h.0, All-update P p y xs py h.1)
  ]
