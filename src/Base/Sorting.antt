-- ===== src/Base/Sorting.antt =====
-- Stable sorting, as `list.sort` and `ORDER BY` do it, over a strict order given as a test.
use clutch_d_backend.Base.Tests.{if◌then◌else◌, Bool-cases}
use clutch_d_backend.Base.Lists.{length, take, All}
use clutch_d_backend.Base.Rows.{find?, select, IsOnce}
use mathlib.Core.Option.{none, some}
use Prim.Native.Nat.{ℕ, zero, suc, ◌≤◌}
use mathlib.Core.Path.{◌≡◌, refl, ap, ◌∙◌}
use mathlib.Core.Logic.{inl, inr}
use mathlib.Core.Bool.{Bool, true, false}
use mathlib.Core.List.{List, [], ◌∷◌, Perm}
use mathlib.Core.List.Perm
use native.Mathlib.Omega.{arith}

module _ {ℓ} {A : Type ℓ} (less : A → A → Bool) where
  abbrev pub insert_sorted : A → List A → List A
  insert_sorted x [] = x ∷ []
  insert_sorted x (y ∷ ys) = if less y x then y ∷ insert_sorted x ys else x ∷ y ∷ ys

  -- Equal elements keep their order: an element goes before all later ones that are not less.
  unfoldable pub sort : List A → List A
  sort [] = []
  sort (x ∷ xs) = insert_sorted x (sort xs)

  -- No element is less than the one before it.
  abbrev pub IsSorted : List A → Type 0
  IsSorted [] = Unit
  IsSorted (x ∷ []) = Unit
  IsSorted (x ∷ y ∷ ys) = (less y x ≡ false) × IsSorted (y ∷ ys)

  insert_sorted-IsSorted :
      ((a b : A) → less a b ≡ true → less b a ≡ false)
      → (x : A) (ys : List A) → IsSorted ys
      → IsSorted (insert_sorted x ys)
  insert_sorted-IsSorted asymm x [] h = tt
  insert_sorted-IsSorted asymm x (y ∷ []) h = ground (arith, asymm y x)
  insert_sorted-IsSorted asymm x (y ∷ z ∷ ys) h =
      ground (arith, asymm y x, insert_sorted-IsSorted asymm x (z ∷ ys) h.1)

  pub sort-IsSorted :
      ((a b : A) → less a b ≡ true → less b a ≡ false) → (xs : List A) → IsSorted (sort xs)
  unfolding sort
  sort-IsSorted asymm [] = tt
  sort-IsSorted asymm (x ∷ xs) = insert_sorted-IsSorted asymm x (sort xs) (sort-IsSorted asymm xs)

  pub IsSorted-take : (n : ℕ) (xs : List A) → IsSorted xs → IsSorted (take n xs)
  IsSorted-take zero xs h = tt
  IsSorted-take (suc n) [] h = tt
  IsSorted-take (suc zero) (x ∷ []) h = tt
  IsSorted-take (suc (suc n)) (x ∷ []) h = tt
  IsSorted-take (suc zero) (x ∷ y ∷ ys) h = tt
  IsSorted-take (suc (suc n)) (x ∷ y ∷ ys) h = (h.0, IsSorted-take (suc n) (y ∷ ys) h.1)

  All-insert_sorted {κ} :
      (P : A → Type κ) (x : A) (ys : List A) → P x → All P ys → All P (insert_sorted x ys)
  All-insert_sorted P x [] p h = (p, tt)
  All-insert_sorted P x (y ∷ ys) p h = elim (Bool-cases (less y x)) [
    | inl before ↦ rw before (h.0, All-insert_sorted P x ys p h.1)
    | inr after ↦ rw after (p, h)
  ]

  pub All-sort {κ} : (P : A → Type κ) (xs : List A) → All P xs → All P (sort xs)
  unfolding sort
  All-sort P [] h = tt
  All-sort P (x ∷ xs) h = All-insert_sorted P x (sort xs) h.0 (All-sort P xs h.1)

  insert_sorted-perm : (x : A) (ys : List A) → Perm (insert_sorted x ys) (x ∷ ys)
  insert_sorted-perm x [] = Perm.refl (x ∷ [])
  insert_sorted-perm x (y ∷ ys) = elim (Bool-cases (less y x)) [
    | inl before ↦ rw before (Perm.trans (Perm.cons y (insert_sorted-perm x ys)) (Perm.swap x y ys))
    | inr after ↦ rw after (Perm.refl (x ∷ y ∷ ys))
  ]

  pub sort-perm : (xs : List A) → Perm (sort xs) xs
  unfolding sort
  sort-perm [] = Perm.refl []
  sort-perm (x ∷ xs) = Perm.trans (insert_sorted-perm x (sort xs)) (Perm.cons x (sort-perm xs))

  find?-insert_sorted :
      (p : A → Bool) (x : A) (ys : List A)
      → (p x ≡ true → find? p ys ≡ none)
      → find? p (insert_sorted x ys) ≡ find? p (x ∷ ys)
  find?-insert_sorted p x [] h = refl
  find?-insert_sorted p x (y ∷ ys) h = ground (arith, find?-insert_sorted p x ys)

  -- What is found once is found in any order.
  pub find?-sort : (p : A → Bool) (xs : List A) → IsOnce p xs → find? p (sort xs) ≡ find? p xs
  unfolding sort
  find?-sort p [] h = refl
  find?-sort p (x ∷ xs) h =
      find?-insert_sorted p x (sort xs) (λ hit. find?-sort p xs h.1 ∙ h.0 hit)
      ∙ ap (λ o. if p x then some x else o) (find?-sort p xs h.1)

  length-insert_sorted : (x : A) (ys : List A) → length (insert_sorted x ys) ≡ suc (length ys)
  length-insert_sorted x [] = refl
  length-insert_sorted x (y ∷ ys) = ground (arith, length-insert_sorted x ys)

  pub length-sort : (xs : List A) → length (sort xs) ≡ length xs
  unfolding sort
  length-sort [] = refl
  length-sort (x ∷ xs) = omega (arith, length-insert_sorted x (sort xs), length-sort xs)

pub take-all {ℓ} : {A : Type ℓ} (n : ℕ) (xs : List A) → length xs ≤ n → take n xs ≡ xs
take-all zero [] h = refl
take-all zero (x ∷ xs) h = absurd (omega (arith, h))
take-all (suc n) [] h = refl
take-all (suc n) (x ∷ xs) h = ap (◌∷◌ x) (take-all n xs (omega (arith, h)))

pub length-select {ℓ} : {A : Type ℓ} (p : A → Bool) (xs : List A) → length (select p xs) ≤ length xs
length-select p [] = omega arith
length-select p (x ∷ xs) = ground (arith, length-select p xs)
