-- ===== src/Session/Keeps.antt =====
-- Rules for what a handler leaves in the database: a property that holds before, and after the last
-- part, holds after the whole of it.
use clutch_d_backend.Base.{◌≡◌, refl, sym, ap, subst, Bool, true, false, Option, none, some}
use clutch_d_backend.Schema.{Db}
use clutch_d_backend.Session.{
  Action, World, Error, Result, ok, err, or_raise, raise_if, end_session, in_session, ◌>>=◌, ◌>>◌,
}

module _ {ℓ κ} {A : Type ℓ} (Q : Db → Type κ) where
  end_session-keeps :
      (found : Db) (r : Result A × World) → Q found → Q r.1.db → Q (end_session found r).1.db
  end_session-keeps found (ok a, w) q q' = q'
  end_session-keeps found (err e, w) q q' = q

  pub in_session-keeps :
      (m : Action A) (w : World) → Q w.db → Q (m w).1.db → Q (in_session m w).1.db
  unfolding in_session
  in_session-keeps m w q q' = end_session-keeps w.db (m w) q q'

module _ {ℓ κ μ} {A : Type ℓ} {B : Type μ} (Q : Db → Type κ) where
  pub or_raise-keeps :
      (o : Option A) (e : Error) (f : A → Action B) (w : World)
      → Q w.db
      → ((a : A) → o ≡ some a → Q (f a w).1.db)
      → Q ((or_raise o e >>= f) w).1.db
  or_raise-keeps none e f w q h = q
  or_raise-keeps (some a) e f w q h = h a refl

module _ {ℓ κ} {B : Type ℓ} (Q : Db → Type κ) where
  pub raise_if-keeps :
      (b : Bool) (e : Error) (m : Action B) (w : World)
      → Q w.db
      → Q (m w).1.db
      → Q ((raise_if b e >> m) w).1.db
  raise_if-keeps true e m w q h = q
  raise_if-keeps false e m w q h = h

-- The same of the whole world, for every start.
abbrev pub IsKept {ℓ κ} : {A : Type ℓ} → (World → Type κ) → Action A → Type κ
IsKept Q m = (w : World) → Q w → Q (m w).1

module _ {ℓ κ μ} {A : Type ℓ} {B : Type μ} (Q : World → Type κ) where
  step-keeps :
      (r : Result A × World) (f : A → Action B)
      → Q r.1
      → ((a : A) → IsKept Q (f a))
      → Q (elim r.0 as (λ _. Result B × World) [ ok x ↦ f x r.1 | err e ↦ (err e, r.1) ]).1
  step-keeps (ok a, w) f q h = h a w q
  step-keeps (err e, w) f q h = q

  pub bind-IsKept :
      (m : Action A) (f : A → Action B)
      → IsKept Q m
      → ((a : A) → IsKept Q (f a))
      → IsKept Q (m >>= f)
  bind-IsKept m f hm hf w q = step-keeps (m w) f (hm w q) hf

module _ {ℓ μ} {A : Type ℓ} {B : Type μ} where
  pub bind-ok :
      (m : Action A) (f : A → Action B) (w w' : World) {a : A}
      → m w ≡ (ok a, w')
      → (m >>= f) w ≡ f a w'
  bind-ok m f w w' e =
      ap
        (λ (r : Result A × World). elim r.0 as (λ _. Result B × World) [
          | ok x ↦ f x r.1
          | err x ↦ (err x, r.1)
        ])
        e

module _ {ℓ μ} {A : Type ℓ} {B : Type μ} where
  step-inv :
      (r : Result A × World) (f : A → Action B) {b : B}
      → (elim r.0 as (λ _. Result B × World) [ ok x ↦ f x r.1 | err x ↦ (err x, r.1) ]).0 ≡ ok b
      → (a : A) × (r.0 ≡ ok a)
        × ((elim r.0 as (λ _. Result B × World) [ ok x ↦ f x r.1 | err x ↦ (err x, r.1) ])
            ≡ f a r.1)
  step-inv (ok a, w) f h = (a, refl, refl)
  step-inv (err e, w) f h = cc

  -- A sequence that returns has a first part that returns.
  pub bind-inv :
      (m : Action A) (f : A → Action B) (w : World) {b : B}
      → ((m >>= f) w).0 ≡ ok b
      → (a : A) × ((m w).0 ≡ ok a) × ((m >>= f) w ≡ f a (m w).1)
  bind-inv m f w h = step-inv (m w) f h

module _ {ℓ} {A : Type ℓ} where
  end_session-ok :
      (found : Db) (r : Result A × World) {a : A}
      → (end_session found r).0 ≡ ok a
      → end_session found r ≡ r
  end_session-ok found (ok x, w) h = refl
  end_session-ok found (err e, w) h = cc

  end_session-keeps_ok :
      (Q : Db → Type 0) (found : Db) (r : Result A × World)
      → Q found
      → ((a : A) → r.0 ≡ ok a → Q r.1.db)
      → Q (end_session found r).1.db
  end_session-keeps_ok Q found (ok a, w) q f = f a refl
  end_session-keeps_ok Q found (err e, w) q f = q

  -- A property that holds before, and after a handler that returns, holds after the session.
  pub in_session-keeps_ok :
      (Q : Db → Type 0) (m : Action A) (w : World)
      → Q w.db
      → ((a : A) → (m w).0 ≡ ok a → Q (m w).1.db)
      → Q (in_session m w).1.db
  unfolding in_session
  in_session-keeps_ok Q m w q f = end_session-keeps_ok Q w.db (m w) q f

  -- What returns is not rolled back.
  pub in_session-ok :
      (m : Action A) (w : World) {a : A} → (in_session m w).0 ≡ ok a → in_session m w ≡ m w
  unfolding in_session
  in_session-ok m w h = end_session-ok w.db (m w) h

module _ {ℓ κ μ} {A : Type ℓ} {B : Type μ} (Q : World → Type κ) where
  -- The property holds after the first part, which returns.
  pub after-IsKept :
      (m : Action A) (f : A → Action B) (w w' : World) {a : A}
      → m w ≡ (ok a, w')
      → Q w'
      → IsKept Q (f a)
      → Q ((m >>= f) w).1
  after-IsKept m f w w' e q hf =
      subst (λ (r : Result B × World). Q r.1) (sym (bind-ok m f w w' e)) (hf w' q)

module _ {ℓ κ} {A : Type ℓ} (Q : World → Type κ) where
  pub or_raise-IsKept : (o : Option A) (e : Error) → IsKept Q (or_raise o e)
  or_raise-IsKept none e w q = q
  or_raise-IsKept (some a) e w q = q
