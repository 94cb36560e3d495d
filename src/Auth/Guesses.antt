-- ===== src/Auth/Guesses.antt =====
-- Guessing passwords against the counter of failures.
use clutch_d_backend.Base.{
  ℕ, suc, ◌+◌, ◌≤◌, ◌<◌, ◌≡◌, ap, ◌∙◌, inl, inr, String, Bool, true, false, not, List, [], ◌∷◌,
  str_eq_refl, if◌then◌else◌, arith, leb, All, Bool-cases,
}
use clutch_d_backend.Redis.{Redis, CounterKind, count_of, count_up}
use clutch_d_backend.Session.{World, Result, ok, err}
use clutch_d_backend.Auth.Tokens.{Jwt, AuthSettings, create_access_token, create_refresh_token}
use clutch_d_backend.Auth.Calls.{at}
use clutch_d_backend.Auth.Login.{Passwords, is_auth_error, login, login_route}

-- Attempts at a time, on a world; `is_tested` tells whether the guess is compared with the secret, and
-- `is_over` whether it was right.
module _ {A : Type 0} (time : A → ℕ) (step : A → World → World)
    (is_tested is_over : A → World → Bool) where
  -- How many guesses are compared, up to the first right one.
  abbrev pub compared : List A → World → ℕ
  compared [] w = 0
  compared (a ∷ tries) w =
      let rest = compared tries (step a w) in
      if is_tested a w then suc (if is_over a w then 0 else rest) else rest

  module _ (count : ℕ → World → ℕ) (start until : ℕ)
      (few : (a : A) (w : World) → is_tested a w ≡ true → count (time a) w < 5)
      (counted : (a : A) (w : World) (t : ℕ)
        → is_tested a w ≡ true
        → is_over a w ≡ false
        → start ≤ time a
        → t ≤ until
        → count t (step a w) ≡ suc (count (time a) w))
      (unchanged : (a : A) (w : World) → is_tested a w ≡ false → step a w ≡ w) where
    abbrev IsWithin : A → Type 0
    IsWithin a = (start ≤ time a) × (time a ≤ until)

    -- While the counter stands.
    compared-counted :
        (tries : List A) (w : World) (k : ℕ)
        → All IsWithin tries
        → ((t : ℕ) → t ≤ until → count t w ≡ k)
        → k ≤ 5
        → compared tries w + k ≤ 5
    compared-counted [] w k within steady bound = omega (arith, bound)
    compared-counted (a ∷ tries) w k (first, rest) steady bound =
        elim (Bool-cases (is_tested a w)) [
          | inl hit ↦
              let low = few a w hit in
              let now = steady (time a) first.1 in
              elim (Bool-cases (is_over a w)) [
                | inl right ↦ rw hit (rw right (omega (arith, low, now)))
                | inr wrong ↦
                    let next =
                      compared-counted tries (step a w) (suc k) rest
                        (λ t le. counted a w t hit wrong first.0 le ∙ ap suc now)
                        (omega (arith, low, now)) in
                    rw hit (rw wrong (omega (arith, next)))
              ]
          | inr miss ↦
              let next = compared-counted tries w k rest steady bound in
              rw miss (rw (unchanged a w miss) next)
        ]

    pub compared-le_five : (tries : List A) (w : World) → All IsWithin tries → compared tries w ≤ 5
    compared-le_five [] w within = omega arith
    compared-le_five (a ∷ tries) w (first, rest) = elim (Bool-cases (is_tested a w)) [
      | inl hit ↦
          let low = few a w hit in
          elim (Bool-cases (is_over a w)) [
            | inl right ↦ rw hit (rw right (omega arith))
            | inr wrong ↦
                let next =
                  compared-counted tries (step a w) (suc (count (time a) w)) rest
                    (λ t le. counted a w t hit wrong first.0 le) (omega (arith, low)) in
                rw hit (rw wrong (omega (arith, next)))
          ]
      | inr miss ↦
          let next = compared-le_five tries w rest in rw miss (rw (unchanged a w miss) next)
    ]

pub count_of-count_up :
    (now later ttl : ℕ) (kind : CounterKind) (email : String) (redis : Redis)
    → later < now + ttl
    → count_of later kind email (count_up now ttl kind email redis)
      ≡ suc (count_of now kind email redis)
unfolding count_of count_up
count_of-count_up now later ttl kind email redis lives = elim kind [
  | CounterKind.login_fails ↦ ground (arith, str_eq_refl email)
  | CounterKind.reset_rate ↦ ground (arith, str_eq_refl email)
  | CounterKind.reset_attempts ↦ ground (arith, str_eq_refl email)
]

-- A guess at a time.
pub record Guess : Type 0 where
  pub now : ℕ
  pub guess : String

module _ (jwt : Jwt) (settings : AuthSettings) (passwords : Passwords) (address : String) where
  abbrev login_try : Guess → World → Result (String × String) × World
  login_try g w = login_route (at jwt settings g.now true) passwords address g.guess w

  abbrev email : String
  email = passwords.strip (passwords.lower address)

  abbrev fails : ℕ → World → ℕ
  fails now w = count_of now CounterKind.login_fails email w.redis

  abbrev is_refused : {A : Type 0} → Result A → Bool
  is_refused (ok a) = false
  is_refused (err e) = is_auth_error e

  -- The passwords that are looked at; any answer but that of a failed login ends the run.
  abbrev pub passwords_tested : List Guess → World → ℕ
  passwords_tested =
      compared (λ g. g.now) (λ g w. (login_try g w).1) (λ g w. not (leb 5 (fails g.now w)))
        (λ g w. not (is_refused (login_try g w).0))

  login_try-counted :
      (g : Guess) (w : World)
      → not (leb 5 (fails g.now w)) ≡ true
      → not (is_refused (login_try g w).0) ≡ false
      → (login_try g w).1.redis ≡ count_up g.now 900 CounterKind.login_fails email w.redis
  unfolding login_route login create_access_token create_refresh_token
  login_try-counted g w low wrong = ground arith

  login_try-refused :
      (g : Guess) (w : World) → not (leb 5 (fails g.now w)) ≡ false → (login_try g w).1 ≡ w
  unfolding login_route
  login_try-refused g w full = ground arith

  -- With Redis up, of the passwords that are tried for one email within 900 seconds, at most 5 are looked
  -- at until one is right; the counter may have any value before.
  pub passwords_tested-le_five :
      (start : ℕ) (guesses : List Guess) (w : World)
      → All (λ g. (start ≤ g.now) × (g.now ≤ start + 899)) guesses
      → passwords_tested guesses w ≤ 5
  passwords_tested-le_five start guesses w within =
      compared-le_five (λ g. g.now) (λ g v. (login_try g v).1) (λ g v. not (leb 5 (fails g.now v)))
        (λ g v. not (is_refused (login_try g v).0)) fails start (start + 899)
        (λ g v low. ground arith)
        (λ g v t low wrong early late.
          ap (λ r. count_of t CounterKind.login_fails email r) (login_try-counted g v low wrong)
          ∙ count_of-count_up g.now t 900 CounterKind.login_fails email v.redis
              (omega (arith, early, late)))
        login_try-refused guesses w within
