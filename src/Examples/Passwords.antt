-- ===== src/Examples/Passwords.antt =====
-- The theorems on passwords at concrete inputs.
use clutch_d_backend.Base.{ℕ, some, ◌≤◌, ◌≡◌, refl, str_eq, List, [], ◌∷◌, arith}
use clutch_d_backend.Session.{World, err, http}
use clutch_d_backend.Redis.{count_of, code_of}
use clutch_d_backend.Auth.Login.{Passwords}
use clutch_d_backend.Auth.Guesses.{Guess, passwords_tested, passwords_tested-le_five}
use clutch_d_backend.Auth.Locked.{
  ResetGuess, IsDuring, misses, mailed, reset_try, reset_tries, wrong_codes_lem,
}
use clutch_d_backend.Examples.Samples.{world}
use clutch_d_backend.Examples.Access.{jwt_of, settings, access}

abbrev passwords : Passwords
passwords = record {
  hash = λ s. s;
  verify = λ plain hashed. str_eq plain hashed;
  lower = λ s. s;
  strip = λ s. s;
}

abbrev guesses : List Guess
guesses = record { now = 1000000; guess = "a" } ∷ record { now = 1000800; guess = "hash" } ∷ []

passwords_tested-le_five_example :
    passwords_tested (jwt_of access) settings passwords "" guesses world ≤ 5
passwords_tested-le_five_example =
    passwords_tested-le_five (jwt_of access) settings passwords "" 1000000 guesses world
      ((omega arith, omega arith), ((omega arith, omega arith), tt))

-- The world with a code mailed until 1000600.
abbrev mailed_world : World
mailed_world = record world {
  redis = record world.redis { codes = record { email = ""; code = "right"; ends = 1000600 } ∷ [] };
}

abbrev wrong_at : ℕ → ResetGuess
wrong_at t = record { now = t; code = "wrong"; password = "new" }

abbrev wrong_codes : List ResetGuess
wrong_codes =
    wrong_at 1000000
    ∷ wrong_at 1000001
    ∷ wrong_at 1000002
    ∷ wrong_at 1000003
    ∷ wrong_at 1000004
    ∷ []

abbrev right_code : ResetGuess
right_code = record { now = 1000599; code = "right"; password = "new" }

none_missed :
    (t : ℕ)
    → IsDuring 1000000 1000599 t
    → misses (jwt_of access) settings passwords "" t mailed_world ≡ 0
unfolding count_of
none_missed t during = refl

code_lives :
    (t : ℕ)
    → IsDuring 1000000 1000599 t
    → mailed (jwt_of access) settings passwords "" t mailed_world ≡ some "right"
unfolding code_of
code_lives t during = ground (arith, during)

wrong_codes_lem_example :
    let after = reset_tries (jwt_of access) settings passwords "" wrong_codes mailed_world in
    (after.db ≡ world.db)
    × (reset_try (jwt_of access) settings passwords "" right_code after ≡ (err (http 429), after))
wrong_codes_lem_example =
    wrong_codes_lem (jwt_of access) settings passwords "" 1000000 1000599 "right" wrong_codes
      right_code mailed_world (omega arith) none_missed code_lives
      (
        ((omega arith, omega arith), refl),
        (
          ((omega arith, omega arith), refl),
          (
            ((omega arith, omega arith), refl),
            (((omega arith, omega arith), refl), (((omega arith, omega arith), refl), tt)),
          ),
        ),
      )
      (omega arith) (omega arith, omega arith)
