-- ===== src/Auth/Locked.antt =====
-- Guessing the code of a forgotten password against the counter of wrong codes.
use clutch_d_backend.Base.{
  refl, sym, str_eq, subst, length, some, ℕ, suc, ◌+◌, ◌≤◌, ◌<◌, ◌≡◌, ap, ◌∙◌, inl, inr, String,
  true, false, Option, List, [], ◌∷◌, arith, leb, All, Bool-cases,
}
use clutch_d_backend.Redis.{CounterKind, count_of, count_up, code_of, delete_code}
use clutch_d_backend.Session.{World, Result, err, http}
use clutch_d_backend.Auth.Tokens.{Jwt, AuthSettings}
use clutch_d_backend.Auth.Calls.{at}
use clutch_d_backend.Auth.Login.{Passwords, is_code, forgot_password_reset}
use clutch_d_backend.Auth.Guesses.{count_of-count_up}

-- A guess at a code at a time, with the new password that it asks for.
pub record ResetGuess : Type 0 where
  pub now : ℕ
  pub code : String
  pub password : String

not_code : (secret code : String) → str_eq secret code ≡ false → is_code code (some secret) ≡ false
not_code secret code wrong = ground arith

abbrev pub IsDuring : (start until : ℕ) → ℕ → Type 0
IsDuring start until t = (start ≤ t) × (t ≤ until)

-- A guess in this time that is not the code.
abbrev pub IsMiss : (start until : ℕ) → (secret : String) → ResetGuess → Type 0
IsMiss start until secret g = IsDuring start until g.now × (str_eq secret g.code ≡ false)

module _ (jwt : Jwt) (settings : AuthSettings) (passwords : Passwords) (address : String) where
  abbrev pub reset_try : ResetGuess → World → Result (Unit {0}) × World
  reset_try g w =
      forgot_password_reset (at jwt settings g.now true) passwords address g.code g.password w

  -- One guess after the other.
  abbrev pub reset_tries : List ResetGuess → World → World
  reset_tries [] w = w
  reset_tries (g ∷ gs) w = reset_tries gs (reset_try g w).1

  abbrev pub misses : ℕ → World → ℕ
  misses now w = count_of now CounterKind.reset_attempts (passwords.lower address) w.redis

  abbrev pub mailed : ℕ → World → Option String
  mailed now w = code_of now (passwords.lower address) w.redis

  refused : (g : ResetGuess) (w : World) → 5 ≤ misses g.now w → reset_try g w ≡ (err (http 429), w)
  unfolding forgot_password_reset
  refused g w full = ground arith

  missed :
      (g : ResetGuess) (w : World) {secret : String} (t : ℕ)
      → misses g.now w < 5
      → mailed g.now w ≡ some secret
      → is_code g.code (some secret) ≡ false
      → ((reset_try g w).1.db ≡ w.db)
        × (misses t (reset_try g w).1
            ≡ count_of t CounterKind.reset_attempts
                (passwords.lower address)
                (count_up g.now 3600 CounterKind.reset_attempts (passwords.lower address) w.redis))
        × (misses g.now w < 4 → mailed t (reset_try g w).1 ≡ mailed t w)
  unfolding forgot_password_reset delete_code count_of count_up code_of
  missed g w t low stored wrong = (ground arith, ground arith, λ few. ground arith)

  module _ (start until : ℕ) (secret : String) (hour : until ≤ start + 3599) where
    -- After `k` misses.
    abbrev Counted : ℕ → World → Type 0
    Counted k w =
        ((t : ℕ) → IsDuring start until t → misses t w ≡ k)
        × (k < 5 → (t : ℕ) → IsDuring start until t → mailed t w ≡ some secret)

    missed-Counted :
        (g : ResetGuess) (w : World) (k : ℕ)
        → IsMiss start until secret g
        → k < 5
        → Counted k w
        → ((reset_try g w).1.db ≡ w.db) × Counted (suc k) (reset_try g w).1
    missed-Counted g w k (during, wrong) low (counts, codes) =
        let now = counts g.now during in
        let step = λ (t : ℕ).
          missed g w t (omega (arith, now, low)) (codes low g.now during)
            (not_code secret g.code wrong) in
        (
          (step start).0,
          (
            (λ t within.
                (step t).1
                ∙ count_of-count_up g.now t 3600 CounterKind.reset_attempts
                    (passwords.lower address) w.redis (omega (arith, during, within, hour))
                ∙ ap suc now),
            λ more t within. (step t).2 (omega (arith, now, more)) ∙ codes low t within,
          ),
        )

    tries-Counted :
        (gs : List ResetGuess) (w : World) (k : ℕ)
        → All (IsMiss start until secret) gs
        → k ≤ 5
        → 5 ≤ k + length gs
        → Counted k w
        → ((reset_tries gs w).db ≡ w.db) × Counted 5 (reset_tries gs w)
    tries-Counted [] w k h low enough counted =
        (refl, subst (λ n. Counted n w) (omega (arith, low, enough)) counted)
    tries-Counted (g ∷ gs) w k (miss, rest) low enough counted = elim (Bool-cases (leb 5 k)) [
      | inl full ↦
          let five : 5 ≤ k = ground arith in
          let same : (reset_try g w).1 ≡ w =
            ap (λ r. r.1) (refused g w (omega (arith, counted.0 g.now miss.0, five))) in
          let (db, after) =
            tries-Counted gs (reset_try g w).1 k rest low (omega (arith, five))
              (subst (Counted k) (sym same) counted) in
          (db ∙ ap World.db same, after)
      | inr few ↦
          let less : k < 5 = ground arith in
          let (db, next) = missed-Counted g w k miss less counted in
          let (dbs, after) =
            tries-Counted gs (reset_try g w).1 (suc k) rest (omega (arith, less))
              (omega (arith, enough)) next in
          (dbs ∙ db, after)
    ]

  -- With Redis up, no wrong code counted, and a code mailed that lives and is not asked for anew, during
  -- at most an hour: five or more guesses that are not the code change no table, and then every guess is
  -- refused with a 429, also the right code, and changes nothing at all.
  pub wrong_codes_lem :
      (start until : ℕ) (secret : String) (wrong : List ResetGuess) (g : ResetGuess) (w : World)
      → until ≤ start + 3599
      → ((t : ℕ) → IsDuring start until t → misses t w ≡ 0)
      → ((t : ℕ) → IsDuring start until t → mailed t w ≡ some secret)
      → All (IsMiss start until secret) wrong
      → 5 ≤ length wrong
      → IsDuring start until g.now
      → let after = reset_tries wrong w in
        (after.db ≡ w.db) × (reset_try g after ≡ (err (http 429), after))
  wrong_codes_lem start until secret wrong g w hour none_counted lives misses_all five during =
      let (db, full) =
        tries-Counted start until secret hour wrong w 0 misses_all (omega arith)
          (omega (arith, five)) (none_counted, λ _. lives) in
      (db, refused g (reset_tries wrong w) (omega (arith, full.0 g.now during)))
