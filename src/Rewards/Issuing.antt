-- ===== src/Rewards/Issuing.antt =====
-- A user's code, when it is asked for and when it is asked for again.
use clutch_d_backend.Base.{
  is_some-some, find?-added, none-some, ℕ, suc, ◌≡◌, refl, sym, ap, ◌∙◌, inl, inr, String, false,
  Option, none, some, [], ◌∷◌, ◌++◌, ◌==◌, arith, length, Option-cases, ==_refl,
}
use clutch_d_backend.Schema.{User, ReferralCode}
use clutch_d_backend.Session.{World, Result, ok}
use clutch_d_backend.Rewards.Codes.{has_code, free_code, IsFresh, free_code-some, free_code-free}
use clutch_d_backend.Rewards.Referral.{codes_of, code_of_user, new_code, referral_get_my_code}

module _ (draws : ℕ → String) (user : User) (w : World) where
  -- One round for each code that is stored, and one more.
  abbrev pub rounds : ℕ
  rounds = suc (length (codes_of w.db))

  abbrev pub asking : Result (Option ReferralCode) × World
  asking = referral_get_my_code rounds draws user w

  -- What the user has after it.
  abbrev pub HasCode : ReferralCode → Type 0
  HasCode row =
      (asking.0 ≡ ok (some row))
      × (code_of_user user.id asking.1.db ≡ some row)
      × (code_of_user user.id w.db ≡ none → has_code row.code (codes_of w.db) ≡ false)
      × ((fuel : ℕ) (later : ℕ → String)
          → referral_get_my_code fuel later user asking.1 ≡ (ok (some row), asking.1))

  asks_new :
      (code : String)
      → code_of_user user.id w.db ≡ none
      → free_code draws (codes_of w.db) rounds 0 ≡ some code
      → let row = new_code w.next_id user.id code in
        asking ≡ (
          ok (some row),
          record w {
            db = record w.db { referral_codes = w.db.referral_codes ++ row ∷ [] };
            next_id = suc w.next_id;
          },
        )
  unfolding referral_get_my_code
  asks_new code absent found = rw absent (rw found refl)

  asks_again :
      (fuel : ℕ) (later : ℕ → String) (v : World) (row : ReferralCode)
      → code_of_user user.id v.db ≡ some row
      → referral_get_my_code fuel later user v ≡ (ok (some row), v)
  unfolding referral_get_my_code
  asks_again fuel later v row stored = rw stored refl

  asked_once :
      (row : ReferralCode)
      → asking.0 ≡ ok (some row)
      → code_of_user user.id asking.1.db ≡ some row
      → (code_of_user user.id w.db ≡ none → has_code row.code (codes_of w.db) ≡ false)
      → HasCode row
  asked_once row r stored free =
      (r, stored, free, λ fuel later. asks_again fuel later asking.1 row stored)

  -- If as many draws as there are codes and one more are pairwise different, the loop ends, and the user
  -- gets a code; one that is new is nobody's yet. It is the user's code then, and asking again, with any
  -- draws, gets the same one and changes nothing.
  pub referral_get_my_code_lem : IsFresh draws rounds → (row : ReferralCode) × HasCode row
  referral_get_my_code_lem fresh = elim (Option-cases (code_of_user user.id w.db)) [
    | inl absent ↦
        let (code, found) = is_some-some (free_code draws (codes_of w.db) rounds 0) (
          free_code-some draws rounds rounds 0 (codes_of w.db) fresh (omega arith) (omega arith)) in
        let row = new_code w.next_id user.id code in
        let stored =
          find?-added (λ r. r.user_id == user.id) w.db.referral_codes row absent
            (==_refl user.id) in
        let e = asks_new code absent found in
        (
          row,
          asked_once row (ap (λ (r : Result (Option ReferralCode) × World). r.0) e)
              (ap (λ (r : Result (Option ReferralCode) × World). code_of_user user.id r.1.db) e
                ∙ stored)
              (λ _. free_code-free draws (codes_of w.db) rounds 0 found),
        )
    | inr (row, stored) ↦
        let e = asks_again rounds draws w row stored in
        (
          row,
          asked_once row (ap (λ (r : Result (Option ReferralCode) × World). r.0) e)
              (ap (λ (r : Result (Option ReferralCode) × World). code_of_user user.id r.1.db) e
                ∙ stored)
              (λ absent. absurd (none-some (sym absent ∙ stored))),
        )
  ]
