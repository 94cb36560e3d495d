-- ===== src/Push/Counted.antt =====
-- What the counts of a batch count, and what a batch does to the tokens.
use clutch_d_backend.Base.{
  none-some, subst, ℕ, suc, ◌+◌, ◌≡◌, refl, sym, ap, inl, inr, Bool, true, false, ◌&&◌, Option,
  none, some, List, [], ◌∷◌, ◌==◌, if◌then◌else◌, arith, length, find?, select, Bool-cases,
  Option-cases, some_inj,
}
use clutch_d_backend.Schema.{Db, DeviceToken, UserSettings}
use clutch_d_backend.Session.{World, Result, ok, query, pure, ◌>>=◌}
use clutch_d_backend.Session.Keeps.{bind-ok}
use clutch_d_backend.Push.Batch.{
  Firebase, Pair, PushOutcome, token_by_id, is_wanted, is_valid_token, deactivate, on_outcome,
  push_to, send_new_offer_push, send_all, valid_pairs, send_new_offer_batch,
}

-- Of the token under this key, that it is not active.
abbrev pub IsOff : ℕ → Db → Type 0
IsOff k db = (t : DeviceToken) → token_by_id k db ≡ some t → t.is_active ≡ false

-- The token of the pair is stored and active, and settings of its user, if stored, want pushes.
abbrev pub IsPushable : Pair → Db → Type 0
IsPushable p db =
    (t : DeviceToken) × (token_by_id p.token db ≡ some t)
    × (t.is_active ≡ true)
    × ((s : UserSettings)
        → find? (λ s. s.user_id == t.user_id) db.settings ≡ some s
        → s.push_notifications ≡ true)

deactivate-IsOff :
    (k j : ℕ) (tokens : List DeviceToken) {t : DeviceToken}
    → ((u : DeviceToken) → find? (λ r. r.id == k) tokens ≡ some u → u.is_active ≡ false)
    → find? (λ r. r.id == k) (deactivate j tokens) ≡ some t
    → t.is_active ≡ false
deactivate-IsOff k j [] off h = absurd (none-some h)
deactivate-IsOff k j (x ∷ tokens) {t = t} off h = elim (Bool-cases (x.id == k)) [
  | inl hit ↦ let was = off x (rw hit refl) in ground (arith, was)
  | inr miss ↦
      let rest = deactivate-IsOff k j tokens {t = t} (λ u e. off u (rw miss e)) in
      ground (arith, rest)
]

module _ (firebase : Firebase) (job : ℕ) where
  -- What one push does: a Boolean answer, a message just if it is true, and no token becomes active.
  abbrev Pushed : World → Result Bool × World → Type 0
  Pushed w r =
      (b : Bool) × (r ≡ (ok b, r.1))
      × (length r.1.sent ≡ (if b then suc (length w.sent) else length w.sent))
      × ((k : ℕ) → IsOff k w.db → IsOff k r.1.db)

  on_outcome-Pushed :
      (o : PushOutcome) (p : Pair) (t : DeviceToken) (w : World) → Pushed w (on_outcome o job p t w)
  on_outcome-Pushed PushOutcome.delivered p t w = (true, refl, refl, λ k off. off)
  on_outcome-Pushed PushOutcome.unavailable p t w = (false, refl, refl, λ k off. off)
  on_outcome-Pushed PushOutcome.failed p t w = (false, refl, refl, λ k off. off)
  on_outcome-Pushed PushOutcome.unregistered p t w =
      (false, refl, refl, λ k off u h. deactivate-IsOff k t.id w.db.device_tokens off h)
  on_outcome-Pushed PushOutcome.sender_mismatch p t w =
      (false, refl, refl, λ k off u h. deactivate-IsOff k t.id w.db.device_tokens off h)
  on_outcome-Pushed PushOutcome.auth_error p t w =
      (false, refl, refl, λ k off u h. deactivate-IsOff k t.id w.db.device_tokens off h)

  push_to-Pushed :
      (p : Pair) (o : Option DeviceToken) (w : World) → Pushed w (push_to firebase job p o w)
  push_to-Pushed p none w = (false, refl, refl, λ k off. off)
  push_to-Pushed p (some t) w = elim (Bool-cases (is_wanted t w.db && firebase.has_messaging)) [
    | inl go ↦ rw go (on_outcome-Pushed (firebase.outcome t.token) p t w)
    | inr skip ↦ rw skip (false, refl, refl, λ k off. off)
  ]

  -- The counts after the loop over `n` pairs from the counts `s` and `f` on, the messages, and the tokens.
  abbrev Counted : (s f n : ℕ) → World → Result (ℕ × ℕ) × World → Type 0
  Counted s f n w (r, after) =
      (s' : ℕ) × (f' : ℕ) × (r ≡ ok (s', f'))
      × (s' + f' ≡ s + f + n)
      × (length after.sent + s ≡ s' + length w.sent)
      × ((k : ℕ) → IsOff k w.db → IsOff k after.db)

  count_one :
      (b : Bool) (s f n : ℕ) (w w' : World) (r : Result (ℕ × ℕ) × World)
      → length w'.sent ≡ (if b then suc (length w.sent) else length w.sent)
      → ((k : ℕ) → IsOff k w.db → IsOff k w'.db)
      → Counted (if b then suc s else s) (if b then f else suc f) n w' r
      → Counted s f (suc n) w r
  count_one true s f n w w' (r, after) counts keeps (s', f', answer, total, pushed, offs) = (
    s',
    f',
    answer,
    omega (arith, total),
    omega (arith, pushed, counts),
    λ k off. offs k (keeps k off),
  )
  count_one false s f n w w' (r, after) counts keeps (s', f', answer, total, pushed, offs) = (
    s',
    f',
    answer,
    omega (arith, total),
    omega (arith, pushed, counts),
    λ k off. offs k (keeps k off),
  )

  send_all-Counted :
      (pairs : List Pair) (s f : ℕ) (w : World)
      → Counted s f (length pairs) w (send_all firebase job pairs s f w)
  unfolding send_all send_new_offer_push
  send_all-Counted [] s f w = (s, f, refl, omega arith, omega arith, λ k off. off)
  send_all-Counted (p ∷ pairs) s f w =
      let (b, e, counts, keeps) = push_to-Pushed p (token_by_id p.token w.db) w in
      let w' = (push_to firebase job p (token_by_id p.token w.db) w).1 in
      let next = λ (sent : Bool).
        send_all firebase job pairs (if sent then suc s else s) (if sent then f else suc f) in
      subst (Counted s f (suc (length pairs)) w)
        (sym (bind-ok (send_new_offer_push firebase job p) next w w' e))
        (count_one b s f (length pairs) w w' (next b w') counts keeps
          (send_all-Counted pairs (if b then suc s else s) (if b then f else suc f) w'))

  wants-all :
      (t : DeviceToken) (db : Db)
      → is_wanted t db ≡ true
      → (s : UserSettings) → find? (λ s. s.user_id == t.user_id) db.settings ≡ some s
      → s.push_notifications ≡ true
  wants-all t db h s found = ground arith

  all-wants :
      (t : DeviceToken) (db : Db)
      → t.is_active ≡ true
      → ((s : UserSettings)
          → find? (λ s. s.user_id == t.user_id) db.settings ≡ some s
          → s.push_notifications ≡ true)
      → is_wanted t db ≡ true
  all-wants t db active h =
      elim (Option-cases (find? (λ (s : UserSettings). s.user_id == t.user_id) db.settings)) [
        | inl unset ↦ ground arith
        | inr (s, found) ↦ let wants = h s found in ground arith
      ]

  valid-IsPushable :
      (p : Pair) (db : Db)
      → (is_valid_token firebase job (token_by_id p.token db) db ≡ true → IsPushable p db)
        × (IsPushable p db → is_valid_token firebase job (token_by_id p.token db) db ≡ true)
  valid-IsPushable p db = elim (Option-cases (token_by_id p.token db)) [
    | inl gone ↦ rw gone (λ h. cc, λ (t, found, active, wants). cc)
    | inr (t, stored) ↦ rw stored (
      λ h. (t, refl, ground arith, wants-all t db h),
      λ (u, found, active, wants).
          subst (λ x. is_wanted x db ≡ true) (sym (some_inj found)) (all-wants u db active wants),
    )
  ]

  batch_there :
      (pairs : List Pair) (w : World)
      → firebase.has_messaging ≡ true
      → send_new_offer_batch firebase job pairs w
        ≡ send_all firebase job (valid_pairs firebase job pairs w.db) 0 0 w
  unfolding send_new_offer_batch
  batch_there pairs w there =
      ap
        (λ b.
          (if b
              then (query (valid_pairs firebase job pairs) >>= λ valid.
                  send_all firebase job valid 0 0)
              else pure (0, length pairs))
            w)
        there

  -- With Firebase there, a batch counts each pair whose token is stored and active and whose user has not
  -- switched pushes off, and no other pair, once, as a success or a failure; it sends as many pushes as it
  -- counts successes, and no token becomes active.
  pub send_new_offer_batch_lem :
      (pairs : List Pair) (w : World)
      → firebase.has_messaging ≡ true
      → let (r, after) = send_new_offer_batch firebase job pairs w in
        (success : ℕ) × (failure : ℕ) × (r ≡ ok (success, failure))
        × ((test : Pair → Bool) × (success + failure ≡ length (select test pairs))
            × ((p : Pair)
                → (test p ≡ true → IsPushable p w.db) × (IsPushable p w.db → test p ≡ true)))
        × (length after.sent ≡ success + length w.sent)
        × ((k : ℕ) → IsOff k w.db → IsOff k after.db)
  send_new_offer_batch_lem pairs w there =
      let valid = valid_pairs firebase job pairs w.db in
      let (success, failure, answer, total, pushed, offs) =
        subst (Counted 0 0 (length valid) w) (sym (batch_there pairs w there))
          (send_all-Counted valid 0 0 w) in
      (
        success,
        failure,
        answer,
        (
          λ p. is_valid_token firebase job (token_by_id p.token w.db) w.db,
          omega (arith, total),
          λ p. valid-IsPushable p w.db,
        ),
        omega (arith, pushed),
        offs,
      )
