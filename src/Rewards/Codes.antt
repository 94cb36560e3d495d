-- ===== src/Rewards/Codes.antt =====
-- The loop that draws codes until one is free, which the referral codes and the cards share.
use clutch_d_backend.Base.{
  ℕ, zero, suc, ◌+◌, ◌≤◌, ◌<◌, ◌≡◌, refl, sym, ap, ◌∙◌, inl, inr, String, Bool, true, false, not,
  Option, none, some, List, [], ◌∷◌, str_eq, eq_iff, if◌then◌else◌, arith, exists, select, length,
  is_some, some_inj, Bool-cases,
}

abbrev pub has_code : String → List String → Bool
has_code code = exists (λ c. str_eq c code)

-- `while True: if existing is None: break; code = generate()`: at most `fuel` codes are drawn, from the
-- `n`-th on.
unfoldable pub free_code : (ℕ → String) → List String → (fuel n : ℕ) → Option String
free_code draws codes zero n = none
free_code draws codes (suc fuel) n =
    let rest = free_code draws codes fuel (suc n) in
    if has_code (draws n) codes then rest else some (draws n)

-- The draws before the `bound`-th are pairwise different.
abbrev pub IsFresh : (ℕ → String) → ℕ → Type 0
IsFresh draws bound = (i j : ℕ) → i < j → j < bound → str_eq (draws i) (draws j) ≡ false

abbrev codes_without : String → List String → List String
codes_without code = select (λ c. not (str_eq c code))

length-without_le :
    (code : String) (codes : List String) → length (codes_without code codes) ≤ length codes
length-without_le code [] = omega arith
length-without_le code (c ∷ codes) = ground (arith, length-without_le code codes)

length-without :
    (code : String) (codes : List String)
    → has_code code codes ≡ true
    → length (codes_without code codes) < length codes
length-without code [] h = ground arith
length-without code (c ∷ codes) h =
    ground (arith, length-without code codes, length-without_le code codes)

-- Taking one code away leaves the others.
has_code-without :
    (code other : String) (codes : List String)
    → str_eq code other ≡ false
    → has_code other (codes_without code codes) ≡ has_code other codes
has_code-without code other [] ne = refl
has_code-without code other (c ∷ codes) ne = elim (Bool-cases (str_eq c code)) [
  | inl same ↦
      let e : str_eq c other ≡ false = ap (λ s. str_eq s other) ((eq_iff c code).0 same) ∙ ne in
      ground (arith, has_code-without code other codes ne)
  | inr miss ↦ ground (arith, has_code-without code other codes ne)
]

-- Two lists that agree on the draws.
free_code-within :
    (draws : ℕ → String) (codes codes' : List String) (fuel n : ℕ)
    → ((m : ℕ) → n ≤ m → m < n + fuel → has_code (draws m) codes ≡ has_code (draws m) codes')
    → free_code draws codes fuel n ≡ free_code draws codes' fuel n
unfolding free_code
free_code-within draws codes codes' zero n same = refl
free_code-within draws codes codes' (suc fuel) n same =
    let rest =
      free_code-within draws codes codes' fuel (suc n)
        (λ m le lt. same m (omega (arith, le)) (omega (arith, lt))) in
    let now = same n (omega arith) (omega arith) in
    ap (λ b. if b then free_code draws codes fuel (suc n) else some (draws n)) now
    ∙ ap (λ o. if has_code (draws n) codes' then o else some (draws n)) rest

-- More rounds than there are codes are enough.
pub free_code-some :
    (draws : ℕ → String) (bound fuel n : ℕ) (codes : List String)
    → IsFresh draws bound
    → n + fuel ≤ bound
    → length codes < fuel
    → is_some (free_code draws codes fuel n) ≡ true
unfolding free_code
free_code-some draws bound zero n codes fresh room enough = absurd (omega (arith, enough))
free_code-some draws bound (suc fuel) n codes fresh room enough =
    elim (Bool-cases (has_code (draws n) codes)) [
      | inl taken ↦
          let fewer = length-without (draws n) codes taken in
          let codes' = codes_without (draws n) codes in
          let rest =
            free_code-some draws bound fuel (suc n) codes' fresh (omega (arith, room))
              (omega (arith, fewer, enough)) in
          let same = free_code-within draws codes codes' fuel (suc n) (λ m le lt. sym (
            has_code-without (draws n) (draws m) codes
              (fresh n m (omega (arith, le)) (omega (arith, lt, room))))) in
          rw taken (ap is_some same ∙ rest)
      | inr free ↦ rw free refl
    ]

-- The code that is found is free.
pub free_code-free :
    (draws : ℕ → String) (codes : List String) (fuel n : ℕ) {code : String}
    → free_code draws codes fuel n ≡ some code
    → has_code code codes ≡ false
unfolding free_code
free_code-free draws codes zero n h = cc
free_code-free draws codes (suc fuel) n {code} h = elim (Bool-cases (has_code (draws n) codes)) [
  | inl taken ↦ free_code-free draws codes fuel (suc n) (sym (rw taken refl) ∙ h)
  | inr free ↦
      let e : draws n ≡ code = some_inj (sym (rw free refl) ∙ h) in
      ap (λ c. has_code c codes) (sym e) ∙ free
]
