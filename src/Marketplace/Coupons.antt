-- ===== src/Marketplace/Coupons.antt =====
-- validate_offer of backend/app/api/v1/marketplace.py. The columns have two decimals and are counted in
-- hundredths; the amount of the request has as many decimals as it comes with. Arithmetic is exact, as
-- Python's decimals are up to 28 digits: above, it would round or raise.
use native.Mathlib.Nat
use clutch_d_backend.Base.{
  ℕ, zero, suc, subst, ◌+◌, ◌*◌, ◌/◌, ◌%◌, ◌≤◌, ◌<◌, ◌≡◌, refl, inl, inr, String, Bool, true, false,
  ◌&&◌, Option, none, some, ◌==◌, str_eq, if◌then◌else◌, ltb, arith, find?, find?-All, find?-holds,
  All, Option-cases, Bool-cases, &&_left, &&_right,
}
use clutch_d_backend.Schema.{Db, Coupon}

-- The three messages.
pub data CouponMessage : Type 0 where
  invalid applied : CouponMessage
  minimum : ℕ → CouponMessage

-- OfferValidateResponse
pub record CouponReply : Type 0 where
  pub valid : Bool
  pub code : String
  pub discount : ℕ
  pub message : CouponMessage

-- OfferValidateRequest.purchaseAmount: `units` of 10 to the power of minus `places`.
pub record Amount : Type 0 where
  pub units : ℕ
  pub places : ℕ

abbrev power_of_ten : ℕ → ℕ
power_of_ten zero = 1
power_of_ten (suc n) = 10 * power_of_ten n

-- The denominator of the amount, and its numerator in hundredths.
abbrev pub scale : Amount → ℕ
scale a = power_of_ten a.places

abbrev pub hundredths : Amount → ℕ
hundredths a = 100 * a.units

-- `quantize(Decimal("0.01"))` of n / d hundredths: to the nearest, and to the even one of two.
unfoldable pub round_half_even : (n d : ℕ) → ℕ
round_half_even n d =
    let q = n / d in
    let r = n % d in
    if ltb (2 * r) d then q else if ltb d (2 * r) then q + 1 else if q % 2 == 0 then q else q + 1

-- `min(discount_amount, purchaseAmount)`, or the percentage.
unfoldable pub discount_of : Coupon → Amount → ℕ
unfolding round_half_even
discount_of offer amount =
    if ltb 0 offer.discount_amount
    then (if ltb (hundredths amount) (offer.discount_amount * scale amount)
        then round_half_even (hundredths amount) (scale amount)
        else offer.discount_amount)
    else round_half_even (amount.units * offer.discount_percent) (scale amount)

abbrev reply_to : String → Amount → Option Coupon → CouponReply
reply_to code amount none = record {
  valid = false;
  code = code;
  discount = 0;
  message = CouponMessage.invalid;
}
reply_to code amount (some offer) =
    if ltb (hundredths amount) (offer.min_purchase * scale amount)
    then (record {
      valid = false;
      code = offer.code;
      discount = 0;
      message = CouponMessage.minimum offer.min_purchase;
    })
    else (record {
      valid = true;
      code = offer.code;
      discount = discount_of offer amount;
      message = CouponMessage.applied;
    })

-- `normal` is `code.upper().strip()`.
module _ (normal : String → String) where
  abbrev pub coupon_by_code : String → Db → Option Coupon
  coupon_by_code code db = find? (λ c. str_eq c.code (normal code) && c.active) db.coupons

  unfoldable pub validate_offer : (code : String) (amount : Amount) → Db → CouponReply
  unfolding discount_of
  validate_offer code amount db = reply_to code amount (coupon_by_code code db)

scale-pos : (n : ℕ) → 0 < power_of_ten n
scale-pos zero = omega arith
scale-pos (suc n) = omega (arith, scale-pos n)

-- As near to n / d as a whole number gets.
abbrev pub IsNearest : (r n d : ℕ) → Type 0
IsNearest r n d = (2 * (r * d) ≤ 2 * n + d) × (2 * n ≤ 2 * (r * d) + d)

round_half_even-IsNearest : (n d : ℕ) → 0 < d → IsNearest (round_half_even n d) n d
unfolding round_half_even
round_half_even-IsNearest n d pos =
    let whole : n / d * d + n % d ≡ n = Nat.div-add-mod' n d in
    let less : n % d < d = Nat.mod-lt n pos in
    let more : (n / d + 1) * d ≡ n / d * d + d = omega (arith, Nat.add-mul (n / d) 1 d) in
    ground (arith, whole, less, more)

share-le : (a percent : ℕ) → percent ≤ 100 → a * percent ≤ 100 * a
share-le a percent h = grind arith

discount_of-le :
    (offer : Coupon) (amount : Amount)
    → offer.discount_percent ≤ 100
    → 2 * (discount_of offer amount * scale amount) ≤ 2 * hundredths amount + scale amount
unfolding discount_of
discount_of-le offer amount h =
    let fixed =
      round_half_even-IsNearest (hundredths amount) (scale amount) (scale-pos amount.places) in
    let share =
      round_half_even-IsNearest (amount.units * offer.discount_percent) (scale amount)
        (scale-pos amount.places) in
    ground (arith, fixed, share, share-le amount.units offer.discount_percent h)

-- A fixed discount is the fixed amount if the purchase reaches it, and else the purchase; any other is
-- the percentage. Both are rounded to the nearest hundredth.
abbrev pub IsDiscount : Coupon → Amount → (discount : ℕ) → Type 0
IsDiscount c amount d =
    (0 < c.discount_amount
      → c.discount_amount * scale amount ≤ hundredths amount
      → d ≡ c.discount_amount)
    × (0 < c.discount_amount
        → hundredths amount < c.discount_amount * scale amount
        → IsNearest d (hundredths amount) (scale amount))
    × (c.discount_amount ≡ 0 → IsNearest d (amount.units * c.discount_percent) (scale amount))

discount_of-IsDiscount : (c : Coupon) (amount : Amount) → IsDiscount c amount (discount_of c amount)
unfolding discount_of
discount_of-IsDiscount c amount =
    let fixed =
      round_half_even-IsNearest (hundredths amount) (scale amount) (scale-pos amount.places) in
    let share =
      round_half_even-IsNearest (amount.units * c.discount_percent) (scale amount)
        (scale-pos amount.places) in
    (
      λ is_fixed reached. ground arith,
      λ is_fixed above. ground (arith, fixed),
      λ none_fixed. ground (arith, share),
    )

exact_le :
    (d : ℕ) (amount : Amount)
    → scale amount ≡ 100
    → 2 * (d * scale amount) ≤ 2 * hundredths amount + scale amount
    → d ≤ amount.units
exact_le d amount two h =
    let bound = subst (λ s. 2 * (d * s) ≤ 2 * hundredths amount + s) two h in omega (arith, bound)

module _ (normal : String → String) (code : String) (amount : Amount) (db : Db) where
  -- Where no coupon gives more than 100 percent: a discount exceeds the purchase by half a hundredth
  -- at most, so not at all if the purchase has two decimals. A coupon that is refused gives none; one that
  -- is granted is stored and active, under the code as it is normalized, the purchase reaches its minimum,
  -- and its discount is the fixed amount where the purchase reaches that too, and else the purchase, or
  -- without a fixed amount the percentage, to the nearest hundredth.
  pub validate_offer_lem :
      All (λ c. c.discount_percent ≤ 100) db.coupons
      → let r = validate_offer normal code amount db in
        (2 * (r.discount * scale amount) ≤ 2 * hundredths amount + scale amount)
        × (scale amount ≡ 100 → r.discount ≤ amount.units)
        × (r.valid ≡ false → r.discount ≡ 0)
        × (r.valid ≡ true
            → (c : Coupon) × (coupon_by_code normal code db ≡ some c)
              × (str_eq c.code (normal code) ≡ true)
              × (c.active ≡ true)
              × (c.min_purchase * scale amount ≤ hundredths amount)
              × IsDiscount c amount r.discount)
  unfolding validate_offer
  validate_offer_lem sane = elim (Option-cases (coupon_by_code normal code db)) [
    | inl unknown ↦ rw unknown (omega arith, λ two. omega arith, λ h. refl, λ h. cc)
    | inr (c, found) ↦
        let within = find?-All (λ c. c.discount_percent ≤ 100) _ db.coupons found sane in
        let holds = find?-holds (λ c. str_eq c.code (normal code) && c.active) db.coupons found in
        elim (Bool-cases (ltb (hundredths amount) (c.min_purchase * scale amount))) [
          | inl less ↦ rw found (rw less (omega arith, λ two. omega arith, λ h. refl, λ h. cc))
          | inr enough ↦ rw found (
              rw enough (
                discount_of-le c amount within,
                λ two. exact_le (discount_of c amount) amount two (discount_of-le c amount within),
                λ h. cc,
                λ h. (
                  c,
                  refl,
                  &&_left (str_eq c.code (normal code)) c.active holds,
                  &&_right (str_eq c.code (normal code)) c.active holds,
                  ground arith,
                  discount_of-IsDiscount c amount,
                ),
              ))
        ]
  ]
