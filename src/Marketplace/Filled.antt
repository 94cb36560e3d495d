-- ===== src/Marketplace/Filled.antt =====
-- What the cart routes leave in the cart.
use clutch_d_backend.Base.{
  ℕ, ◌+◌, ◌≡◌, ◌≢◌, refl, sym, ap, ◌∙◌, ◌⊎◌, inl, inr, Bool, true, false, not, Option, none, some,
  List, [], ◌∷◌, ◌++◌, ◌==◌, ◌≤◌, length, arith, find?, select, find?-overwritten, find?-holds,
  ==_refl,
}
use clutch_d_backend.Schema.{Db, User, CartItem}
use clutch_d_backend.Session.{World, Result, ok, in_session}
use clutch_d_backend.Marketplace.Cart.{
  CartItemCreate, is_in_cart, set_items, new_item, add_cart_item, update_cart_item, clear_cart,
}

-- How much of a product the cart of a user shows.
abbrev shown : Option CartItem → ℕ
shown none = 0
shown (some i) = i.quantity

abbrev pub quantity_of : ℕ → ℕ → List CartItem → ℕ
quantity_of user product items = shown (find? (is_in_cart user product) items)

-- Setting a quantity to 0 never removes the item: whoever asks, for whichever item, no table is
-- changed by the request, and it never succeeds.
pub update_cart_item-zero :
    (item : ℕ) (user : Option User) (w : World)
    → let (r, after) = in_session (update_cart_item item 0 user) w in
      (after.db ≡ w.db) × ((i : CartItem) → r ≢ ok i)
unfolding update_cart_item in_session
update_cart_item-zero item user w = ground arith

select-one-find :
    {A : Type 0} (p : A → Bool) (xs : List A) {x : A} → select p xs ≡ x ∷ [] → find? p xs ≡ some x
select-one-find p [] h = cc
select-one-find p (y ∷ ys) {x = x} h = ground (arith, select-one-find p ys {x = x})

select-none-find : {A : Type 0} (p : A → Bool) (xs : List A) → select p xs ≡ [] → find? p xs ≡ none
select-none-find p [] h = refl
select-none-find p (y ∷ ys) h = ground (arith, select-none-find p ys)

find?-appended :
    {A : Type 0} (p : A → Bool) (xs : List A) (x : A)
    → select p xs ≡ []
    → p x ≡ true
    → find? p (xs ++ x ∷ []) ≡ some x
find?-appended p [] x none_found hit = ground arith
find?-appended p (y ∷ ys) x none_found hit = ground (arith, find?-appended p ys x)

one_row : {A : Type 0} (xs : List A) → length xs ≤ 1 → (xs ≡ []) ⊎ ((x : A) × (xs ≡ x ∷ []))
one_row [] h = inl refl
one_row (x ∷ []) h = inr (x, refl)
one_row (x ∷ y ∷ ys) h = absurd (omega (arith, h))

-- The rows that clear_cart leaves.
abbrev others : ℕ → List CartItem → List CartItem
others user = select (λ r. not (r.user_id == user))

cleared :
    (user product : ℕ) (items : List CartItem)
    → find? (is_in_cart user product) (others user items) ≡ none
cleared user product [] = refl
cleared user product (i ∷ items) = ground (arith, cleared user product items)

kept :
    (other user product : ℕ) (items : List CartItem)
    → other ≢ user
    → find? (is_in_cart other product) (others user items) ≡ find? (is_in_cart other product) items
kept other user product [] ne = refl
kept other user product (i ∷ items) ne = ground (arith, kept other user product items ne)

module _ (body : CartItemCreate) (u : User) (w : World) where
  abbrev pub adding : Result CartItem × World
  adding = in_session (add_cart_item body (some u)) w

  abbrev pub AddedTo : Db → Result CartItem → Type 0
  AddedTo after r =
      (i : CartItem) × (r ≡ ok i)
      × (find? (is_in_cart u.id body.product_id) after.cart_items ≡ some i)
      × (i.quantity ≡ quantity_of u.id body.product_id w.db.cart_items + body.quantity)

  incremented :
      (i : CartItem)
      → (body.quantity == 0) ≡ false
      → select (is_in_cart u.id body.product_id) w.db.cart_items ≡ i ∷ []
      → let i' = record i { quantity = i.quantity + body.quantity } in
        (adding.0 ≡ ok i') × (adding.1.db.cart_items ≡ set_items i' w.db.cart_items)
  unfolding add_cart_item in_session
  incremented i some_of only = (ground arith, ground arith)

  appended :
      (body.quantity == 0) ≡ false
      → select (is_in_cart u.id body.product_id) w.db.cart_items ≡ []
      → (adding.0 ≡ ok (new_item w.next_id u body))
        × (adding.1.db.cart_items ≡ w.db.cart_items ++ new_item w.next_id u body ∷ [])
  unfolding add_cart_item in_session
  appended some_of none_yet = (ground arith, ground arith)

  -- Adding a product, in a quantity of at least 1 and to a cart with at most one row of it, succeeds,
  -- and the cart then shows the quantity that it showed before plus the one added.
  pub add_cart_item_lem :
      (body.quantity == 0) ≡ false
      → length (select (is_in_cart u.id body.product_id) w.db.cart_items) ≤ 1
      → AddedTo adding.1.db adding.0
  add_cart_item_lem some_of few =
      elim (one_row (select (is_in_cart u.id body.product_id) w.db.cart_items) few) [
        | inl none_yet ↦
            let (r, rows) = appended some_of none_yet in
            let i = new_item w.next_id u body in
            let gone =
              select-none-find (is_in_cart u.id body.product_id) w.db.cart_items none_yet in
            let found =
              find?-appended (is_in_cart u.id body.product_id) w.db.cart_items i none_yet
                (ground arith) in
            (
              i,
              r,
              ap (find? (is_in_cart u.id body.product_id)) rows ∙ found,
              let e = ap (λ o. shown o + body.quantity) (sym gone) in omega (arith, e),
            )
        | inr (i, only) ↦
            let (r, rows) = incremented i some_of only in
            let i' = record i { quantity = i.quantity + body.quantity } in
            let was = select-one-find (is_in_cart u.id body.product_id) w.db.cart_items only in
            let hit = find?-holds (is_in_cart u.id body.product_id) w.db.cart_items was in
            (
              i',
              r,
              ap (find? (is_in_cart u.id body.product_id)) rows
                  ∙ find?-overwritten (is_in_cart u.id body.product_id) (λ r. r.id == i.id) i'
                      w.db.cart_items was (==_refl i.id) hit,
              ap (λ o. shown o + body.quantity) (sym was),
            )
      ]

module _ (user : User) (w : World) where
  abbrev pub clearing : Result (Unit {0}) × World
  clearing = in_session (clear_cart (some user)) w

  -- Clearing succeeds; the user's cart shows nothing then, and any other user's cart shows what it did.
  pub clear_cart_lem :
      (clearing.0 ≡ ok tt)
      × ((product : ℕ) → find? (is_in_cart user.id product) clearing.1.db.cart_items ≡ none)
      × ((other product : ℕ)
          → other ≢ user.id
          → find? (is_in_cart other product) clearing.1.db.cart_items
            ≡ find? (is_in_cart other product) w.db.cart_items)
  unfolding clear_cart in_session
  clear_cart_lem = (
    refl,
    λ product. cleared user.id product w.db.cart_items,
    λ other product ne. kept other user.id product w.db.cart_items ne,
  )
