-- ===== src/Marketplace/Cart.antt =====
-- The cart routes of backend/app/api/v1/marketplace.py. The user is none for an anonymous request.
use clutch_d_backend.Base.{
  ℕ, ◌+◌, Bool, not, ◌&&◌, Option, none, some, List, [], ◌∷◌, ◌++◌, ◌==◌, if◌then◌else◌, find?,
  select, update,
}
use clutch_d_backend.Schema.{User, CartItem}
use clutch_d_backend.Session.{
  Action, http, pure, raise, raise_if, query, or_raise, one_or_none, write, new_id, ◌>>=◌, ◌>>◌,
}

-- CartItemCreate
pub record CartItemCreate : Type 0 where
  pub product_id : ℕ
  pub vendor_id : Option ℕ
  pub quantity : ℕ

abbrev pub is_in_cart : ℕ → ℕ → CartItem → Bool
is_in_cart user product i = i.user_id == user && i.product_id == product

abbrev pub is_own_item : ℕ → ℕ → CartItem → Bool
is_own_item item user i = i.id == item && i.user_id == user

abbrev pub set_items : CartItem → List CartItem → List CartItem
set_items i = update (λ r. r.id == i.id) (λ _. i)

abbrev save_item : CartItem → Action (Unit {0})
save_item i = write (λ db. record db { cart_items = set_items i db.cart_items })

abbrev delete_item : CartItem → Action (Unit {0})
delete_item i =
    write (λ db. record db { cart_items = select (λ r. not (r.id == i.id)) db.cart_items })

abbrev pub new_item : ℕ → User → CartItemCreate → CartItem
new_item k user body = record {
  id = k;
  user_id = user.id;
  product_id = body.product_id;
  vendor_id = body.vendor_id;
  quantity = body.quantity;
}

abbrev pub add_or_increment : User → CartItemCreate → Option CartItem → Action CartItem
add_or_increment user body (some i) = do
  let i' = record i { quantity = i.quantity + body.quantity }
  save_item i'
  pure i'
add_or_increment user body none = do
  k ← new_id
  write (λ db. record db { cart_items = db.cart_items ++ new_item k user body ∷ [] })
  pure (new_item k user body)

-- `quantity` has passed Field(ge=1), which answers 422.
unfoldable pub add_cart_item : CartItemCreate → Option User → Action CartItem
add_cart_item body user = do
  raise_if (body.quantity == 0) (http 422)
  u ← or_raise user (http 401)
  existing ← query (λ db. select (is_in_cart u.id body.product_id) db.cart_items)
  existing_item ← one_or_none existing
  add_or_increment u body existing_item

abbrev pub own_item : ℕ → Option User → Action CartItem
own_item item user = do
  u ← or_raise user (http 401)
  found ← query (λ db. find? (is_own_item item u.id) db.cart_items)
  or_raise found (http 404)

-- update_cart_item from the item that was found.
abbrev set_quantity : ℕ → CartItem → Action CartItem
set_quantity quantity i =
    if quantity == 0
    then (delete_item i >> raise (http 204))
    else (do let i' = record i { quantity = quantity }; save_item i'; pure i')

unfoldable pub update_cart_item : ℕ → ℕ → Option User → Action CartItem
update_cart_item item quantity user = own_item item user >>= set_quantity quantity

unfoldable pub remove_cart_item : ℕ → Option User → Action (Unit {0})
remove_cart_item item user = own_item item user >>= delete_item

unfoldable pub clear_cart : Option User → Action (Unit {0})
clear_cart user = do
  u ← or_raise user (http 401)
  write (λ db. record db { cart_items = select (λ r. not (r.user_id == u.id)) db.cart_items })
