-- ===== src/Marketplace/Orders.antt =====
-- The orders of backend/app/api/v1/marketplace.py. Prices are in hundredths; they and the quantities of
-- an order are whatever the client sends, also negative.
use clutch_d_backend.Base.{
  ℕ, String, Bool, true, false, not, ◌&&◌, ◌||◌, Option, none, some, List, [], ◌∷◌, ◌++◌, ◌==◌,
  str_eq, ltb, exists, select, map, sort, take, drop, ℤ, pos, ◌+ℤ◌, ◌*ℤ◌,
}
use clutch_d_backend.Schema.{Db, User, Product, Order, OrderItem}
use clutch_d_backend.Session.{Action, http, raise_if, query, write, new_id, pure, ◌>>=◌, ◌>>◌}
use clutch_d_backend.Env.{Env}
use clutch_d_backend.Auth.Access.{require_roles}
use clutch_d_backend.Marketplace.Products.{Texts, as_seller, seller_display_name}

-- OrderItemData
pub record OrderItemData : Type 0 where
  pub product_id : Option ℕ
  pub name : Option String
  pub quantity : ℤ
  pub price : ℤ

-- OrderCreate
pub record OrderCreate : Type 0 where
  pub items : List OrderItemData
  pub address : Option String
  pub payment : Option String

-- OrderResponse
pub record OrderResponse : Type 0 where
  pub id : ℕ
  pub user_id : ℕ
  pub total : ℤ
  pub status : String
  pub address : Option String
  pub payment : Option String
  pub items : List OrderItemData
  pub created_at : ℕ

abbrev pub total_of : List OrderItemData → ℤ
total_of [] = pos 0
total_of (i ∷ items) = i.price *ℤ i.quantity +ℤ total_of items

abbrev pub is_empty {ℓ} : {A : Type ℓ} → List A → Bool
is_empty [] = true
is_empty (x ∷ xs) = false

abbrev pub item_data : OrderItem → OrderItemData
item_data i = record {
  product_id = i.product_id;
  name = i.name;
  quantity = i.quantity;
  price = i.price;
}

abbrev pub items_of : ℕ → Db → List OrderItem
items_of order db = select (λ (i : OrderItem). i.order_id == order) db.order_items

abbrev pub response_with : Order → ℤ → List OrderItem → OrderResponse
response_with o total items = record {
  id = o.id;
  user_id = o.user_id;
  total = total;
  status = o.status;
  address = o.address;
  payment = o.payment;
  items = map item_data items;
  created_at = o.created_at;
}

abbrev pub add_order : Order → Action (Unit {0})
add_order o = write (λ db. record db { orders = db.orders ++ o ∷ [] })

abbrev new_item : ℕ → ℕ → OrderItemData → OrderItem
new_item k order i = record {
  id = k;
  order_id = order;
  product_id = i.product_id;
  name = i.name;
  quantity = i.quantity;
  price = i.price;
}

-- The loop over `body.items`.
unfoldable pub add_items : ℕ → List OrderItemData → Action (Unit {0})
add_items order [] = pure tt
add_items order (i ∷ items) = do
  k ← new_id
  write (λ db. record db { order_items = db.order_items ++ new_item k order i ∷ [] })
  add_items order items

-- `user.id if user else uuid4()`
abbrev buyer : Option User → Action ℕ
buyer none = new_id
buyer (some user) = pure user.id

abbrev pub is_by : Option User → Order → Bool
is_by none o = true
is_by (some user) o = o.user_id == user.id

abbrev pub has_status : Option String → Order → Bool
has_status none o = true
has_status (some status) o = str_eq status "" || str_eq o.status status

abbrev pub newer : Order → Order → Bool
newer a b = ltb b.created_at a.created_at

-- ORDER BY created_at DESC, OFFSET and LIMIT
abbrev pub newest_page : (offset limit : ℕ) → List Order → List Order
newest_page offset limit orders = take limit (drop offset (sort newer orders))

module _ (env : Env) where
  -- The sum over no items is the int 0, which has no `quantize`: an AttributeError, and a 500.
  unfoldable pub create_order : OrderCreate → Option User → Action OrderResponse
  unfolding add_items
  create_order body user = do
    user_id ← buyer user
    raise_if (is_empty body.items) (http 500)
    k ← new_id
    let o : Order = record {
      id = k;
      user_id = user_id;
      total = total_of body.items;
      status = "confirmed";
      address = body.address;
      payment = body.payment;
      created_at = env.now;
    }
    add_order o
    add_items k body.items
    created_items ← query (items_of k)
    pure (response_with o o.total created_items)

unfoldable pub list_orders :
    Option User → Option String → (offset limit : ℕ) → Db → List OrderResponse
list_orders user status_filter offset limit db =
    map (λ o. response_with o o.total (items_of o.id db))
      (newest_page offset limit
        (select (λ o. is_by user o && has_status status_filter o) db.orders))

-- A product of the seller, by its column or by the name of its vendor.
abbrev pub is_sold_by : User → (display : String) → Product → Bool
is_sold_by user display p = elim p.seller_user_id [
  | some owner ↦ owner == user.id
  | none ↦ elim p.vendor [ none ↦ false | some v ↦ str_eq v display ]
]

-- `i.product_id in owned_ids`
abbrev pub is_own_item : User → (display : String) → Db → OrderItem → Bool
is_own_item user display db i = elim i.product_id [
  | none ↦ false
  | some k ↦ exists (λ p. p.id == k && is_sold_by user display p) db.products
]

abbrev pub own_items : User → String → Db → Order → List OrderItem
own_items user display db o = select (is_own_item user display db) (items_of o.id db)

abbrev has_own : User → String → Db → Order → Bool
has_own user display db o = not (is_empty (own_items user display db o))

unfoldable pub list_my_sales : Texts → User → (offset limit : ℕ) → Action (List OrderResponse)
unfolding require_roles
list_my_sales texts user offset limit = as_seller texts user (do
  display ← query (seller_display_name texts user)
  orders ← query (λ db. newest_page offset limit (select (has_own user display db) db.orders))
  query λ db.
      map
        (λ o.
          let mine = own_items user display db o in
          response_with o (total_of (map item_data mine)) mine)
        orders)
