-- ===== src/Marketplace/Edits.antt =====
-- Updating and deleting products in backend/app/api/v1/marketplace.py.
use clutch_d_backend.Base.{
  ℕ, String, Bool, false, not, ◌&&◌, ◌||◌, Option, none, some, List, ◌==◌, str_eq, select, update,
}
use clutch_d_backend.Schema.{Db, User, Product}
use clutch_d_backend.Session.{Action, http, raise_if, or_raise, query, write, pure, ◌>>=◌, ◌>>◌}
use clutch_d_backend.Jobs.Access.{is_admin}
use clutch_d_backend.Auth.Access.{require_roles}
use clutch_d_backend.Marketplace.Products.{
  Texts, ProductUpdate, product_by_id, seller_display_name, get_or_create_vendor, resolve_category,
  as_seller,
}

module _ (texts : Texts) where
  -- `product.vendor and product.vendor == display`
  abbrev is_vendor : String → Option String → Bool
  is_vendor display none = false
  is_vendor display (some v) = not (str_eq v "") && str_eq v display

  -- _ensure_owner_or_admin, as a test
  unfoldable pub may_change : User → Product → Db → Bool
  unfolding seller_display_name
  may_change user p db = is_admin user.role || user.is_superuser || (elim p.seller_user_id [
    | some owner ↦ owner == user.id
    | none ↦ is_vendor (seller_display_name texts user db) p.vendor
  ])

  abbrev pub own_product : ℕ → User → Action Product
  own_product product_id user = do
    found ← query (product_by_id product_id)
    p ← or_raise found (http 404)
    allowed ← query (may_change user p)
    raise_if (not allowed) (http 403)
    pure p

  abbrev given {ℓ} : {A : Type ℓ} → Option A → A → A
  given none old = old
  given (some new) old = new

  abbrev optional {ℓ} : {A : Type ℓ} → Option A → Option A → Option A
  optional none old = old
  optional (some new) old = some new

  abbrev pub set_vendor : User → Option ℕ → Product → Action Product
  set_vendor user none p = pure p
  set_vendor user (some k) p = do
    v ← get_or_create_vendor texts user (some k)
    pure (record p { vendor_id = some v.id; vendor = some v.name })

  -- `if body.category is not None or body.category_id is not None`
  abbrev pub set_category : Option String → Option ℕ → Product → Action Product
  set_category none none p = pure p
  set_category category category_id p = do
    r ← resolve_category texts category category_id
    pure (record p { category_id = r.0; category = r.1 })

  abbrev pub with_fields : ProductUpdate → Product → Product
  with_fields body p = record p {
    name = given body.name p.name;
    price = given body.price p.price;
    description = optional body.description p.description;
    brand = optional body.brand p.brand;
    image = optional body.image p.image;
    availability = given body.availability p.availability;
    delivery_time = optional body.delivery_time p.delivery_time;
  }

  abbrev pub set_products : Product → List Product → List Product
  set_products p = update (λ r. r.id == p.id) (λ _. p)

  abbrev pub save_product : Product → Action Product
  save_product p = write (λ db. record db { products = set_products p db.products }) >> pure p

  unfoldable pub update_product : ℕ → ProductUpdate → User → Action Product
  unfolding require_roles may_change get_or_create_vendor resolve_category
  update_product product_id body user = as_seller texts user (do
    p ← own_product product_id user
    q ← set_vendor user body.vendor_id (with_fields body p)
    r ← set_category body.category body.category_id q
    save_product r)

  -- The foreign keys of favourites and fitments cascade; those of carts and orders are none.
  abbrev pub remove_product : Product → Action (Unit {0})
  remove_product p = write (λ db. record db {
    products = select (λ r. not (r.id == p.id)) db.products;
    favorites = select (λ f. not (f.product_id == p.id)) db.favorites;
    fitments = select (λ f. not (f.product_id == p.id)) db.fitments;
  })

  unfoldable pub delete_product : ℕ → User → Action (Unit {0})
  unfolding require_roles may_change
  delete_product product_id user =
      as_seller texts user (own_product product_id user >>= remove_product)
