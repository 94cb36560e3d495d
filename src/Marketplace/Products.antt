-- ===== src/Marketplace/Products.antt =====
-- The products of sellers in backend/app/api/v1/marketplace.py: creating, updating and deleting them.
use clutch_d_backend.Base.{
  ℕ, String, Bool, false, ◌||◌, Option, none, some, [], ◌∷◌, ◌++◌, ◌==◌, str_eq, if◌then◌else◌,
  exists, find?, select,
}
use clutch_d_backend.Schema.{Db, User, Role, Seller, Category, Vendor, Product}
use clutch_d_backend.Session.{
  Action, http, raise, raise_if, or_raise, one_or_none, query, write, new_id, pure, ◌>>=◌, ◌>>◌,
}
use clutch_d_backend.Tables.{garage_by_user, mechanic_by_user}
use clutch_d_backend.Auth.Access.{require_roles}

-- What Python and the database do with texts.
pub record Texts : Type 0 where
  -- `email.split("@")[0]`
  pub local_part : String → String
  pub strip : String → String
  -- `raw.lower().replace("_", "-")`
  pub dashed : String → String
  -- `uuid.UUID(raw)`, `none` for a ValueError
  pub parse_uuid : String → Option ℕ
  -- `column ILIKE pattern`
  pub ilike : String → String → Bool

-- ProductCreate, after its validators
pub record ProductCreate : Type 0 where
  pub name : String
  pub price : ℕ
  pub description : Option String
  pub brand : Option String
  pub category : Option String
  pub category_id : Option ℕ
  pub vendor_id : Option ℕ
  pub image : String
  pub availability : Bool
  pub delivery_time : Option String
  pub client_request_id : Option String

-- ProductUpdate, after its validators
pub record ProductUpdate : Type 0 where
  pub name : Option String
  pub price : Option ℕ
  pub description : Option String
  pub brand : Option String
  pub category : Option String
  pub category_id : Option ℕ
  pub vendor_id : Option ℕ
  pub image : Option String
  pub availability : Option Bool
  pub delivery_time : Option String

abbrev pub product_by_id : ℕ → Db → Option Product
product_by_id k db = find? (λ p. p.id == k) db.products

abbrev pub seller_by_user : ℕ → Db → Option Seller
seller_by_user k db = find? (λ s. s.user_id == k) db.sellers

-- The name, unless it is missing or empty.
abbrev non_empty_or : Option String → String → String
non_empty_or none other = other
non_empty_or (some name) other = if str_eq name "" then other else name

module _ (texts : Texts) where
  open texts use {local_part, strip, dashed, parse_uuid, ilike}

  -- _seller_display_name
  unfoldable pub seller_display_name : User → Db → String
  seller_display_name user db =
      non_empty_or (elim (garage_by_user user.id db) [ none ↦ none | some g ↦ some g.garage_name ])
        (non_empty_or
          (elim (seller_by_user user.id db) [ none ↦ none | some s ↦ some s.store_name ])
          (non_empty_or
            (elim (mechanic_by_user user.id db) [ none ↦ none | some m ↦ some m.full_name ])
            (local_part (if str_eq user.email "" then "seller" else user.email))))

  -- The vendor of the name, found or added.
  abbrev pub vendor_named : String → Option Vendor → Action Vendor
  vendor_named name (some v) = pure v
  vendor_named name none = do
    k ← new_id
    write (λ db. record db { vendors = db.vendors ++ record { id = k; name = name } ∷ [] })
    pure (record { id = k; name = name })

  -- _get_or_create_vendor
  unfoldable pub get_or_create_vendor : User → Option ℕ → Action Vendor
  unfolding seller_display_name
  get_or_create_vendor user (some vendor_id) = do
    found ← query (λ db. find? (λ v. v.id == vendor_id) db.vendors)
    or_raise found (http 404)
  get_or_create_vendor user none = do
    name ← query (seller_display_name user)
    rows ← query (λ db. select (λ v. str_eq v.name name) db.vendors)
    vendor ← one_or_none rows
    vendor_named name vendor

  abbrev pub Resolved : Type 0
  Resolved = Option ℕ × Option String

  abbrev pub resolved : Category → Resolved
  resolved c = (some c.id, some c.name)

  -- `if found: return …`, else go on.
  abbrev pub or_next : Option Category → Action Resolved → Action Resolved
  or_next none next = next
  or_next (some c) next = pure (resolved c)

  abbrev pub category_by_slug : String → Db → Option Category
  category_by_slug slug db = find? (λ c. str_eq c.slug slug) db.categories

  abbrev pub add_spare_parts : Action Resolved
  add_spare_parts = do
    k ← new_id
    let c : Category = record { id = k; slug = "spare-parts"; name = "Spare Parts" }
    write (λ db. record db { categories = db.categories ++ c ∷ [] })
    pure (resolved c)

  abbrev pub is_spare : String → Bool
  is_spare s = str_eq s "spare-parts" || str_eq s "spareparts" || str_eq s "spares"

  abbrev pub spare_or_raise : String → Action Resolved
  spare_or_raise raw =
      if is_spare (dashed raw)
      then (query (category_by_slug "spare-parts") >>= λ existing. or_next existing add_spare_parts)
      else raise (http 422)

  abbrev pub by_name : String → Action Resolved
  by_name raw = do
    rows ← query (λ db. select (λ c. ilike c.name raw) db.categories)
    found ← one_or_none rows
    or_next found (spare_or_raise raw)

  abbrev pub by_uuid : Option ℕ → Db → Option Category
  by_uuid none db = none
  by_uuid (some k) db = find? (λ c. c.id == k) db.categories

  -- _resolve_category
  unfoldable pub resolve_category : Option String → Option ℕ → Action Resolved
  resolve_category category (some k) = do
    found ← query (λ db. find? (λ c. c.id == k) db.categories)
    c ← or_raise found (http 422)
    pure (resolved c)
  resolve_category (some category) none = do
    raise_if (str_eq (strip category) "") (http 422)
    parsed ← query (by_uuid (parse_uuid (strip category)))
    slugged ← query (category_by_slug (strip category))
    or_next parsed (or_next slugged (by_name (strip category)))
  resolve_category none none = pure (none, none)

  abbrev pub new_product : ℕ → User → ProductCreate → Vendor → Resolved → Product
  new_product k user body vendor category = record {
    id = k;
    name = body.name;
    description = body.description;
    brand = body.brand;
    vendor_id = some vendor.id;
    vendor = some vendor.name;
    seller_user_id = some user.id;
    price = body.price;
    image = some body.image;
    category_id = category.0;
    category = category.1;
    availability = body.availability;
    delivery_time = body.delivery_time;
    client_request_id = body.client_request_id;
  }

  abbrev pub has_request_id : String → Product → Bool
  has_request_id key p = elim p.client_request_id [ none ↦ false | some other ↦ str_eq other key ]

  -- `if body.client_request_id: …`
  abbrev pub replayed : Option String → Db → Option Product
  replayed none db = none
  replayed (some key) db = if str_eq key "" then none else find? (has_request_id key) db.products

  -- The unique constraint of the column, which lets any number of NULLs in.
  abbrev pub is_taken : Option String → Db → Bool
  is_taken none db = false
  is_taken (some key) db = exists (has_request_id key) db.products

  -- A violated constraint is an IntegrityError, which nothing handles: a 500.
  unfoldable pub insert_product : ProductCreate → User → Resolved → Vendor → Action (ℕ × Product)
  insert_product body user category vendor = do
    k ← new_id
    let p = new_product k user body vendor category
    taken ← query (is_taken body.client_request_id)
    raise_if taken (http 500)
    write (λ db. record db { products = db.products ++ p ∷ [] })
    pure (201, p)

  unfoldable pub add_product : ProductCreate → User → Action (ℕ × Product)
  unfolding resolve_category get_or_create_vendor insert_product
  add_product body user = do
    category ← resolve_category body.category body.category_id
    vendor ← get_or_create_vendor user body.vendor_id
    insert_product body user category vendor

  abbrev pub or_add : ProductCreate → User → Option Product → Action (ℕ × Product)
  or_add body user (some p) = pure (200, p)
  or_add body user none = add_product body user

  abbrev pub as_seller {ℓ} : {A : Type ℓ} → User → Action A → Action A
  as_seller user m = require_roles (Role.seller ∷ Role.admin ∷ []) user >>= λ _. m

  -- The answer is the status code and the product.
  unfoldable pub create_product : ProductCreate → User → Action (ℕ × Product)
  unfolding require_roles add_product
  create_product body user =
      as_seller user (query (replayed body.client_request_id) >>= or_add body user)
