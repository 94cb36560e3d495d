-- ===== src/Marketplace/Listed.antt =====
-- What the operations on products leave alone, in backend/app/api/v1/marketplace.py.
use clutch_d_backend.Base.{
  ℕ, ◌≡◌, String, Bool, true, false, Option, none, some, List, ◌∷◌, [], str_eq, select, find?, ◌==◌,
  if◌then◌else◌,
}
use clutch_d_backend.Schema.{Role, User, Category, Vendor, Product}
use clutch_d_backend.Session.{
  Action, World, Error, http, raise, raise_if, or_raise, one_or_none, query, pure, ◌>>=◌, ◌>>◌,
}
use clutch_d_backend.Session.Keeps.{IsKept, bind-IsKept, or_raise-IsKept}
use clutch_d_backend.Auth.Access.{require_roles}
use clutch_d_backend.Marketplace.Products.{
  Texts, Resolved, or_next, add_spare_parts, spare_or_raise, is_spare, by_name, by_uuid,
  category_by_slug, resolved, resolve_category, vendor_named, get_or_create_vendor,
  seller_display_name, as_seller,
}

module _ {ℓ} {A : Type ℓ} (Q : World → Type 0) where
  pub one_or_none-IsKept : (rows : List A) → IsKept Q (one_or_none rows)
  one_or_none-IsKept [] w q = q
  one_or_none-IsKept (x ∷ []) w q = q
  one_or_none-IsKept (x ∷ y ∷ rest) w q = q

  pub if-IsKept :
      (b : Bool) (m n : Action A) → IsKept Q m → IsKept Q n → IsKept Q (if b then m else n)
  if-IsKept true m n hm hn = hm
  if-IsKept false m n hm hn = hn

module _ {ℓ} {A : Type ℓ} (Q : World → Type 0) where
  pub raise_if-IsKept :
      (b : Bool) (e : Error) (m : Action A) → IsKept Q m → IsKept Q (raise_if b e >> m)
  raise_if-IsKept true e m h w q = q
  raise_if-IsKept false e m h w q = h w q

pub require_roles-IsKept :
    (Q : World → Type 0) (roles : List Role) (user : User) → IsKept Q (require_roles roles user)
unfolding require_roles
require_roles-IsKept Q roles user =
    raise_if-IsKept Q _ (http 403) _ (raise_if-IsKept Q _ (http 403) (pure user) (λ w q. q))

module _ {ℓ} {A : Type ℓ} (Q : World → Type 0) where
  pub as_seller-IsKept :
      (texts : Texts) (user : User) (m : Action A) → IsKept Q m → IsKept Q (as_seller texts user m)
  as_seller-IsKept texts user m h =
      bind-IsKept Q (require_roles (Role.seller ∷ Role.admin ∷ []) user) (λ _. m)
        (require_roles-IsKept Q (Role.seller ∷ Role.admin ∷ []) user) (λ _. h)

module _ (texts : Texts) (products : List Product) where
  -- The table of products is this one.
  abbrev pub HasProducts : World → Type 0
  HasProducts w = w.db.products ≡ products

  or_next-IsKept :
      (found : Option Category) (next : Action (Resolved texts))
      → IsKept HasProducts next
      → IsKept HasProducts (or_next texts found next)
  or_next-IsKept none next h = h
  or_next-IsKept (some c) next h = λ w q. q

  spare_or_raise-IsKept : (raw : String) → IsKept HasProducts (spare_or_raise texts raw)
  spare_or_raise-IsKept raw =
      if-IsKept HasProducts (is_spare texts (texts.dashed raw))
        (query (category_by_slug texts "spare-parts") >>= λ existing.
          or_next texts existing (add_spare_parts texts))
        (raise (http 422))
        (λ w q.
          or_next-IsKept (category_by_slug texts "spare-parts" w.db) (add_spare_parts texts)
            (λ w q. q) w q)
        (λ w q. q)

  by_name-IsKept : (raw : String) → IsKept HasProducts (by_name texts raw)
  by_name-IsKept raw w q =
      let rows = select (λ c. texts.ilike c.name raw) w.db.categories in
      bind-IsKept HasProducts (one_or_none rows)
        (λ found. or_next texts found (spare_or_raise texts raw))
        (one_or_none-IsKept HasProducts rows)
        (λ found. or_next-IsKept found (spare_or_raise texts raw) (spare_or_raise-IsKept raw)) w q

  pub resolve_category-IsKept :
      (category : Option String) (k : Option ℕ)
      → IsKept HasProducts (resolve_category texts category k)
  unfolding resolve_category
  resolve_category-IsKept category (some k) w q =
      let found = find? (λ c. c.id == k) w.db.categories in
      bind-IsKept HasProducts (or_raise found (http 422)) (λ c. pure (resolved texts c))
        (or_raise-IsKept HasProducts found (http 422)) (λ c w q. q) w q
  resolve_category-IsKept none none w q = q
  resolve_category-IsKept (some category) none w q =
      let raw = texts.strip category in
      let parsed = by_uuid texts (texts.parse_uuid raw) w.db in
      let slugged = category_by_slug texts raw w.db in
      raise_if-IsKept HasProducts (str_eq raw "") (http 422)
        (or_next texts parsed (or_next texts slugged (by_name texts raw)))
        (or_next-IsKept parsed (or_next texts slugged (by_name texts raw))
          (or_next-IsKept slugged (by_name texts raw) (by_name-IsKept raw)))
        w q

  vendor_named-IsKept :
      (name : String) (v : Option Vendor) → IsKept HasProducts (vendor_named texts name v)
  vendor_named-IsKept name none w q = q
  vendor_named-IsKept name (some v) w q = q

  pub get_or_create_vendor-IsKept :
      (user : User) (k : Option ℕ) → IsKept HasProducts (get_or_create_vendor texts user k)
  unfolding get_or_create_vendor
  get_or_create_vendor-IsKept user (some k) w q =
      or_raise-IsKept HasProducts (find? (λ v. v.id == k) w.db.vendors) (http 404) w q
  get_or_create_vendor-IsKept user none w q =
      let name = seller_display_name texts user w.db in
      let rows = select (λ v. str_eq v.name name) w.db.vendors in
      bind-IsKept HasProducts (one_or_none rows) (vendor_named texts name)
        (one_or_none-IsKept HasProducts rows) (vendor_named-IsKept name) w q
