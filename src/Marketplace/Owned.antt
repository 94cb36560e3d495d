-- ===== src/Marketplace/Owned.antt =====
-- What becomes of a product under requests of those who may not change it.
use clutch_d_backend.Base.{
  ℕ, ◌≡◌, ◌≢◌, refl, sym, ap, ◌∙◌, inl, inr, true, false, not, Option, none, some, List, [], ◌∷◌,
  ◌==◌, arith, find?, find?-before, select, All, Bool-cases, ==_eq, find?-holds, some_inj,
  update as update_rows,
}
use clutch_d_backend.Schema.{Db, User, Product}
use clutch_d_backend.Session.{World, in_session, query, ◌>>=◌}
use clutch_d_backend.Session.Keeps.{IsKept, bind-IsKept, in_session-keeps, in_session-keeps_ok}
use clutch_d_backend.Jobs.Access.{is_admin}
use clutch_d_backend.Auth.Access.{require_roles}
use clutch_d_backend.Marketplace.Products.{
  Texts, ProductCreate, ProductUpdate, product_by_id, new_product, replayed, insert_product,
  add_product, or_add, create_product, resolve_category, get_or_create_vendor,
}
use clutch_d_backend.Marketplace.Edits.{may_change, update_product, delete_product}
use clutch_d_backend.Marketplace.Changed.{sellers, update_product-inv, delete_product-inv}
use clutch_d_backend.Marketplace.Listed.{
  as_seller-IsKept, require_roles-IsKept, resolve_category-IsKept, get_or_create_vendor-IsKept,
}

-- A request that changes products.
pub data ProductRequest : Type 0 where
  create : ProductCreate → User → ProductRequest
  update : ℕ → ProductUpdate → User → ProductRequest
  delete : ℕ → User → ProductRequest

-- Neither the owner nor anyone with power over others' products.
abbrev pub IsStranger : ℕ → User → Type 0
IsStranger owner user =
    (user.id ≢ owner) × (is_admin user.role ≡ false) × (user.is_superuser ≡ false)

-- The request does not come from somebody who may change product `k`, if it is about `k` at all.
abbrev pub IsForeign : (owner k : ℕ) → ProductRequest → Type 0
IsForeign owner k (create body user) = Unit
IsForeign owner k (update j body user) = j ≡ k → IsStranger owner user
IsForeign owner k (delete j user) = j ≡ k → IsStranger owner user

module _ (texts : Texts) where
  unfoldable pub serve : ProductRequest → World → World
  serve (create body user) w = (in_session (create_product texts body user) w).1
  serve (update k body user) w = (in_session (update_product texts k body user) w).1
  serve (delete k user) w = (in_session (delete_product texts k user) w).1

  unfoldable pub serve_all : List ProductRequest → World → World
  serve_all [] w = w
  serve_all (r ∷ rs) w = serve_all rs (serve r w)

  module _ (k owner : ℕ) (p : Product) (owned : p.seller_user_id ≡ some owner) where
    abbrev Stored : World → Type 0
    Stored w = product_by_id k w.db ≡ some p

    insert_product-Stored :
        (body : ProductCreate) (user : User) (w : World)
        → Stored w
        → (category : _) (vendor : _) → Stored (insert_product texts body user category vendor w).1
    unfolding insert_product
    insert_product-Stored body user w h category vendor = ground (
      arith,
      find?-before (λ r. r.id == k) w.db.products
          (new_product texts w.next_id user body vendor category ∷ []) h,
    )

    add_product-Stored :
        (body : ProductCreate) (user : User) → IsKept Stored (add_product texts body user)
    unfolding add_product
    add_product-Stored body user =
        bind-IsKept Stored (resolve_category texts body.category body.category_id)
          (λ c. get_or_create_vendor texts user body.vendor_id >>= insert_product texts body user c)
          (λ w h.
            ap (find? (λ r. r.id == k))
              (resolve_category-IsKept texts w.db.products body.category body.category_id w refl)
            ∙ h)
          (λ c.
            bind-IsKept Stored (get_or_create_vendor texts user body.vendor_id)
              (insert_product texts body user c)
              (λ w h.
                ap (find? (λ r. r.id == k))
                  (get_or_create_vendor-IsKept texts w.db.products user body.vendor_id w refl)
                ∙ h)
              (λ v w h. insert_product-Stored body user w h c v))

    or_add-Stored :
        (body : ProductCreate) (user : User) (o : Option Product)
        → IsKept Stored (or_add texts body user o)
    or_add-Stored body user none = add_product-Stored body user
    or_add-Stored body user (some old) = λ w h. h

    create_product-Stored :
        (body : ProductCreate) (user : User) → IsKept Stored (create_product texts body user)
    unfolding create_product
    create_product-Stored body user =
        as_seller-IsKept Stored texts user
          (query (replayed texts body.client_request_id) >>= or_add texts body user)
          (λ w h. or_add-Stored body user (replayed texts body.client_request_id w.db) w h)

    stranger_may_not :
        (user : User) (db : Db) → IsStranger owner user → may_change texts user p db ≡ false
    unfolding may_change
    stranger_may_not user db s = ground arith

abbrev set_rows : Product → List Product → List Product
set_rows r = update_rows (λ x. x.id == r.id) (λ _. r)

saved_other :
    (k : ℕ) (r : Product) (ps : List Product)
    → (r.id == k) ≡ false
    → find? (λ x. x.id == k) (set_rows r ps) ≡ find? (λ x. x.id == k) ps
saved_other k r [] ne = refl
saved_other k r (x ∷ ps) ne = ground (arith, saved_other k r ps ne)

removed_other :
    (k i : ℕ) (ps : List Product)
    → (i == k) ≡ false
    → find? (λ x. x.id == k) (select (λ x. not (x.id == i)) ps) ≡ find? (λ x. x.id == k) ps
removed_other k i [] ne = refl
removed_other k i (x ∷ ps) ne = ground (arith, removed_other k i ps ne)

id_of : (j : ℕ) (db : Db) {q : Product} → product_by_id j db ≡ some q → q.id ≡ j
id_of j db {q} found = ==_eq q.id j (find?-holds (λ r. r.id == j) db.products found)

module _ (texts : Texts) (k owner : ℕ) (p : Product) (owned : p.seller_user_id ≡ some owner) where
  -- A user who may change a product under another key is no stranger to this one.
  elsewhere :
      (j : ℕ) (user : User) (db : Db) {q : Product}
      → product_by_id k db ≡ some p
      → (j ≡ k → IsStranger owner user)
      → product_by_id j db ≡ some q
      → may_change texts user q db ≡ true
      → (q.id == k) ≡ false
  elsewhere j user db {q} h foreign stored may = elim (Bool-cases (q.id == k)) [
    | inr other ↦ other
    | inl here ↦
        let at_k : j ≡ k = sym (id_of j db stored) ∙ ==_eq q.id k here in
        let same : q ≡ p = some_inj (sym stored ∙ ap (λ i. product_by_id i db) at_k ∙ h) in
        cc (
          stranger_may_not texts k owner p owned user db (foreign at_k),
          ap (λ x. may_change texts user x db) same,
        )
  ]

  update_product-Stored :
      (j : ℕ) (body : ProductUpdate) (user : User) (w : World)
      → (j ≡ k → IsStranger owner user)
      → product_by_id k w.db ≡ some p
      → product_by_id k (in_session (update_product texts j body user) w).1.db ≡ some p
  update_product-Stored j body user w foreign h =
      in_session-keeps_ok (λ db. product_by_id k db ≡ some p) (update_product texts j body user) w h
        (λ r done.
          let w' = (require_roles sellers user w).1 in
          let h' = require_roles-IsKept (λ v. product_by_id k v.db ≡ some p) sellers user w h in
          let (q, stored, may, same, saved) = update_product-inv texts j body user w done in
          let other = elsewhere j user w'.db h' foreign stored may in
          ap (find? (λ x. x.id == k)) saved
          ∙ saved_other k r w'.db.products (ap (λ i. i == k) same ∙ other)
          ∙ h')

  delete_product-Stored :
      (j : ℕ) (user : User) (w : World)
      → (j ≡ k → IsStranger owner user)
      → product_by_id k w.db ≡ some p
      → product_by_id k (in_session (delete_product texts j user) w).1.db ≡ some p
  delete_product-Stored j user w foreign h =
      in_session-keeps_ok (λ db. product_by_id k db ≡ some p) (delete_product texts j user) w h
        (λ r done.
          let w' = (require_roles sellers user w).1 in
          let h' = require_roles-IsKept (λ v. product_by_id k v.db ≡ some p) sellers user w h in
          let (q, stored, may, removed) = delete_product-inv texts j user w done in
          let other = elsewhere j user w'.db h' foreign stored may in
          ap (find? (λ x. x.id == k)) removed ∙ removed_other k q.id w'.db.products other ∙ h')

  serve-Stored :
      (r : ProductRequest) (w : World)
      → IsForeign owner k r
      → product_by_id k w.db ≡ some p
      → product_by_id k (serve texts r w).db ≡ some p
  unfolding serve
  serve-Stored (create body user) w foreign h =
      in_session-keeps (λ db. product_by_id k db ≡ some p) (create_product texts body user) w h
        (create_product-Stored texts k owner p owned body user w h)
  serve-Stored (update j body user) w foreign h = update_product-Stored j body user w foreign h
  serve-Stored (delete j user) w foreign h = delete_product-Stored j user w foreign h

  -- Whatever products are created, updated and deleted, by whichever users: a stored product with an owner
  -- stays, with every column, as long as no request for it comes from its owner, an administrator or a
  -- superuser.
  pub serve_all-keeps :
      (requests : List ProductRequest) (w : World)
      → All (IsForeign owner k) requests
      → product_by_id k w.db ≡ some p
      → product_by_id k (serve_all texts requests w).db ≡ some p
  unfolding serve_all
  serve_all-keeps [] w foreign h = h
  serve_all-keeps (r ∷ rs) w foreign h =
      serve_all-keeps rs (serve texts r w) foreign.1 (serve-Stored r w foreign.0 h)
