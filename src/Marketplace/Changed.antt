-- ===== src/Marketplace/Changed.antt =====
-- What a product that update_product or delete_product of backend/app/api/v1/marketplace.py has changed
-- was like.
use clutch_d_backend.Base.{
  ℕ, ◌≡◌, refl, sym, ap, ◌∙◌, inl, inr, String, true, not, Option, none, some, List, [], ◌∷◌, ◌==◌,
  arith, select, Option-cases,
}
use clutch_d_backend.Schema.{User, Role, Product}
use clutch_d_backend.Session.{World, Action, ok, pure, ◌>>=◌}
use clutch_d_backend.Session.Keeps.{bind-inv}
use clutch_d_backend.Auth.Access.{require_roles}
use clutch_d_backend.Marketplace.Products.{
  Texts, ProductUpdate, Resolved, product_by_id, resolve_category, get_or_create_vendor,
}
use clutch_d_backend.Marketplace.Edits.{
  may_change, own_product, set_vendor, set_category, with_fields, set_products, save_product,
  update_product, delete_product, remove_product,
}
use clutch_d_backend.Marketplace.Listed.{resolve_category-IsKept, get_or_create_vendor-IsKept}

abbrev pub sellers : List Role
sellers = Role.seller ∷ Role.admin ∷ []

ok-inj : {A : Type 0} {a b : A} → ok a ≡ ok b → a ≡ b
ok-inj h = cc

module _ (texts : Texts) where
  abbrev IsChanged : (q r : Product) → World → World → Type 0
  IsChanged q r w w' = (r.id ≡ q.id) × (w'.db.products ≡ w.db.products)

  IsChanged-by :
      {A : Type 0} (m : Action A) (f : A → Product) (q : Product) (w : World) {r : Product}
      → (m w).1.db.products ≡ w.db.products
      → ((a : A) → (f a).id ≡ q.id)
      → ((m >>= λ a. pure (f a)) w).0 ≡ ok r
      → IsChanged q r w ((m >>= λ a. pure (f a)) w).1
  IsChanged-by m f q w {r} kept same h =
      let (a, got, e) = bind-inv m (λ a. pure (f a)) w h in
      let is_f : f a ≡ r = ok-inj (sym (ap (λ x. x.0) e) ∙ h) in
      (ap (λ (x : Product). x.id) (sym is_f) ∙ same a, ap (λ x. x.1.db.products) e ∙ kept)

  -- A product that is returned is stored under its key, and its user may change it.
  own_product-inv :
      (j : ℕ) (user : User) (w : World) {q : Product}
      → (own_product texts j user w).0 ≡ ok q
      → (product_by_id j w.db ≡ some q)
        × (may_change texts user q w.db ≡ true)
        × ((own_product texts j user w).1 ≡ w)
  own_product-inv j user w {q} h = elim (Option-cases (product_by_id j w.db)) [
    | inl gone ↦ ground arith
    | inr (r, found) ↦ ground arith
  ]

  set_vendor-inv :
      (user : User) (v : Option ℕ) (q : Product) (w : World) {r : Product}
      → (set_vendor texts user v q w).0 ≡ ok r
      → IsChanged q r w (set_vendor texts user v q w).1
  set_vendor-inv user none q w h = (ground arith, refl)
  set_vendor-inv user (some v) q w h =
      IsChanged-by (get_or_create_vendor texts user (some v))
        (λ u. record q { vendor_id = some u.id; vendor = some u.name }) q w
        (get_or_create_vendor-IsKept texts w.db.products user (some v) w refl) (λ u. refl) h

  abbrev filed : Product → Resolved texts → Product
  filed q x = record q { category_id = x.0; category = x.1 }

  resolving-inv :
      (category : Option String) (c : Option ℕ) (q : Product) (w : World) {r : Product}
      → ((resolve_category texts category c >>= λ x. pure (filed q x)) w).0 ≡ ok r
      → IsChanged q r w ((resolve_category texts category c >>= λ x. pure (filed q x)) w).1
  resolving-inv category c q w h =
      IsChanged-by (resolve_category texts category c) (filed q) q w
        (resolve_category-IsKept texts w.db.products category c w refl) (λ x. refl) h

  set_category-inv :
      (category : Option String) (c : Option ℕ) (q : Product) (w : World) {r : Product}
      → (set_category texts category c q w).0 ≡ ok r
      → IsChanged q r w (set_category texts category c q w).1
  set_category-inv none none q w h = (ground arith, refl)
  set_category-inv none (some c) q w h = resolving-inv none (some c) q w h
  set_category-inv (some name) c q w h = resolving-inv (some name) c q w h

  -- The last part of an update, for a product that may be changed.
  changing : ProductUpdate → User → Product → Action Product
  changing body user q = set_vendor texts user body.vendor_id (with_fields texts body q) >>= λ x.
      set_category texts body.category body.category_id x >>= save_product texts

  changing-inv :
      (body : ProductUpdate) (user : User) (q : Product) (w : World) {r : Product}
      → (changing body user q w).0 ≡ ok r
      → (r.id ≡ q.id)
        × ((changing body user q w).1.db.products ≡ set_products texts r w.db.products)
  unfolding changing
  changing-inv body user q w {r} h =
      let vend = set_vendor texts user body.vendor_id (with_fields texts body q) in
      let file = set_category texts body.category body.category_id in
      let (x, vended, e) = bind-inv vend (λ x. file x >>= save_product texts) w h in
      let (id_x, kept_x) = set_vendor-inv user body.vendor_id (with_fields texts body q) w vended in
      let (y, done, f) =
        bind-inv (file x) (save_product texts) (vend w).1 (sym (ap (λ x. x.0) e) ∙ h) in
      let (id_y, kept_y) = set_category-inv body.category body.category_id x (vend w).1 done in
      let is_y : y ≡ r = ok-inj (sym (ap (λ x. x.0) (e ∙ f)) ∙ h) in
      (
        ap (λ (x : Product). x.id) (sym is_y) ∙ id_y ∙ id_x,
        ap (λ x. x.1.db.products) (e ∙ f)
            ∙ ap (set_products texts y) (kept_y ∙ kept_x)
            ∙ ap (λ x. set_products texts x w.db.products) is_y,
      )

  -- A product that is saved had the key of the request, and its user might change it.
  pub update_product-inv :
      (j : ℕ) (body : ProductUpdate) (user : User) (w : World) {r : Product}
      → (update_product texts j body user w).0 ≡ ok r
      → let w' = (require_roles sellers user w).1 in
        (q : Product) × (product_by_id j w'.db ≡ some q)
        × (may_change texts user q w'.db ≡ true)
        × (r.id ≡ q.id)
        × ((update_product texts j body user w).1.db.products ≡ set_products texts r w'.db.products)
  unfolding update_product changing
  update_product-inv j body user w {r} h =
      let w' = (require_roles sellers user w).1 in
      let (u, passed, e) =
        bind-inv (require_roles sellers user) (λ _. own_product texts j user >>= changing body user)
          w h in
      let (q, own, f) =
        bind-inv (own_product texts j user) (changing body user) w' (sym (ap (λ x. x.0) e) ∙ h) in
      let (stored, may, same) = own_product-inv j user w' own in
      let last = (own_product texts j user w').1 in
      let (id, saved) = changing-inv body user q last (sym (ap (λ x. x.0) (e ∙ f)) ∙ h) in
      (
        q,
        stored,
        may,
        id,
        ap (λ x. x.1.db.products) (e ∙ f)
            ∙ saved
            ∙ ap (λ (x : World). set_products texts r x.db.products) same,
      )

  pub delete_product-inv :
      (j : ℕ) (user : User) (w : World)
      → (delete_product texts j user w).0 ≡ ok tt
      → let w' = (require_roles sellers user w).1 in
        (q : Product) × (product_by_id j w'.db ≡ some q)
        × (may_change texts user q w'.db ≡ true)
        × ((delete_product texts j user w).1.db.products
            ≡ select (λ r. not (r.id == q.id)) w'.db.products)
  unfolding delete_product
  delete_product-inv j user w h =
      let w' = (require_roles sellers user w).1 in
      let (u, passed, e) =
        bind-inv (require_roles sellers user)
          (λ _. own_product texts j user >>= remove_product texts) w h in
      let (q, own, f) =
        bind-inv (own_product texts j user) (remove_product texts) w' (sym (ap (λ x. x.0) e) ∙ h) in
      let (stored, may, same) = own_product-inv j user w' own in
      (
        q,
        stored,
        may,
        ap (λ x. x.1.db.products) (e ∙ f)
            ∙ ap (λ (x : World). select (λ r. not (r.id == q.id)) x.db.products) same,
      )
