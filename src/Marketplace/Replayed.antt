-- ===== src/Marketplace/Replayed.antt =====
-- create_product of backend/app/api/v1/marketplace.py, sent again with the same key.
use clutch_d_backend.Base.{
  ℕ, ◌≡◌, refl, sym, ap, ◌∙◌, inl, inr, String, false, none, some, [], ◌∷◌, ◌++◌, str_eq,
  str_eq_refl, arith, find?, find?-added, Option-cases,
}
use clutch_d_backend.Schema.{User, Role, Vendor, Product}
use clutch_d_backend.Session.{World, Result, ok, in_session, query, ◌>>=◌}
use clutch_d_backend.Session.Keeps.{bind-inv, in_session-ok}
use clutch_d_backend.Auth.Access.{require_roles}
use clutch_d_backend.Marketplace.Products.{
  Texts, ProductCreate, Resolved, new_product, has_request_id, replayed, insert_product,
  add_product, or_add, create_product, resolve_category, get_or_create_vendor,
}
use clutch_d_backend.Marketplace.Listed.{resolve_category-IsKept, get_or_create_vendor-IsKept}

module _ (texts : Texts) where
  abbrev pub creating : ProductCreate → User → World → Result (ℕ × Product) × World
  creating body user = in_session (create_product texts body user)

  insert_product-inv :
      (body : ProductCreate) (user : User) (category : Resolved texts) (vendor : Vendor) (w : World)
      {r : ℕ × Product}
      → (insert_product texts body user category vendor w).0 ≡ ok r
      → let p = new_product texts w.next_id user body vendor category in
        (r.1 ≡ p)
        × ((insert_product texts body user category vendor w).1.db.products
            ≡ w.db.products ++ p ∷ [])
  unfolding insert_product
  insert_product-inv body user category vendor w h = (ground arith, ground arith)

  -- A product that is added has the key of its form, and stands behind the others.
  add_product-inv :
      (body : ProductCreate) (user : User) (w : World) {r : ℕ × Product}
      → (add_product texts body user w).0 ≡ ok r
      → (r.1.client_request_id ≡ body.client_request_id)
        × ((add_product texts body user w).1.db.products ≡ w.db.products ++ r.1 ∷ [])
  unfolding add_product
  add_product-inv body user w {r} h =
      let (category, resolved, e) =
        bind-inv (resolve_category texts body.category body.category_id)
          (λ c. get_or_create_vendor texts user body.vendor_id >>= insert_product texts body user c)
          w h in
      let w' = (resolve_category texts body.category body.category_id w).1 in
      let (vendor, found, e') =
        bind-inv (get_or_create_vendor texts user body.vendor_id)
          (insert_product texts body user category) w' (sym (ap (λ q. q.0) e) ∙ h) in
      let w'' = (get_or_create_vendor texts user body.vendor_id w').1 in
      let (new, added) =
        insert_product-inv body user category vendor w'' (sym (ap (λ q. q.0) (e ∙ e')) ∙ h) in
      let same : w''.db.products ≡ w.db.products =
        get_or_create_vendor-IsKept texts w.db.products user body.vendor_id w'
          (resolve_category-IsKept texts w.db.products body.category body.category_id w refl) in
      (
        ap (λ (p : Product). p.client_request_id) new,
        ap (λ q. q.1.db.products) (e ∙ e')
            ∙ added
            ∙ ap (λ ps. ps ++ new_product texts w''.next_id user body vendor category ∷ []) same
            ∙ ap (λ p. w.db.products ++ p ∷ []) (sym new),
      )

  module _ (key : String) (filled : str_eq key "" ≡ false) where
    -- The product that a form's key stands for is stored.
    found_under :
        (body : ProductCreate) (user : User) (w : World) {r : ℕ × Product}
        → body.client_request_id ≡ some key
        → (or_add texts body user (replayed texts body.client_request_id w.db) w).0 ≡ ok r
        → find?
            (has_request_id texts key)
            (or_add texts body user (replayed texts body.client_request_id w.db) w).1.db.products
          ≡ some r.1
    found_under body user w {r} keyed h =
        elim (Option-cases (find? (has_request_id texts key) w.db.products)) [
          | inl new ↦
              let e : replayed texts body.client_request_id w.db ≡ none = ground arith in
              let (same, added) =
                add_product-inv body user w {r = r}
                  (sym (ap (λ o. (or_add texts body user o w).0) e) ∙ h) in
              ap (λ o. find? (has_request_id texts key) (or_add texts body user o w).1.db.products)
                e
              ∙ ap (find? (has_request_id texts key)) added
              ∙ find?-added (has_request_id texts key) w.db.products r.1 new
                  (ground (arith, same, keyed, str_eq_refl key))
          | inr (p, old) ↦ ground arith
        ]

    stored_under :
        (body : ProductCreate) (user : User) (w : World) {r : ℕ × Product}
        → body.client_request_id ≡ some key
        → (creating body user w).0 ≡ ok r
        → find? (has_request_id texts key) (creating body user w).1.db.products ≡ some r.1
    unfolding create_product
    stored_under body user w {r} keyed h =
        let roles = Role.seller ∷ Role.admin ∷ [] in
        let kept = in_session-ok (create_product texts body user) w h in
        let w' = (require_roles roles user w).1 in
        let (u, passed, e) =
          bind-inv (require_roles roles user)
            (λ _. query (replayed texts body.client_request_id) >>= or_add texts body user) w
            (sym (ap (λ q. q.0) kept) ∙ h) in
        ap (λ q. find? (has_request_id texts key) q.1.db.products) (kept ∙ e)
        ∙ found_under body user w' keyed (sym (ap (λ q. q.0) (kept ∙ e)) ∙ h)

    answered :
        (again : ProductCreate) (other : User) (p : Product) (w : World)
        → again.client_request_id ≡ some key
        → other.role ≡ Role.seller
        → find? (has_request_id texts key) w.db.products ≡ some p
        → creating again other w ≡ (ok (200, p), w)
    unfolding create_product require_roles in_session
    answered again other p w keyed is stored = ground arith

    -- A form that is sent again, under a key that is not empty and by whichever seller, gets the product
    -- that was made of it the first time, with a 200; nothing changes, whatever else stands in the second
    -- form.
    pub create_product_twice :
        (body again : ProductCreate) (user other : User) (w : World) {r : ℕ × Product}
        → body.client_request_id ≡ some key
        → again.client_request_id ≡ some key
        → other.role ≡ Role.seller
        → (creating body user w).0 ≡ ok r
        → let after = (creating body user w).1 in
          creating again other after ≡ (ok (200, r.1), after)
    create_product_twice body again user other w {r} keyed keyed' is h =
        answered again other r.1 (creating body user w).1 keyed' is
          (stored_under body user w keyed h)
