-- ===== src/Rewards/Favorites.antt =====
-- backend/app/api/v1/favorites.py.
use clutch_d_backend.Base.{
  ℕ, Bool, ◌&&◌, not, Option, List, [], ◌∷◌, ◌++◌, ◌==◌, is_some, select, exists,
}
use clutch_d_backend.Schema.{Db, User, UserFavorite}
use clutch_d_backend.Session.{
  Action, http, raise_if, or_raise, one_or_none, query, write, new_id, pure, ◌>>=◌, ◌>>◌,
}

abbrev pub is_favorite : ℕ → ℕ → UserFavorite → Bool
is_favorite user product f = f.user_id == user && f.product_id == product

-- `none` is a product_id that is no UUID.
unfoldable pub favorite_add : (product : Option ℕ) → User → Action UserFavorite
favorite_add product user = do
  k ← or_raise product (http 400)
  stored ← query (λ db. exists (λ p. p.id == k) db.products)
  raise_if (not stored) (http 404)
  rows ← query (λ db. select (is_favorite user.id k) db.favorites)
  existing ← one_or_none rows
  raise_if (is_some existing) (http 409)
  id ← new_id
  let fav : UserFavorite = record { id = id; user_id = user.id; product_id = k }
  write (λ db. record db { favorites = db.favorites ++ fav ∷ [] })
  pure fav

unfoldable pub favorite_list : User → Db → List UserFavorite
favorite_list user db = select (λ f. f.user_id == user.id) db.favorites

unfoldable pub favorite_remove : (product : Option ℕ) → User → Action (Unit {0})
favorite_remove product user = do
  k ← or_raise product (http 400)
  rows ← query (λ db. select (is_favorite user.id k) db.favorites)
  existing ← one_or_none rows
  fav ← or_raise existing (http 404)
  write (λ db. record db { favorites = select (λ f. not (f.id == fav.id)) db.favorites })
