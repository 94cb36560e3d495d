-- ===== src/Examples/Trade.antt =====
-- The theorems on products, coupons, orders and the payout ledger at concrete inputs.
use clutch_d_backend.Base.{
  ℕ, ◌*◌, str_eq, ◌≡◌, ◌≢◌, ◌≤◌, refl, true, false, none, some, [], ◌∷◌, arith, find?, IsSorted,
}
use clutch_d_backend.Schema.{Float, User, Role, ProviderType, Product, Coupon}
use clutch_d_backend.Session.{ok, in_session}
use clutch_d_backend.Admin.Ledger.{Entry, is_entry, owes_more, payouts_of, mechanic_payout_ledger}
use clutch_d_backend.Admin.Entered.{account}
use clutch_d_backend.Admin.Owed.{jobs_of, IsTally, mechanic_payout_ledger_lem}
use clutch_d_backend.Auth.Access.{require_roles}
use clutch_d_backend.Marketplace.Products.{
  Texts, ProductCreate, ProductUpdate, product_by_id, create_product,
}
use clutch_d_backend.Marketplace.Replayed.{creating, create_product_twice}
use clutch_d_backend.Marketplace.Owned.{ProductRequest, serve_all, serve_all-keeps}
use clutch_d_backend.Marketplace.Coupons.{
  Amount, scale, validate_offer, coupon_by_code, IsDiscount, validate_offer_lem,
}
use clutch_d_backend.Examples.Samples.{env, admin, user_of, db, world, product}

mechanic_payout_ledger_lem_example :
    let (r, after) = in_session (mechanic_payout_ledger env admin) world in
    let payouts = payouts_of env.ops db in
    let jobs = jobs_of env ProviderType.mechanic 10 admin world in
    (r ≡ ok payouts)
    × (after ≡ world)
    × (find? (is_entry ProviderType.mechanic 10) payouts
        ≡ account env.ops db.payments ProviderType.mechanic 10 jobs)
    × ((e : Entry)
        → find? (is_entry ProviderType.mechanic 10) payouts ≡ some e
        → IsTally env.ops db.payments jobs e)
    × (((x y : Float) → env.ops.lt x y ≡ true → env.ops.lt y x ≡ false)
        → IsSorted (owes_more env.ops) payouts)
mechanic_payout_ledger_lem_example =
    mechanic_payout_ledger_lem env ProviderType.mechanic 10 admin world refl

abbrev texts : Texts
texts = record {
  local_part = λ s. s;
  strip = λ s. s;
  dashed = λ s. s;
  parse_uuid = λ s. none;
  ilike = λ a b. false;
}

abbrev seller : User
seller = user_of 6 Role.seller

abbrev form : ProductCreate
form = record {
  name = "Wiper";
  price = 9900;
  description = none;
  brand = none;
  category = none;
  category_id = none;
  vendor_id = some 800;
  image = "/static/uploads/wiper.jpg";
  availability = true;
  delivery_time = none;
  client_request_id = some "form-2";
}

abbrev wiper : Product
wiper = record {
  id = 1000;
  name = "Wiper";
  description = none;
  brand = none;
  vendor_id = some 800;
  vendor = some "V";
  seller_user_id = some 6;
  price = 9900;
  image = some "/static/uploads/wiper.jpg";
  category_id = none;
  category = none;
  availability = true;
  delivery_time = none;
  client_request_id = some "form-2";
}

wiper_created : (creating texts form seller world).0 ≡ ok (201, wiper)
unfolding create_product in_session require_roles
wiper_created = refl

create_product_twice_example :
    let after = (creating texts form seller world).1 in
    creating texts form (user_of 8 Role.seller) after ≡ (ok (200, wiper), after)
create_product_twice_example =
    create_product_twice texts "form-2" refl form form seller (user_of 8 Role.seller) world refl
      refl refl wiper_created

abbrev cheap : ProductUpdate
cheap = record {
  name = none;
  price = some 1;
  description = none;
  brand = none;
  category = none;
  category_id = none;
  vendor_id = none;
  image = none;
  availability = none;
  delivery_time = none;
}

six : ◌≢◌ {A = ℕ} 6 5
six h = absurd (omega (arith, h))

serve_all-keeps_example :
    let requests =
      ProductRequest.create form seller
      ∷ ProductRequest.update 7 cheap seller
      ∷ ProductRequest.delete 7 seller
      ∷ [] in
    product_by_id 7 (serve_all texts requests world).db ≡ some product
serve_all-keeps_example =
    serve_all-keeps texts 7 5 product refl
      (ProductRequest.create form seller
        ∷ ProductRequest.update 7 cheap seller
        ∷ ProductRequest.delete 7 seller
        ∷ [])
      world (tt, ((λ same. (six, refl, refl)), ((λ same. (six, refl, refl)), tt))) refl

abbrev odd : Amount
odd = record { units = 123455; places = 3 }

validate_offer_lem_example :
    let r = validate_offer (λ s. s) "SAVE10" odd db in
    (2 * (r.discount * 1000) ≤ 24692000)
    × (scale odd ≡ 100 → r.discount ≤ 123455)
    × (r.valid ≡ false → r.discount ≡ 0)
    × (r.valid ≡ true
        → (c : Coupon) × (coupon_by_code (λ s. s) "SAVE10" db ≡ some c)
          × (str_eq c.code "SAVE10" ≡ true)
          × (c.active ≡ true)
          × (c.min_purchase * 1000 ≤ 12345500)
          × IsDiscount c odd r.discount)
validate_offer_lem_example = validate_offer_lem (λ s. s) "SAVE10" odd db (omega arith, tt)
