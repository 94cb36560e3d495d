-- ===== src/Marketplace/Shown.antt =====
-- Who sees which orders, by list_orders and list_my_sales of backend/app/api/v1/marketplace.py.
use clutch_d_backend.Base.{List}
use mathlib.Core.List.Perm
use mathlib.Core.List.{Perm}
use clutch_d_backend.Schema.{Db, Order}
use clutch_d_backend.Marketplace.Orders.{OrderResponse, items_of, response_with}

abbrev pub whole_order : Db → Order → OrderResponse
whole_order db o = response_with o o.total (items_of o.id db)
