-- ===== src/Geo.antt =====
-- `haversine_m` of backend/app/services/matching.py.
use clutch_d_backend.Base.{if◌then◌else◌}
use clutch_d_backend.Schema.{Float, FloatOps}

-- Distance in metres between two points in degrees.
unfoldable pub haversine_m : FloatOps → Float → Float → Float → Float → Float
haversine_m ops lat1 lon1 lat2 lon2 =
    let r = lit 6371000 1 in
    let p1 = radians lat1 in
    let p2 = radians lat2 in
    let dphi = radians (sub lat2 lat1) in
    let dl = radians (sub lon2 lon1) in
    let two = lit 2 1 in
    let one = lit 1 1 in
    let a =
      add (square (sin (div dphi two))) (mul (mul (cos p1) (cos p2)) (square (sin (div dl two)))) in
    mul (mul two r) (asin (sqrt (if lt a one then a else one)))
  where
    open ops use {lit, add, sub, mul, div, lt, square, radians, sin, cos, asin, sqrt}
