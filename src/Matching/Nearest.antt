-- ===== src/Matching/Nearest.antt =====
-- nearest_mechanics and nearest_garages of backend/app/services/matching.py with their fallbacks.
-- The SQL text is in the source and is read here as a filter, a sort and a limit over the tables.
use clutch_d_backend.Base.{
  ℕ, String, Bool, true, false, not, ◌&&◌, ◌||◌, Option, none, some, List, map, ◌==◌, str_eq,
  if◌then◌else◌, ltb, select, find?, take, sort, exists,
}
use clutch_d_backend.Schema.{Db, Float, User, Mechanic, Garage}
use clutch_d_backend.Env.{Env}
use clutch_d_backend.Geo.{haversine_m}
use clutch_d_backend.Matching.Expertise.{resolve_expertise}
use clutch_d_backend.Matching.Rank.{Row, Ranked, by_score, rank_within, rank_all}

-- The database server: whether it has PostGIS, whether it has array overlap, and the two PostGIS
-- functions that the query calls. A server without one of them fails the query and leaves the session
-- usable, as SQLite does; PostgreSQL would refuse all that follows in the transaction.
pub record Server : Type 0 where
  pub postgis : Bool
  pub arrays : Bool
  -- ST_Distance between (lat, lon) of the row and (lat, lon) of the customer
  pub st_distance : Float → Float → Float → Float → Float
  -- ST_DWithin, its last argument the radius
  pub st_dwithin : Float → Float → Float → Float → Float → Bool

-- _MAX_FALLBACK_ROWS
abbrev pub max_fallback_rows : ℕ
max_fallback_rows = 200

abbrev pub user_by_id : ℕ → Db → Option User
user_by_id k db = find? (λ u. u.id == k) db.users

-- The join with `users`, and `u.is_active = true`.
abbrev pub active_owner : Option User → Bool
active_owner none = false
active_owner (some u) = u.is_active

abbrev pub since : Option User → ℕ
since none = 0
since (some u) = u.created_at

module _ (env : Env) (db : Db) where
  -- `_verified_gate` and the other conditions of the WHERE clause
  abbrev pub mechanic_open : Mechanic → Bool
  mechanic_open m =
      (not env.settings.require_verified_providers || m.verified)
      && m.available
      && not m.penalized
      && active_owner (user_by_id m.user_id db)

  abbrev pub garage_open : Garage → Bool
  garage_open g =
      (not env.settings.require_verified_providers || g.verified)
      && not g.penalized
      && active_owner (user_by_id g.user_id db)

  unfoldable pub mechanic_row : Mechanic → Row
  mechanic_row m = record {
    id = m.id;
    name = m.full_name;
    lat = m.lat;
    lon = m.lon;
    rating = m.rating;
    tags = m.expertise;
    owner = m.user_id;
    owner_since = since (user_by_id m.user_id db);
  }

  unfoldable pub garage_row : Garage → Row
  garage_row g = record {
    id = g.id;
    name = g.garage_name;
    lat = g.lat;
    lon = g.lon;
    rating = g.rating;
    tags = g.services;
    owner = g.user_id;
    owner_since = since (user_by_id g.user_id db);
  }

  unfoldable pub mechanic_rows : List Row
  unfolding mechanic_row
  mechanic_rows = map mechanic_row (select mechanic_open db.mechanics)

  unfoldable pub garage_rows : List Row
  unfolding garage_row
  garage_rows = map garage_row (select garage_open db.garages)

-- `tag = ANY(tags)`, and `expertise in (exp or [])`
abbrev pub has_tag : String → List String → Bool
has_tag tag = exists (λ t. str_eq t tag)

-- ORDER BY u.created_at ASC, u.id ASC
abbrev pub older : Row → Row → Bool
older a b =
    ltb a.owner_since b.owner_since || (a.owner_since == b.owner_since && ltb a.owner b.owner)

abbrev pub oldest : List Row → List Row
oldest rows = take max_fallback_rows (sort older rows)

-- `m.expertise && ARRAY[:tag]`, in the query for a tag
abbrev pub matches : Option String → Row → Bool
matches none row = true
matches (some tag) row = has_tag tag row.tags

module _ (env : Env) (server : Server) (bonus lat lon : Float) (limit : ℕ) (rows : List Row) where
  open env.ops use {lt}

  -- The rows of the fallback: with no array overlap the tag is tested after the limit of rows.
  unfoldable pub fallback_rows : Option String → List Row
  fallback_rows none = oldest rows
  fallback_rows (some tag) =
      if server.arrays
      then oldest (select (λ r. has_tag tag r.tags) rows)
      else select (λ r. has_tag tag r.tags) (oldest rows)

  abbrev pub haversine_to : Row → Float
  haversine_to row = haversine_m env.ops lat lon row.lat row.lon

  unfoldable pub fallback : Option String → List Ranked
  unfolding fallback_rows
  fallback expertise = take limit (
      by_score env.ops (
        rank_within env.ops bonus haversine_to env.settings.search_radius_m
          (fallback_rows expertise)))

  abbrev pub distance_to : Row → Float
  distance_to row = server.st_distance row.lat row.lon lat lon

  abbrev pub in_reach : Row → Bool
  in_reach row = server.st_dwithin row.lat row.lon lat lon env.settings.search_radius_m

  -- The rows of the spatial query, the nearest first.
  unfoldable pub spatial_rows : Option String → List Row
  spatial_rows expertise = take limit (
      sort (λ a b. lt (distance_to a) (distance_to b))
        (select (λ r. matches expertise r && in_reach r) rows))

  unfoldable pub spatial : Option String → List Ranked
  unfolding spatial_rows
  spatial expertise = by_score env.ops (rank_all env.ops bonus distance_to (spatial_rows expertise))

  -- `if rows is not None: … return ranked`, else the fallback.
  unfoldable pub nearest : Option String → List Ranked
  unfolding fallback spatial
  nearest expertise = if server.postgis then spatial expertise else fallback expertise

module _ (env : Env) (server : Server) (db : Db) (lat lon : Float) (limit : ℕ) where
  unfoldable pub nearest_mechanics : Option String → List Ranked
  unfolding nearest
  nearest_mechanics issue_tag =
      nearest env server (env.ops.lit 5 10) lat lon limit (mechanic_rows env db)
        (resolve_expertise issue_tag)

  unfoldable pub nearest_garages : Option String → List Ranked
  unfolding nearest
  nearest_garages issue_tag =
      nearest env server (env.ops.lit 3 10) lat lon limit (garage_rows env db)
        (resolve_expertise issue_tag)
