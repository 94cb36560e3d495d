-- ===== src/Matching/Found.antt =====
-- What nearest_mechanics and nearest_garages return, against a description of who may serve a job.
use clutch_d_backend.Base.{
  ℕ, String, ◌≡◌, ◌≤◌, refl, ap, ◌∙◌, subst, true, false, Option, none, some, List, arith, length,
  All, All-map, IsSorted,
}
use mathlib.Core.List.{Memᴰ}
use clutch_d_backend.Schema.{Db, Float, User, Mechanic, Garage}
use clutch_d_backend.Env.{Env}
use clutch_d_backend.Matching.Expertise.{resolve_expertise}
use clutch_d_backend.Matching.Rank.{Row, Ranked, ranks_before}
use clutch_d_backend.Matching.Nearest.{
  Server, mechanic_open, garage_open, mechanic_row, garage_row, mechanic_rows, garage_rows, has_tag,
  matches, user_by_id, active_owner, nearest_mechanics, nearest_garages,
}
use clutch_d_backend.Matching.Eligible.{
  Comes, nearest-All, length-nearest, nearest-IsSorted, All-map_row,
}

-- The account behind a provider exists and is active.
abbrev pub HasActiveOwner : ℕ → Db → Type 0
HasActiveOwner owner db = (u : User) × (user_by_id owner db ≡ some u) × (u.is_active ≡ true)

-- The provider lists the expertise that the job wants, if it wants one.
abbrev pub Lists : List String → Option String → Type 0
Lists tags none = Unit
Lists tags (some tag) = has_tag tag tags ≡ true

active_owner-some :
    (o : Option User) → active_owner o ≡ true → (u : User) × (o ≡ some u) × (u.is_active ≡ true)
active_owner-some none h = cc
active_owner-some (some u) h = (u, refl, h)

matches-Lists :
    (expertise : Option String) (row : Row)
    → matches expertise row ≡ true
    → Lists row.tags expertise
matches-Lists none row h = tt
matches-Lists (some tag) row h = h

module _ (env : Env) (db : Db) where
  pub record MayServe (m : Mechanic) : Type 0 where
    pub stored : Memᴰ m db.mechanics
    pub verified : env.settings.require_verified_providers ≡ true → m.verified ≡ true
    pub available : m.available ≡ true
    pub not_penalized : m.penalized ≡ false
    pub owner : HasActiveOwner m.user_id db

  pub record MayHost (g : Garage) : Type 0 where
    pub stored : Memᴰ g db.garages
    pub verified : env.settings.require_verified_providers ≡ true → g.verified ≡ true
    pub not_penalized : g.penalized ≡ false
    pub owner : HasActiveOwner g.user_id db

  mechanic_open-MayServe :
      (m : Mechanic) → Memᴰ m db.mechanics → mechanic_open env db m ≡ true → MayServe m
  mechanic_open-MayServe m stored h = record {
    stored = stored;
    verified = ground arith;
    available = ground arith;
    not_penalized = ground arith;
    owner = active_owner-some (user_by_id m.user_id db) (ground arith);
  }

  garage_open-MayHost : (g : Garage) → Memᴰ g db.garages → garage_open env db g ≡ true → MayHost g
  garage_open-MayHost g stored h = record {
    stored = stored;
    verified = ground arith;
    not_penalized = ground arith;
    owner = active_owner-some (user_by_id g.user_id db) (ground arith);
  }

  module _ (server : Server) (lat lon : Float) (limit : ℕ) (issue_tag : Option String) where
    abbrev pub MechanicFound : Ranked → Type 0
    MechanicFound r =
        (m : Mechanic) × MayServe m
        × Lists m.expertise (resolve_expertise issue_tag)
        × (r.id ≡ m.id)
        × (server.postgis ≡ true
            → server.st_dwithin m.lat m.lon lat lon env.settings.search_radius_m ≡ true)
        × (server.postgis ≡ false → env.ops.lt env.settings.search_radius_m r.distance_m ≡ false)

    abbrev pub GarageFound : Ranked → Type 0
    GarageFound r =
        (g : Garage) × MayHost g
        × Lists g.services (resolve_expertise issue_tag)
        × (r.id ≡ g.id)
        × (server.postgis ≡ true
            → server.st_dwithin g.lat g.lon lat lon env.settings.search_radius_m ≡ true)
        × (server.postgis ≡ false → env.ops.lt env.settings.search_radius_m r.distance_m ≡ false)

    abbrev OfMechanic : Row → Type 0
    OfMechanic row =
        (m : Mechanic) × Memᴰ m db.mechanics
        × (mechanic_open env db m ≡ true)
        × (row ≡ mechanic_row env db m)

    abbrev OfGarage : Row → Type 0
    OfGarage row =
        (g : Garage) × Memᴰ g db.garages
        × (garage_open env db g ≡ true)
        × (row ≡ garage_row env db g)

    mechanic_found :
        (r : Ranked)
        → Comes env server
            (env.ops.lit 5 10)
            lat
            lon
            limit
            (mechanic_rows env db)
            OfMechanic
            (resolve_expertise issue_tag)
            r
        → MechanicFound r
    unfolding mechanic_row
    mechanic_found r (row, (m, stored, open_m, e), tagged, same, on, off) = (
      m,
      mechanic_open-MayServe m stored open_m,
      subst (λ (row : Row). Lists row.tags (resolve_expertise issue_tag)) e
          (matches-Lists (resolve_expertise issue_tag) row tagged),
      same ∙ ap (λ (row : Row). row.id) e,
      subst
          (λ (row : Row).
            server.postgis ≡ true
            → server.st_dwithin row.lat row.lon lat lon env.settings.search_radius_m ≡ true)
          e on,
      off,
    )

    garage_found :
        (r : Ranked)
        → Comes env server
            (env.ops.lit 3 10)
            lat
            lon
            limit
            (garage_rows env db)
            OfGarage
            (resolve_expertise issue_tag)
            r
        → GarageFound r
    unfolding garage_row
    garage_found r (row, (g, stored, open_g, e), tagged, same, on, off) = (
      g,
      garage_open-MayHost g stored open_g,
      subst (λ (row : Row). Lists row.tags (resolve_expertise issue_tag)) e
          (matches-Lists (resolve_expertise issue_tag) row tagged),
      same ∙ ap (λ (row : Row). row.id) e,
      subst
          (λ (row : Row).
            server.postgis ≡ true
            → server.st_dwithin row.lat row.lon lat lon env.settings.search_radius_m ≡ true)
          e on,
      off,
    )

    pub nearest_mechanics-MayServe :
        All MechanicFound (nearest_mechanics env server db lat lon limit issue_tag)
        × (length (nearest_mechanics env server db lat lon limit issue_tag) ≤ limit)
    unfolding nearest_mechanics mechanic_rows
    nearest_mechanics-MayServe = (
      All-map mechanic_found (nearest_mechanics env server db lat lon limit issue_tag) (
          nearest-All env server (env.ops.lit 5 10) lat lon limit (mechanic_rows env db) OfMechanic
            (resolve_expertise issue_tag)
            (All-map_row (mechanic_row env db) (mechanic_open env db) db.mechanics db.mechanics
              (λ m h. h))),
      length-nearest env server (env.ops.lit 5 10) lat lon limit (mechanic_rows env db)
          (resolve_expertise issue_tag),
    )

    -- Each garage that the search returns is stored, verified where that is required, not penalized,
    -- with an active account, lists the service that the tag resolves to, and is within the search
    -- radius; there are at most `limit` of them.
    pub nearest_garages-MayHost :
        All GarageFound (nearest_garages env server db lat lon limit issue_tag)
        × (length (nearest_garages env server db lat lon limit issue_tag) ≤ limit)
    unfolding nearest_garages garage_rows
    nearest_garages-MayHost = (
      All-map garage_found (nearest_garages env server db lat lon limit issue_tag) (
          nearest-All env server (env.ops.lit 3 10) lat lon limit (garage_rows env db) OfGarage
            (resolve_expertise issue_tag)
            (All-map_row (garage_row env db) (garage_open env db) db.garages db.garages
              (λ g h. h))),
      length-nearest env server (env.ops.lit 3 10) lat lon limit (garage_rows env db)
          (resolve_expertise issue_tag),
    )

    -- Where `<` on floats is asymmetric, both searches return the best score first: no entry ranks
    -- before the one that precedes it.
    pub nearest-best_first :
        ((a b : Float) → env.ops.lt a b ≡ true → env.ops.lt b a ≡ false)
        → IsSorted (ranks_before env.ops) (nearest_mechanics env server db lat lon limit issue_tag)
          × IsSorted (ranks_before env.ops) (nearest_garages env server db lat lon limit issue_tag)
    unfolding nearest_mechanics nearest_garages
    nearest-best_first asymm = (
      nearest-IsSorted env server (env.ops.lit 5 10) lat lon limit (mechanic_rows env db)
          (resolve_expertise issue_tag) asymm,
      nearest-IsSorted env server (env.ops.lit 3 10) lat lon limit (garage_rows env db)
          (resolve_expertise issue_tag) asymm,
    )
