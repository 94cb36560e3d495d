-- ===== src/Matching/Rank.antt =====
-- Scoring and ranking of backend/app/services/matching.py, for mechanics and garages alike.
use clutch_d_backend.Base.{ℕ, String, Bool, List, [], ◌∷◌, if◌then◌else◌, sort}
use clutch_d_backend.Schema.{Float, FloatOps}

-- A row of the query: the columns that the ranking reads, and those that the query sorts by.
pub record Row : Type 0 where
  pub id : ℕ
  pub name : String
  pub lat : Float
  pub lon : Float
  pub rating : Float
  pub tags : List String
  pub owner : ℕ
  pub owner_since : ℕ

-- RankedMechanic and RankedGarage; `tags` is the expertise or the services.
pub record Ranked : Type 0 where
  pub id : ℕ
  pub name : String
  pub lat : Float
  pub lon : Float
  pub rating : Float
  pub distance_m : Float
  pub score : Float
  pub tags : List String

module _ (ops : FloatOps) where
  open ops use {lit, add, neg, sub, mul, div, lt, is_zero}

  abbrev or_else : Float → Float → Float
  or_else x default = if is_zero x then default else x

  -- `_score`; `max(a, b)` keeps `a` unless `b` is greater
  unfoldable pub score_of : Float → Float → Float → Float
  score_of distance_m rating availability_bonus =
      let km = div distance_m (lit 1000 1) in
      let dist_km = if lt km (lit 5 100) then lit 5 100 else km in
      add (sub (mul (or_else rating (lit 3 1)) (lit 2 1)) (mul dist_km (lit 8 10)))
        availability_bonus

  -- One row at a distance, with the bonus of its kind.
  unfoldable pub rank_row : Float → Row → Float → Ranked
  rank_row bonus row dist_m =
      let rating = or_else row.rating (lit 0 1) in
      record {
        id = row.id;
        name = row.name;
        lat = row.lat;
        lon = row.lon;
        rating = rating;
        distance_m = dist_m;
        score = score_of dist_m rating bonus;
        tags = row.tags;
      }

  -- `ranked.sort(key=lambda x: -x.score)`
  abbrev pub ranks_before : Ranked → Ranked → Bool
  ranks_before a b = lt (neg a.score) (neg b.score)

  unfoldable pub by_score : List Ranked → List Ranked
  by_score = sort ranks_before

  -- The loop of the fallback: rows beyond the radius are skipped.
  unfoldable pub rank_within : Float → (Row → Float) → Float → List Row → List Ranked
  rank_within bonus distance radius [] = []
  rank_within bonus distance radius (row ∷ rows) =
      if lt radius (distance row)
      then rank_within bonus distance radius rows
      else rank_row bonus row (distance row) ∷ rank_within bonus distance radius rows

  -- The loop over the rows of the spatial query.
  unfoldable pub rank_all : Float → (Row → Float) → List Row → List Ranked
  rank_all bonus distance [] = []
  rank_all bonus distance (row ∷ rows) =
      rank_row bonus row (distance row) ∷ rank_all bonus distance rows
