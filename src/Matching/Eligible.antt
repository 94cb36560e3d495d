-- ===== src/Matching/Eligible.antt =====
-- Who is found by the provider search, how many, and in what order.
use clutch_d_backend.Base.{
  ℕ, String, ◌≡◌, ◌≤◌, refl, inl, inr, Bool, true, false, ◌&&◌, Option, none, some, List, [], ◌∷◌,
  map, arith, Bool-cases, if_elim, select, sort, length, All, All-map, All-take, All-sort,
  All-select_both, length-take, length-sort, sort-IsSorted, IsSorted-take, IsSorted, &&_left,
  &&_right,
}
use mathlib.Core.List.{Memᴰ}
use clutch_d_backend.Schema.{Float}
use clutch_d_backend.Env.{Env}
use clutch_d_backend.Matching.Rank.{
  Row, Ranked, by_score, rank_row, rank_within, rank_all, ranks_before,
}
use clutch_d_backend.Matching.Nearest.{
  Server, has_tag, matches, oldest, older, fallback_rows, haversine_to, distance_to, in_reach,
  spatial_rows, nearest, max_fallback_rows,
}

module _ (env : Env) (server : Server) (bonus lat lon : Float) (limit : ℕ) (rows : List Row)
    (P : Row → Type 0) where
  abbrev radius : Float
  radius = env.settings.search_radius_m

  -- A ranked row: the row that it comes from, which has the tag and is in reach.
  abbrev pub Comes : Option String → Ranked → Type 0
  Comes expertise r =
      (row : Row) × P row
      × (matches expertise row ≡ true)
      × (r.id ≡ row.id)
      × (server.postgis ≡ true → in_reach env server bonus lat lon limit rows row ≡ true)
      × (server.postgis ≡ false → env.ops.lt radius r.distance_m ≡ false)

  abbrev Tagged : Option String → Row → Type 0
  Tagged expertise row = P row × (matches expertise row ≡ true)

  oldest-All {κ} : (Q : Row → Type κ) (rs : List Row) → All Q rs → All Q (oldest rs)
  oldest-All Q rs h = All-take Q max_fallback_rows (sort older rs) (All-sort older Q rs h)

  fallback_rows-All :
      (expertise : Option String)
      → All P rows
      → All (Tagged expertise) (fallback_rows env server bonus lat lon limit rows expertise)
  unfolding fallback_rows
  fallback_rows-All none h = oldest-All (Tagged none) rows (All-map (λ row p. (p, refl)) rows h)
  fallback_rows-All (some tag) h = elim (Bool-cases server.arrays) [
    | inl overlap ↦ rw overlap (
        oldest-All (Tagged (some tag)) (select (λ r. has_tag tag r.tags) rows)
          (All-select_both P (λ r. has_tag tag r.tags) rows h))
    | inr scan ↦
        rw scan (All-select_both P (λ r. has_tag tag r.tags) (oldest rows) (oldest-All P rows h))
  ]

  rank_within-All :
      (expertise : Option String) (rs : List Row)
      → server.postgis ≡ false
      → All (Tagged expertise) rs
      → All
          (Comes expertise)
          (rank_within env.ops bonus (haversine_to env server bonus lat lon limit rows) radius rs)
  unfolding rank_within rank_row
  rank_within-All expertise [] off h = tt
  rank_within-All expertise (x ∷ rs) off h =
      elim (Bool-cases (env.ops.lt radius (haversine_to env server bonus lat lon limit rows x))) [
        | inl far ↦ rw far (rank_within-All expertise rs off h.1)
        | inr near ↦
            rw near (
              (x, h.0.0, h.0.1, refl, (λ on. cc), (λ _. near)),
              rank_within-All expertise rs off h.1,
            )
      ]

  rank_all-All :
      (expertise : Option String) (rs : List Row)
      → server.postgis ≡ true
      → All
          (λ row.
            P row
            × ((matches expertise row && in_reach env server bonus lat lon limit rows row) ≡ true))
          rs
      → All
          (Comes expertise)
          (rank_all env.ops bonus (distance_to env server bonus lat lon limit rows) rs)
  unfolding rank_all rank_row
  rank_all-All expertise [] on h = tt
  rank_all-All expertise (x ∷ rs) on h = (
    (x, h.0.0, &&_left _ _ h.0.1, refl, (λ _. &&_right _ _ h.0.1), (λ off. cc)),
    rank_all-All expertise rs on h.1,
  )

  pub nearest-All :
      (expertise : Option String)
      → All P rows
      → All (Comes expertise) (nearest env server bonus lat lon limit rows expertise)
  unfolding nearest by_score
  nearest-All expertise h =
      if_elim (All (Comes expertise)) server.postgis
        (λ on. All-sort (ranks_before env.ops) (Comes expertise) _ (
          rank_all-All expertise (spatial_rows env server bonus lat lon limit rows expertise) on
            (All-take _ limit _ (All-sort _ _ _ (All-select_both P _ rows h)))))
        (λ off. All-take (Comes expertise) limit _ (
          All-sort (ranks_before env.ops) (Comes expertise) _ (
            rank_within-All expertise (fallback_rows env server bonus lat lon limit rows expertise)
              off (fallback_rows-All expertise h))))

module _ (env : Env) (server : Server) (bonus lat lon : Float) (limit : ℕ) (rows : List Row) where
  length-rank_all :
      (distance : Row → Float) (rs : List Row)
      → length (rank_all env.ops bonus distance rs) ≡ length rs
  unfolding rank_all
  length-rank_all distance [] = refl
  length-rank_all distance (x ∷ rs) = omega (arith, length-rank_all distance rs)

  pub length-nearest :
      (expertise : Option String)
      → length (nearest env server bonus lat lon limit rows expertise) ≤ limit
  unfolding nearest by_score
  length-nearest expertise =
      if_elim (λ (rs : List Ranked). length rs ≤ limit) server.postgis
        (λ on.
          rw
            (
              length-sort (ranks_before env.ops) _,
              length-rank_all (distance_to env server bonus lat lon limit rows) _,
            )
            (length-take limit _))
        (λ off. length-take limit _)

  pub nearest-IsSorted :
      (expertise : Option String)
      → ((a b : Float) → env.ops.lt a b ≡ true → env.ops.lt b a ≡ false)
      → IsSorted (ranks_before env.ops) (nearest env server bonus lat lon limit rows expertise)
  unfolding nearest by_score
  nearest-IsSorted expertise asymm =
      let sorted =
        sort-IsSorted (ranks_before env.ops)
          (λ a b. asymm (env.ops.neg a.score) (env.ops.neg b.score)) in
      if_elim (IsSorted (ranks_before env.ops)) server.postgis (λ on. sorted _)
        (λ off. IsSorted-take (ranks_before env.ops) limit _ (sorted _))

pub All-map_row {ℓ κ} :
    {A : Type ℓ} {B : Type κ} (f : A → B) (p : A → Bool) (all xs : List A)
    → ((a : A) → Memᴰ a xs → Memᴰ a all)
    → All (λ b. (a : A) × Memᴰ a all × (p a ≡ true) × (b ≡ f a)) (map f (select p xs))
All-map_row f p all [] inside = tt
All-map_row f p all (x ∷ xs) inside =
    let rest = All-map_row f p all xs (λ a m. inside a (Memᴰ.tail m)) in
    elim (Bool-cases (p x)) [
      | inl hit ↦ rw hit ((x, inside x (Memᴰ.head refl), hit, refl), rest)
      | inr miss ↦ rw miss rest
    ]
