-- ===== src/Admin/Penalized.antt =====
-- What a penalty keeps a mechanic from.
use clutch_d_backend.Base.{
  if_elim, ==_refl, ℕ, String, ◌≡◌, ◌≢◌, refl, sym, ap, ◌∙◌, true, subst, Option, some, List, [],
  ◌∷◌, ◌==◌, arith, All, All-map, inl, inr,
}
use mathlib.Core.List.Memᴰ
use mathlib.Core.List.{Memᴰ}
use clutch_d_backend.Schema.{Role, Float, User, Mechanic, Job, Dispute}
use clutch_d_backend.Session.{World, Result, ok, in_session}
use clutch_d_backend.Env.{Env}
use clutch_d_backend.Tables.{job_by_id}
use clutch_d_backend.Matching.Rank.{Ranked}
use clutch_d_backend.Matching.Nearest.{Server, nearest_mechanics}
use clutch_d_backend.Matching.Found.{nearest_mechanics-MayServe}
use clutch_d_backend.Admin.Accounts.{set_mechanics}
use clutch_d_backend.Admin.Disputes.{dispute_by_id, mechanic_of, penalize_provider}

-- A row that a penalty has overwritten.
abbrev IsPenalized : ℕ → Mechanic → Type 0
IsPenalized k m = (m.id == k) ≡ true → m.penalized ≡ true

set_mechanics-penalized :
    (m : Mechanic) (rows : List Mechanic)
    → m.penalized ≡ true
    → All (IsPenalized m.id) (set_mechanics m rows)
set_mechanics-penalized m [] p = tt
set_mechanics-penalized m (x ∷ rows) p = (
  if_elim (IsPenalized m.id) (x.id == m.id) (λ hit same. p) (λ miss same. ground arith),
  set_mechanics-penalized m rows p,
)

All-Mem : {A : Type 0} (P : A → Type 0) (xs : List A) {a : A} → All P xs → Memᴰ a xs → P a
All-Mem P [] all h = absurd (Memᴰ.not-nil h)
All-Mem P (x ∷ xs) all h = elim (Memᴰ.cases_cons h) [
  | inl same ↦ subst P (sym same) all.0
  | inr later ↦ All-Mem P xs all.1 later
]

module _ (env : Env) (k amount : ℕ) (admin : User) (d : Dispute) (job : Job) (m : Mechanic)
    (w : World) where
  abbrev pub penalizing : Result (Unit {0}) × World
  penalizing = in_session (penalize_provider env k amount admin) w

  penalized_rows :
      admin.role ≡ Role.admin
      → dispute_by_id k w.db ≡ some d
      → job_by_id d.job_id w.db ≡ some job
      → mechanic_of job w.db ≡ some m
      → (penalizing.0 ≡ ok tt)
        × (penalizing.1.db.mechanics
            ≡ set_mechanics
                (record m { penalized = true; penalty_amount = some amount })
                w.db.mechanics)
  unfolding penalize_provider in_session
  penalized_rows is stored linked served = (ground arith, ground arith)

  -- An administrator who penalizes the provider of a dispute whose job has a stored mechanic succeeds, and
  -- then no search, for whatever job and with whatever settings, returns that mechanic.
  pub penalize_provider_lem :
      admin.role ≡ Role.admin
      → dispute_by_id k w.db ≡ some d
      → job_by_id d.job_id w.db ≡ some job
      → mechanic_of job w.db ≡ some m
      → (penalizing.0 ≡ ok tt)
        × ((settings : Env) (server : Server) (lat lon : Float) (limit : ℕ) (tag : Option String)
            → All
                (λ (r : Ranked). r.id ≢ m.id)
                (nearest_mechanics settings server penalizing.1.db lat lon limit tag))
  penalize_provider_lem is stored linked served =
      let (r, rows) = penalized_rows is stored linked served in
      let m' = record m { penalized = true; penalty_amount = some amount } in
      let all =
        subst (All (IsPenalized m.id)) (sym rows)
          (set_mechanics-penalized m' w.db.mechanics refl) in
      (
        r,
        λ settings server lat lon limit tag.
            All-map
              (λ r (m'', serves, lists, id, on, near) same.
                let fine = serves.not_penalized in
                let hit : (m''.id == m.id) ≡ true =
                  ap (λ j. j == m.id) (sym id ∙ same) ∙ ==_refl m.id in
                let out =
                  All-Mem (IsPenalized m.id) penalizing.1.db.mechanics all serves.stored hit in
                ground (arith, fine, out))
              (nearest_mechanics settings server penalizing.1.db lat lon limit tag)
              (nearest_mechanics-MayServe settings penalizing.1.db server lat lon limit tag).0,
      )
