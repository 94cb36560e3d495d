-- ===== src/Desk/Registered.antt =====
-- register_fleet of backend/app/api/v1/fleet.py, sent twice.
use clutch_d_backend.Base.{
  ℕ, ◌≡◌, ap, ◌∙◌, true, false, List, [], ◌∷◌, ◌++◌, str_eq_refl, arith, select, select-added,
}
use clutch_d_backend.Schema.{Fleet}
use clutch_d_backend.Session.{World, Result, ok, err, http, in_session}
use clutch_d_backend.Auth.Login.{user_by_email}
use clutch_d_backend.Desk.Fleets.{
  FleetTexts, FleetRegisterBody, gstin_of, is_bad_gstin, is_registered, new_fleet, register_fleet,
}

module _ (texts : FleetTexts) (body : FleetRegisterBody) where
  abbrev pub registering : World → Result Fleet × World
  registering = in_session (register_fleet texts body)

  abbrev pub registered : World → List Fleet
  registered w = select (is_registered texts body) w.db.fleets

  module _ (good : is_bad_gstin texts (gstin_of texts body.gstin) ≡ false) (w : World) where
    again : {f : Fleet} → registered w ≡ f ∷ [] → registering w ≡ (err (http 409), w)
    unfolding register_fleet in_session
    again one = ground arith

    first :
        registered w ≡ []
        → let f =
            new_fleet texts w.next_id body (user_by_email (texts.lower body.contact_email) w.db) in
          ((registering w).0 ≡ ok f) × ((registering w).1.db.fleets ≡ w.db.fleets ++ f ∷ [])
    unfolding register_fleet in_session
    first nobody = (ground arith, ground arith)

  is_registered-new :
      (k : ℕ) (owner : _) → is_registered texts body (new_fleet texts k body owner) ≡ true
  unfolding new_fleet
  is_registered-new k owner = ground (
    arith,
    str_eq_refl (texts.lower body.contact_email),
    str_eq_refl (texts.strip body.company_name),
  )

  -- A registration with a valid GSTIN, or none, of a company that is not registered under its email
  -- succeeds; the fleet belongs to the user with that email, if there is one. The same form gets a 409
  -- from then on, and changes nothing.
  pub register_fleet_lem :
      (w : World)
      → is_bad_gstin texts (gstin_of texts body.gstin) ≡ false
      → registered w ≡ []
      → let f =
          new_fleet texts w.next_id body (user_by_email (texts.lower body.contact_email) w.db) in
        let after = (registering w).1 in
        ((registering w).0 ≡ ok f)
        × (after.db.fleets ≡ w.db.fleets ++ f ∷ [])
        × (registering after ≡ (err (http 409), after))
  register_fleet_lem w good nobody =
      let (done, added) = first good w nobody in
      let owner = user_by_email (texts.lower body.contact_email) w.db in
      let one : registered (registering w).1 ≡ new_fleet texts w.next_id body owner ∷ [] =
        ap (select (is_registered texts body)) added
        ∙ select-added (is_registered texts body) w.db.fleets (new_fleet texts w.next_id body owner)
            nobody (is_registered-new w.next_id owner) in
      (done, added, again good (registering w).1 one)
