-- ===== src/TripService/Guards.antt =====
-- What must have held for a request of internal/service/trip_service.go to be granted: `ConfirmPickup`
-- and `AcceptOffer`.
use ridematch.Prelude.{◌≡◌, refl, Bool, true, false, Option, none, some, String, ◌==◌}
use ridematch.Prelude.Table.{find_by}
use ridematch.Ledger.Models.{RowId}
use ridematch.Trips.{
  Trip, TripStatus, same_status, drives, find_trip, is_open, find_active_by_driver,
}
use ridematch.Trips.Offers.{TripOffer, OfferStatus, same_offer_status}
use ridematch.TripService.{
  World, DriverProfile, granted, Config, Env, find_driver, find_driver_by_user,
}
use ridematch.TripService.Matching.{accept_offer, is_eligible}
use ridematch.TripService.Riding.{confirm_pickup}
use ridematch.TripService.Chains.{
  bind-granted, load-granted, deny_unless-granted, deny_if-granted, change-granted, look-granted,
}
use ridematch.Ledger.Post.{is_some}

not_some : {A : Type 0} (o : Option A) → is_some o ≡ false → o ≡ none
not_some none h = refl
not_some (some a) h = cc

granted_inj : {A : Type 0} (a b : A) → granted a ≡ granted b → a ≡ b
granted_inj a b h = cc

-- Where `ConfirmPickup` is granted, its caller has the profile of the trip's driver, and the
-- trip, as it was read, was matched and had the hash of the PIN that was given, whatever the
-- other requests do at the pauses.
pub confirm_pickup-granted :
    (matches : String → String → Bool) (e : Env) (user id : RowId) (pin : String) (w : World)
    (out : Trip)
    → (confirm_pickup matches e user id pin w).0 ≡ granted out
    → (p : DriverProfile) × (t : Trip) × (find_driver_by_user user w ≡ some p)
      × (find_trip id (e.others 0 w).trips ≡ some t)
      × (drives p.id t ≡ true)
      × (same_status t.status TripStatus.matched ≡ true)
      × (matches t.pickup_pin_hash pin ≡ true)
unfolding confirm_pickup
confirm_pickup-granted matches e user id pin w out h =
    let (t, driven, k) = bind-granted _ _ w out h in
    let (p, profile, k1) = load-granted _ _ _ w t driven in
    let k2 = change-granted _ _ w t k1 in
    let (t', row, k3) = load-granted _ _ _ (e.others 0 w) t k2 in
    let (drives_it, k4) = deny_unless-granted _ _ _ (e.others 0 w) t k3 in
    let (is_matched, k5) = deny_unless-granted _ _ _ _ out k in
    let (good, k6) = deny_unless-granted _ _ _ _ out k5 in
    let same : t' ≡ t = granted_inj t' t k4 in
    (p, t, profile, rw same at row, rw same at drives_it, is_matched, good)

-- Where `AcceptOffer` is granted, its caller is the passenger of the trip, which was open as it
-- was read; the offer, as it was read, is on this trip and was pending; its driver was approved,
-- had a subscription that runs on and had no trip underway. All of this whatever the other
-- requests do at the pauses.
pub accept_offer-granted :
    (c : Config) (e : Env) (user id offer : RowId) (w : World) (out : Trip) (code : String)
    → (accept_offer c e user id offer w).0 ≡ granted (out, code)
    → let w0 = e.others 0 w in
      (t : Trip) × (o : TripOffer) × (p : DriverProfile) × (find_trip id w.trips ≡ some t)
      × ((t.passenger_id == user) ≡ true)
      × (is_open t ≡ true)
      × (find_by TripOffer.id offer w0.offers ≡ some o)
      × ((o.trip_id == id) ≡ true)
      × (same_offer_status o.status OfferStatus.pending ≡ true)
      × (find_driver o.driver_id w0 ≡ some p)
      × (is_eligible e p ≡ true)
      × (find_active_by_driver p.id (e.others 1 w0).trips ≡ none)
unfolding accept_offer
accept_offer-granted c e user id offer w out code h =
    let w0 = e.others 0 w in
    let (t, row, k) = load-granted _ _ _ w (out, code) h in
    let (owner, k1) = deny_unless-granted _ _ _ w (out, code) k in
    let (open_, k2) = deny_unless-granted _ _ _ w (out, code) k1 in
    let k3 = change-granted _ _ w (out, code) k2 in
    let (o, offer_row, k4) = load-granted _ _ _ w0 (out, code) k3 in
    let (of_trip, k5) = deny_unless-granted _ _ _ w0 (out, code) k4 in
    let (open_offer, k6) = deny_unless-granted _ _ _ w0 (out, code) k5 in
    let (p, profile, k7) = load-granted _ _ _ w0 (out, code) k6 in
    let (eligible, k8) = deny_unless-granted _ _ _ w0 (out, code) k7 in
    let k9 = change-granted _ _ w0 (out, code) k8 in
    let k10 = look-granted _ _ (e.others 1 w0) (out, code) k9 in
    let (free, k11) = deny_if-granted _ _ _ (e.others 1 w0) (out, code) k10 in
    (
      t,
      o,
      p,
      row,
      owner,
      open_,
      offer_row,
      of_trip,
      open_offer,
      profile,
      eligible,
      not_some (find_active_by_driver p.id (e.others 1 w0).trips) free,
    )
