-- ===== src/TripService/Matching.antt =====
-- `AcceptOffer` of internal/service/trip_service.go.
use ridematch.Prelude.{Bool, not, Option, none, some, String, ◌&&◌, ◌==◌, if◌then◌else◌}
use ridematch.Prelude.Table.{find_by}
use ridematch.Ledger.Models.{RowId}
use ridematch.Ledger.Post.{is_some}
use ridematch.EscrowService.{hold, refund}
use ridematch.Trips.{TripStatus, Trip, is_open, compare_and_swap_status, find_active_by_driver}
use ridematch.Trips.Moves.{set_matched}
use ridematch.Trips.Offers.{
  TripOffer, OfferStatus, same_offer_status, supersede_other_pending, swap_offer_status,
}
use ridematch.TripService.{
  set_offers, DriverProfile, is_approved, has_active_subscription, TripRefusal, Session, grant,
  deny, deny_if, ◌>>=◌, ◌>>◌, load, look, change, swap_trips, swap_offers, pay, Config, Env, pause,
  find_driver, load_trip, not_trip_owner, trip_already_active, trip_not_open, offer_not_found,
  offer_not_pending, subscription_inactive, pin_not_generated, repository_failed,
}

-- `undoHold`: only the call that took the money gives it back.
unfoldable pub undo_hold : Env → Bool → RowId → Session (Unit {0})
undo_hold e taken id =
    if taken then pause e 8 >> pay (refund (e.draws 1) id "match did not complete") else grant tt

-- The way out after the offer has been claimed.
unfoldable pub roll_back : Env → Bool → RowId → RowId → TripRefusal → Session Trip
roll_back e taken id offer_id why = do
  undo_hold e taken id
  pause e 5
  swap_offers (swap_offer_status offer_id OfferStatus.accepted OfferStatus.pending)
  deny why

-- After the trip is matched.
abbrev pub finish_match : Env → RowId → RowId → Session Trip
finish_match e id offer_id = do
  pause e 6
  change (λ w. set_offers (supersede_other_pending id offer_id w.offers) w)
  pause e 7
  load (λ w. find_by Trip.id id w.trips) repository_failed

-- From the PIN on.
unfoldable pub match_trip :
    Env
    → Bool
    → RowId
    → TripOffer
    → DriverProfile
    → Option (String × String)
    → Session (Trip × String)
match_trip e taken id o p none = roll_back e taken id o.id pin_not_generated >>= λ t. grant (t, "")
match_trip e taken id o p (some (pin, hash)) = do
  pause e 4
  matched ←
      swap_trips
        (compare_and_swap_status id TripStatus.requested (set_matched p.id o.price_kobo hash e.now))
  t ← (if matched then finish_match e id o.id else roll_back e taken id o.id trip_not_open)
  grant (t, pin)

-- From the claim of the offer on.
unfoldable pub claim_offer :
    Env → RowId → TripOffer → DriverProfile → Bool → Session (Trip × String)
claim_offer e id o p taken = do
  pause e 3
  claimed ← swap_offers (swap_offer_status o.id OfferStatus.pending OfferStatus.accepted)
  (if claimed
      then match_trip e taken id o p e.pin
      else (undo_hold e taken id >> deny offer_not_pending))

abbrev pub is_eligible : Env → DriverProfile → Bool
is_eligible e p = is_approved p && has_active_subscription e.now p

-- From the fare on.
abbrev pub take_fare_and_claim :
    Config → Env → RowId → Trip → TripOffer → DriverProfile → Session (Trip × String)
take_fare_and_claim c e id t o p = do
  pause e 2
  taken ← pay (hold c.escrow_required (e.draws 0) t p.user_id p.id o.price_kobo)
  claim_offer e id o p taken

-- `AcceptOffer`: the matched trip and the pickup PIN.
unfoldable pub accept_offer : Config → Env → RowId → RowId → RowId → Session (Trip × String)
accept_offer c e user id offer_id = do
  t ← load_trip id
  deny_if (not (t.passenger_id == user)) not_trip_owner
  deny_if (not (is_open t)) trip_not_open
  pause e 0
  o ← load (λ w. find_by TripOffer.id offer_id w.offers) offer_not_found
  deny_if (not (o.trip_id == id)) offer_not_found
  deny_if (not (same_offer_status o.status OfferStatus.pending)) offer_not_pending
  p ← load (find_driver o.driver_id) repository_failed
  deny_if (not (is_eligible e p)) subscription_inactive
  pause e 1
  busy ← look (λ w. is_some (find_active_by_driver p.id w.trips))
  deny_if busy trip_already_active
  take_fare_and_claim c e id t o p
