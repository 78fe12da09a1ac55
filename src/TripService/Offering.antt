-- ===== src/TripService/Offering.antt =====
-- Requests before a match, in internal/service/trip_service.go: `CreateTrip`, `GetTrip`,
-- `MyActiveTrip`, `MyActiveTripAsDriver`, `MakeOffer`, `ListOffers` and `RejectOffer`, with the
-- checks that they share.
use ridematch.Prelude.{
  ℕ, Bool, not, Option, none, some, String, List, ◌∷◌, ◌||◌, ◌==◌, if◌then◌else◌,
}
use ridematch.Prelude.Int.{ℤ}
use ridematch.Prelude.Table.{find_by, save}
use ridematch.Ledger.Models.{RowId}
use ridematch.Ledger.Store.{Draw}
use ridematch.EscrowService.{ensure_can_afford}
use ridematch.Ledger.Post.{is_some}
use ridematch.Trips.{
  TripStatus, VehicleType, vehicle_code, Trip, is_open, find_trip, compare_and_swap_status,
  find_active_by_passenger, find_active_by_driver,
}
use ridematch.Trips.Moves.{set_expired}
use ridematch.Trips.Offers.{
  TripOffer, OfferStatus, find_pending_by_trip_and_driver, find_pending_by_trip,
  withdraw_all_pending, swap_offer_status,
}
use ridematch.TripService.{
  World, set_trips, set_offers, DriverProfile, is_approved, has_active_subscription, Session, grant,
  deny, deny_if, ◌>>=◌, ◌>>◌, load, look, change, swap_trips, swap_offers, pay, Config, Env, pause,
  find_driver_by_user, load_trip, driver_of, is_user, is_overdue, trip_not_found, not_trip_owner,
  trip_already_active, trip_not_open, offer_not_found, offer_not_pending, subscription_inactive,
  driver_profile_not_found, driver_not_approved, not_online, repository_failed,
}

-- `loadAndExpireIfDue`: the trip as it was read, or with the status that was then written.
abbrev pub expire_row : Env → RowId → Trip → Session Trip
expire_row e id t = do
  pause e 1
  expired ← swap_trips (compare_and_swap_status id TripStatus.requested set_expired)
  (if expired
      then (do
        pause e 2
        change (λ w. set_offers (withdraw_all_pending id w.offers) w)
        grant (set_expired t))
      else grant t)

unfoldable pub load_and_expire_if_due : Config → Env → RowId → Session Trip
load_and_expire_if_due c e id = do
  t ← load_trip id
  (if is_overdue c e.now t then expire_row e id t else grant t)

-- `requireActiveDriver`
unfoldable pub require_active_driver : Env → RowId → Session DriverProfile
require_active_driver e user = do
  p ← load (find_driver_by_user user) driver_profile_not_found
  deny_if (not (is_approved p)) driver_not_approved
  deny_if (not (has_active_subscription e.now p)) subscription_inactive
  deny_if (not p.is_online) not_online
  grant p

-- `assertParticipant`
abbrev pub is_participant : RowId → Trip → World → Bool
is_participant user t w = (t.passenger_id == user) || is_user user (driver_of t w)

-- The fields of `dto.CreateTripRequest`.
pub record CreateTripRequest : Type 0 where
  pub vehicle_type : VehicleType
  pub pickup_lat : ℕ
  pub pickup_lng : ℕ
  pub pickup_address : String
  pub destination_lat : ℕ
  pub destination_lng : ℕ
  pub destination_address : String
  pub offered_price_kobo : ℤ

abbrev pub new_trip : Draw → RowId → CreateTripRequest → Trip
new_trip d user r = record {
  id = d.row_uuid;
  created_at = d.now;
  passenger_id = user;
  vehicle_type = r.vehicle_type;
  status = TripStatus.requested;
  pickup_lat = r.pickup_lat;
  pickup_lng = r.pickup_lng;
  pickup_address = r.pickup_address;
  destination_lat = r.destination_lat;
  destination_lng = r.destination_lng;
  destination_address = r.destination_address;
  offered_price_kobo = r.offered_price_kobo;
  agreed_price_kobo = none;
  driver_id = none;
  pickup_pin_hash = "";
  matched_at = none;
  pickup_confirmed_at = none;
  completed_at = none;
  cancelled_at = none;
  cancelled_by = none;
  cancel_reason = "";
}

-- `tx.Create`: the primary key refuses an id that is there.
abbrev pub insert_trip : Trip → Session (Unit {0})
insert_trip t = do
  taken ← look (λ w. is_some (find_trip t.id w.trips))
  (if taken then deny repository_failed else change (λ w. set_trips (t ∷ w.trips) w))

-- `CreateTrip`
unfoldable pub create_trip : Config → Env → RowId → CreateTripRequest → Session Trip
create_trip c e user r = do
  active ← look (λ w. is_some (find_active_by_passenger user w.trips))
  deny_if active trip_already_active
  pause e 0
  pay (ensure_can_afford c.escrow_required (e.draws 0) user r.offered_price_kobo)
  pause e 1
  insert_trip (new_trip (e.draws 1) user r)
  grant (new_trip (e.draws 1) user r)

-- `GetTrip`
unfoldable pub get_trip : Config → Env → RowId → RowId → Session Trip
get_trip c e user id = do
  t ← load_and_expire_if_due c e id
  party ← look (is_participant user t)
  deny_if (not party) not_trip_owner
  grant t

-- `MyActiveTrip`
unfoldable pub my_active_trip : RowId → Session Trip
my_active_trip user = load (λ w. find_active_by_passenger user w.trips) trip_not_found

-- `MyActiveTripAsDriver`
unfoldable pub my_active_trip_as_driver : Env → RowId → Session Trip
my_active_trip_as_driver e user = do
  p ← load (find_driver_by_user user) driver_profile_not_found
  pause e 0
  load (λ w. find_active_by_driver p.id w.trips) trip_not_found

abbrev pub new_offer : Draw → RowId → DriverProfile → ℤ → TripOffer
new_offer d trip p price = record {
  id = d.row_uuid;
  created_at = d.now;
  trip_id = trip;
  driver_id = p.id;
  price_kobo = price;
  status = OfferStatus.pending;
}

abbrev pub insert_offer : TripOffer → Session (Unit {0})
insert_offer o = do
  taken ← look (λ w. is_some (find_by TripOffer.id o.id w.offers))
  (if taken then deny repository_failed else change (λ w. set_offers (o ∷ w.offers) w))

-- The `switch` of `MakeOffer`. `Update` saves every column as it was read.
abbrev pub offer_over : Env → RowId → DriverProfile → ℤ → Option TripOffer → Session TripOffer
offer_over e trip p price (some old) = do
  pause e 4
  change (λ w. set_offers (save TripOffer.id (record old { price_kobo = price }) w.offers) w)
  grant (record old { price_kobo = price })
offer_over e trip p price none = do
  pause e 4
  insert_offer (new_offer (e.draws 0) trip p price)
  grant (new_offer (e.draws 0) trip p price)

-- `MakeOffer`
unfoldable pub make_offer : Config → Env → RowId → RowId → ℤ → Session TripOffer
make_offer c e user id price = do
  p ← require_active_driver e user
  pause e 0
  t ← load_and_expire_if_due c e id
  deny_if (not (is_open t)) trip_not_open
  deny_if (not (vehicle_code t.vehicle_type == vehicle_code p.vehicle_type)) trip_not_open
  pause e 3
  old ← look (λ w. find_pending_by_trip_and_driver id p.id w.offers)
  offer_over e id p price old

-- `ListOffers`
unfoldable pub list_offers : Env → RowId → RowId → Session (List TripOffer)
list_offers e user id = do
  t ← load_trip id
  deny_if (not (t.passenger_id == user)) not_trip_owner
  pause e 0
  look (λ w. find_pending_by_trip id w.offers)

-- `RejectOffer`
unfoldable pub reject_offer : Env → RowId → RowId → RowId → Session (Unit {0})
reject_offer e user id offer_id = do
  t ← load_trip id
  deny_if (not (t.passenger_id == user)) not_trip_owner
  pause e 0
  o ← load (λ w. find_by TripOffer.id offer_id w.offers) offer_not_found
  deny_if (not (o.trip_id == id)) offer_not_found
  pause e 1
  rejected ← swap_offers (swap_offer_status o.id OfferStatus.pending OfferStatus.rejected)
  deny_if (not rejected) offer_not_pending
