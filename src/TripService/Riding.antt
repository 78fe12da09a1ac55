-- ===== src/TripService/Riding.antt =====
-- `ConfirmPickup`, `CompleteTrip` and `CancelTrip` of internal/service/trip_service.go.
use ridematch.Prelude.{Bool, false, not, Option, none, some, String, ◌||◌, ◌==◌, if◌then◌else◌}
use ridematch.Prelude.Table.{find_by}
use ridematch.Ledger.Models.{RowId}
use ridematch.EscrowService.{refund, on_trip_completed}
use ridematch.Trips.{TripStatus, CancelledBy, Trip, same_status, drives, compare_and_swap_status}
use ridematch.Trips.Moves.{set_picked_up, set_completed, set_cancelled}
use ridematch.Trips.Offers.{withdraw_all_pending}
use ridematch.TripService.{
  set_offers, DriverProfile, Session, grant, deny_if, ◌>>=◌, ◌>>◌, load, look, change, swap_trips,
  pay, Config, Env, pause, find_driver_by_user, load_trip, driver_of, is_user, not_trip_owner,
  not_matched_driver, trip_not_matched, invalid_pickup_pin, trip_not_picked_up, trip_not_cancelable,
  driver_profile_not_found, repository_failed,
}

abbrev pub reload_trip : RowId → Session Trip
reload_trip id = load (λ w. find_by Trip.id id w.trips) repository_failed

-- The trip of a request by its matched driver.
abbrev pub load_driven : Env → RowId → RowId → Session Trip
load_driven e user id = do
  p ← load (find_driver_by_user user) driver_profile_not_found
  pause e 0
  t ← load_trip id
  deny_if (not (drives p.id t)) not_matched_driver
  grant t

-- `bcrypt.CompareHashAndPassword(hash, code) == nil` is `matches`.
module _ (matches : String → String → Bool) where
  -- `CompareOTP`
  abbrev pub compare_otp : String → String → Bool
  compare_otp hash code = matches hash code

  -- `ConfirmPickup`
  unfoldable pub confirm_pickup : Env → RowId → RowId → String → Session Trip
  confirm_pickup e user id pin = do
    t ← load_driven e user id
    deny_if (not (same_status t.status TripStatus.matched)) trip_not_matched
    deny_if (not (compare_otp t.pickup_pin_hash pin)) invalid_pickup_pin
    pause e 1
    confirmed ← swap_trips (compare_and_swap_status id TripStatus.matched (set_picked_up e.now))
    deny_if (not confirmed) trip_not_matched
    pause e 2
    reload_trip id

-- `CompleteTrip`
unfoldable pub complete_trip : Config → Env → RowId → RowId → Session Trip
complete_trip c e user id = do
  t ← load_driven e user id
  deny_if (not (same_status t.status TripStatus.picked_up)) trip_not_picked_up
  pause e 1
  completed ← swap_trips (compare_and_swap_status id TripStatus.picked_up (set_completed e.now))
  deny_if (not completed) trip_not_picked_up
  pause e 2
  out ← reload_trip id
  pause e 3
  pay (on_trip_completed c.escrow_required c.auto_release (e.draws 0) out.id)
  grant out

-- Who cancels: the passenger, the driver that was loaded with the trip, or the driver whose profile
-- is looked up now.
abbrev drives_as : Trip → Option DriverProfile → Bool
drives_as t none = false
drives_as t (some p) = drives p.id t

abbrev pub found_driver : Trip → Option DriverProfile → Option CancelledBy
found_driver t p = if drives_as t p then some CancelledBy.driver else none

abbrev pub canceller : Env → RowId → Trip → Option DriverProfile → Session CancelledBy
canceller e user t loaded =
    if t.passenger_id == user
    then grant CancelledBy.passenger
    else if is_user user loaded
    then grant CancelledBy.driver
    else pause e 3 >> load (λ w. found_driver t (find_driver_by_user user w)) not_trip_owner

abbrev pub is_cancelable : TripStatus → Bool
is_cancelable s = same_status s TripStatus.requested || same_status s TripStatus.matched

-- What follows the update: `trip.Status` is the status that was read before it.
unfoldable pub settle_cancelled : Env → RowId → TripStatus → Session (Unit {0})
settle_cancelled e id TripStatus.matched = pay (refund (e.draws 0) id "trip cancelled")
settle_cancelled e id TripStatus.requested =
    change (λ w. set_offers (withdraw_all_pending id w.offers) w)
settle_cancelled e id _ = grant tt

unfoldable pub cancel_as : Env → RowId → String → Trip → CancelledBy → Session Trip
cancel_as e id reason t by = do
  deny_if (not (is_cancelable t.status)) trip_not_cancelable
  pause e 0
  cancelled ← swap_trips (compare_and_swap_status id t.status (set_cancelled e.now by reason))
  deny_if (not cancelled) trip_not_cancelable
  pause e 1
  settle_cancelled e id t.status
  pause e 2
  reload_trip id

-- `CancelTrip`
unfoldable pub cancel_trip : Env → RowId → RowId → String → Session Trip
cancel_trip e user id reason = do
  t ← load_trip id
  driver ← look (driver_of t)
  by ← canceller e user t driver
  cancel_as e id reason t by
