-- ===== src/TripService/Alone.antt =====
-- Requests of internal/service/trip_service.go that nothing interleaves with: how an overdue
-- trip expires.
use ridematch.Prelude.{◌≡◌, refl, ap, ◌∙◌, ◌&&◌, Bool, true, false, some, []}
use ridematch.Ledger.Models.{RowId}
use ridematch.Trips.{Trip, TripStatus, find_trip, compare_and_swap_status, is_open}
use ridematch.Trips.Moves.{Move, set_expired, try_move, updates}
use ridematch.Trips.Lifecycle.{try_move-row}
use ridematch.Trips.Offers.{withdraw_all_pending, pending_driver_ids}
use ridematch.Trips.OfferLaws.{withdraw_all_pending-none}
use ridematch.TripService.{
  World, set_trips, set_offers, granted, look, Config, Env, is_overdue, not_trip_owner,
}
use ridematch.TripService.Offering.{expire_row, load_and_expire_if_due, get_trip, is_participant}
use ridematch.TripService.Chains.{
  IsAlone, bind-step, load-step, deny_unless-step, pause-step, swap_trips-step,
}

abbrev expired_world : RowId → World → World
expired_world id w =
    let v = set_trips (compare_and_swap_status id TripStatus.requested set_expired w.trips).1 w in
    set_offers (withdraw_all_pending id v.offers) v

expire_row-alone :
    (e : Env) (id : RowId) (w : World) (t : Trip)
    → IsAlone e
    → find_trip id w.trips ≡ some t
    → is_open t ≡ true
    → expire_row e id t w ≡ (granted (set_expired t), expired_world id w)
unfolding compare_and_swap_status
expire_row-alone e id w t alone row open_ =
    pause-step e 1 _ w alone
    ∙ swap_trips-step (compare_and_swap_status id TripStatus.requested set_expired) _ w true
        (rw row open_)
    ∙ pause-step e 2 _ _ alone
    ∙ bind-step _ _ tt _ (expired_world id w) refl

overdue-open : (a b : Bool) → (a && b) ≡ true → a ≡ true
overdue-open true b h = refl
overdue-open false b h = cc

load_and_expire-alone :
    (c : Config) (e : Env) (id : RowId) (w : World) (t : Trip)
    → IsAlone e
    → find_trip id w.trips ≡ some t
    → is_overdue c e.now t ≡ true
    → load_and_expire_if_due c e id w ≡ (granted (set_expired t), expired_world id w)
unfolding load_and_expire_if_due
load_and_expire-alone c e id w t alone row overdue =
    load-step _ _ _ w t row
    ∙ (rw overdue (expire_row-alone e id w t alone row (overdue-open (is_open t) _ overdue)))

expired_row :
    (id : RowId) (w : World) (t : Trip)
    → find_trip id w.trips ≡ some t
    → is_open t ≡ true
    → find_trip id (expired_world id w).trips ≡ some (set_expired t)
unfolding try_move updates
expired_row id w t row open_ = try_move-row id Move.expire w.trips t row open_

-- Where nothing interleaves, `GetTrip` by the passenger or the driver of a request that is
-- overdue returns the trip as expired, and afterwards its row is expired and no driver has a
-- pending offer on it.
pub get_trip-expires :
    (c : Config) (e : Env) (user id : RowId) (w : World) (t : Trip)
    → IsAlone e
    → find_trip id w.trips ≡ some t
    → is_overdue c e.now t ≡ true
    → is_participant user t w ≡ true
    → let r = get_trip c e user id w in
      (r.0 ≡ granted (set_expired t))
      × (find_trip id r.1.trips ≡ some (set_expired t))
      × (pending_driver_ids id r.1.offers ≡ [])
unfolding get_trip
get_trip-expires c e user id w t alone row overdue party =
    let v = expired_world id w in
    let ends : get_trip c e user id w ≡ (granted (set_expired t), v) =
      bind-step _ _ (set_expired t) w v (load_and_expire-alone c e id w t alone row overdue)
      ∙ bind-step (look (is_participant user (set_expired t))) _ true v v
          (ap (λ b. (granted b, v)) party)
      ∙ deny_unless-step true not_trip_owner _ v refl in
    rw ends (
      refl,
      expired_row id w t row (overdue-open (is_open t) _ overdue),
      withdraw_all_pending-none id w.offers,
    )
